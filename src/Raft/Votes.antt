-- ===== src/Raft/Votes.antt =====
-- Counting the votes that the nodes of Raft/raft.go have given.
use alg_bc_db.Prelude.{
  ℕ, zero, suc, ◌+◌, ◌≤◌, ◌<◌, ◌≡◌, ◌≢◌, refl, ap, inl, inr, Option, none, some, arith, ◌==◌,
  if◌then◌else◌, Bool-cases,
}
use alg_bc_db.Raft.Election.{put}

-- The number of the nodes below `n` whose vote went to `c`.
abbrev pub weight : Option ℕ → ℕ → ℕ
weight none c = 0
weight (some d) c = if d == c then 1 else 0

unfoldable pub gives : ℕ → (ℕ → Option ℕ) → ℕ → ℕ
gives zero gave c = 0
gives (suc n) gave c = gives n gave c + weight (gave n) c

pub gives-put_above :
    (n v : ℕ) (gave : ℕ → Option ℕ) (x : Option ℕ) (c : ℕ)
    → n ≤ v
    → gives n (put gave v x) c ≡ gives n gave c
unfolding gives
gives-put_above zero v gave x c le = refl
gives-put_above (suc n) v gave x c le = ground (arith, gives-put_above n v gave x c (omega arith))

pub gives-put :
    (n v : ℕ) (gave : ℕ → Option ℕ) (x : Option ℕ) (c : ℕ)
    → v < n
    → gives n (put gave v x) c + weight (gave v) c ≡ gives n gave c + weight x c
unfolding gives
gives-put zero v gave x c lt = absurd (omega arith)
gives-put (suc n) v gave x c lt = elim (Bool-cases (n == v)) [
  | inl e ↦
      let n≡v : n ≡ v = ground arith in
      let below = gives-put_above n v gave x c (omega arith) in
      rw e (
        let same : weight (gave n) c ≡ weight (gave v) c = ap (λ u. weight (gave u) c) n≡v in
        omega arith)
  | inr e ↦ rw e (let below = gives-put n v gave x c (ground arith) in omega arith)
]

pub weight-disjoint : (o : Option ℕ) (c d : ℕ) → c ≢ d → weight o c + weight o d ≤ 1
weight-disjoint none c d ne = omega arith
weight-disjoint (some e) c d ne = ground arith

-- No two nodes have more than all votes together.
pub gives-disjoint :
    (n : ℕ) (gave : ℕ → Option ℕ) (c d : ℕ) → c ≢ d → gives n gave c + gives n gave d ≤ n
unfolding gives
gives-disjoint zero gave c d ne = omega arith
gives-disjoint (suc n) gave c d ne =
    let below = gives-disjoint n gave c d ne in
    let one = weight-disjoint (gave n) c d ne in omega arith
