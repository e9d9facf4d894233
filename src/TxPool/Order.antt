-- ===== src/TxPool/Order.antt =====
-- The queue of txpool/txpool_data.go stays in the order of the timestamps, and its map points to its
-- nodes.
use alg_bc_db.Prelude.{
  ℕ, ◌+◌, ◌<◌, ◌≡◌, ◌≢◌, refl, sym, ◌∙◌, subst, ◌⊎◌, inl, inr, Bool, false, List, [], ◌∷◌, Bytes,
  length, arith, ◌==◌, All, Bool-cases,
}
use alg_bc_db.Prelude.Int.{ltb_ℤ}
use alg_bc_db.DataChain.{Transaction}
use alg_bc_db.TxPool.{TxNode, place, unlink}

-- Whether `p` is earlier than `r`.
abbrev pub earlier : TxNode → TxNode → Bool
earlier p r = ltb_ℤ p.1.time_stamp r.1.time_stamp

-- From the tail, no node is earlier than one after it.
abbrev pub InOrder : List TxNode → Type 0
InOrder [] = Unit
InOrder (p ∷ ps) = All (λ r. earlier p r ≡ false) ps × InOrder ps

-- No two nodes have one address, and all are below `next`.
abbrev pub Apart : ℕ → List TxNode → Type 0
Apart next [] = Unit
Apart next (p ∷ ps) = (p.0 < next) × All (λ r. r.0 ≢ p.0) ps × Apart next ps

-- A node at the address with the id.
abbrev pub Holds : ℕ → Bytes → List TxNode → Type 0
Holds a id [] = ⊥
Holds a id (p ∷ ps) = ((p.0 ≡ a) × (p.1.tx_id ≡ id)) ⊎ Holds a id ps

pub All-map {ℓ} :
    {A : Type ℓ} {P Q : A → Type 0} → ((x : A) → P x → Q x) → (xs : List A) → All P xs → All Q xs
All-map f [] h = tt
All-map f (x ∷ xs) (h, hs) = (f x h, All-map f xs hs)

-- A node is put before all that are earlier or equal and after all that are later.
place-All :
    (P : TxNode → Type 0) (p : TxNode) (ps : List TxNode) → P p → All P ps → All P (place p ps)
unfolding place
place-All P p [] h hs = (h, tt)
place-All P p (q ∷ qs) h (hq, hs) = elim (Bool-cases (earlier p q)) [
  | inl e ↦ rw (e, place) (hq, place-All P p qs h hs)
  | inr e ↦ rw (e, place) (h, (hq, hs))
]

pub place-InOrder : (p : TxNode) (ps : List TxNode) → InOrder ps → InOrder (place p ps)
unfolding place
place-InOrder p [] h = (tt, tt)
place-InOrder p (q ∷ qs) (hq, hs) = elim (Bool-cases (earlier p q)) [
  | inl e ↦
      rw (e, place)
        (place-All (λ r. earlier q r ≡ false) p qs (ground arith) hq, place-InOrder p qs hs)
  | inr e ↦ rw (e, place) ((e, All-map (λ r h. ground arith) qs hq), (hq, hs))
]

pub length-place : (p : TxNode) (ps : List TxNode) → length (place p ps) ≡ length ps + 1
unfolding place
length-place p [] = refl
length-place p (q ∷ qs) = ground (arith, length-place p qs)

Apart-below : (next : ℕ) (ps : List TxNode) → Apart next ps → All (λ r. r.0 < next) ps
Apart-below next [] h = tt
Apart-below next (p ∷ ps) (below, apart, rest) = (below, Apart-below next ps rest)

Apart-suc : (next : ℕ) (ps : List TxNode) → Apart next ps → Apart (next + 1) ps
Apart-suc next [] h = tt
Apart-suc next (p ∷ ps) (below, apart, rest) = (omega arith, apart, Apart-suc next ps rest)

pub place-Apart :
    (next : ℕ) (tx : Transaction) (ps : List TxNode)
    → Apart next ps
    → Apart (next + 1) (place (next, tx) ps)
unfolding place
place-Apart next tx [] h = (omega arith, tt, tt)
place-Apart next tx (q ∷ qs) (below, apart, rest) = elim (Bool-cases (earlier (next, tx) q)) [
  | inl e ↦
      rw (e, place)
        (
          omega arith,
          place-All (λ r. r.0 ≢ q.0) (next, tx) qs (λ same. absurd (omega arith)) apart,
          place-Apart next tx qs rest,
        )
  | inr e ↦
      rw (e, place)
        (
          omega arith,
          (
            (λ same. absurd (omega arith)),
            All-map (λ r lt same. absurd (omega arith)) qs (Apart-below next qs rest),
          ),
          (omega arith, apart, Apart-suc next qs rest),
        )
]

pub place-Holds :
    (a : ℕ) (id : Bytes) (p : TxNode) (ps : List TxNode) → Holds a id ps → Holds a id (place p ps)
unfolding place
place-Holds a id p [] h = absurd h
place-Holds a id p (q ∷ qs) h = elim (Bool-cases (earlier p q)) [
  | inl e ↦
      rw (e, place) (elim h [ inl here ↦ inl here | inr later ↦ inr (place-Holds a id p qs later) ])
  | inr e ↦ rw (e, place) (inr h)
]

pub place-Holds_self : (p : TxNode) (ps : List TxNode) → Holds p.0 p.1.tx_id (place p ps)
unfolding place
place-Holds_self p [] = inl (refl, refl)
place-Holds_self p (q ∷ qs) = elim (Bool-cases (earlier p q)) [
  | inl e ↦ rw (e, place) (inr (place-Holds_self p qs))
  | inr e ↦ rw (e, place) (inl (refl, refl))
]

unlink-All : (P : TxNode → Type 0) (a : ℕ) (ps : List TxNode) → All P ps → All P (unlink a ps)
unfolding unlink
unlink-All P a [] h = tt
unlink-All P a (p ∷ ps) (h, hs) = elim (Bool-cases (p.0 == a)) [
  | inl e ↦ rw (e, unlink) hs
  | inr e ↦ rw (e, unlink) (h, unlink-All P a ps hs)
]

pub unlink-InOrder : (a : ℕ) (ps : List TxNode) → InOrder ps → InOrder (unlink a ps)
unfolding unlink
unlink-InOrder a [] h = tt
unlink-InOrder a (p ∷ ps) (h, hs) = elim (Bool-cases (p.0 == a)) [
  | inl e ↦ rw (e, unlink) hs
  | inr e ↦ rw (e, unlink) (unlink-All (λ r. earlier p r ≡ false) a ps h, unlink-InOrder a ps hs)
]

pub unlink-Apart : (next a : ℕ) (ps : List TxNode) → Apart next ps → Apart next (unlink a ps)
unfolding unlink
unlink-Apart next a [] h = tt
unlink-Apart next a (p ∷ ps) (below, apart, rest) = elim (Bool-cases (p.0 == a)) [
  | inl e ↦ rw (e, unlink) rest
  | inr e ↦
      rw (e, unlink) (below, unlink-All (λ r. r.0 ≢ p.0) a ps apart, unlink-Apart next a ps rest)
]

pub length-unlink :
    (a : ℕ) (id : Bytes) (ps : List TxNode) → Holds a id ps → length (unlink a ps) + 1 ≡ length ps
unfolding unlink
length-unlink a id [] h = absurd h
length-unlink a id (p ∷ ps) h = elim (Bool-cases (p.0 == a)) [
  | inl e ↦ rw (e, unlink) (omega arith)
  | inr e ↦ elim h [
    | inl (here, same) ↦ ground arith
    | inr later ↦ rw (e, unlink) (let rest = length-unlink a id ps later in omega arith)
  ]
]

pub unlink-Holds :
    (a b : ℕ) (id : Bytes) (ps : List TxNode) → b ≢ a → Holds b id ps → Holds b id (unlink a ps)
unfolding unlink
unlink-Holds a b id [] ne h = absurd h
unlink-Holds a b id (p ∷ ps) ne h = elim (Bool-cases (p.0 == a)) [
  | inl e ↦ elim h [ inl (here, same) ↦ absurd (ground arith) | inr later ↦ rw (e, unlink) later ]
  | inr e ↦
      rw (e, unlink)
        (elim h [
          | inl (here, same) ↦ inl (here, same)
          | inr later ↦ inr (unlink-Holds a b id ps ne later)
        ])
]

-- A node that is apart from the others is not among them.
not-Holds : (a : ℕ) (id : Bytes) (ps : List TxNode) → All (λ r. r.0 ≢ a) ps → Holds a id ps → ⊥
not-Holds a id [] h held = held
not-Holds a id (p ∷ ps) (ne, hs) (inl (same, e)) = ne same
not-Holds a id (p ∷ ps) (ne, hs) (inr later) = not-Holds a id ps hs later

pub Holds-same :
    (next a : ℕ) (id id' : Bytes) (ps : List TxNode)
    → Apart next ps
    → Holds a id ps
    → Holds a id' ps
    → id ≡ id'
Holds-same next a id id' [] h held held' = absurd held
Holds-same next a id id' (p ∷ ps) h (inl (e, i)) (inl (e', i')) = sym i ∙ i'
Holds-same next a id id' (p ∷ ps) (below, apart, rest) (inl (e, i)) (inr later) =
    absurd (not-Holds a id' ps (subst (λ x. All (λ r. r.0 ≢ x) ps) e apart) later)
Holds-same next a id id' (p ∷ ps) (below, apart, rest) (inr later) (inl (e, i)) =
    absurd (not-Holds a id ps (subst (λ x. All (λ r. r.0 ≢ x) ps) e apart) later)
Holds-same next a id id' (p ∷ ps) (below, apart, rest) (inr later) (inr later') =
    Holds-same next a id id' ps rest later later'
