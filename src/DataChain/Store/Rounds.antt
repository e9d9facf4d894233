-- ===== src/DataChain/Store/Rounds.antt =====
-- `GetByRound` of blockchain/blockchain_data/util.go, on a chain whose rounds count down to the
-- genesis block's round 0.
use alg_bc_db.Prelude.{
  ℕ, zero, suc, ◌-◌, ◌≤◌, ◌<◌, ◌≡◌, ◌≢◌, ◌∙◌, some, List, [], ◌∷◌, get_elem?, arith, ◌⊎◌, inl, inr,
  ◌==◌, if◌then◌else◌, ltb, ◌&&◌, refl, Bool-cases,
}
use alg_bc_db.Bolt.{Bolt}
use alg_bc_db.DataChain.{Block, Library}
use alg_bc_db.DataChain.Store.{BlockChain, found, nil_block, walk, get_by_round}
use alg_bc_db.DataChain.Store.Linked.{RoundTrips, Holds, get_block_by_hash-Holds}

-- The rounds are `n`, `n - 1` and so on down to 0.
abbrev pub CountsDown : ℕ → List Block → Type 0
CountsDown n [] = ⊥
CountsDown zero (b ∷ bs) = (b.round ≡ 0) × (bs ≡ [])
CountsDown (suc n) (b ∷ bs) = (b.round ≡ suc n) × CountsDown n bs

CountsDown-round : (n : ℕ) (b : Block) (bs : List Block) → CountsDown n (b ∷ bs) → b.round ≡ n
CountsDown-round zero b bs d = d.0
CountsDown-round (suc n) b bs d = d.0

CountsDown-get_elem? :
    (n r : ℕ) (bs : List Block)
    → CountsDown n bs
    → r ≤ n
    → (x : Block) × (get_elem? bs (n - r) ≡ some x) × (x.round ≡ r)
CountsDown-get_elem? n r [] d le = absurd d
CountsDown-get_elem? zero r (b ∷ bs) d le = (b, ground arith, ground arith)
CountsDown-get_elem? (suc n) r (b ∷ bs) d le = elim (Bool-cases (r == suc n)) [
  | inl top ↦ (b, ground arith, ground arith)
  | inr below ↦
      let (x, g, k) = CountsDown-get_elem? n r bs d.1 (ground arith) in
      let deeper : suc n - r ≡ suc (n - r) = ground arith in (x, rw deeper g, k)
]

module _ (bolt : Bolt) (lib : Library) (rt : RoundTrips lib) where
  -- One step of the loop, from a block of another round to the one before it.
  walk-step :
      (fuel r : ℕ) (c : BlockChain bolt) (b b' : Block) (bs : List Block)
      → Holds bolt lib c b.previous_block_hash (b' ∷ bs)
      → b.round ≢ r
      → walk bolt lib (suc fuel) c b r
        ≡ (if b'.round == 1 then nil_block else walk bolt lib fuel c b' r)
  unfolding walk
  walk-step fuel r c b b' bs w ne =
      ground (arith, get_block_by_hash-Holds bolt lib rt c b.previous_block_hash b' bs w)

  -- A round is reached if it is the first block's, or above 1.
  walk-found :
      (fuel n r : ℕ) (c : BlockChain bolt) (b : Block) (bs : List Block)
      → n < fuel
      → CountsDown n (b ∷ bs)
      → Holds bolt lib c b.previous_block_hash bs
      → r ≤ n
      → (2 ≤ r) ⊎ (r ≡ n)
      → (x : Block) × (walk bolt lib fuel c b r ≡ found x)
        × (get_elem? (b ∷ bs) (n - r) ≡ some x)
        × (x.round ≡ r)
  unfolding walk
  walk-found zero n r c b bs f d w le ok = absurd (omega arith)
  walk-found (suc fuel) zero r c b bs f d w le ok = (b, ground arith, ground arith, ground arith)
  walk-found (suc fuel) (suc n) r c b [] f d w le ok = absurd d.1
  walk-found (suc fuel) (suc n) r c b (b' ∷ bs) f d w le ok = elim (Bool-cases (r == suc n)) [
    | inl top ↦ (b, ground arith, ground arith, ground arith)
    | inr below ↦
        let high : 2 ≤ r = ground arith in
        let le' : r ≤ n = ground arith in
        let (x, e, g, k) = walk-found fuel n r c b' bs (omega arith) d.1 w.2 le' (inl high) in
        let deeper : suc n - r ≡ suc (n - r) = omega arith in
        let round : b'.round ≡ n = CountsDown-round n b' bs d.1 in
        (x, walk-step fuel r c b b' bs w (ground arith) ∙ ground arith, rw deeper g, k)
  ]

  -- Rounds 0 and 1 are not reached from two blocks or more above.
  walk-nil_block :
      (fuel n r : ℕ) (c : BlockChain bolt) (b : Block) (bs : List Block)
      → n < fuel
      → CountsDown n (b ∷ bs)
      → Holds bolt lib c b.previous_block_hash bs
      → r < 2
      → 2 ≤ n
      → walk bolt lib fuel c b r ≡ nil_block
  unfolding walk
  walk-nil_block zero n r c b bs f d w lt le = absurd (omega arith)
  walk-nil_block (suc fuel) zero r c b bs f d w lt le = absurd (omega arith)
  walk-nil_block (suc fuel) (suc n) r c b [] f d w lt le = absurd d.1
  walk-nil_block (suc fuel) (suc n) r c b (b' ∷ bs) f d w lt le =
      let round : b'.round ≡ n = CountsDown-round n b' bs d.1 in
      walk-step fuel r c b b' bs w (ground arith) ∙ elim (Bool-cases (n == 1)) [
        | inl last ↦ ground arith
        | inr more ↦
            ground (arith, walk-nil_block fuel n r c b' bs (omega arith) d.1 w.2 lt (ground arith))
      ]

  -- Where decoding undoes encoding, on a chain whose rounds count down from the tail's round `n` to
  -- 0, and with more fuel than `n`, the search for the tail's round, a later one, or any round from 2
  -- on ends without a panic: it returns nil for a later round than the tail's, and else finds the
  -- chain's block of the round.
  pub get_by_round-found :
      (fuel n r : ℕ) (c : BlockChain bolt) (b : Block) (bs : List Block)
      → n < fuel
      → CountsDown n (b ∷ bs)
      → Holds bolt lib c c.tail_hash (b ∷ bs)
      → (2 ≤ r) ⊎ (n ≤ r)
      → ((n < r) × (get_by_round bolt lib fuel c r ≡ nil_block))
        ⊎ ((r ≤ n)
            × ((x : Block) × (get_by_round bolt lib fuel c r ≡ found x)
                × (get_elem? (b ∷ bs) (n - r) ≡ some x)
                × (x.round ≡ r)))
  unfolding get_by_round
  get_by_round-found fuel n r c b bs f d w ok =
      let tail = get_block_by_hash-Holds bolt lib rt c c.tail_hash b bs w in
      let round : b.round ≡ n = CountsDown-round n b bs d in
      elim (Bool-cases (ltb n r)) [
        | inl later ↦ inl (ground arith, rw (tail, get_by_round) (ground arith))
        | inr reached ↦
            let (x, e, g, k) = walk-found fuel n r c b bs f d w.2 (ground arith) (ground arith) in
            inr (ground arith, (x, rw (tail, get_by_round) (ground arith), g, k))
      ]

  -- Where decoding undoes encoding, on a chain whose rounds count down from the tail's round `n`, of
  -- 2 or more, to 0, and with more fuel than `n`, the blocks of rounds 0 and 1 are on the chain and
  -- the search returns nil for them.
  pub get_by_round-misses :
      (fuel n r : ℕ) (c : BlockChain bolt) (b : Block) (bs : List Block)
      → n < fuel
      → CountsDown n (b ∷ bs)
      → Holds bolt lib c c.tail_hash (b ∷ bs)
      → r < 2
      → 2 ≤ n
      → (get_by_round bolt lib fuel c r ≡ nil_block)
        × ((x : Block) × (get_elem? (b ∷ bs) (n - r) ≡ some x) × (x.round ≡ r))
  unfolding get_by_round
  get_by_round-misses fuel n r c b bs f d w lt le =
      let tail = get_block_by_hash-Holds bolt lib rt c c.tail_hash b bs w in
      let round : b.round ≡ n = CountsDown-round n b bs d in
      (
        rw (tail, get_by_round) (ground (arith, walk-nil_block fuel n r c b bs f d w.2 lt le)),
        CountsDown-get_elem? n r (b ∷ bs) d (omega arith),
      )

  -- The round before the last one of a chain of two blocks.
  get_by_round-genesis :
      (fuel : ℕ) (c : BlockChain bolt) (b b' : Block) (bs : List Block)
      → 1 < fuel
      → CountsDown 1 (b ∷ b' ∷ bs)
      → Holds bolt lib c c.tail_hash (b ∷ b' ∷ bs)
      → get_by_round bolt lib fuel c 0 ≡ found b'
  unfolding get_by_round walk
  get_by_round-genesis zero c b b' bs f d w = absurd (omega arith)
  get_by_round-genesis (suc zero) c b b' bs f d w = absurd (omega arith)
  get_by_round-genesis (suc (suc fuel)) c b b' bs f d w =
      let tail = get_block_by_hash-Holds bolt lib rt c c.tail_hash b (b' ∷ bs) w in
      rw (tail, get_by_round) (ground (arith, walk-step (suc fuel) 0 c b b' bs w.2 (ground arith)))

  get_by_round-low :
      (fuel n r : ℕ) (c : BlockChain bolt) (b : Block) (bs : List Block)
      → n < fuel
      → CountsDown n (b ∷ bs)
      → Holds bolt lib c c.tail_hash (b ∷ bs)
      → n ≡ 1
      → r ≡ 0
      → ((n < r) × (get_by_round bolt lib fuel c r ≡ nil_block))
        ⊎ ((x : Block) × (get_elem? (b ∷ bs) (n - r) ≡ some x)
            × (x.round ≡ r)
            × (get_by_round bolt lib fuel c r
                ≡ (if ltb r 2 && ltb 1 n then nil_block else found x)))
  get_by_round-low fuel zero r c b bs f d w one low = absurd (omega arith)
  get_by_round-low fuel (suc (suc n)) r c b bs f d w one low = absurd (omega arith)
  get_by_round-low fuel (suc zero) (suc r) c b bs f d w one low = absurd (omega arith)
  get_by_round-low fuel (suc zero) zero c b [] f d w one low = absurd d.1
  get_by_round-low fuel (suc zero) zero c b (b' ∷ bs) f d w one low =
      inr (b', refl, CountsDown-round 0 b' bs d.1, get_by_round-genesis fuel c b b' bs f d w)

  -- Where decoding undoes encoding, on a chain whose rounds count down from the tail's round `n` to 0,
  -- and with more fuel than `n`, the search for a round ends without a panic. It returns nil for a
  -- later round than `n`, and also for the rounds 0 and 1 if `n` is 2 or more, although their blocks
  -- are on the chain; for every other round it finds the chain's block of that round.
  pub get_by_round-outcome :
      (fuel n r : ℕ) (c : BlockChain bolt) (b : Block) (bs : List Block)
      → n < fuel
      → CountsDown n (b ∷ bs)
      → Holds bolt lib c c.tail_hash (b ∷ bs)
      → ((n < r) × (get_by_round bolt lib fuel c r ≡ nil_block))
        ⊎ (((x : Block) × (get_elem? (b ∷ bs) (n - r) ≡ some x)
            × (x.round ≡ r)
            × (get_by_round bolt lib fuel c r
                ≡ (if ltb r 2 && ltb 1 n then nil_block else found x))))
  get_by_round-outcome fuel n r c b bs f d w = elim (Bool-cases (ltb n r)) [
    | inl later ↦ elim (get_by_round-found fuel n r c b bs f d w (inr (ground arith))) [
      | inl (lt, e) ↦ inl (lt, e)
      | inr (le, _) ↦ absurd (ground arith)
    ]
    | inr reached ↦ elim (Bool-cases (ltb r 2 && ltb 1 n)) [
      | inl missed ↦
          let (e, (x, g, k)) =
            get_by_round-misses fuel n r c b bs f d w (ground arith) (ground arith) in
          inr (x, g, k, rw missed e)
      | inr open_case ↦ elim (Bool-cases (ltb r n && ltb r 2)) [
        | inl below ↦ get_by_round-low fuel n r c b bs f d w (ground arith) (ground arith)
        | inr high ↦ elim (get_by_round-found fuel n r c b bs f d w (ground arith)) [
          | inl (lt, e) ↦ inl (lt, e)
          | inr (le, (x, e, g, k)) ↦ inr (x, g, k, rw open_case e)
        ]
      ]
    ]
  ]
