-- ===== src/Consensus/Messages/Proposals.antt =====
-- What a peer of algorand/peer.go keeps of the messages that it handles, and the proposal and block
-- that it chooses.
use alg_bc_db.Prelude.{
  ℕ, ◌≡◌, refl, sym, ap, ◌∙◌, ◌↔◌, ◌⊎◌, inl, inr, Bool, true, false, none, some, List, [], ◌∷◌,
  ◌++◌, append-nil, append_assoc, Bytes, equal, less, less_irrefl, less_asymm, not-less_trans, All,
  arith, ◌==◌, if◌then◌else◌, Bool-cases, get_elem?, suc, subst, equal_sound, equal_refl,
}
use alg_bc_db.DataChain.{Block}
use alg_bc_db.Consensus.Sortition.{Rat, sub_users, max_priority}
use alg_bc_db.Consensus.Parameters.{expected_block_proposers}
use alg_bc_db.Consensus.Messages.{
  VoteMessage, Proposal, Peer, Incoming, block, proposal, vote, handle, construct_vote_key,
  get_max_proposal, max_proposal_of, max_proposal_loop, verify_proposal,
}

unfoldable pub handle_all : List Incoming → Peer → Peer
handle_all [] p = p
handle_all (m ∷ ms) p = handle_all ms (handle p m)

-- The verified proposals of a round, the blocks of a round and the votes of a key, among messages.
unfoldable pub proposals_of : ℕ → List Incoming → List Proposal
proposals_of r [] = []
proposals_of r (block b ∷ ms) = proposals_of r ms
proposals_of r (vote v ∷ ms) = proposals_of r ms
proposals_of r (proposal b verified ∷ ms) =
    if verified
    then (if r == b.round then b ∷ proposals_of r ms else proposals_of r ms)
    else proposals_of r ms

unfoldable pub blocks_of : ℕ → List Incoming → List Block
blocks_of r [] = []
blocks_of r (block b ∷ ms) = if r == b.round then b ∷ blocks_of r ms else blocks_of r ms
blocks_of r (vote v ∷ ms) = blocks_of r ms
blocks_of r (proposal b verified ∷ ms) = blocks_of r ms

unfoldable pub votes_of : Bytes → List Incoming → List VoteMessage
votes_of k [] = []
votes_of k (block b ∷ ms) = votes_of k ms
votes_of k (vote v ∷ ms) =
    if equal k (construct_vote_key v.round v.step) then v ∷ votes_of k ms else votes_of k ms
votes_of k (proposal b verified ∷ ms) = votes_of k ms

-- What a peer keeps is what came before and, of the messages handled, the verified proposals of each
-- round, the blocks of each round and the votes of each key, in the order of their arrival. The
-- table of incoming votes is not written.
pub handle_all_lem :
    (ms : List Incoming) (p : Peer) (r : ℕ) (k : Bytes)
    → let q = handle_all ms p in
      (q.proposals r ≡ p.proposals r ++ proposals_of r ms)
      × (q.blocks r ≡ p.blocks r ++ blocks_of r ms)
      × (q.in_votes k ≡ p.in_votes k ++ votes_of k ms)
      × (q.incoming_votes k ≡ p.incoming_votes k)
unfolding handle_all handle proposals_of blocks_of votes_of
handle_all_lem [] p r k = (sym (append-nil _), sym (append-nil _), sym (append-nil _), refl)
handle_all_lem (block b ∷ ms) p r k =
    let (ps, bs, vs, is) = handle_all_lem ms (handle p (block b)) r k in
    (ps, bs ∙ ground (arith, append_assoc (p.blocks r) (b ∷ []) (blocks_of r ms)), vs, is)
handle_all_lem (vote v ∷ ms) p r k =
    let (ps, bs, vs, is) = handle_all_lem ms (handle p (vote v)) r k in
    (ps, bs, vs ∙ ground (arith, append_assoc (p.in_votes k) (v ∷ []) (votes_of k ms)), is)
handle_all_lem (proposal b true ∷ ms) p r k =
    let (ps, bs, vs, is) = handle_all_lem ms (handle p (proposal b true)) r k in
    (ps ∙ ground (arith, append_assoc (p.proposals r) (b ∷ []) (proposals_of r ms)), bs, vs, is)
handle_all_lem (proposal b false ∷ ms) p r k = handle_all_lem ms p r k

-- No priority of the list is above `m`'s, and `m` is `best` or in the list.
abbrev NoneAbove : Proposal → List Proposal → Type 0
NoneAbove m bs = All (λ b. less m.prior b.prior ≡ false) bs

abbrev Best : Proposal → List Proposal → Proposal → Type 0
Best best bs m =
    (less m.prior best.prior ≡ false)
    × NoneAbove m bs
    × ((m ≡ best) ⊎ ((i : ℕ) × (get_elem? bs i ≡ some m)))

Best-keep :
    (best b : Proposal) (bs : List Proposal) (m : Proposal)
    → less b.prior best.prior ≡ true
    → Best best bs m
    → Best best (b ∷ bs) m
Best-keep best b bs m below (low, all, one) = (
  low,
  (not-less_trans m.prior best.prior b.prior low (less_asymm b.prior best.prior below), all),
  elim one [ inl e ↦ inl e | inr (i, e) ↦ inr (suc i, e) ],
)

Best-replace :
    (best b : Proposal) (bs : List Proposal) (m : Proposal)
    → less b.prior best.prior ≡ false
    → Best b bs m
    → Best best (b ∷ bs) m
Best-replace best b bs m above (low, all, one) = (
  not-less_trans m.prior b.prior best.prior low above,
  (low, all),
  inr (elim one [ inl e ↦ (0, ap some (sym e)) | inr (i, e) ↦ (suc i, e) ]),
)

max_proposal_loop-Best :
    (best : Proposal) (bs : List Proposal) → Best best bs (max_proposal_loop best bs)
unfolding max_proposal_loop
max_proposal_loop-Best best [] = (less_irrefl best.prior, tt, inl refl)
max_proposal_loop-Best best (b ∷ bs) = elim (Bool-cases (less b.prior best.prior)) [
  | inl below ↦
      subst (Best best (b ∷ bs))
        (sym (ap (λ t. max_proposal_loop (if t then best else b) bs) below))
        (Best-keep best b bs _ below (max_proposal_loop-Best best bs))
  | inr above ↦
      subst (Best best (b ∷ bs))
        (sym (ap (λ t. max_proposal_loop (if t then best else b) bs) above))
        (Best-replace best b bs _ above (max_proposal_loop-Best b bs))
]

Best-held :
    (b : Proposal) (bs : List Proposal) (m : Proposal)
    → Best b (b ∷ bs) m
    → ((i : ℕ) × (get_elem? (b ∷ bs) i ≡ some m)) × NoneAbove m (b ∷ bs)
Best-held b bs m (low, all, one) =
    (elim one [ inl e ↦ (0, ap some (sym e)) | inr held ↦ held ], all)

abbrev Chosen : List Proposal → Type 0
Chosen bs =
    ((max_proposal_of bs ≡ none) × (bs ≡ []))
    ⊎ ((m : Proposal) × (max_proposal_of bs ≡ some m)
        × ((i : ℕ) × (get_elem? bs i ≡ some m))
        × NoneAbove m bs)

max_proposal_of-Chosen : (bs : List Proposal) → Chosen bs
unfolding max_proposal_of
max_proposal_of-Chosen [] = inl (refl, refl)
max_proposal_of-Chosen (b ∷ bs) =
    let (held, all) = Best-held b bs _ (max_proposal_loop-Best b (b ∷ bs)) in
    inr (max_proposal_loop b (b ∷ bs), refl, held, all)

-- The chosen proposal of a round is one that the peer holds for the round, and no priority there is
-- above its own; choosing is a fault exactly when the peer holds no proposal of the round.
pub get_max_proposal-NoneAbove :
    (p : Peer) (r : ℕ)
    → ((get_max_proposal p r ≡ none) × (p.proposals r ≡ []))
      ⊎ ((m : Proposal) × (get_max_proposal p r ≡ some m)
          × ((i : ℕ) × (get_elem? (p.proposals r) i ≡ some m))
          × All (λ b. less m.prior b.prior ≡ false) (p.proposals r))
unfolding get_max_proposal
get_max_proposal-NoneAbove p r = max_proposal_of-Chosen (p.proposals r)

-- A proposal is accepted exactly when its priority is the largest that its VRF output gives for the
-- sender's weight. The proof, the key and the seed of the round play no part.
pub verify_proposal-eq-true :
    (ecvrf_verify : Bytes → Bytes → Bytes → Bool) (sha256 : Bytes → Bytes) (e : Rat) (weight : ℕ)
    (m : Bytes) (b : Proposal)
    → (verify_proposal ecvrf_verify sha256 e weight m b ≡ true)
      ↔ (max_priority sha256 b.vrf (sub_users e expected_block_proposers weight b.vrf) ≡ b.prior)
unfolding verify_proposal
verify_proposal-eq-true ecvrf_verify sha256 e weight m b =
    (equal_sound _ b.prior, λ h. rw h (equal_refl b.prior))
