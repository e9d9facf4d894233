-- ===== src/Consensus/Protocol/Support.antt =====
-- The votes behind the block that `BA` of algorand/algorand.go ends with, where the counts of
-- `binaryBA` are those of `countVotes`.
use alg_bc_db.Prelude.{ℕ, ◌<◌, ◌≡◌, subst, Bool, Option, some, List, Bytes}
use alg_bc_db.DataChain.{Block}
use alg_bc_db.Consensus.Messages.{Peer}
use alg_bc_db.Consensus.Counting.{Setting, Weighed, Count, count_votes}
use alg_bc_db.Consensus.Counting.Quorum.{Backed, Says, count_votes-Says}
use alg_bc_db.Consensus.Protocol.{agreed, ba}
use alg_bc_db.Consensus.Protocol.Agreement.{Fits, ba-agreed}

-- The threshold is above 0, and the `n`th count of `binaryBA` is that of the `n`th inbox. If `BA` ends
-- with a block, then in one of the inboxes the votes of distinct voters, for hashes with the first four
-- bytes of the decided hash, reach the threshold, or the decided hash is empty and in one of the
-- inboxes no hash reaches it. There is a last block; and the block has the decided hash, or that is the
-- empty hash after the hash of the last block, and the block is the empty one of the round after it,
-- with its kind of consensus.
pub ba-Backed :
    (sha256 : Bytes → Bytes) (p : Peer) (round : ℕ) (tail : Bytes) (last : Option Bytes)
    (proposed : Bytes) (first second : Count) (s : Setting) (needed : ℕ) (inbox : ℕ → List Weighed)
    (expired : ℕ → Bool) (coin : ℕ → Option ℕ) (final_count : Count) (kind : ℕ) (b : Block)
    → 0 < needed
    → ba sha256 p round tail last proposed first second
        (λ n. count_votes s needed (inbox n) (expired n))
        coin
        final_count
      ≡ agreed kind b
    → (hash : Bytes) × (prev : Bytes) × (n : ℕ) × (last ≡ some prev)
      × Backed needed s (inbox n) hash
      × Fits sha256 round prev hash b
ba-Backed sha256 p round tail last proposed first second s needed inbox expired coin final_count
      kind b positive h =
    let (hash, prev, (n, counted_n), l, fits, k) =
      ba-agreed sha256 p round tail last proposed first second
        (λ n. count_votes s needed (inbox n) (expired n)) coin final_count kind b h in
    (
      hash,
      prev,
      n,
      l,
      subst (Says needed s (inbox n) (expired n)) counted_n
          (count_votes-Says needed s positive (inbox n) (expired n)),
      fits,
    )
