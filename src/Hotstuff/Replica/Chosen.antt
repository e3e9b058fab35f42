-- ===== src/Hotstuff/Replica/Chosen.antt =====
-- Whom the leader of HotStuff asks to sign a new block.
use bft_kit.Base.{
  ℕ, zero, suc, ◌≤◌, ◌≡◌, refl, ◌∙◌, not, some, List, [], ◌∷◌, ◌++◌, length, ltb, done, assert,
  >>=-eq-done, Option-cases, inl, inr, All, arith,
}
use bft_kit.Replica.{ReplicaAction}
use bft_kit.Base.Map.{Map, lookup, insert, contains, IsSortedFrom, lookup-insert_self}
use bft_kit.Base.Lists.Indexing.{All-map}
use bft_kit.Crypto.{Primitives, digest}
use bft_kit.Crypto.Threshold.{PublicCommitments, Signers, Schemes, PartialSigs}
use bft_kit.Pbft.Core.Phases.{done_pair}
use bft_kit.Hotstuff.Message
use bft_kit.Hotstuff.Message.{block_bytes}
use bft_kit.Hotstuff.Slab.{Slab}
use bft_kit.Hotstuff.Core.{NodeData, ReplicaCoreEvent, handle}
use bft_kit.Hotstuff.Core.Quiet.{done_eq}
use bft_kit.Hotstuff.Replica.{Replica, ToReplica, Sent, feed}
use bft_kit.Hotstuff.Replica.Receive.{pop}
use bft_kit.Hotstuff.Replica.Effects.{take_signers, message_block, num_signer, on_propose}
use bft_kit.Hotstuff.Replica.Pending.{append-pop}

abbrev pub CommitmentsPool : Type 0
CommitmentsPool = Map (List PublicCommitments)

-- The commitments were the last of the supply of the replica, at `k` or above, and are so no more.
abbrev pub Taken : ℕ → CommitmentsPool → CommitmentsPool → ℕ × PublicCommitments → Type 0
Taken k pool pool' signer =
    (k ≤ signer.0)
    × ((rest : List PublicCommitments) × (lookup signer.0 pool ≡ some (rest ++ signer.1 ∷ []))
        × (lookup signer.0 pool' ≡ some rest))

lookup-above :
    (k j : ℕ) (supply : List PublicCommitments) (pool : CommitmentsPool)
    → suc j ≤ k
    → lookup k ((j, supply) ∷ pool) ≡ lookup k pool
unfolding lookup
lookup-above k j supply pool le = ground arith

Taken-cons :
    (k j : ℕ) (old new : List PublicCommitments) (pool pool' : CommitmentsPool)
    (signer : ℕ × PublicCommitments)
    → k ≤ j
    → Taken (suc j) pool pool' signer
    → Taken k ((j, old) ∷ pool) ((j, new) ∷ pool') signer
Taken-cons k j old new pool pool' signer le (above, (rest, was, is)) = (
  omega arith,
  (
    rest,
    lookup-above signer.0 j old pool above ∙ was,
    lookup-above signer.0 j new pool' above ∙ is,
  ),
)

length-take_signers : (n : ℕ) (pool : CommitmentsPool) → length (take_signers n pool).1 ≤ n
unfolding take_signers
length-take_signers zero pool = omega arith
length-take_signers (suc n) [] = omega arith
length-take_signers (suc n) ((j, supply) ∷ pool) =
    ground (arith, length-take_signers (suc n) pool, length-take_signers n pool)

take_signers-sorted :
    (n k : ℕ) (pool : CommitmentsPool)
    → IsSortedFrom k pool
    → IsSortedFrom k (take_signers n pool).1
unfolding take_signers
take_signers-sorted zero k pool s = tt
take_signers-sorted (suc n) k [] s = tt
take_signers-sorted (suc n) k ((j, supply) ∷ pool) (le, s) = elim (Option-cases (pop supply)) [
  | inl e ↦
      rw (e, take_signers)
        (sorted_weaken k (suc j) (take_signers (suc n) pool).1 (omega arith)
          (take_signers-sorted (suc n) (suc j) pool s))
  | inr (r, e) ↦ rw (e, take_signers) (le, take_signers-sorted n (suc j) pool s)
]
  where
    sorted_weaken :
        (k m : ℕ) (signers : Signers) → k ≤ m → IsSortedFrom m signers → IsSortedFrom k signers
    sorted_weaken k m [] le s = tt
    sorted_weaken k m ((i, c) ∷ signers) le (le', s) = (omega arith, s)

take_signers-Taken :
    (n k : ℕ) (pool : CommitmentsPool)
    → IsSortedFrom k pool
    → All (Taken k pool (take_signers n pool).0) (take_signers n pool).1
unfolding take_signers lookup
take_signers-Taken zero k pool s = tt
take_signers-Taken (suc n) k [] s = tt
take_signers-Taken (suc n) k ((j, supply) ∷ pool) (le, s) = elim (Option-cases (pop supply)) [
  | inl e ↦
      rw (e, take_signers)
        (All-map (take_signers (suc n) pool).1
          (λ signer. Taken-cons k j supply supply pool (take_signers (suc n) pool).0 signer le)
          (take_signers-Taken (suc n) (suc j) pool s))
  | inr ((rest, c), e) ↦
      rw (e, take_signers)
        (
          (le, (rest, ground (arith, append-pop supply e), ground arith)),
          All-map (take_signers n pool).1
              (λ signer. Taken-cons k j supply rest pool (take_signers n pool).0 signer le)
              (take_signers-Taken n (suc j) pool s),
        )
]

module _ (slab : Slab) (prim : Primitives) (schemes : Schemes) where
  -- What `on_propose` sends and keeps.
  pub record Proposed (r : Replica slab) (node : NodeData) (s : Sent slab) : Type 0 where
    pub block : Message.Block
    pub signers : Signers
    pub described : message_block slab prim schemes r node ≡ done block
    -- The one message goes to all and names the signers, who are as many as a quorum, in order.
    pub sent :
        s.1
        ≡ ReplicaAction.send_to_all_replicas (
            ToReplica.generic
              (record { block = digest prim (block_bytes block); signers = signers })
              block)
          ∷ []
    pub enough : length signers ≡ num_signer slab prim schemes r
    pub ordered : IsSortedFrom 0 signers
    -- Each signs with commitments that it supplied, and that the leader will not use again.
    pub supplied : All (Taken 0 r.public_commitments_pool s.0.public_commitments_pool) signers
    -- The leader counts the shares of these signers, and has none yet.
    pub counted :
        lookup (digest prim (block_bytes block)) s.0.quorum_cert_scratches
        ≡ some (record { partial_sigs = PartialSigs.givre []; signers = signers })

  feed_pool :
      (r : Replica slab) (event : ReplicaCoreEvent) {r' : Replica slab}
      → feed slab r event ≡ done r'
      → (r'.public_commitments_pool ≡ r.public_commitments_pool)
        × (r'.quorum_cert_scratches ≡ r.quorum_cert_scratches)
  unfolding feed
  feed_pool r event h =
      let (s, e, h2) = >>=-eq-done (handle slab r.core event) _ h in rw (← done_eq h2) (refl, refl)

  -- A proposal of the leader goes to all replicas with exactly a quorum of signers in the order of
  -- their indices, each of whom signs with the last commitments of its supply, which the leader
  -- removes; and the leader counts the shares of just these signers.
  pub on_propose-Proposed :
      (r : Replica slab) (node : NodeData) {s : Sent slab}
      → IsSortedFrom 0 r.public_commitments_pool
      → on_propose slab prim schemes r node ≡ done s
      → Proposed r node s
  unfolding on_propose
  on_propose-Proposed r node sorted h =
      let n = num_signer slab prim schemes r in
      let pool = r.public_commitments_pool in
      let (block, described, h1) = >>=-eq-done (message_block slab prim schemes r node) _ h in
      let d = digest prim (block_bytes block) in
      let (pool', signers) = take_signers n pool in
      let (u, many, h2) = >>=-eq-done (assert (not (ltb (length signers) n))) _ h1 in
      let (u', fresh, h3) = >>=-eq-done (assert (not (contains d r.block_signers))) _ h2 in
      let r1 : Replica slab = record r {
        public_commitments_pool = pool';
        quorum_cert_scratches =
            insert d (record { partial_sigs = PartialSigs.givre []; signers = signers })
              r.quorum_cert_scratches;
        block_signers = insert d signers r.block_signers;
      } in
      let (r2, fed, h4) = >>=-eq-done (feed slab r1 (ReplicaCoreEvent.proposed d block)) _ h3 in
      let (same, sends) = done_pair h4 in
      let (kept, scratches) = feed_pool r1 _ fed in
      record {
        block = block;
        signers = signers;
        described = described;
        sent = rw (← sends) refl;
        enough = ground (arith, length-take_signers n pool, many);
        ordered = take_signers-sorted n 0 pool sorted;
        supplied = rw (← same, kept) (take_signers-Taken n 0 pool sorted);
        counted = rw (← same, scratches) (lookup-insert_self d _ r.quorum_cert_scratches);
      }
