-- ===== src/Hotstuff/Replica/Kept.antt =====
-- The steps of a replica of HotStuff that leave its nonces alone.
use bft_kit.Base.{
  ◌≡◌, refl, inl, inr, not, none, some, [], length, ltb, ok, err, done, assert, unwrap, >>=-eq-done,
  Bool-cases,
}
use bft_kit.Base.Map.{lookup, insert, remove, contains}
use bft_kit.Crypto.{Primitives, digest}
use bft_kit.Crypto.Threshold.{Schemes, Added, PartialSigs}
use bft_kit.Hotstuff.Message.{VoteGeneric, block_bytes}
use bft_kit.Hotstuff.Slab.{Slab}
use bft_kit.Hotstuff.Core.{NodeData, ReplicaCoreEvent, handle}
use bft_kit.Hotstuff.Core.Quiet.{done_eq}
use bft_kit.Hotstuff.Replica.{
  QuorumCertScratch, Replica, Sent, feed, is_primary, certify, handle_vote_generic,
}
use bft_kit.Hotstuff.Replica.Effects.{message_block, num_signer, take_signers, on_propose, deliver}

module _ (slab : Slab) (schemes : Schemes) where
  -- A step that leaves the nonces alone.
  pub record Kept (r r' : Replica slab) : Type 0 where
    pub nonces : r'.nonces ≡ r.nonces
    pub draws : r'.draws ≡ r.draws
    pub config : r'.crypto_config ≡ r.crypto_config

  pub feed-Kept :
      (r : Replica slab) (event : ReplicaCoreEvent) {r' : Replica slab}
      → feed slab r event ≡ done r'
      → Kept r r'
  unfolding feed
  feed-Kept r event h =
      let (s, e, h2) = >>=-eq-done (handle slab r.core event) _ h in
      rw (← done_eq h2) (record { nonces = refl; draws = refl; config = refl })

  pub certify-Kept :
      (r : Replica slab) (vote : VoteGeneric) (scratch : QuorumCertScratch) (added : Added)
      {r' : Replica slab}
      → certify slab schemes r vote scratch added ≡ done r'
      → Kept r r'
  unfolding certify
  certify-Kept r vote scratch (sigs, err) h = absurd (cc)
  certify-Kept r vote scratch (sigs, ok none) h =
      rw (← done_eq h) (record { nonces = refl; draws = refl; config = refl })
  certify-Kept r vote scratch (sigs, ok (some sig)) h =
      let (u, stored, h2) = >>=-eq-done (assert (contains vote.node r.core.node_index)) _ h in
      let k =
        feed-Kept (record r { quorum_cert_scratches = remove vote.node r.quorum_cert_scratches }) _
          h2 in
      record { nonces = k.nonces; draws = k.draws; config = k.config }

  pub handle_vote_generic-Kept :
      (r : Replica slab) (vote : VoteGeneric) {r' : Replica slab}
      → handle_vote_generic slab schemes r vote ≡ done r'
      → Kept r r'
  unfolding handle_vote_generic
  handle_vote_generic-Kept r vote h =
      let (scratch, e, h2) = >>=-eq-done (unwrap (lookup vote.node r.quorum_cert_scratches)) _ h in
      certify-Kept r vote scratch _ h2

  pub deliver-Kept :
      (prim : Primitives) (r : Replica slab) (vote : VoteGeneric) {s : Sent slab}
      → deliver slab prim schemes r vote ≡ done s
      → Kept r s.0
  unfolding deliver
  deliver-Kept prim r vote h = elim (Bool-cases (is_primary slab r)) [
    | inl primary ↦
        let (r', votes, h2) =
          >>=-eq-done (handle_vote_generic slab schemes r vote) _ (rw primary at h) in
        rw (← done_eq h2) (handle_vote_generic-Kept r vote votes)
    | inr backup ↦
        rw (← done_eq (rw backup at h)) (record { nonces = refl; draws = refl; config = refl })
  ]

  pub on_propose-Kept :
      (prim : Primitives) (r : Replica slab) (node : NodeData) {s : Sent slab}
      → on_propose slab prim schemes r node ≡ done s
      → Kept r s.0
  unfolding on_propose
  on_propose-Kept prim r node h =
      let n = num_signer slab prim schemes r in
      let (block, described, h1) = >>=-eq-done (message_block slab prim schemes r node) _ h in
      let d = digest prim (block_bytes block) in
      let (pool, signers) = take_signers n r.public_commitments_pool in
      let (u, many, h2) = >>=-eq-done (assert (not (ltb (length signers) n))) _ h1 in
      let (u', new, h3) = >>=-eq-done (assert (not (contains d r.block_signers))) _ h2 in
      let (r', fed, h4) =
        >>=-eq-done
          (feed slab
            (record r {
              public_commitments_pool = pool;
              quorum_cert_scratches =
                  insert d (record { partial_sigs = PartialSigs.givre []; signers = signers })
                    r.quorum_cert_scratches;
              block_signers = insert d signers r.block_signers;
            })
            (ReplicaCoreEvent.proposed d block))
          _ h3 in
      let k = feed-Kept _ _ fed in
      rw (← done_eq h4) (record { nonces = k.nonces; draws = k.draws; config = k.config })
