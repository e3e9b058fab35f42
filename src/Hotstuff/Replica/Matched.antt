-- ===== src/Hotstuff/Replica/Matched.antt =====
-- The match of `Replica::receive` on a message comes to an end.
use bft_kit.Base.{
  ℕ, zero, suc, ◌+◌, ◌≢◌, not, List, [], ◌∷◌, get_elem?, ◌==◌, ok, err, none, some, out_of_fuel,
  unwrap, assert, >>=-ends, done-ends, unwrap-ends, assert-ends, if-ends, elim-ends,
}
use bft_kit.Base.Map.{Map, lookup, contains, insert, remove}
use bft_kit.Crypto
use bft_kit.Crypto.{Primitives, Digest, digest}
use bft_kit.Crypto.Threshold.{
  Schemes, Sig, PublicMasterKey, Added, collect, count_valid, verify_digest,
}
use bft_kit.Hotstuff.Message
use bft_kit.Hotstuff.Message.{Generic, VoteGeneric, block_bytes}
use bft_kit.Hotstuff.Slab.{Slab, IsSlab}
use bft_kit.Hotstuff.Core.Ancestors.{Ranked}
use bft_kit.Hotstuff.Replica.{Replica, QuorumCertScratch, ToReplica, certify, handle_vote_generic}
use bft_kit.Hotstuff.Replica.Receive.{
  knows, handle_pending, pending_fuel, accepts_justify, admit, on_generic, dispatch,
}
use bft_kit.Hotstuff.Replica.Pending.{feed-ends, handle_pending_enough}

module _ (prim : Primitives) (schemes : Schemes)
    (order : Map Crypto.Sig → List (ℕ × Crypto.Sig)) where
  count_valid-ends :
      (digest : Digest) (keys : List Crypto.PublicKey) (most : ℕ) (entries : List (ℕ × Crypto.Sig))
      → count_valid prim schemes digest keys most entries ≢ out_of_fuel
  unfolding count_valid
  count_valid-ends digest keys zero entries = done-ends _
  count_valid-ends digest keys (suc most) [] = done-ends _
  count_valid-ends digest keys (suc most) ((index, sig) ∷ entries) =
      >>=-ends (unwrap (get_elem? keys index)) _ (unwrap-ends _) λ key e.
        elim-ends (Crypto.verify_digest prim digest key sig) _ _
          (>>=-ends (count_valid prim schemes digest keys most entries) _
            (count_valid-ends digest keys most entries) (λ n e2. done-ends _))
          (λ invalid. count_valid-ends digest keys (suc most) entries)

  verify_digest-ends :
      (d : Digest) (sig : Sig) (key : PublicMasterKey)
      → verify_digest prim schemes order d sig key ≢ out_of_fuel
  unfolding verify_digest
  verify_digest-ends d (Sig.vec sigs) (PublicMasterKey.vec keys threshold) =
      >>=-ends (count_valid prim schemes d keys (threshold + 1) (order (collect [] sigs))) _
        (count_valid-ends d keys (threshold + 1) (order (collect [] sigs))) (λ n e. done-ends _)
  verify_digest-ends d (Sig.vec sigs) (PublicMasterKey.threshold_crypto k) = done-ends _
  verify_digest-ends d (Sig.vec sigs) (PublicMasterKey.givre k) = done-ends _
  verify_digest-ends d (Sig.threshold_crypto s) (PublicMasterKey.vec keys threshold) = done-ends _
  verify_digest-ends d (Sig.threshold_crypto s) (PublicMasterKey.threshold_crypto k) = done-ends _
  verify_digest-ends d (Sig.threshold_crypto s) (PublicMasterKey.givre k) = done-ends _
  verify_digest-ends d (Sig.givre s) (PublicMasterKey.vec keys threshold) = done-ends _
  verify_digest-ends d (Sig.givre s) (PublicMasterKey.threshold_crypto k) = done-ends _
  verify_digest-ends d (Sig.givre s) (PublicMasterKey.givre k) = done-ends _

  module _ (slab : Slab) (laws : IsSlab slab) where
    admit-ends :
        (r : Replica slab) (generic : Generic) (block : Message.Block)
        → Ranked slab r.core
        → admit slab prim schemes order r generic block ≢ out_of_fuel
    unfolding admit
    admit-ends r generic block k =
        let r' : Replica slab = record r {
          block_signers = insert generic.block generic.signers r.block_signers;
        } in
        >>=-ends (assert (not (contains generic.block r.block_signers))) _ (assert-ends _) λ u e.
          if-ends (knows slab r' block.parent) _ _
            (>>=-ends
              (handle_pending slab (pending_fuel slab r' ((generic.block, block) ∷ [])) r'
                ((generic.block, block) ∷ []))
              _ (handle_pending_enough slab laws r' ((generic.block, block) ∷ []) k)
              (λ r'' e2. done-ends _))
            (done-ends _)

    on_generic-ends :
        (r : Replica slab) (generic : Generic) (block : Message.Block)
        → Ranked slab r.core
        → on_generic slab prim schemes order r generic block ≢ out_of_fuel
    unfolding on_generic accepts_justify
    on_generic-ends r generic block k = if-ends (knows slab r generic.block) _ _ (done-ends _) (
        if-ends (not (digest prim (block_bytes block) == generic.block)) _ _ (done-ends _) (
          >>=-ends (accepts_justify slab prim schemes order r block) _
            (if-ends (contains block.justify.node r.core.quorum_cert_index) _ _ (done-ends _)
              (verify_digest-ends block.justify.node block.justify.sig _))
            (λ accepted e. if-ends accepted _ _ (admit-ends r generic block k) (done-ends _))))

    certify-ends :
        (r : Replica slab) (vote : VoteGeneric) (scratch : QuorumCertScratch) (added : Added)
        → Ranked slab r.core
        → certify slab schemes r vote scratch added ≢ out_of_fuel
    unfolding certify
    certify-ends r vote scratch (sigs, err) k = λ e. cc
    certify-ends r vote scratch (sigs, ok none) k = done-ends _
    certify-ends r vote scratch (sigs, ok (some sig)) k =
        >>=-ends (assert (contains vote.node r.core.node_index)) _ (assert-ends _) λ u e.
          feed-ends slab laws
            (record r { quorum_cert_scratches = remove vote.node r.quorum_cert_scratches }) _ k

    pub handle_vote_generic-ends :
        (r : Replica slab) (vote : VoteGeneric)
        → Ranked slab r.core
        → handle_vote_generic slab schemes r vote ≢ out_of_fuel
    unfolding handle_vote_generic
    handle_vote_generic-ends r vote k =
        >>=-ends (unwrap (lookup vote.node r.quorum_cert_scratches)) _ (unwrap-ends _)
          λ scratch e. certify-ends r vote scratch _ k

    -- On a core whose nodes are stored after their parents, the match on any message comes to an end:
    -- the fuel of the loop over the pending blocks is enough, however many a message frees.
    pub dispatch-ends :
        (r : Replica slab) (message : ToReplica)
        → Ranked slab r.core
        → dispatch slab prim schemes order r message ≢ out_of_fuel
    unfolding dispatch
    dispatch-ends r (ToReplica.generic generic block) k = on_generic-ends r generic block k
    dispatch-ends r (ToReplica.vote_generic vote) k =
        >>=-ends (handle_vote_generic slab schemes r vote) _ (handle_vote_generic-ends r vote k)
          (λ r' e. done-ends _)
    dispatch-ends r (ToReplica.public_commitments_supply index supply) k = done-ends _
