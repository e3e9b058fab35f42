-- ===== src/Hotstuff/Replica/Fits.antt =====
-- What the blocks in `reordering_blocks` wait for, through `effect_core_actions` of `Replica` in
-- `src/hotstuff/mod.rs`: a proposal of the replica's own stores a node too.
use bft_kit.Base.{
  ℕ, zero, suc, ◌≡◌, ◌∙◌, inl, inr, not, Option, none, some, [], ◌∷◌, length, ltb, done, assert,
  unwrap, >>=-eq-done, Bool-cases,
}
use bft_kit.Base.Map.{lookup, insert, remove, contains}
use bft_kit.Command.{Command}
use bft_kit.Crypto.{Primitives, Digest, digest}
use bft_kit.Crypto.Threshold.{PublicCommitments, Signers, Schemes, PartialSig, PartialSigs}
use bft_kit.Hotstuff.Message.{VoteGeneric, block_bytes}
use bft_kit.Hotstuff.Slab.{Slab}
use bft_kit.Hotstuff.Core.{NodeData, ReplicaCoreEvent, ReplicaCoreAction, Actions, node_at}
use bft_kit.Hotstuff.Core.Quiet.{done_eq}
use bft_kit.Hotstuff.Core.Indexed.{proposed-index, request-index}
use bft_kit.Hotstuff.Replica.{
  Replica, Sent, find_nonce, remove_nonce, signer_index, is_primary, feed, digest_at, refill_nonces,
  handle_vote_generic,
}
use bft_kit.Hotstuff.Replica.Receive.{Flow, return, proceed}
use bft_kit.Hotstuff.Replica.Effects.{
  take_signers, own_commitments, message_block, num_signer, on_propose, deliver, top_up, on_signed,
  sign_vote, on_vote, perform, perform_all, effect, effect_core_actions, finish, request,
}
use bft_kit.Hotstuff.Replica.Waiting.{Fitting-insert}
use bft_kit.Hotstuff.Replica.Released.{Fits, flow_replica, feed-Fed, handle_vote_generic-Fits}

module _ (slab : Slab) (prim : Primitives) (schemes : Schemes) where
  on_propose-Fits :
      (r : Replica slab) (node : NodeData) {s : Sent slab}
      → on_propose slab prim schemes r node ≡ done s
      → Fits slab r
      → Fits slab s.0
  unfolding on_propose
  on_propose-Fits r node h fits =
      let n = num_signer slab prim schemes r in
      let (block, described, h1) = >>=-eq-done (message_block slab prim schemes r node) _ h in
      let d = digest prim (block_bytes block) in
      let (pool, signers) = take_signers n r.public_commitments_pool in
      let (u, many, h2) = >>=-eq-done (assert (not (ltb (length signers) n))) _ h1 in
      let (u', new, h3) = >>=-eq-done (assert (not (contains d r.block_signers))) _ h2 in
      let r0 : Replica slab = record r {
        public_commitments_pool = pool;
        quorum_cert_scratches =
            insert d (record { partial_sigs = PartialSigs.givre []; signers = signers })
              r.quorum_cert_scratches;
        block_signers = insert d signers r.block_signers;
      } in
      let (r', feeds, h4) = >>=-eq-done (feed slab r0 (ReplicaCoreEvent.proposed d block)) _ h3 in
      let fed = feed-Fed slab r0 (ReplicaCoreEvent.proposed d block) feeds in
      let (key, grows) = proposed-index slab r.core d block fed.handled in
      let index' = fed.index ∙ grows in
      rw (← done_eq h4, index', fed.waiting)
        (Fitting-insert r.core.node_index d key r.reordering_blocks fits)

  deliver-Fits :
      (r : Replica slab) (vote : VoteGeneric) {s : Sent slab}
      → deliver slab prim schemes r vote ≡ done s
      → Fits slab r
      → Fits slab s.0
  unfolding deliver
  deliver-Fits r vote h fits = elim (Bool-cases (is_primary slab r)) [
    | inl primary ↦
        let (r', votes, h2) =
          >>=-eq-done (handle_vote_generic slab schemes r vote) _ (rw primary at h) in
        rw (← done_eq h2) (handle_vote_generic-Fits slab schemes r vote votes fits)
    | inr backup ↦ rw (← done_eq (rw backup at h)) fits
  ]

  top_up-Fits : (r : Replica slab) → Fits slab r → Fits slab (top_up slab prim schemes r).0
  unfolding top_up refill_nonces
  top_up-Fits r fits = elim (Bool-cases (ltb (length r.nonces) r.crypto_config.refill_threshold)) [
    | inr enough ↦ rw enough fits
    | inl few ↦ elim (Bool-cases (is_primary slab r)) [
      | inl primary ↦ rw (few, primary) fits
      | inr backup ↦ rw (few, backup) fits
    ]
  ]

  on_signed-Fits :
      (r : Replica slab) (node : Digest) (share : Option ℕ) {s : Sent slab}
      → on_signed slab prim schemes r node share ≡ done s
      → Fits slab r
      → Fits slab s.0
  unfolding on_signed
  on_signed-Fits r node none h fits = rw (← done_eq h) fits
  on_signed-Fits r node (some share) h fits =
      let vote : VoteGeneric = record {
        node = node;
        partial_sig = PartialSig.givre share;
        signer_index = signer_index slab r;
      } in
      let (d, delivers, h2) = >>=-eq-done (deliver slab prim schemes r vote) _ h in
      rw (← done_eq h2) (top_up-Fits d.0 (deliver-Fits r vote delivers fits))

  sign_vote-Fits :
      (r : Replica slab) (node : Digest) (signers : Signers) (own : Option PublicCommitments)
      {s : Sent slab}
      → sign_vote slab prim schemes r node signers own ≡ done s
      → Fits slab r
      → Fits slab s.0
  unfolding sign_vote
  sign_vote-Fits r node signers none h fits = rw (← done_eq h) fits
  sign_vote-Fits r node signers (some c) h fits =
      let (x, finds, h2) = >>=-eq-done (unwrap (find_nonce c r.nonces)) _ h in
      on_signed-Fits (record r { nonces = remove_nonce c r.nonces }) node
        (schemes.givre_sign r.crypto_config.key_share x node signers) h2 fits

  perform-Fits :
      (r : Replica slab) (action : ReplicaCoreAction) {s : Sent slab}
      → perform slab prim schemes r action ≡ done s
      → Fits slab r
      → Fits slab s.0
  unfolding perform on_vote
  perform-Fits r (ReplicaCoreAction.propose node) h fits = on_propose-Fits r node h fits
  perform-Fits r (ReplicaCoreAction.vote key) h fits =
      let (node, e, h2) = >>=-eq-done (digest_at slab r key) _ h in
      let (signers, e2, h3) = >>=-eq-done (unwrap (lookup node r.block_signers)) _ h2 in
      sign_vote-Fits (record r { block_signers = remove node r.block_signers }) node signers
        (own_commitments (signer_index slab r) signers) h3 fits
  perform-Fits r (ReplicaCoreAction.finalize key) h fits =
      let (block, e, h2) = >>=-eq-done (node_at slab r.core key) _ h in rw (← done_eq h2) fits

  perform_all-Fits :
      (r : Replica slab) (actions : Actions) {s : Sent slab}
      → perform_all slab prim schemes r actions ≡ done s
      → Fits slab r
      → Fits slab s.0
  unfolding perform_all
  perform_all-Fits r [] h fits = rw (← done_eq h) fits
  perform_all-Fits r (action ∷ actions) h fits =
      let (s, performs, h2) = >>=-eq-done (perform slab prim schemes r action) _ h in
      let (t, rest, h3) = >>=-eq-done (perform_all slab prim schemes s.0 actions) _ h2 in
      rw (← done_eq h3) (perform_all-Fits s.0 actions rest (perform-Fits r action performs fits))

  effect-Fits :
      (fuel : ℕ) (r : Replica slab) (actions : Actions) {s : Sent slab}
      → effect slab prim schemes fuel r actions ≡ done s
      → Fits slab r
      → Fits slab s.0
  unfolding effect
  effect-Fits fuel r [] h fits = rw (← done_eq h) fits
  effect-Fits zero r (action ∷ actions) h fits = absurd (cc)
  effect-Fits (suc fuel) r (action ∷ actions) h fits =
      let r0 : Replica slab = record r { core_actions = [] } in
      let (s, round, h2) = >>=-eq-done (perform_all slab prim schemes r0 (action ∷ actions)) _ h in
      let (t, rest, h3) = >>=-eq-done (effect slab prim schemes fuel s.0 s.0.core_actions) _ h2 in
      rw (← done_eq h3) (
        effect-Fits fuel s.0 s.0.core_actions rest
          (perform_all-Fits r0 (action ∷ actions) round fits))

  pub finish-Fits :
      (fuel : ℕ) (flow : Flow slab) {s : Sent slab}
      → finish slab prim schemes fuel flow ≡ done s
      → Fits slab (flow_replica slab flow)
      → Fits slab s.0
  unfolding finish effect_core_actions
  finish-Fits fuel (return r) h fits = rw (← done_eq h) fits
  finish-Fits fuel (proceed r) h fits = effect-Fits fuel r r.core_actions h fits

  -- A request keeps what the waiting blocks wait for, as `finish-Fits` has it of the end of a message.
  pub request-Fits :
      (fuel : ℕ) (r : Replica slab) (command : Command) {s : Sent slab}
      → request slab prim schemes fuel r command ≡ done s
      → Fits slab r
      → Fits slab s.0
  unfolding request effect_core_actions
  request-Fits fuel r command h fits =
      let event = ReplicaCoreEvent.request command in
      let (r', feeds, h2) = >>=-eq-done (feed slab r event) _ h in
      let fed = feed-Fed slab r event feeds in
      let index' = fed.index ∙ request-index slab r.core command fed.handled in
      effect-Fits fuel r' r'.core_actions h2 (rw (index', fed.waiting) fits)
