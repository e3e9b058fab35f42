-- ===== src/Hotstuff/Replica/Rounds.antt =====
-- The loop of `effect_core_actions` of HotStuff comes to an end.
use bft_kit.Base.{
  ℕ, zero, suc, ◌+◌, ◌*◌, ◌≤◌, ◌<◌, ◌≡◌, ◌≢◌, ◌⊎◌, refl, ◌∙◌, not, Option, none, some, [], ◌∷◌,
  length, ltb, done, out_of_fuel, assert, unwrap, >>=-eq-done, >>=-ends, done-ends, unwrap-ends,
  assert-ends, if-ends, inl, inr, arith,
}
use bft_kit.Base.Map.{lookup, insert, remove, contains}
use bft_kit.Crypto.{Primitives, Digest, digest}
use bft_kit.Crypto.Threshold.{Schemes, Signers, PublicCommitments, PartialSigs}
use bft_kit.Hotstuff.Message.{VoteGeneric, block_bytes}
use bft_kit.Hotstuff.Slab.{Slab, IsSlab}
use bft_kit.Hotstuff.Core.{
  Node, NodeData, ReplicaCoreEvent, ReplicaCoreAction, Actions, node_at, cert_at,
}
use bft_kit.Hotstuff.Core.Ancestors.{Ranked}
use bft_kit.Hotstuff.Core.Ends.{node_at-ends, cert_at-ends}
use bft_kit.Hotstuff.Core.Quiet.{done_eq}
use bft_kit.Hotstuff.Core.Measure.{work}
use bft_kit.Hotstuff.Replica.{
  Replica, Sent, find_nonce, feed, digest_at, signer_index, is_primary, handle_vote_generic,
}
use bft_kit.Hotstuff.Replica.Effects.{
  take_signers, own_commitments, message_block, num_signer, on_propose, deliver, on_signed,
  sign_vote, on_vote, perform, perform_all, effect, effect_core_actions,
}
use bft_kit.Hotstuff.Replica.Pending.{feed-ends}
use bft_kit.Hotstuff.Replica.Matched.{handle_vote_generic-ends}
use bft_kit.Hotstuff.Replica.Load.{
  weight, weight-append, load, Loads, on_vote-Loads, on_propose-Loads,
}

zero_or_more : (n : ℕ) → (n ≡ 0) ⊎ (0 < n)
zero_or_more zero = inl refl
zero_or_more (suc n) = inr (omega arith)

module _ (slab : Slab) (laws : IsSlab slab) (prim : Primitives) (schemes : Schemes) where
  digest_at-ends : (r : Replica slab) (key : ℕ) → digest_at slab r key ≢ out_of_fuel
  unfolding digest_at
  digest_at-ends r key =
      >>=-ends (unwrap (slab.get Node r.core.nodes key)) _ (unwrap-ends _) (λ n e. done-ends _)

  message_block-ends :
      (r : Replica slab) (node : NodeData) → message_block slab prim schemes r node ≢ out_of_fuel
  unfolding message_block
  message_block-ends r node =
      >>=-ends (cert_at slab r.core node.justify) _ (cert_at-ends slab r.core _) λ cert e.
        >>=-ends (digest_at slab r cert.node) _ (digest_at-ends r _) λ d e2.
          >>=-ends (digest_at slab r node.parent) _ (digest_at-ends r _) (λ d' e3. done-ends _)

  on_propose-ends :
      (r : Replica slab) (node : NodeData)
      → Ranked slab r.core
      → on_propose slab prim schemes r node ≢ out_of_fuel
  unfolding on_propose
  on_propose-ends r node k =
      let n = num_signer slab prim schemes r in
      >>=-ends (message_block slab prim schemes r node) _ (message_block-ends r node) λ block e.
        let d = digest prim (block_bytes block) in
        let (pool, signers) = take_signers n r.public_commitments_pool in
        >>=-ends (assert (not (ltb (length signers) n))) _ (assert-ends _) λ u e2.
          >>=-ends (assert (not (contains d r.block_signers))) _ (assert-ends _) λ u' e3.
            >>=-ends
              (feed slab
                (record r {
                  public_commitments_pool = pool;
                  quorum_cert_scratches =
                      insert d (record { partial_sigs = PartialSigs.givre []; signers = signers })
                        r.quorum_cert_scratches;
                  block_signers = insert d signers r.block_signers;
                })
                (ReplicaCoreEvent.proposed d block))
              _ (feed-ends slab laws _ _ k) (λ r' e4. done-ends _)

  deliver-ends :
      (r : Replica slab) (m : VoteGeneric)
      → Ranked slab r.core
      → deliver slab prim schemes r m ≢ out_of_fuel
  unfolding deliver
  deliver-ends r m k =
      if-ends (is_primary slab r) _ _
        (>>=-ends (handle_vote_generic slab schemes r m) _
          (handle_vote_generic-ends prim schemes (λ sigs. []) slab laws r m k)
          (λ r' e. done-ends _))
        (done-ends _)

  on_signed-ends :
      (r : Replica slab) (node : Digest) (share : Option ℕ)
      → Ranked slab r.core
      → on_signed slab prim schemes r node share ≢ out_of_fuel
  unfolding on_signed
  on_signed-ends r node none k = done-ends _
  on_signed-ends r node (some share) k =
      >>=-ends (deliver slab prim schemes r _) _ (deliver-ends r _ k) (λ s e. done-ends _)

  sign_vote-ends :
      (r : Replica slab) (node : Digest) (signers : Signers) (own : Option PublicCommitments)
      → Ranked slab r.core
      → sign_vote slab prim schemes r node signers own ≢ out_of_fuel
  unfolding sign_vote
  sign_vote-ends r node signers none k = done-ends _
  sign_vote-ends r node signers (some c) k =
      >>=-ends (unwrap (find_nonce c r.nonces)) _ (unwrap-ends _) λ x e. on_signed-ends _ node _ k

  on_vote-ends :
      (r : Replica slab) (key : ℕ)
      → Ranked slab r.core
      → on_vote slab prim schemes r key ≢ out_of_fuel
  unfolding on_vote
  on_vote-ends r key k = >>=-ends (digest_at slab r key) _ (digest_at-ends r key) λ node e.
      >>=-ends (unwrap (lookup node r.block_signers)) _ (unwrap-ends _) λ signers e2.
        sign_vote-ends (record r { block_signers = remove node r.block_signers }) node signers
          (own_commitments (signer_index slab r) signers) k

  perform-ends :
      (r : Replica slab) (action : ReplicaCoreAction)
      → Ranked slab r.core
      → perform slab prim schemes r action ≢ out_of_fuel
  unfolding perform
  perform-ends r (ReplicaCoreAction.propose node) k = on_propose-ends r node k
  perform-ends r (ReplicaCoreAction.vote key) k = on_vote-ends r key k
  perform-ends r (ReplicaCoreAction.finalize key) k =
      >>=-ends (node_at slab r.core key) _ (node_at-ends slab r.core key) (λ n e. done-ends _)

  -- What an action of the weight, or a round of that weight, does to a replica.
  record Steps (r r' : Replica slab) (n : ℕ) : Type 0 where
    config : r'.core.config ≡ r.core.config
    less : 2 * load slab r' ≤ 2 * load slab r + n
    ranked : Ranked slab r.core → Ranked slab r'.core
    calm : n ≡ 0 → r'.core_actions ≡ r.core_actions

  Steps-trans : {a b c : Replica slab} {m n : ℕ} → Steps a b m → Steps b c n → Steps a c (m + n)
  Steps-trans f g = record {
    config = g.config ∙ f.config;
    less = omega (arith, f.less, g.less);
    ranked = λ k. g.ranked (f.ranked k);
    calm = λ e. g.calm (omega (arith, e)) ∙ f.calm (omega (arith, e));
  }

  Loads-Steps :
      {r r' : Replica slab} {most : ℕ} (n : ℕ)
      → 0 < n
      → 2 * most ≤ n
      → Loads slab r r' most
      → Steps r r' n
  Loads-Steps n some_weight small f = record {
    config = f.config;
    less = omega (arith, f.load_le, small);
    ranked = f.ranked;
    calm = λ e. absurd (omega (arith, e, some_weight));
  }

  perform-Steps :
      (r : Replica slab) (action : ReplicaCoreAction) {s : Sent slab}
      → 0 < r.core.config.max_batch_size
      → perform slab prim schemes r action ≡ done s
      → Steps r s.0 (weight (action ∷ []))
  unfolding perform
  perform-Steps r (ReplicaCoreAction.propose node) room h =
      Loads-Steps 2 (omega arith) (omega arith)
        (on_propose-Loads slab laws schemes prim r node room h)
  perform-Steps r (ReplicaCoreAction.vote key) room h =
      Loads-Steps 1 (omega arith) (omega arith) (on_vote-Loads slab laws schemes prim r key room h)
  perform-Steps r (ReplicaCoreAction.finalize key) room h =
      let (node, e, h2) = >>=-eq-done (node_at slab r.core key) _ h in
      rw (← done_eq h2)
        (record { config = refl; less = omega arith; ranked = λ k. k; calm = λ z. refl })

  perform_all-Steps :
      (r : Replica slab) (actions : Actions) {s : Sent slab}
      → 0 < r.core.config.max_batch_size
      → perform_all slab prim schemes r actions ≡ done s
      → Steps r s.0 (weight actions)
  unfolding perform_all
  perform_all-Steps r [] room h =
      rw (← done_eq h)
        (record { config = refl; less = omega arith; ranked = λ k. k; calm = λ z. refl })
  perform_all-Steps r (action ∷ actions) room h =
      let (s, e, h2) = >>=-eq-done (perform slab prim schemes r action) _ h in
      let (t, e2, h3) = >>=-eq-done (perform_all slab prim schemes s.0 actions) _ h2 in
      let f = perform-Steps r action room e in
      let room' : 0 < s.0.core.config.max_batch_size = rw f.config room in
      rw (← done_eq h3, weight-append (action ∷ []) actions)
        (Steps-trans f (perform_all-Steps s.0 actions room' e2))

  perform_all-ends :
      (r : Replica slab) (actions : Actions)
      → 0 < r.core.config.max_batch_size
      → Ranked slab r.core
      → perform_all slab prim schemes r actions ≢ out_of_fuel
  unfolding perform_all
  perform_all-ends r [] room k = done-ends _
  perform_all-ends r (action ∷ actions) room k =
      >>=-ends (perform slab prim schemes r action) _ (perform-ends r action k) λ s e.
        let f = perform-Steps r action room e in
        let room' : 0 < s.0.core.config.max_batch_size = rw f.config room in
        >>=-ends (perform_all slab prim schemes s.0 actions) _
          (perform_all-ends s.0 actions room' (f.ranked k)) (λ t e2. done-ends _)

  effect-nil :
      (fuel : ℕ) (r : Replica slab) (actions : Actions)
      → actions ≡ []
      → effect slab prim schemes fuel r actions ≢ out_of_fuel
  unfolding effect
  effect-nil zero r [] e = done-ends _
  effect-nil (suc fuel) r [] e = done-ends _
  effect-nil fuel r (action ∷ actions) e = absurd (cc)

  effect-ends :
      (fuel : ℕ) (r : Replica slab) (actions : Actions)
      → 0 < r.core.config.max_batch_size
      → Ranked slab r.core
      → 3 * work slab r.core + weight actions < fuel
      → effect slab prim schemes fuel r actions ≢ out_of_fuel
  unfolding effect
  effect-ends zero r actions room k enough = absurd (omega (arith, enough))
  effect-ends (suc fuel) r [] room k enough = done-ends _
  effect-ends (suc fuel) r (action ∷ actions) room k enough =
      let r1 : Replica slab = record r { core_actions = [] } in
      >>=-ends (perform_all slab prim schemes r1 (action ∷ actions)) _
        (perform_all-ends r1 (action ∷ actions) room k)
        λ s e.
          let f = perform_all-Steps r1 (action ∷ actions) room e in
          let room' : 0 < s.0.core.config.max_batch_size = rw f.config room in
          >>=-ends (effect slab prim schemes fuel s.0 s.0.core_actions) _
            (elim (zero_or_more (weight (action ∷ actions))) [
              | inl idle ↦ effect-nil fuel s.0 s.0.core_actions (f.calm idle)
              | inr busy ↦
                  effect-ends fuel s.0 s.0.core_actions room' (f.ranked k)
                    (omega (arith, f.less, busy, enough))
            ])
            (λ t e2. done-ends _)

  -- On a core whose nodes are stored after their parents, with room for a command in a batch, the
  -- loop over the actions of the core comes to an end: the commands and the empty rounds that are
  -- left to propose, with the actions that there are, bound its rounds.
  pub effect_enough :
      (fuel : ℕ) (r : Replica slab)
      → 0 < r.core.config.max_batch_size
      → Ranked slab r.core
      → load slab r < fuel
      → effect_core_actions slab prim schemes fuel r ≢ out_of_fuel
  unfolding effect_core_actions
  effect_enough fuel r room k enough = effect-ends fuel r r.core_actions room k enough
