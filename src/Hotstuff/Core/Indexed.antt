-- ===== src/Hotstuff/Core/Indexed.antt =====
-- What the events of the core of HotStuff do to the index of its nodes.
use bft_kit.Base.{
  ℕ, ◌≡◌, refl, ◌∙◌, true, false, not, [], if◌then◌else◌, Bool, Option-cases, inl, inr, Outcome,
  done, assert, unwrap, >>=-eq-done,
}
use bft_kit.Base.Map.{lookup, insert, contains}
use bft_kit.Command.{Command}
use bft_kit.Pool
use bft_kit.Crypto.{Digest}
use bft_kit.Hotstuff.Message
use bft_kit.Hotstuff.Slab.{Slab}
use bft_kit.Hotstuff.Core.{
  QuorumCert, ReplicaCore, ReplicaCoreEvent, Actions, node_at, ingest_cert, ingest, should_vote,
  cast, update, on_proposed, on_proposal, on_quorum_cert, react, beat, handle,
}
use bft_kit.Hotstuff.Core.Quiet.{done_eq, update_quorum_cert_high-Quiet, beat-Quiet, update-Quiet}

module _ (slab : Slab) where
  ingest_cert-index :
      (core : ReplicaCore slab) (justify : Message.QuorumCert) {r : ReplicaCore slab × ℕ}
      → ingest_cert slab core justify ≡ done r
      → r.0.node_index ≡ core.node_index
  unfolding ingest_cert
  ingest_cert-index core justify h =
      elim (Option-cases (lookup justify.node core.quorum_cert_index)) [
        | inr (key, e) ↦ let same = done_eq (rw (e, ingest_cert) at h) in rw (← same) refl
        | inl e ↦
            let (node, e2, h2) =
              >>=-eq-done (unwrap (lookup justify.node core.node_index)) _
                (rw (e, ingest_cert) at h) in
            rw (← done_eq h2) refl
      ]

  ingest-index :
      (core : ReplicaCore slab) (block_digest : Digest) (block : Message.Block)
      {r : ReplicaCore slab × ℕ}
      → ingest slab core block_digest block ≡ done r
      → r.0.node_index ≡ insert block_digest r.1 core.node_index
  unfolding ingest
  ingest-index core block_digest block h =
      let (s, certs, h2) = >>=-eq-done (ingest_cert slab core block.justify) _ h in
      let (parent, e, h3) = >>=-eq-done (unwrap (lookup block.parent s.0.node_index)) _ h2 in
      let (u, fresh, h4) = >>=-eq-done (assert (not (contains block_digest s.0.node_index))) _ h3 in
      rw (← done_eq h4, ← ingest_cert-index core block.justify certs) refl

  cast-index :
      (core : ReplicaCore slab) (votes : Bool) (key : ℕ) {r : ReplicaCore slab × Actions}
      → (if votes then cast slab core key else done (core, [])) ≡ done r
      → r.0.node_index ≡ core.node_index
  unfolding cast
  cast-index core true key h =
      let (block, e, h2) = >>=-eq-done (node_at slab core key) _ h in rw (← done_eq h2) refl
  cast-index core false key h = rw (← done_eq h) refl

  -- The index of the core that a step returns.
  index_of-done :
      {A : Type 0} {c : ReplicaCore slab} {x : A} {r : ReplicaCore slab × A}
      → ◌≡◌ {A = Outcome (ReplicaCore slab × A)} (done (c, x)) (done r)
      → r.0.node_index ≡ c.node_index
  index_of-done h = rw (← done_eq h) refl

  -- A proposal adds its digest to the index, and nothing else.
  pub proposal-index :
      (core : ReplicaCore slab) (block_digest : Digest) (block : Message.Block)
      {r : ReplicaCore slab × Actions}
      → handle slab core (ReplicaCoreEvent.proposal block_digest block) ≡ done r
      → (key : ℕ) × (r.0.node_index ≡ insert block_digest key core.node_index)
  unfolding handle react on_proposal
  proposal-index core block_digest block h =
      let (a, reacts, h1) = >>=-eq-done (on_proposal slab core block_digest block) _ h in
      let (b, beats, h2) = >>=-eq-done (beat slab a.0) _ h1 in
      let (s, ingests, g1) = >>=-eq-done (ingest slab core block_digest block) _ reacts in
      let (votes, tests, g2) = >>=-eq-done (should_vote slab s.0 s.1) _ g1 in
      let (t, casts, g3) = >>=-eq-done (if votes then cast slab s.0 s.1 else done (s.0, [])) _ g2 in
      let (v, updates, g4) = >>=-eq-done (update slab t.0 s.1) _ g3 in
      (
        s.1,
        index_of-done h2
            ∙ ((beat-Quiet slab a.0 beats).index
                ∙ (index_of-done g4
                    ∙ ((update-Quiet slab t.0 s.1 updates).index
                        ∙ (cast-index s.0 votes s.1 casts
                            ∙ ingest-index core block_digest block ingests)))),
      )

  pub quorum_cert-index :
      (core : ReplicaCore slab) (cert : Message.QuorumCert) {r : ReplicaCore slab × Actions}
      → handle slab core (ReplicaCoreEvent.quorum_cert cert) ≡ done r
      → r.0.node_index ≡ core.node_index
  unfolding handle react on_quorum_cert
  quorum_cert-index core cert h =
      let (a, reacts, h1) = >>=-eq-done (react slab core (ReplicaCoreEvent.quorum_cert cert)) _ h in
      let (b, beats, h2) = >>=-eq-done (beat slab a.0) _ h1 in
      let (c, certs, g1) = >>=-eq-done (on_quorum_cert slab core cert) _ reacts in
      let (node, e, g2) = >>=-eq-done (unwrap (lookup cert.node core.node_index)) _ certs in
      let added =
        slab.insert QuorumCert core.quorum_certs (record { node = node; sig = cert.sig }) in
      let q =
        update_quorum_cert_high-Quiet slab (record core { quorum_certs = added.0 }) added.1 g2 in
      index_of-done h2 ∙ ((beat-Quiet slab a.0 beats).index ∙ (index_of-done g1 ∙ q.index))

  pub proposed-index :
      (core : ReplicaCore slab) (block_digest : Digest) (block : Message.Block)
      {r : ReplicaCore slab × Actions}
      → handle slab core (ReplicaCoreEvent.proposed block_digest block) ≡ done r
      → (key : ℕ) × (r.0.node_index ≡ insert block_digest key core.node_index)
  unfolding handle react on_proposed
  proposed-index core block_digest block h =
      let (a, reacts, h1) = >>=-eq-done (on_proposed slab core block_digest block) _ h in
      let (b, beats, h2) = >>=-eq-done (beat slab a.0) _ h1 in
      let (s, ingests, g1) = >>=-eq-done (ingest slab core block_digest block) _ reacts in
      let (votes, tests, g2) = >>=-eq-done (should_vote slab s.0 s.1) _ g1 in
      let (u, right, g3) = >>=-eq-done (assert votes) _ g2 in
      let (t, casts, g4) = >>=-eq-done (cast slab s.0 s.1) _ g3 in
      let leaf : ReplicaCore slab = record t.0 { block_leaf = s.1 } in
      let (v, updates, g5) = >>=-eq-done (update slab leaf s.1) _ g4 in
      (
        s.1,
        index_of-done h2
            ∙ ((beat-Quiet slab a.0 beats).index
                ∙ (index_of-done g5
                    ∙ ((update-Quiet slab leaf s.1 updates).index
                        ∙ (cast-index s.0 true s.1 casts
                            ∙ ingest-index core block_digest block ingests)))),
      )

  pub request-index :
      (core : ReplicaCore slab) (command : Command) {r : ReplicaCore slab × Actions}
      → handle slab core (ReplicaCoreEvent.request command) ≡ done r
      → r.0.node_index ≡ core.node_index
  unfolding handle react
  request-index core command h =
      let (a, reacts, h1) = >>=-eq-done (react slab core (ReplicaCoreEvent.request command)) _ h in
      let (b, beats, h2) = >>=-eq-done (beat slab a.0) _ h1 in
      let (p, pushes, g1) = >>=-eq-done (Pool.push core.pool command) _ reacts in
      index_of-done h2 ∙ ((beat-Quiet slab a.0 beats).index ∙ index_of-done g1)
