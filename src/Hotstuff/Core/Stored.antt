-- ===== src/Hotstuff/Core/Stored.antt =====
-- Every event keeps the nodes of a core stored after their parents.
use bft_kit.Base.{
  ℕ, ◌≡◌, refl, Bool, true, false, [], if◌then◌else◌, Outcome, done, assert, unwrap, >>=-eq-done,
}
use bft_kit.Base.Map.{lookup}
use bft_kit.Pool
use bft_kit.Crypto.{Digest}
use bft_kit.Hotstuff.Message
use bft_kit.Hotstuff.Slab.{Slab, IsSlab}
use bft_kit.Hotstuff.Core.{
  QuorumCert, ReplicaCore, ReplicaCoreEvent, Actions, node_at, ingest, should_vote, cast, update,
  on_proposed, on_proposal, on_quorum_cert, react, beat, handle,
}
use bft_kit.Hotstuff.Core.Quiet.{Quiet, update_quorum_cert_high-Quiet, beat-Quiet, update-Quiet}
use bft_kit.Hotstuff.Core.Ancestors.{Ranked, moved-Ranked, ingest-Ranked}
use bft_kit.Pbft.Core.Phases.{done_pair}

module _ (slab : Slab) (laws : IsSlab slab) where
  pub Quiet-Ranked :
      {core core' : ReplicaCore slab} {actions : Actions}
      → Quiet slab core core' actions
      → Ranked slab core
      → Ranked slab core'
  Quiet-Ranked q r = moved-Ranked slab laws q.nodes q.index r

  Ranked-done :
      {b c : ReplicaCore slab} {xs ys : Actions}
      → ◌≡◌ {A = Outcome (ReplicaCore slab × Actions)} (done (b, xs)) (done (c, ys))
      → Ranked slab b
      → Ranked slab c
  Ranked-done h r = rw (← (done_pair h).0) r

  pub cast-Ranked :
      (core : ReplicaCore slab) (key : ℕ) {core' : ReplicaCore slab} {actions : Actions}
      → cast slab core key ≡ done (core', actions)
      → Ranked slab core
      → Ranked slab core'
  unfolding cast
  cast-Ranked core key h r =
      let (block, at, h2) = >>=-eq-done (node_at slab core key) _ h in
      rw (← (done_pair h2).0) (moved-Ranked slab laws refl refl r)

  on_proposed-Ranked :
      (core : ReplicaCore slab) (block_digest : Digest) (block : Message.Block)
      {core' : ReplicaCore slab} {actions : Actions}
      → on_proposed slab core block_digest block ≡ done (core', actions)
      → Ranked slab core
      → Ranked slab core'
  unfolding on_proposed
  on_proposed-Ranked core block_digest block h k =
      let (r, ingests, h2) = >>=-eq-done (ingest slab core block_digest block) _ h in
      let (votes, tests, h3) = >>=-eq-done (should_vote slab r.0 r.1) _ h2 in
      let (u, right, h4) = >>=-eq-done (assert votes) _ h3 in
      let (s, casts, h5) = >>=-eq-done (cast slab r.0 r.1) _ h4 in
      let (t, updates, h6) = >>=-eq-done (update slab (record s.0 { block_leaf = r.1 }) r.1) _ h5 in
      let stored = ingest-Ranked slab laws core block_digest block k ingests in
      let voted =
        moved-Ranked slab laws {core' = record s.0 { block_leaf = r.1 }} refl refl
          (cast-Ranked r.0 r.1 casts stored) in
      Ranked-done h6
        (Quiet-Ranked (update-Quiet slab (record s.0 { block_leaf = r.1 }) r.1 updates) voted)

  -- The vote of `on_proposal`, if it is cast.
  pub voted-Ranked :
      (core : ReplicaCore slab) (key : ℕ) (votes : Bool) {r : ReplicaCore slab × Actions}
      → (if votes then cast slab core key else done (core, [])) ≡ done r
      → Ranked slab core
      → Ranked slab r.0
  voted-Ranked core key true h k = cast-Ranked core key h k
  voted-Ranked core key false h k = Ranked-done h k

  on_proposal-Ranked :
      (core : ReplicaCore slab) (block_digest : Digest) (block : Message.Block)
      {core' : ReplicaCore slab} {actions : Actions}
      → on_proposal slab core block_digest block ≡ done (core', actions)
      → Ranked slab core
      → Ranked slab core'
  unfolding on_proposal
  on_proposal-Ranked core block_digest block h k =
      let (r, ingests, h2) = >>=-eq-done (ingest slab core block_digest block) _ h in
      let (votes, tests, h3) = >>=-eq-done (should_vote slab r.0 r.1) _ h2 in
      let (s, casts, h4) = >>=-eq-done (if votes then cast slab r.0 r.1 else done (r.0, [])) _ h3 in
      let (t, updates, h5) = >>=-eq-done (update slab s.0 r.1) _ h4 in
      let stored = ingest-Ranked slab laws core block_digest block k ingests in
      let voted = voted-Ranked r.0 r.1 votes casts stored in
      Ranked-done h5 (Quiet-Ranked (update-Quiet slab s.0 r.1 updates) voted)

  react-Ranked :
      (core : ReplicaCore slab) (event : ReplicaCoreEvent) {core' : ReplicaCore slab}
      {actions : Actions}
      → react slab core event ≡ done (core', actions)
      → Ranked slab core
      → Ranked slab core'
  unfolding react on_quorum_cert
  react-Ranked core (ReplicaCoreEvent.request command) h k =
      let (r, pushes, h2) = >>=-eq-done (Pool.push core.pool command) _ h in
      Ranked-done h2 (moved-Ranked slab laws refl refl k)
  react-Ranked core (ReplicaCoreEvent.proposed block_digest block) h k =
      on_proposed-Ranked core block_digest block h k
  react-Ranked core (ReplicaCoreEvent.proposal block_digest block) h k =
      on_proposal-Ranked core block_digest block h k
  react-Ranked core (ReplicaCoreEvent.quorum_cert cert) h k =
      let (c, certs, h2) = >>=-eq-done (on_quorum_cert slab core cert) _ h in
      let (node, e, h3) = >>=-eq-done (unwrap (lookup cert.node core.node_index)) _ certs in
      let added =
        slab.insert QuorumCert core.quorum_certs (record { node = node; sig = cert.sig }) in
      let core1 : ReplicaCore slab = record core { quorum_certs = added.0 } in
      let q = update_quorum_cert_high-Quiet slab core1 added.1 h3 in
      Ranked-done h2 (Quiet-Ranked q (moved-Ranked slab laws {core' = core1} refl refl k))

  -- Every event that a core of HotStuff handles keeps its nodes stored after their parents, whatever
  -- heights and parents the blocks of the messages claim.
  pub handle-Ranked :
      (core : ReplicaCore slab) (event : ReplicaCoreEvent) {core' : ReplicaCore slab}
      {actions : Actions}
      → Ranked slab core
      → handle slab core event ≡ done (core', actions)
      → Ranked slab core'
  unfolding handle
  handle-Ranked core event k h =
      let (r, reacts, h2) = >>=-eq-done (react slab core event) _ h in
      let (s, beats, h3) = >>=-eq-done (beat slab r.0) _ h2 in
      Ranked-done h3 (Quiet-Ranked (beat-Quiet slab r.0 beats) (react-Ranked core event reacts k))
