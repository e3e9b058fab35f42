-- ===== src/Hotstuff/Core/Votes.antt =====
-- A replica of HotStuff votes at most once at each height.
use bft_kit.Base.{
  ℕ, ◌+◌, ◌≤◌, ◌<◌, ◌≡◌, refl, ◌∙◌, ap, true, false, List, [], ◌∷◌, ◌++◌, length, length-append,
  ltb, if◌then◌else◌, Outcome, done, assert, unwrap, ◌>>=◌, >>=-eq-done, Bool-cases, inl, inr,
  arith,
}
use bft_kit.Base.Map.{lookup}
use bft_kit.Pool
use bft_kit.Crypto.{Digest}
use bft_kit.Hotstuff.Message
use bft_kit.Hotstuff.Slab.{Slab}
use bft_kit.Hotstuff.Core.{
  NodeData, QuorumCert, ReplicaCore, ReplicaCoreEvent, Actions, node_at, beat, ingest, should_vote,
  update, cast, on_proposed, on_proposal, on_quorum_cert, react, handle,
}
use bft_kit.Pbft.Core.Phases.{done_pair}
use bft_kit.Hotstuff.Core.Quiet.{
  votes_of, votes_of-append, Quiet, update_quorum_cert_high-Quiet, beat-Quiet, update-Quiet,
  ingest_height,
}

module _ (slab : Slab) where
  should_vote_height :
      (core : ReplicaCore slab) (key : ℕ)
      → should_vote slab core key ≡ done true
      → (block : NodeData) × (node_at slab core key ≡ done block)
        × (core.vote_height < block.height)
  unfolding should_vote
  should_vote_height core key h =
      let (block, e, h2) = >>=-eq-done (node_at slab core key) _ h in
      elim (Bool-cases (ltb core.vote_height block.height)) [
        | inl lt ↦ (block, e, ground arith)
        | inr ge ↦ let h3 : done false ≡ done true = rw ge at h2 in absurd (cc)
      ]

  -- What an event does to the votes.
  pub data Voting (core core' : ReplicaCore slab) (actions : Actions) : Type 0 where
    -- No vote, and the height of the last vote stays;
    silent :
        core'.vote_height ≡ core.vote_height → votes_of actions ≡ [] → Voting core core' actions
    -- or one vote, for a node above all that were voted for, whose height is kept.
    voted :
        (key : ℕ) (block : NodeData)
        → votes_of actions ≡ key ∷ []
        → node_at slab core' key ≡ done block
        → core'.vote_height ≡ block.height
        → core.vote_height < core'.vote_height
        → Voting core core' actions

  Voting-done :
      {a b c : ReplicaCore slab} {xs ys : Actions}
      → ◌≡◌ {A = Outcome (ReplicaCore slab × Actions)} (done (b, xs)) (done (c, ys))
      → Voting a b xs
      → Voting a c ys
  Voting-done h v = let (same, acts) = done_pair h in rw (← same, ← acts) v

  Voting-Quiet :
      {a b c : ReplicaCore slab} {xs ys : Actions}
      → Voting a b xs
      → Quiet slab b c ys
      → Voting a c (xs ++ ys)
  unfolding node_at
  Voting-Quiet {a} {b} {c} {xs} {ys} (silent e v) q =
      silent (q.height ∙ e) (rw (votes_of-append xs ys, v, q.votes) refl)
  Voting-Quiet {a} {b} {c} {xs} {ys} (voted key block v at height lt) q =
      voted key block (rw (votes_of-append xs ys, v, q.votes) refl) (rw q.nodes at)
        (q.height ∙ height) (rw q.height lt)

  -- The vote that follows a test of `should_vote`.
  cast-Voting :
      (core core1 : ReplicaCore slab) (key : ℕ) {core' : ReplicaCore slab} {actions : Actions}
      → core1.vote_height ≡ core.vote_height
      → should_vote slab core1 key ≡ done true
      → cast slab core1 key ≡ done (core', actions)
      → Voting core core' actions
  unfolding cast node_at
  cast-Voting core core1 key same votes h =
      let (block, at, lt) = should_vote_height core1 key votes in
      let (block', at', h2) = >>=-eq-done (node_at slab core1 key) _ h in
      let agree : block ≡ block' = cc in
      let (moved, acts) = done_pair h2 in
      let above : core.vote_height < block'.height =
        omega (arith, lt, same, ap (λ b. b.height) agree) in
      rw (← moved, ← acts) (voted key block' refl at' refl above)

  leaf-Voting :
      {a b : ReplicaCore slab} {xs : Actions} (key : ℕ)
      → Voting a b xs
      → Voting a (record b { block_leaf = key }) xs
  unfolding node_at
  leaf-Voting key (silent e v) = silent e v
  leaf-Voting key (voted k block v at height lt) = voted k block v at height lt

  on_proposed-Voting :
      (core : ReplicaCore slab) (block_digest : Digest) (block : Message.Block)
      {core' : ReplicaCore slab} {actions : Actions}
      → on_proposed slab core block_digest block ≡ done (core', actions)
      → Voting core core' actions
  unfolding on_proposed
  on_proposed-Voting core block_digest block h =
      let (r, ingests, h2) = >>=-eq-done (ingest slab core block_digest block) _ h in
      let (votes, tests, h3) = >>=-eq-done (should_vote slab r.0 r.1) _ h2 in
      let (u, right, h4) = >>=-eq-done (assert votes) _ h3 in
      let (s, casts, h5) = >>=-eq-done (cast slab r.0 r.1) _ h4 in
      let (t, updates, h6) = >>=-eq-done (update slab (record s.0 { block_leaf = r.1 }) r.1) _ h5 in
      let in_favour : votes ≡ true = ground arith in
      let first =
        cast-Voting core r.0 r.1 (ingest_height slab core block_digest block ingests)
          (rw in_favour at tests) casts in
      Voting-done h6 (
        Voting-Quiet (leaf-Voting r.1 first)
          (update-Quiet slab (record s.0 { block_leaf = r.1 }) r.1 updates))

  on_proposal-Voting :
      (core : ReplicaCore slab) (block_digest : Digest) (block : Message.Block)
      {core' : ReplicaCore slab} {actions : Actions}
      → on_proposal slab core block_digest block ≡ done (core', actions)
      → Voting core core' actions
  unfolding on_proposal
  on_proposal-Voting core block_digest block h =
      let (r, ingests, h2) = >>=-eq-done (ingest slab core block_digest block) _ h in
      let (votes, tests, h3) = >>=-eq-done (should_vote slab r.0 r.1) _ h2 in
      let height = ingest_height slab core block_digest block ingests in
      let (s, casts, h4) = >>=-eq-done (if votes then cast slab r.0 r.1 else done (r.0, [])) _ h3 in
      let (t, updates, h5) = >>=-eq-done (update slab s.0 r.1) _ h4 in
      let first : Voting core s.0 s.1 = elim (Bool-cases votes) [
        | inl in_favour ↦
            cast-Voting core r.0 r.1 height (rw in_favour at tests) (rw in_favour at casts)
        | inr against ↦ Voting-done (rw against at casts) (silent height refl)
      ] in
      Voting-done h5 (Voting-Quiet first (update-Quiet slab s.0 r.1 updates))

  react-Voting :
      (core : ReplicaCore slab) (event : ReplicaCoreEvent) {core' : ReplicaCore slab}
      {actions : Actions}
      → react slab core event ≡ done (core', actions)
      → Voting core core' actions
  unfolding react on_quorum_cert
  react-Voting core (ReplicaCoreEvent.request command) h =
      let (r, pushes, h2) = >>=-eq-done (Pool.push core.pool command) _ h in
      Voting-done h2 (silent refl refl)
  react-Voting core (ReplicaCoreEvent.proposed block_digest block) h =
      on_proposed-Voting core block_digest block h
  react-Voting core (ReplicaCoreEvent.proposal block_digest block) h =
      on_proposal-Voting core block_digest block h
  react-Voting core (ReplicaCoreEvent.quorum_cert cert) h =
      let (c, certs, h2) = >>=-eq-done (on_quorum_cert slab core cert) _ h in
      let (node, e, h3) = >>=-eq-done (unwrap (lookup cert.node core.node_index)) _ certs in
      let q =
        update_quorum_cert_high-Quiet slab
          (record core {
            quorum_certs =
                (slab.insert QuorumCert core.quorum_certs
                  (record { node = node; sig = cert.sig })).0;
          })
          (slab.insert QuorumCert core.quorum_certs (record { node = node; sig = cert.sig })).1
          h3 in
      Voting-done h2 (silent q.height refl)

  -- Whatever event the core handles, it votes for at most one node. A node that it votes for is higher
  -- than the height of every vote before, and its height is kept as that of the last vote.
  pub handle-Voting :
      (core : ReplicaCore slab) (event : ReplicaCoreEvent) {core' : ReplicaCore slab}
      {actions : Actions}
      → handle slab core event ≡ done (core', actions)
      → Voting core core' actions
  unfolding handle react
  handle-Voting core event h =
      let (r, reacts, h2) = >>=-eq-done (react slab core event) _ h in
      let (s, beats, h3) = >>=-eq-done (beat slab r.0) _ h2 in
      Voting-done h3 (Voting-Quiet (react-Voting core event reacts) (beat-Quiet slab r.0 beats))

  -- Events one after another, with the nodes voted for.
  unfoldable pub run :
      ReplicaCore slab → List ReplicaCoreEvent → Outcome (ReplicaCore slab × List ℕ)
  run core [] = done (core, [])
  run core (event ∷ events) = do
    (core', actions) ← handle slab core event
    (core'', votes) ← run core' events
    done (core'', votes_of actions ++ votes)

  votes_below :
      {core core' : ReplicaCore slab} {actions : Actions}
      → Voting core core' actions
      → length (votes_of actions) + core.vote_height ≤ core'.vote_height
  votes_below (silent e v) = omega (arith, e, ap length v)
  votes_below (voted key block v at height lt) = omega (arith, lt, ap length v)

  -- Over any events that a core handles, it votes at most once for each height that it goes up.
  pub run_votes :
      (core : ReplicaCore slab) (events : List ReplicaCoreEvent) {core' : ReplicaCore slab}
      {votes : List ℕ}
      → run core events ≡ done (core', votes)
      → length votes + core.vote_height ≤ core'.vote_height
  unfolding run
  run_votes core [] h =
      let (same, none_cast) = done_pair h in
      omega (arith, ap (λ c. c.vote_height) same, ap length none_cast)
  run_votes core (event ∷ events) h =
      let (r, handles, h2) = >>=-eq-done (handle slab core event) _ h in
      let (s, rest, h3) = >>=-eq-done (run r.0 events) _ h2 in
      let (same, votes) = done_pair h3 in
      omega (
        arith,
        ap (λ c. c.vote_height) same,
        ap length votes,
        length-append (votes_of r.1) s.1,
        votes_below (handle-Voting core event handles),
        run_votes r.0 events rest,
      )
