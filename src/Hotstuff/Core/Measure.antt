-- ===== src/Hotstuff/Core/Measure.antt =====
-- What bounds the proposals of the core of HotStuff: the pending commands, and the rounds that are
-- left.
use bft_kit.Base.{
  ℕ, ◌+◌, ◌*◌, ◌≤◌, ◌<◌, ◌≡◌, refl, ◌∙◌, ap, Bool, true, false, ◌&&◌, ◌||◌, Option, none, some,
  List, ◌++◌, length, length-append, ltb, ◌==◌, is_some, if◌then◌else◌, Outcome, done, assert,
  unwrap, >>=-eq-done, Bool-cases, inl, inr, u32_mod, wrapping_sub, arith,
}
use bft_kit.Base.Map.{lookup}
use bft_kit.Command.{Command}
use bft_kit.Pool
use bft_kit.Pool.Takes.{Takes}
use bft_kit.Pool.Size.{pending, close_batch-size}
use bft_kit.Crypto.{Digest}
use bft_kit.Hotstuff.Message
use bft_kit.Hotstuff.Slab.{Slab}
use bft_kit.Hotstuff.Core.{
  QuorumCert, ReplicaCore, ReplicaCoreEvent, Actions, leader, or_nil, node_at, cert_at, on_beat,
  beat, ingest, should_vote, cast, update, on_proposed, on_quorum_cert, react, handle,
}
use bft_kit.Hotstuff.Core.Quiet.{votes_of, votes_of-append, beat-Quiet, update-Quiet, done_eq}
use bft_kit.Hotstuff.Core.Calm.{
  proposals_of, proposals_of-append, Calm, Calm-trans, update_quorum_cert_high-Calm, ingest-Calm,
  cast-Calm, update-Calm,
}
use bft_kit.Pbft.Core.Phases.{done_pair}

Takes-le :
    (before after : ℕ) (commands : Option (List Command))
    → Takes before after commands
    → after ≤ before
Takes-le before after none t = t
Takes-le before after (some commands) t = omega (arith, t.1)

-- The rounds that are left after a proposal.
abbrev rounds_after : Option (List Command) → ℕ → ℕ
rounds_after commands extra =
    if length (or_nil commands) == 0 then wrapping_sub u32_mod extra 1 else 3

proposal_work :
    (before after extra : ℕ) (commands : Option (List Command))
    → Takes before after commands
    → (is_some commands || ltb 0 extra) ≡ true
    → 4 * after + rounds_after commands extra + 1 ≤ 4 * before + extra
proposal_work before after extra none t h = ground arith
proposal_work before after extra (some commands) (more, less) h =
    let full : (length commands == 0) ≡ false = ground arith in rw full (omega arith)

&&-right : (a b : Bool) → (a && b) ≡ true → b ≡ true
&&-right true b h = h
&&-right false b h = absurd (cc)

module _ (slab : Slab) where
  -- Each pending command may lead to a proposal and three empty ones.
  abbrev pub work : ReplicaCore slab → ℕ
  work core = 4 * pending core.pool + core.num_extra_round

  -- The work goes down by each proposal.
  pub record Works (core core' : ReplicaCore slab) (actions : Actions) (most_votes : ℕ)
      : Type 0 where
    pub config : core'.config ≡ core.config
    pub less : work core' + proposals_of actions ≤ work core
    pub votes : length (votes_of actions) ≤ most_votes

  on_beat-work :
      (core : ReplicaCore slab) (commands : Option (List Command)) (before : ℕ)
      {core' : ReplicaCore slab} {actions : Actions}
      → Takes before (pending core.pool) commands
      → on_beat slab core commands ≡ done (core', actions)
      → (core'.config ≡ core.config)
        × (work core' + proposals_of actions ≤ 4 * before + core.num_extra_round)
  unfolding on_beat
  on_beat-work core commands before takes h =
      elim (Bool-cases
        (core.config.id == leader && (is_some commands || ltb 0 core.num_extra_round))) [
          | inr e ↦
              let (same, acts) = done_pair (rw e at h) in
              rw (← same, ← acts)
                (refl, omega (arith, Takes-le before (pending core.pool) commands takes))
          | inl e ↦
              let (leaf, e2, h2) = >>=-eq-done (node_at slab core core.block_leaf) _ (rw e at h) in
              let (same, acts) = done_pair h2 in
              rw (← same, ← acts)
                (
                  refl,
                  proposal_work before (pending core.pool) core.num_extra_round commands takes
                      (&&-right (core.config.id == leader) _ e),
                )
        ]

  beat-Works :
      (core : ReplicaCore slab) {core' : ReplicaCore slab} {actions : Actions}
      → 0 < core.config.max_batch_size
      → beat slab core ≡ done (core', actions)
      → Works core core' actions 0
  unfolding beat
  beat-Works core room h =
      let quiet = beat-Quiet slab core h in
      let (high, e, h2) = >>=-eq-done (cert_at slab core core.quorum_cert_high) _ h in
      elim (Bool-cases (high.node == core.block_leaf)) [
        | inr e2 ↦
            let (same, acts) = done_pair (rw e2 at h2) in
            rw (← same, ← acts) (record { config = refl; less = omega arith; votes = omega arith })
        | inl e2 ↦
            let (r, closes, h3) =
              >>=-eq-done (Pool.close_batch core.pool core.config.max_batch_size) _ (rw e2 at h2) in
            let takes = close_batch-size core.pool core.config.max_batch_size room closes in
            let (config, less) =
              on_beat-work (record core { pool = r.0 }) r.1 (pending core.pool) takes h3 in
            record { config = config; less = less; votes = omega (arith, ap length quiet.votes) }
      ]

  Calm-Works :
      {a b c : ReplicaCore slab} {xs ys : Actions} {n : ℕ}
      → Calm slab a b xs
      → length (votes_of xs) ≤ n
      → Works b c ys 0
      → Works a c (xs ++ ys) n
  Calm-Works {a} {b} {c} {xs} {ys} calm few w = record {
    config = w.config ∙ calm.config;
    less = omega (arith, proposals_of-append xs ys, calm.proposals, calm.size, calm.extra, w.less);
    votes = omega (
      arith,
      ap length (votes_of-append xs ys),
      length-append (votes_of xs) (votes_of ys),
      w.votes,
      few,
    );
  }

  cast-votes :
      (core : ReplicaCore slab) (key : ℕ) {r : ReplicaCore slab × Actions}
      → cast slab core key ≡ done r
      → length (votes_of r.1) ≡ 1
  unfolding cast
  cast-votes core key h =
      let (block, e, h2) = >>=-eq-done (node_at slab core key) _ h in rw (← done_eq h2) refl

  on_proposed-Calm :
      (core : ReplicaCore slab) (block_digest : Digest) (block : Message.Block)
      {r : ReplicaCore slab × Actions}
      → on_proposed slab core block_digest block ≡ done r
      → Calm slab core r.0 r.1 × (length (votes_of r.1) ≤ 1)
  unfolding on_proposed
  on_proposed-Calm core block_digest block h =
      let (s, ingests, h2) = >>=-eq-done (ingest slab core block_digest block) _ h in
      let (votes, tests, h3) = >>=-eq-done (should_vote slab s.0 s.1) _ h2 in
      let (u, right, h4) = >>=-eq-done (assert votes) _ h3 in
      let (t, casts, h5) = >>=-eq-done (cast slab s.0 s.1) _ h4 in
      let core1 : ReplicaCore slab = record t.0 { block_leaf = s.1 } in
      let (v, updates, h6) = >>=-eq-done (update slab core1 s.1) _ h5 in
      let i = ingest-Calm slab core block_digest block ingests in
      let c = cast-Calm slab s.0 s.1 casts in
      let c1 : Calm slab s.0 core1 t.1 = record {
        config = c.config;
        extra = c.extra;
        size = c.size;
        proposals = c.proposals;
      } in
      let whole = Calm-trans slab i (Calm-trans slab c1 (update-Calm slab core1 s.1 updates)) in
      rw (← done_eq h6) (
        whole,
        omega (
          arith,
          ap length (votes_of-append t.1 v.1),
          length-append (votes_of t.1) (votes_of v.1),
          ap length (update-Quiet slab core1 s.1 updates).votes,
          cast-votes s.0 s.1 casts,
        ),
      )

  Works-done :
      {a b : ReplicaCore slab} {xs : Actions} {n : ℕ} {r : ReplicaCore slab × Actions}
      → ◌≡◌ {A = Outcome (ReplicaCore slab × Actions)} (done (b, xs)) (done r)
      → Works a b xs n
      → Works a r.0 r.1 n
  Works-done h w = rw (← done_eq h) w

  -- A proposal of its own takes no more work than there was, with one vote.
  pub proposed-Works :
      (core : ReplicaCore slab) (block_digest : Digest) (block : Message.Block)
      {r : ReplicaCore slab × Actions}
      → 0 < core.config.max_batch_size
      → handle slab core (ReplicaCoreEvent.proposed block_digest block) ≡ done r
      → Works core r.0 r.1 1
  unfolding handle react
  proposed-Works core block_digest block room h =
      let (s, reacts, h2) = >>=-eq-done (on_proposed slab core block_digest block) _ h in
      let (t, beats, h3) = >>=-eq-done (beat slab s.0) _ h2 in
      let (calm, few) = on_proposed-Calm core block_digest block reacts in
      let room' : 0 < s.0.config.max_batch_size = rw calm.config room in
      Works-done h3 (Calm-Works calm few (beat-Works s.0 room' beats))

  -- Nor does a certificate, with no vote.
  pub quorum_cert-Works :
      (core : ReplicaCore slab) (cert : Message.QuorumCert) {r : ReplicaCore slab × Actions}
      → 0 < core.config.max_batch_size
      → handle slab core (ReplicaCoreEvent.quorum_cert cert) ≡ done r
      → Works core r.0 r.1 0
  unfolding handle react on_quorum_cert
  quorum_cert-Works core cert room h =
      let (s, reacts, h2) = >>=-eq-done (react slab core (ReplicaCoreEvent.quorum_cert cert)) _ h in
      let (t, beats, h3) = >>=-eq-done (beat slab s.0) _ h2 in
      let (c, certs, g2) = >>=-eq-done (on_quorum_cert slab core cert) _ reacts in
      let (node, e, g3) = >>=-eq-done (unwrap (lookup cert.node core.node_index)) _ certs in
      let added =
        slab.insert QuorumCert core.quorum_certs (record { node = node; sig = cert.sig }) in
      let core1 : ReplicaCore slab = record core { quorum_certs = added.0 } in
      let q = update_quorum_cert_high-Calm slab core1 added.1 g3 in
      let calm : Calm slab core s.0 s.1 =
        rw (← done_eq g2)
          (record { config = q.config; extra = q.extra; size = q.size; proposals = refl }) in
      let few : length (votes_of s.1) ≤ 0 = rw (← done_eq g2) (omega arith) in
      let room' : 0 < s.0.config.max_batch_size = rw calm.config room in
      Works-done h3 (Calm-Works calm few (beat-Works s.0 room' beats))
