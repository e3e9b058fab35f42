-- ===== src/Hotstuff/Core/Calm.antt =====
-- The steps of the core of HotStuff that propose nothing, and leave no more pending commands.
use bft_kit.Base.{
  ℕ, zero, suc, ◌+◌, ◌≤◌, ◌≡◌, refl, ◌∙◌, Bool, true, false, not, ◌&&◌, List, [], ◌∷◌, ◌++◌, ltb,
  ◌==◌, Outcome, done, assert, unwrap, >>=-eq-done, Bool-cases, Option-cases, inl, inr, arith,
}
use bft_kit.Base.Map.{lookup, contains}
use bft_kit.Command.{Command}
use bft_kit.Pool
use bft_kit.Pool.{CommandPool}
use bft_kit.Pool.Size.{pending, commit-size}
use bft_kit.Crypto.{Digest}
use bft_kit.Hotstuff.Message
use bft_kit.Hotstuff.Slab.{Slab}
use bft_kit.Hotstuff.Core.{
  ReplicaCore, propose, vote, finalize, Actions, commit_all, node_at, cert_at, cert_height,
  update_quorum_cert_high, ingest_cert, ingest, fuel_of, on_commit, lock_on, commit_chain, update,
  cast,
}
use bft_kit.Hotstuff.Core.Quiet.{done_eq}
use bft_kit.Pbft.Core.Phases.{done_pair}

-- How many of the actions propose, and how many vote.
abbrev pub proposals_of : Actions → ℕ
proposals_of [] = 0
proposals_of (propose block ∷ actions) = suc (proposals_of actions)
proposals_of (vote key ∷ actions) = proposals_of actions
proposals_of (finalize key ∷ actions) = proposals_of actions

pub proposals_of-append :
    (xs ys : Actions) → proposals_of (xs ++ ys) ≡ proposals_of xs + proposals_of ys
proposals_of-append [] ys = omega arith
proposals_of-append (propose block ∷ xs) ys = omega (arith, proposals_of-append xs ys)
proposals_of-append (vote key ∷ xs) ys = proposals_of-append xs ys
proposals_of-append (finalize key ∷ xs) ys = proposals_of-append xs ys

commit_all-size :
    (pool : CommandPool) (commands : List Command) {pool' : CommandPool}
    → commit_all pool commands ≡ done pool'
    → pending pool' ≤ pending pool
unfolding commit_all
commit_all-size pool [] h = rw (← done_eq h) (omega arith)
commit_all-size pool (c ∷ commands) h =
    let (p, e, h2) = >>=-eq-done (Pool.commit pool c) _ h in
    omega (arith, commit-size pool c e, commit_all-size p commands h2)

module _ (slab : Slab) where
  pub record Calm (core core' : ReplicaCore slab) (actions : Actions) : Type 0 where
    pub config : core'.config ≡ core.config
    pub extra : core'.num_extra_round ≡ core.num_extra_round
    pub size : pending core'.pool ≤ pending core.pool
    pub proposals : proposals_of actions ≡ 0

  pub Calm-trans :
      {a b c : ReplicaCore slab} {xs ys : Actions} → Calm a b xs → Calm b c ys → Calm a c (xs ++ ys)
  Calm-trans {a} {b} {c} {xs} {ys} s t = record {
    config = t.config ∙ s.config;
    extra = t.extra ∙ s.extra;
    size = omega (arith, s.size, t.size);
    proposals = omega (arith, proposals_of-append xs ys, s.proposals, t.proposals);
  }

  Calm-done :
      {a b c : ReplicaCore slab} {xs ys : Actions}
      → ◌≡◌ {A = Outcome (ReplicaCore slab × Actions)} (done (b, xs)) (done (c, ys))
      → Calm a b xs
      → Calm a c ys
  Calm-done h v = let (same, acts) = done_pair h in rw (← same, ← acts) v

  -- A step that changes neither the pool nor the rounds.
  still :
      (core core' : ReplicaCore slab)
      → core'.config ≡ core.config
      → core'.num_extra_round ≡ core.num_extra_round
      → core'.pool ≡ core.pool
      → Calm core core' []
  still core core' c e p = record {
    config = c;
    extra = e;
    size = rw p (omega arith);
    proposals = refl;
  }

  pub update_quorum_cert_high-Calm :
      (core : ReplicaCore slab) (key : ℕ) {core' : ReplicaCore slab}
      → update_quorum_cert_high slab core key ≡ done core'
      → Calm core core' []
  unfolding update_quorum_cert_high
  update_quorum_cert_high-Calm core key {core'} h =
      let (height, e, h2) = >>=-eq-done (cert_height slab core key) _ h in
      let (high, e2, h3) = >>=-eq-done (cert_height slab core core.quorum_cert_high) _ h2 in
      let (cert, e3, h4) = >>=-eq-done (cert_at slab core key) _ h3 in
      elim (Bool-cases (ltb high height)) [
        | inl lt ↦
            let same : record core { quorum_cert_high = key; block_leaf = cert.node } ≡ core' =
              cc in
            rw (← same) (still core _ refl refl refl)
        | inr ge ↦ let same : core ≡ core' = cc in rw (← same) (still core core refl refl refl)
      ]

  on_commit-Calm :
      (fuel : ℕ) (core : ReplicaCore slab) (key : ℕ) {core' : ReplicaCore slab} {actions : Actions}
      → on_commit slab fuel core key ≡ done (core', actions)
      → Calm core core' actions
  unfolding on_commit
  on_commit-Calm zero core key h = absurd (cc)
  on_commit-Calm (suc fuel) core key h =
      let (executed, e, h2) = >>=-eq-done (node_at slab core core.block_execute) _ h in
      let (block, e2, h3) = >>=-eq-done (node_at slab core key) _ h2 in
      elim (Bool-cases (ltb executed.height block.height)) [
        | inr old ↦ Calm-done (rw old at h3) (still core core refl refl refl)
        | inl new ↦
            let (r, before, h4) =
              >>=-eq-done (on_commit slab fuel core block.parent) _ (rw new at h3) in
            let (pool, commits, h5) = >>=-eq-done (commit_all r.0.pool block.commands) _ h4 in
            let q = on_commit-Calm fuel core block.parent before in
            let core1 : ReplicaCore slab = record r.0 { pool = pool } in
            let acts1 : Actions = r.1 ++ finalize key ∷ [] in
            Calm-done {b = core1} {xs = acts1} h5 (record {
              config = q.config;
              extra = q.extra;
              size = omega (arith, q.size, commit_all-size r.0.pool block.commands commits);
              proposals = omega (arith, proposals_of-append r.1 (finalize key ∷ []), q.proposals);
            })
      ]

  commit_chain-Calm :
      (core : ReplicaCore slab) (chained : Bool) (key : ℕ) {core' : ReplicaCore slab}
      {actions : Actions}
      → commit_chain slab core chained key ≡ done (core', actions)
      → Calm core core' actions
  unfolding commit_chain
  commit_chain-Calm core true key h =
      let (r, commits, h2) = >>=-eq-done (on_commit slab (fuel_of slab core) core key) _ h in
      let q = on_commit-Calm (fuel_of slab core) core key commits in
      Calm-done h2
        (record { config = q.config; extra = q.extra; size = q.size; proposals = q.proposals })
  commit_chain-Calm core false key h = Calm-done h (still core core refl refl refl)

  lock_on-Calm :
      (core : ReplicaCore slab) (lock_height key height : ℕ)
      → Calm core (lock_on slab core lock_height key height) []
  unfolding lock_on
  lock_on-Calm core lock_height key height = elim (Bool-cases (ltb lock_height height)) [
    | inl lt ↦ rw lt (still core _ refl refl refl)
    | inr ge ↦ rw ge (still core core refl refl refl)
  ]

  pub update-Calm :
      (core : ReplicaCore slab) (key : ℕ) {core' : ReplicaCore slab} {actions : Actions}
      → update slab core key ≡ done (core', actions)
      → Calm core core' actions
  unfolding update
  update-Calm core key h =
      let (block0, e0, h0) = >>=-eq-done (node_at slab core key) _ h in
      let (cert0, c0, g0) = >>=-eq-done (cert_at slab core block0.justify) _ h0 in
      let (block1, e1, h1) = >>=-eq-done (node_at slab core cert0.node) _ g0 in
      let (cert1, c1, g1) = >>=-eq-done (cert_at slab core block1.justify) _ h1 in
      let (block2, e2, h2) = >>=-eq-done (node_at slab core cert1.node) _ g1 in
      let (cert2, c2, g2) = >>=-eq-done (cert_at slab core block2.justify) _ h2 in
      let (core1, updates, h3) =
        >>=-eq-done (update_quorum_cert_high slab core block0.justify) _ g2 in
      let (lock, l, h4) = >>=-eq-done (node_at slab core1 core1.block_lock) _ h3 in
      Calm-trans (update_quorum_cert_high-Calm core block0.justify updates) (
        Calm-trans (lock_on-Calm core1 lock.height cert1.node block2.height) (
          commit_chain-Calm (lock_on slab core1 lock.height cert1.node block2.height)
            (block1.parent == cert1.node && block2.parent == cert2.node) cert2.node h4))

  ingest_cert-Calm :
      (core : ReplicaCore slab) (justify : Message.QuorumCert) {r : ReplicaCore slab × ℕ}
      → ingest_cert slab core justify ≡ done r
      → Calm core r.0 []
  unfolding ingest_cert
  ingest_cert-Calm core justify h =
      elim (Option-cases (lookup justify.node core.quorum_cert_index)) [
        | inr (key, e) ↦ rw (← done_eq (rw (e, ingest_cert) at h)) (still core core refl refl refl)
        | inl e ↦
            let (node, e2, h2) =
              >>=-eq-done (unwrap (lookup justify.node core.node_index)) _
                (rw (e, ingest_cert) at h) in
            rw (← done_eq h2) (still core _ refl refl refl)
      ]

  pub ingest-Calm :
      (core : ReplicaCore slab) (block_digest : Digest) (block : Message.Block)
      {r : ReplicaCore slab × ℕ}
      → ingest slab core block_digest block ≡ done r
      → Calm core r.0 []
  unfolding ingest
  ingest-Calm core block_digest block h =
      let (s, certs, h2) = >>=-eq-done (ingest_cert slab core block.justify) _ h in
      let (parent, e, h3) = >>=-eq-done (unwrap (lookup block.parent s.0.node_index)) _ h2 in
      let (u, fresh, h4) = >>=-eq-done (assert (not (contains block_digest s.0.node_index))) _ h3 in
      let q = ingest_cert-Calm core block.justify certs in
      rw (← done_eq h4)
        (record { config = q.config; extra = q.extra; size = q.size; proposals = refl })

  pub cast-Calm :
      (core : ReplicaCore slab) (key : ℕ) {core' : ReplicaCore slab} {actions : Actions}
      → cast slab core key ≡ done (core', actions)
      → Calm core core' actions
  unfolding cast
  cast-Calm core key h =
      let (block, e, h2) = >>=-eq-done (node_at slab core key) _ h in
      Calm-done h2 (record { config = refl; extra = refl; size = omega arith; proposals = refl })
