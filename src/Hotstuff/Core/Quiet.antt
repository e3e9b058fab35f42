-- ===== src/Hotstuff/Core/Quiet.antt =====
-- The steps of the core that cast no vote.
use bft_kit.Base.{
  ℕ, zero, suc, ◌≡◌, refl, ◌∙◌, ap, Bool, true, false, not, ◌&&◌, ◌||◌, Option, List, [], ◌∷◌, ◌++◌,
  ltb, ◌==◌, is_some, Outcome, done, assert, unwrap, >>=-eq-done, Bool-cases, Option-cases, inl,
  inr, arith,
}
use bft_kit.Base.Map.{lookup, contains}
use bft_kit.Command.{Command}
use bft_kit.Pool
use bft_kit.Crypto.{Digest}
use bft_kit.Hotstuff.Message
use bft_kit.Hotstuff.Slab.{Slab}
use bft_kit.Hotstuff.Core.{
  ReplicaCore, propose, vote, finalize, Actions, commit_all, leader, node_at, cert_at, cert_height,
  update_quorum_cert_high, on_beat, beat, ingest_cert, ingest, fuel_of, on_commit, lock_on,
  commit_chain, update,
}
use bft_kit.Pbft.Core.Phases.{done_pair}

-- The nodes that the actions vote for.
abbrev pub votes_of : Actions → List ℕ
votes_of [] = []
votes_of (vote key ∷ actions) = key ∷ votes_of actions
votes_of (propose block ∷ actions) = votes_of actions
votes_of (finalize key ∷ actions) = votes_of actions

pub votes_of-append : (xs ys : Actions) → votes_of (xs ++ ys) ≡ votes_of xs ++ votes_of ys
votes_of-append [] ys = refl
votes_of-append (vote key ∷ xs) ys = ap (λ l. key ∷ l) (votes_of-append xs ys)
votes_of-append (propose block ∷ xs) ys = votes_of-append xs ys
votes_of-append (finalize key ∷ xs) ys = votes_of-append xs ys

pub done_eq : {A : Type 0} {a b : A} → ◌≡◌ {A = Outcome A} (done a) (done b) → a ≡ b
done_eq h = cc

module _ (slab : Slab) where
  -- A step that neither votes nor moves the height of the last vote, nor removes a node.
  pub record Quiet (core core' : ReplicaCore slab) (actions : Actions) : Type 0 where
    pub height : core'.vote_height ≡ core.vote_height
    pub nodes : core'.nodes ≡ core.nodes
    pub index : core'.node_index ≡ core.node_index
    pub votes : votes_of actions ≡ []

  pub Quiet-trans :
      {a b c : ReplicaCore slab} {xs ys : Actions}
      → Quiet a b xs
      → Quiet b c ys
      → Quiet a c (xs ++ ys)
  Quiet-trans {a} {b} {c} {xs} {ys} s t = record {
    height = t.height ∙ s.height;
    nodes = t.nodes ∙ s.nodes;
    index = t.index ∙ s.index;
    votes = rw (votes_of-append xs ys, s.votes, t.votes) refl;
  }

  pub update_quorum_cert_high-Quiet :
      (core : ReplicaCore slab) (key : ℕ) {core' : ReplicaCore slab}
      → update_quorum_cert_high slab core key ≡ done core'
      → Quiet core core' []
  unfolding update_quorum_cert_high
  update_quorum_cert_high-Quiet core key {core'} h =
      let (height, e, h2) = >>=-eq-done (cert_height slab core key) _ h in
      let (high, e2, h3) = >>=-eq-done (cert_height slab core core.quorum_cert_high) _ h2 in
      let (cert, e3, h4) = >>=-eq-done (cert_at slab core key) _ h3 in
      elim (Bool-cases (ltb high height)) [
        | inl lt ↦
            let same : record core { quorum_cert_high = key; block_leaf = cert.node } ≡ core' =
              cc in
            rw (← same) (record { height = refl; nodes = refl; index = refl; votes = refl })
        | inr ge ↦
            let same : core ≡ core' = cc in
            rw (← same) (record { height = refl; nodes = refl; index = refl; votes = refl })
      ]

  on_beat-Quiet :
      (core : ReplicaCore slab) (commands : Option (List Command)) {core' : ReplicaCore slab}
      {actions : Actions}
      → on_beat slab core commands ≡ done (core', actions)
      → Quiet core core' actions
  unfolding on_beat
  on_beat-Quiet core commands h =
      elim (Bool-cases
        (core.config.id == leader && (is_some commands || ltb 0 core.num_extra_round))) [
          | inl e ↦
              let (leaf, e2, h2) = >>=-eq-done (node_at slab core core.block_leaf) _ (rw e at h) in
              let (same, acts) = done_pair h2 in
              record {
                height = rw (← same) refl;
                nodes = rw (← same) refl;
                index = rw (← same) refl;
                votes = rw (← acts) refl;
              }
          | inr e ↦
              let (same, acts) = done_pair (rw e at h) in
              record {
                height = rw (← same) refl;
                nodes = rw (← same) refl;
                index = rw (← same) refl;
                votes = rw (← acts) refl;
              }
        ]

  pub beat-Quiet :
      (core : ReplicaCore slab) {core' : ReplicaCore slab} {actions : Actions}
      → beat slab core ≡ done (core', actions)
      → Quiet core core' actions
  unfolding beat
  beat-Quiet core h =
      let (high, e, h2) = >>=-eq-done (cert_at slab core core.quorum_cert_high) _ h in
      elim (Bool-cases (high.node == core.block_leaf)) [
        | inl e2 ↦
            let (r, closes, h3) =
              >>=-eq-done (Pool.close_batch core.pool core.config.max_batch_size) _ (rw e2 at h2) in
            let q = on_beat-Quiet (record core { pool = r.0 }) r.1 h3 in
            record { height = q.height; nodes = q.nodes; index = q.index; votes = q.votes }
        | inr e2 ↦
            let (same, acts) = done_pair (rw e2 at h2) in
            record {
              height = rw (← same) refl;
              nodes = rw (← same) refl;
              index = rw (← same) refl;
              votes = rw (← acts) refl;
            }
      ]

  on_commit-Quiet :
      (fuel : ℕ) (core : ReplicaCore slab) (key : ℕ) {core' : ReplicaCore slab} {actions : Actions}
      → on_commit slab fuel core key ≡ done (core', actions)
      → Quiet core core' actions
  unfolding on_commit
  on_commit-Quiet zero core key h = absurd (cc)
  on_commit-Quiet (suc fuel) core key {core'} {actions} h =
      let (executed, e, h2) = >>=-eq-done (node_at slab core core.block_execute) _ h in
      let (block, e2, h3) = >>=-eq-done (node_at slab core key) _ h2 in
      elim (Bool-cases (ltb executed.height block.height)) [
        | inr done_before ↦
            let h4 : ◌≡◌ {A = Outcome (ReplicaCore slab × Actions)} (done (core, []))
                (done (core', actions)) =
              rw done_before at h3 in
            let (same, acts) = done_pair h4 in
            record {
              height = rw (← same) refl;
              nodes = rw (← same) refl;
              index = rw (← same) refl;
              votes = rw (← acts) refl;
            }
        | inl lt ↦
            let (r, before, h4) =
              >>=-eq-done (on_commit slab fuel core block.parent) _ (rw lt at h3) in
            let (pool, commits, h5) = >>=-eq-done (commit_all r.0.pool block.commands) _ h4 in
            let q = on_commit-Quiet fuel core block.parent before in
            let (same, acts) = done_pair h5 in
            record {
              height = rw (← same) q.height;
              nodes = rw (← same) q.nodes;
              index = rw (← same) q.index;
              votes = rw (← acts, votes_of-append r.1 (finalize key ∷ []), q.votes) refl;
            }
      ]

  pub lock_on-Quiet :
      (core : ReplicaCore slab) (lock_height key height : ℕ)
      → Quiet core (lock_on slab core lock_height key height) []
  unfolding lock_on
  lock_on-Quiet core lock_height key height = elim (Bool-cases (ltb lock_height height)) [
    | inl lt ↦ rw lt (record { height = refl; nodes = refl; index = refl; votes = refl })
    | inr ge ↦ rw ge (record { height = refl; nodes = refl; index = refl; votes = refl })
  ]

  commit_chain-Quiet :
      (core : ReplicaCore slab) (chained : Bool) (key : ℕ) {core' : ReplicaCore slab}
      {actions : Actions}
      → commit_chain slab core chained key ≡ done (core', actions)
      → Quiet core core' actions
  unfolding commit_chain
  commit_chain-Quiet core true key h =
      let (r, commits, h2) = >>=-eq-done (on_commit slab (fuel_of slab core) core key) _ h in
      let q = on_commit-Quiet (fuel_of slab core) core key commits in
      let (same, acts) = done_pair h2 in
      record {
        height = rw (← same) q.height;
        nodes = rw (← same) q.nodes;
        index = rw (← same) q.index;
        votes = rw (← acts) q.votes;
      }
  commit_chain-Quiet core false key h =
      let (same, acts) = done_pair h in
      record {
        height = rw (← same) refl;
        nodes = rw (← same) refl;
        index = rw (← same) refl;
        votes = rw (← acts) refl;
      }

  pub update-Quiet :
      (core : ReplicaCore slab) (key : ℕ) {core' : ReplicaCore slab} {actions : Actions}
      → update slab core key ≡ done (core', actions)
      → Quiet core core' actions
  unfolding update
  update-Quiet core key h =
      let (block0, e0, h0) = >>=-eq-done (node_at slab core key) _ h in
      let (cert0, c0, g0) = >>=-eq-done (cert_at slab core block0.justify) _ h0 in
      let (block1, e1, h1) = >>=-eq-done (node_at slab core cert0.node) _ g0 in
      let (cert1, c1, g1) = >>=-eq-done (cert_at slab core block1.justify) _ h1 in
      let (block2, e2, h2) = >>=-eq-done (node_at slab core cert1.node) _ g1 in
      let (cert2, c2, g2) = >>=-eq-done (cert_at slab core block2.justify) _ h2 in
      let (core1, updates, h3) =
        >>=-eq-done (update_quorum_cert_high slab core block0.justify) _ g2 in
      let (lock, l, h4) = >>=-eq-done (node_at slab core1 core1.block_lock) _ h3 in
      Quiet-trans (update_quorum_cert_high-Quiet core block0.justify updates) (
        Quiet-trans (lock_on-Quiet core1 lock.height cert1.node block2.height) (
          commit_chain-Quiet (lock_on slab core1 lock.height cert1.node block2.height)
            (block1.parent == cert1.node && block2.parent == cert2.node) cert2.node h4))

  pub ingest_height :
      (core : ReplicaCore slab) (block_digest : Digest) (block : Message.Block)
      {core' : ReplicaCore slab} {key : ℕ}
      → ingest slab core block_digest block ≡ done (core', key)
      → core'.vote_height ≡ core.vote_height
  unfolding ingest ingest_cert
  ingest_height core block_digest block {core'} {key} h =
      let (r, certs, h2) = >>=-eq-done (ingest_cert slab core block.justify) _ h in
      let (parent, e, h3) = >>=-eq-done (unwrap (lookup block.parent r.0.node_index)) _ h2 in
      let (u, fresh, h4) = >>=-eq-done (assert (not (contains block_digest r.0.node_index))) _ h3 in
      rw (← (done_pair h4).0) (cert_height_kept r certs)
    where
      cert_height_kept :
          (r : ReplicaCore slab × ℕ)
          → ingest_cert slab core block.justify ≡ done r
          → r.0.vote_height ≡ core.vote_height
      cert_height_kept r certs =
          elim (Option-cases (lookup block.justify.node core.quorum_cert_index)) [
            | inr (k, e) ↦ let same : (core, k) ≡ r = ground arith in rw (← same) refl
            | inl e ↦
                let (node, e2, h2) =
                  >>=-eq-done (unwrap (lookup block.justify.node core.node_index)) _
                    (rw (e, ingest_cert) at certs) in
                let same = done_eq h2 in rw (← same) refl
          ]
