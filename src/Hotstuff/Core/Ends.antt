-- ===== src/Hotstuff/Core/Ends.antt =====
-- The steps of the core of HotStuff that do not walk over its nodes come to an end.
use bft_kit.Base.{
  ℕ, ◌≡◌, ◌≢◌, not, ◌&&◌, ◌||◌, Option, some, List, [], ◌∷◌, ltb, ◌==◌, is_some, done, out_of_fuel,
  assert, unwrap, >>=-ends, >>=-eq-done, done-ends, unwrap-ends, assert-ends, if-ends, Option-cases,
  inl, inr, arith,
}
use bft_kit.Base.Map.{lookup, contains}
use bft_kit.Command.{Command}
use bft_kit.Pool
use bft_kit.Pool.{CommandPool}
use bft_kit.Pool.Ends
use bft_kit.Crypto.{Digest}
use bft_kit.Hotstuff.Message
use bft_kit.Hotstuff.Slab.{Slab}
use bft_kit.Hotstuff.Core.{
  Node, NodeData, ReplicaCore, commit_all, leader, node_at, cert_at, cert_height,
  update_quorum_cert_high, on_beat, beat, ingest_cert, ingest,
}

pub commit_all-ends :
    (pool : CommandPool) (commands : List Command) → commit_all pool commands ≢ out_of_fuel
unfolding commit_all
commit_all-ends pool [] = done-ends _
commit_all-ends pool (c ∷ commands) =
    >>=-ends (Pool.commit pool c) _ (Ends.commit-ends pool c)
      (λ pool' e. commit_all-ends pool' commands)

module _ (slab : Slab) where
  pub node_at-ends : (core : ReplicaCore slab) (key : ℕ) → node_at slab core key ≢ out_of_fuel
  unfolding node_at
  node_at-ends core key =
      >>=-ends (unwrap (slab.get Node core.nodes key)) _ (unwrap-ends _) (λ n e. done-ends _)

  pub cert_at-ends : (core : ReplicaCore slab) (key : ℕ) → cert_at slab core key ≢ out_of_fuel
  unfolding cert_at
  cert_at-ends core key = unwrap-ends _

  -- A node that `node_at` finds is in the slab.
  pub node_at-get :
      (core : ReplicaCore slab) (key : ℕ) {block : NodeData}
      → node_at slab core key ≡ done block
      → (node : Node) × (slab.get Node core.nodes key ≡ some node) × (node.content ≡ block)
  unfolding node_at
  node_at-get core key h =
      let (node, e, h2) = >>=-eq-done (unwrap (slab.get Node core.nodes key)) _ h in
      (node, ground arith, cc)

  pub cert_height-ends :
      (core : ReplicaCore slab) (key : ℕ) → cert_height slab core key ≢ out_of_fuel
  unfolding cert_height
  cert_height-ends core key =
      >>=-ends (cert_at slab core key) _ (cert_at-ends core key) λ cert e.
        >>=-ends (node_at slab core cert.node) _ (node_at-ends core _) (λ n e2. done-ends _)

  pub update_quorum_cert_high-ends :
      (core : ReplicaCore slab) (key : ℕ) → update_quorum_cert_high slab core key ≢ out_of_fuel
  unfolding update_quorum_cert_high
  update_quorum_cert_high-ends core key =
      >>=-ends (cert_height slab core key) _ (cert_height-ends core key) λ height e.
        >>=-ends (cert_height slab core core.quorum_cert_high) _ (cert_height-ends core _)
          λ high e2.
            >>=-ends (cert_at slab core key) _ (cert_at-ends core key) (λ c e3. done-ends _)

  pub on_beat-ends :
      (core : ReplicaCore slab) (commands : Option (List Command))
      → on_beat slab core commands ≢ out_of_fuel
  unfolding on_beat
  on_beat-ends core commands =
      if-ends (core.config.id == leader && (is_some commands || ltb 0 core.num_extra_round)) _ _
        (>>=-ends (node_at slab core core.block_leaf) _ (node_at-ends core _) (λ n e. done-ends _))
        (done-ends _)

  pub beat-ends : (core : ReplicaCore slab) → beat slab core ≢ out_of_fuel
  unfolding beat
  beat-ends core =
      >>=-ends (cert_at slab core core.quorum_cert_high) _ (cert_at-ends core _) λ high e.
        if-ends (high.node == core.block_leaf) _ _
          (>>=-ends (Pool.close_batch core.pool core.config.max_batch_size) _
            (Ends.close_batch-ends core.pool core.config.max_batch_size)
            (λ r e2. on_beat-ends (record core { pool = r.0 }) r.1))
          (done-ends _)

  pub ingest_cert-ends :
      (core : ReplicaCore slab) (justify : Message.QuorumCert)
      → ingest_cert slab core justify ≢ out_of_fuel
  unfolding ingest_cert
  ingest_cert-ends core justify = elim (Option-cases (lookup justify.node core.quorum_cert_index)) [
    | inr (key, e) ↦ ground arith
    | inl e ↦
        rw (e, ingest_cert)
          (>>=-ends (unwrap (lookup justify.node core.node_index)) _ (unwrap-ends _)
            (λ n e2. done-ends _))
  ]

  pub ingest-ends :
      (core : ReplicaCore slab) (block_digest : Digest) (block : Message.Block)
      → ingest slab core block_digest block ≢ out_of_fuel
  unfolding ingest
  ingest-ends core block_digest block =
      >>=-ends (ingest_cert slab core block.justify) _ (ingest_cert-ends core block.justify) λ r e.
        >>=-ends (unwrap (lookup block.parent r.0.node_index)) _ (unwrap-ends _) λ parent e2.
          >>=-ends (assert (not (contains block_digest r.0.node_index))) _ (assert-ends _)
            (λ u e3. done-ends _)
