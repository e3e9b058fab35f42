-- ===== src/Hotstuff/Core/Total.antt =====
-- The walks of the core of HotStuff over its nodes come to an end, and so does every event.
use bft_kit.Base.{
  ℕ, zero, suc, ◌<◌, ◌≡◌, ◌≢◌, refl, Bool, some, [], length, ltb, leb, ◌==◌, if◌then◌else◌, done,
  out_of_fuel, assert, unwrap, >>=-ends, done-ends, unwrap-ends, assert-ends, if-ends, elim-ends,
  Bool-cases, inl, inr, arith,
}
use bft_kit.Base.Map.{lookup}
use bft_kit.Pool
use bft_kit.Pool.Ends
use bft_kit.Crypto.{Digest}
use bft_kit.Hotstuff.Message
use bft_kit.Hotstuff.Slab.{Slab, IsSlab}
use bft_kit.Hotstuff.Core.{
  Node, NodeData, ReplicaCore, ReplicaCoreEvent, commit_all, node_at, cert_at, cert_height,
  update_quorum_cert_high, beat, ingest, extends, fuel_of, should_vote, on_commit, lock_on,
  commit_chain, update, cast, on_proposed, on_proposal, on_quorum_cert, react, handle,
}
use bft_kit.Hotstuff.Core.Quiet.{update_quorum_cert_high-Quiet, lock_on-Quiet}
use bft_kit.Hotstuff.Core.Ancestors.{Ranked, moved-Ranked, ingest-Ranked}
use bft_kit.Hotstuff.Core.Stored.{Quiet-Ranked, cast-Ranked, voted-Ranked}
use bft_kit.Hotstuff.Core.Ends.{
  commit_all-ends, node_at-ends, cert_at-ends, node_at-get, cert_height-ends,
  update_quorum_cert_high-ends, beat-ends, ingest-ends,
}

module _ (slab : Slab) (laws : IsSlab slab) where
  -- The step of `on_commit` to the parent, when the walk down from there ends.
  on_commit_step :
      (fuel : ℕ) (core : ReplicaCore slab) (key : ℕ)
      → ((executed block : NodeData)
          → node_at slab core core.block_execute ≡ done executed
          → node_at slab core key ≡ done block
          → executed.height < block.height
          → on_commit slab fuel core block.parent ≢ out_of_fuel)
      → on_commit slab (suc fuel) core key ≢ out_of_fuel
  unfolding on_commit
  on_commit_step fuel core key below =
      >>=-ends (node_at slab core core.block_execute) _ (node_at-ends slab core _) λ executed e.
        >>=-ends (node_at slab core key) _ (node_at-ends slab core key) λ block e2.
          elim (Bool-cases (ltb executed.height block.height)) [
            | inr old ↦ rw old (done-ends _)
            | inl new ↦ rw new (
                >>=-ends (on_commit slab fuel core block.parent) _
                  (below executed block e e2 (ground arith))
                  (λ r e3.
                    >>=-ends (commit_all r.0.pool block.commands) _ (commit_all-ends _ _)
                      (λ pool e4. done-ends _)))
          ]

  -- The parent of a node that is executed after another stands before it.
  parent_below :
      (core : ReplicaCore slab) (r : Ranked slab core) (key : ℕ) (executed block : NodeData)
      → node_at slab core key ≡ done block
      → executed.height < block.height
      → (node : Node) × (slab.get Node core.nodes key ≡ some node)
        × (r.rank block.parent < r.rank key)
  parent_below core r key executed block at lt =
      let (node, got, same) = node_at-get slab core key at in
      let h = r.has_parent key node got in
      let height : block.height ≡ node.content.height = rw same refl in
      let parent : block.parent ≡ node.content.parent = rw same refl in
      (node, got, ground (arith, h.order, height, parent))

  on_commit-ends :
      (fuel : ℕ) (core : ReplicaCore slab) (r : Ranked slab core) (key : ℕ)
      → ((node : Node) → slab.get Node core.nodes key ≡ some node → r.rank key < suc fuel)
      → on_commit slab (suc fuel) core key ≢ out_of_fuel
  on_commit-ends zero core r key low = on_commit_step zero core key λ executed block e e2 lt.
      let (node, got, less) = parent_below core r key executed block e2 lt in
      absurd (omega (arith, low node got))
  on_commit-ends (suc fuel) core r key low =
      on_commit_step (suc fuel) core key λ executed block e e2 lt.
        let (node, got, less) = parent_below core r key executed block e2 lt in
        on_commit-ends fuel core r block.parent (λ n g. omega (arith, low node got))

  extends_step :
      (fuel : ℕ) (core : ReplicaCore slab) (a b : ℕ)
      → ((node other : NodeData)
          → node_at slab core a ≡ done node
          → other.height < node.height
          → extends slab fuel core node.parent b ≢ out_of_fuel)
      → extends slab (suc fuel) core a b ≢ out_of_fuel
  unfolding extends
  extends_step fuel core a b below = elim-ends (a == b) _ _ (done-ends _) λ other.
      >>=-ends (node_at slab core a) _ (node_at-ends slab core a) λ node e.
        >>=-ends (node_at slab core b) _ (node_at-ends slab core b) λ node' e2.
          elim-ends (leb node.height node'.height) _ _ (done-ends _)
            λ high. below node node' e (ground arith)

  extends-ends :
      (fuel : ℕ) (core : ReplicaCore slab) (r : Ranked slab core) (a b : ℕ)
      → ((node : Node) → slab.get Node core.nodes a ≡ some node → r.rank a < suc fuel)
      → extends slab (suc fuel) core a b ≢ out_of_fuel
  extends-ends zero core r a b low = extends_step zero core a b λ node other e lt.
      let (n, got, less) = parent_below core r a other node e lt in
      absurd (omega (arith, low n got))
  extends-ends (suc fuel) core r a b low = extends_step (suc fuel) core a b λ node other e lt.
      let (n, got, less) = parent_below core r a other node e lt in
      extends-ends fuel core r node.parent b (λ n' g. omega (arith, low n got))

  should_vote-ends :
      (core : ReplicaCore slab) (key : ℕ)
      → Ranked slab core
      → should_vote slab core key ≢ out_of_fuel
  unfolding should_vote
  should_vote-ends core key r =
      >>=-ends (node_at slab core key) _ (node_at-ends slab core key) λ block e.
        if-ends (ltb core.vote_height block.height) _ _
          (>>=-ends (extends slab (fuel_of slab core) core key core.block_lock) _
            (extends-ends (length core.node_index) core r key core.block_lock
              (λ n g. omega (arith, (r.has_parent key n g).below)))
            (λ extended e2. elim-ends extended _ _ (done-ends _) λ off.
              >>=-ends (cert_height slab core block.justify) _ (cert_height-ends slab core _)
                λ justified e3.
                  >>=-ends (node_at slab core core.block_lock) _ (node_at-ends slab core _)
                    (λ lock e4. done-ends _)))
          (done-ends _)

  commit_chain-ends :
      (core : ReplicaCore slab) (chained : Bool) (key : ℕ)
      → Ranked slab core
      → commit_chain slab core chained key ≢ out_of_fuel
  unfolding commit_chain
  commit_chain-ends core chained key r =
      if-ends chained _ _
        (>>=-ends (on_commit slab (fuel_of slab core) core key) _
          (on_commit-ends (length core.node_index) core r key
            (λ n g. omega (arith, (r.has_parent key n g).below)))
          (λ s e. done-ends _))
        (done-ends _)

  update-ends :
      (core : ReplicaCore slab) (key : ℕ) → Ranked slab core → update slab core key ≢ out_of_fuel
  unfolding update
  update-ends core key r =
      >>=-ends (node_at slab core key) _ (node_at-ends slab core key) λ block0 e0.
        >>=-ends (cert_at slab core block0.justify) _ (cert_at-ends slab core _) λ cert0 c0.
          >>=-ends (node_at slab core cert0.node) _ (node_at-ends slab core _) λ block1 e1.
            >>=-ends (cert_at slab core block1.justify) _ (cert_at-ends slab core _) λ cert1 c1.
              >>=-ends (node_at slab core cert1.node) _ (node_at-ends slab core _) λ block2 e2.
                >>=-ends (cert_at slab core block2.justify) _ (cert_at-ends slab core _) λ cert2 c2.
                  >>=-ends (update_quorum_cert_high slab core block0.justify) _
                    (update_quorum_cert_high-ends slab core _)
                    λ core' u.
                      let r' =
                        Quiet-Ranked slab laws
                          (update_quorum_cert_high-Quiet slab core block0.justify u) r in
                      >>=-ends (node_at slab core' core'.block_lock) _ (node_at-ends slab core' _)
                        λ lock l.
                          commit_chain-ends
                            (lock_on slab core' lock.height cert1.node block2.height) _ cert2.node
                            (Quiet-Ranked slab laws
                              (lock_on-Quiet slab core' lock.height cert1.node block2.height) r')

  cast-ends : (core : ReplicaCore slab) (key : ℕ) → cast slab core key ≢ out_of_fuel
  unfolding cast
  cast-ends core key =
      >>=-ends (node_at slab core key) _ (node_at-ends slab core key) (λ block e. done-ends _)

  on_proposed-ends :
      (core : ReplicaCore slab) (block_digest : Digest) (block : Message.Block)
      → Ranked slab core
      → on_proposed slab core block_digest block ≢ out_of_fuel
  unfolding on_proposed
  on_proposed-ends core block_digest block k =
      >>=-ends (ingest slab core block_digest block) _ (ingest-ends slab core block_digest block)
        λ r e.
          let stored = ingest-Ranked slab laws core block_digest block k e in
          >>=-ends (should_vote slab r.0 r.1) _ (should_vote-ends r.0 r.1 stored) λ votes e2.
            >>=-ends (assert votes) _ (assert-ends votes) λ u e3.
              >>=-ends (cast slab r.0 r.1) _ (cast-ends r.0 r.1) λ s e4.
                let voted =
                  moved-Ranked slab laws {core' = record s.0 { block_leaf = r.1 }} refl refl
                    (cast-Ranked slab laws r.0 r.1 e4 stored) in
                >>=-ends (update slab (record s.0 { block_leaf = r.1 }) r.1) _
                  (update-ends (record s.0 { block_leaf = r.1 }) r.1 voted) (λ t e5. done-ends _)

  on_proposal-ends :
      (core : ReplicaCore slab) (block_digest : Digest) (block : Message.Block)
      → Ranked slab core
      → on_proposal slab core block_digest block ≢ out_of_fuel
  unfolding on_proposal
  on_proposal-ends core block_digest block k =
      >>=-ends (ingest slab core block_digest block) _ (ingest-ends slab core block_digest block)
        λ r e.
          let stored = ingest-Ranked slab laws core block_digest block k e in
          >>=-ends (should_vote slab r.0 r.1) _ (should_vote-ends r.0 r.1 stored) λ votes e2.
            >>=-ends (if votes then cast slab r.0 r.1 else done (r.0, [])) _
              (if-ends votes _ _ (cast-ends r.0 r.1) (done-ends _))
              λ s e3.
                let voted = voted-Ranked slab laws r.0 r.1 votes e3 stored in
                >>=-ends (update slab s.0 r.1) _ (update-ends s.0 r.1 voted) (λ t e4. done-ends _)

  react-ends :
      (core : ReplicaCore slab) (event : ReplicaCoreEvent)
      → Ranked slab core
      → react slab core event ≢ out_of_fuel
  unfolding react on_quorum_cert
  react-ends core (ReplicaCoreEvent.request command) k =
      >>=-ends (Pool.push core.pool command) _ (Ends.push-ends core.pool command)
        (λ r e. done-ends _)
  react-ends core (ReplicaCoreEvent.proposed block_digest block) k =
      on_proposed-ends core block_digest block k
  react-ends core (ReplicaCoreEvent.proposal block_digest block) k =
      on_proposal-ends core block_digest block k
  react-ends core (ReplicaCoreEvent.quorum_cert cert) k =
      >>=-ends (on_quorum_cert slab core cert) _
        (>>=-ends (unwrap (lookup cert.node core.node_index)) _ (unwrap-ends _)
          (λ node e. update_quorum_cert_high-ends slab _ _))
        (λ c e. done-ends _)

  -- On a core whose nodes are stored after their parents, every event is handled to the end: the
  -- number of nodes is enough fuel for the walks of `extends` and of `on_commit`.
  pub handle-ends :
      (core : ReplicaCore slab) (event : ReplicaCoreEvent)
      → Ranked slab core
      → handle slab core event ≢ out_of_fuel
  unfolding handle
  handle-ends core event k =
      >>=-ends (react slab core event) _ (react-ends core event k)
        λ r e. >>=-ends (beat slab r.0) _ (beat-ends slab r.0) (λ s e2. done-ends _)
