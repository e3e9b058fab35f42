-- ===== src/Hotstuff/Core.antt =====
-- `ReplicaCore` of `src/hotstuff/mod.rs`. An event yields the new core and the actions that the code
-- pushes, in order.
pub mod Quiet
pub mod Votes
pub mod Ancestors
pub mod Stored
pub mod Ends
pub mod Total
pub mod Indexed
pub mod Finalized
pub mod Calm
pub mod Measure
use bft_kit.Base.{
  ℕ, zero, suc, ◌+◌, ◌-◌, Bool, true, false, not, ◌&&◌, ◌||◌, Option, none, some, List, [], ◌∷◌,
  ◌++◌, length, ltb, leb, ◌==◌, if◌then◌else◌, is_some, u32, u32_mod, wrapping_sub, Outcome, done,
  panic, out_of_fuel, assert, unwrap, ◌>>=◌, ◌>>◌,
}
use bft_kit.Base.Map.{Map, lookup, insert, contains}
use bft_kit.Command.{Command}
use bft_kit.Pool
use bft_kit.Pool.{CommandPool}
use bft_kit.Crypto.{Digest}
use bft_kit.Pbft.Core.{Spec}
use bft_kit.Hotstuff.Message
use bft_kit.Crypto.Threshold.{Sig}
use bft_kit.Hotstuff.Slab.{Slab}

pub record ReplicaCoreConfig : Type 0 where
  pub spec : Spec
  pub id : ℕ
  pub open_loop : Bool
  pub max_batch_size : ℕ

pub record NodeData : Type 0 where
  pub parent : ℕ
  pub commands : List Command
  pub justify : ℕ
  pub height : ℕ

-- `Node`, with the fields that `Deref` gives.
pub record Node : Type 0 where
  pub digest : Digest
  pub content : NodeData

pub record QuorumCert : Type 0 where
  pub node : ℕ
  pub sig : Sig

pub data ReplicaCoreEvent : Type 0 where
  request : Command → ReplicaCoreEvent
  proposal : Digest → Message.Block → ReplicaCoreEvent
  proposed : Digest → Message.Block → ReplicaCoreEvent
  quorum_cert : Message.QuorumCert → ReplicaCoreEvent

pub data ReplicaCoreAction : Type 0 where
  propose : NodeData → ReplicaCoreAction
  vote : ℕ → ReplicaCoreAction
  finalize : ℕ → ReplicaCoreAction

abbrev pub Actions : Type 0
Actions = List ReplicaCoreAction

pub record ReplicaCore (slab : Slab) : Type 0 where
  pub config : ReplicaCoreConfig
  pub vote_height : ℕ
  pub block_lock : ℕ
  pub block_execute : ℕ
  pub block_leaf : ℕ
  pub quorum_cert_high : ℕ
  pub pool : CommandPool
  pub nodes : slab.Of Node
  pub node_index : Map ℕ
  pub quorum_certs : slab.Of QuorumCert
  pub quorum_cert_index : Map ℕ
  pub num_extra_round : ℕ

-- `self.pool.commit` for each command of a block.
unfoldable pub commit_all : CommandPool → List Command → Outcome CommandPool
commit_all pool [] = done pool
commit_all pool (command ∷ commands) = do
  pool' ← Pool.commit pool command
  commit_all pool' commands

-- `get_leader`, which is fixed.
abbrev pub leader : ℕ
leader = 0

abbrev pub or_nil : Option (List Command) → List Command
or_nil none = []
or_nil (some commands) = commands

module _ (slab : Slab) where
  -- The indices `self.nodes[..]` and `self.quorum_certs[..]`.
  unfoldable pub node_at : ReplicaCore slab → ℕ → Outcome NodeData
  node_at core key = do node ← unwrap (slab.get Node core.nodes key); done node.content

  unfoldable pub cert_at : ReplicaCore slab → ℕ → Outcome QuorumCert
  cert_at core key = unwrap (slab.get QuorumCert core.quorum_certs key)

  -- The height of the node that a certificate is for.
  unfoldable pub cert_height : ReplicaCore slab → ℕ → Outcome ℕ
  unfolding node_at cert_at
  cert_height core key = do cert ← cert_at core key; node ← node_at core cert.node; done node.height

  -- `ReplicaCore::new`.
  unfoldable pub new : ReplicaCoreConfig → ReplicaCore slab
  new config =
      let genesis_key = slab.vacant_key Node (slab.empty Node) in
      let genesis_justify_key = slab.vacant_key QuorumCert (slab.empty QuorumCert) in
      let genesis : Node = record {
        digest = 0;
        content = record {
          parent = genesis_key;
          commands = [];
          justify = genesis_justify_key;
          height = 0;
        };
      } in
      let cert : QuorumCert = record { node = genesis_key; sig = Sig.vec [] } in
      record {
        config = config;
        vote_height = 0;
        block_lock = genesis_key;
        block_execute = genesis_key;
        block_leaf = genesis_key;
        quorum_cert_high = genesis_justify_key;
        pool = if config.open_loop then Pool.new_open_loop else Pool.new_close_loop;
        nodes = (slab.insert Node (slab.empty Node) genesis).0;
        node_index = (0, genesis_key) ∷ [];
        quorum_certs = (slab.insert QuorumCert (slab.empty QuorumCert) cert).0;
        quorum_cert_index = (0, genesis_justify_key) ∷ [];
        num_extra_round = 0;
      }

  unfoldable pub update_quorum_cert_high : ReplicaCore slab → ℕ → Outcome (ReplicaCore slab)
  unfolding cert_height cert_at
  update_quorum_cert_high core key = do
    height ← cert_height core key
    high ← cert_height core core.quorum_cert_high
    cert ← cert_at core key
    done (
        if ltb high height
        then record core { quorum_cert_high = key; block_leaf = cert.node }
        else core)

  unfoldable pub on_beat :
      ReplicaCore slab → Option (List Command) → Outcome (ReplicaCore slab × Actions)
  unfolding node_at
  on_beat core commands =
      if core.config.id == leader && (is_some commands || ltb 0 core.num_extra_round)
      then (do
        leaf ← node_at core core.block_leaf
        done (
          record core {
            num_extra_round =
                if length (or_nil commands) == 0
                then wrapping_sub u32_mod core.num_extra_round 1
                else 3;
          },
          propose (record {
            parent = core.block_leaf;
            commands = or_nil commands;
            justify = core.quorum_cert_high;
            height = u32 (leaf.height + 1);
          })
              ∷ [],
        ))
      else done (core, [])

  unfoldable pub beat : ReplicaCore slab → Outcome (ReplicaCore slab × Actions)
  unfolding cert_at on_beat
  beat core = do
    high ← cert_at core core.quorum_cert_high
    if high.node == core.block_leaf
        then (do
          (pool, commands) ← Pool.close_batch core.pool core.config.max_batch_size
          on_beat (record core { pool = pool }) commands)
        else done (core, [])

  -- The certificate of a block, which is stored when it is new.
  unfoldable pub ingest_cert :
      ReplicaCore slab → Message.QuorumCert → Outcome (ReplicaCore slab × ℕ)
  ingest_cert core justify = elim (lookup justify.node core.quorum_cert_index) [
    | some key ↦ done (core, key)
    | none ↦ do
      node ← unwrap (lookup justify.node core.node_index)
      let (quorum_certs, key) =
          slab.insert QuorumCert core.quorum_certs (record { node = node; sig = justify.sig })
      done (
        record core {
          quorum_certs = quorum_certs;
          quorum_cert_index = insert justify.node key core.quorum_cert_index;
        },
        key,
      )
  ]

  unfoldable pub ingest : ReplicaCore slab → Digest → Message.Block → Outcome (ReplicaCore slab × ℕ)
  unfolding ingest_cert
  ingest core block_digest block = do
    (core', justify) ← ingest_cert core block.justify
    parent ← unwrap (lookup block.parent core'.node_index)
    let node : Node = record {
      digest = block_digest;
      content = record {
        parent = parent;
        commands = block.commands;
        justify = justify;
        height = block.height;
      };
    }
    let (nodes, key) = slab.insert Node core'.nodes node
    assert (not (contains block_digest core'.node_index))
    done
        (record core' { nodes = nodes; node_index = insert block_digest key core'.node_index }, key)

  -- `extends`, on fuel: it walks from a node to its parents.
  unfoldable pub extends : ℕ → ReplicaCore slab → ℕ → ℕ → Outcome Bool
  unfolding node_at
  extends zero core node_key other_node_key = out_of_fuel
  extends (suc fuel) core node_key other_node_key = elim (node_key == other_node_key) [
    | true ↦ done true
    | false ↦ do
      node ← node_at core node_key
      other ← node_at core other_node_key
      elim (leb node.height other.height) [
        | true ↦ done false
        | false ↦ extends fuel core node.parent other_node_key
      ]
  ]

  -- A node and its ancestors are at most as many as the nodes that there are.
  abbrev pub fuel_of : ReplicaCore slab → ℕ
  fuel_of core = suc (length core.node_index)

  unfoldable pub should_vote : ReplicaCore slab → ℕ → Outcome Bool
  unfolding node_at cert_height extends
  should_vote core key = do
    block ← node_at core key
    if ltb core.vote_height block.height
        then (do
          extended ← extends (fuel_of core) core key core.block_lock
          elim extended [
            | true ↦ done true
            | false ↦ do
              justified ← cert_height core block.justify
              lock ← node_at core core.block_lock
              done (ltb lock.height justified)
          ])
        else done false

  -- `on_commit`, on fuel: the ancestors that are not executed yet come first.
  unfoldable pub on_commit : ℕ → ReplicaCore slab → ℕ → Outcome (ReplicaCore slab × Actions)
  unfolding node_at commit_all
  on_commit zero core key = out_of_fuel
  on_commit (suc fuel) core key = do
    executed ← node_at core core.block_execute
    block ← node_at core key
    elim (ltb executed.height block.height) [
      | false ↦ done (core, [])
      | true ↦ do
        (core', actions) ← on_commit fuel core block.parent
        pool ← commit_all core'.pool block.commands
        done (record core' { pool = pool }, actions ++ finalize key ∷ [])
    ]

  -- The lock moves to a higher block.
  unfoldable pub lock_on : ReplicaCore slab → ℕ → ℕ → ℕ → ReplicaCore slab
  lock_on core lock_height key height =
      if ltb lock_height height then record core { block_lock = key } else core

  -- The end of `update`: a chain of three blocks commits the first.
  unfoldable pub commit_chain : ReplicaCore slab → Bool → ℕ → Outcome (ReplicaCore slab × Actions)
  unfolding on_commit
  commit_chain core chained key =
      if chained
      then (do
        (core', actions) ← on_commit (fuel_of core) core key
        done (record core' { block_execute = key }, actions))
      else done (core, [])

  unfoldable pub update : ReplicaCore slab → ℕ → Outcome (ReplicaCore slab × Actions)
  unfolding node_at cert_at update_quorum_cert_high lock_on commit_chain
  update core key = do
    block0 ← node_at core key
    cert0 ← cert_at core block0.justify
    block1 ← node_at core cert0.node
    cert1 ← cert_at core block1.justify
    block2 ← node_at core cert1.node
    cert2 ← cert_at core block2.justify
    core' ← update_quorum_cert_high core block0.justify
    lock ← node_at core' core'.block_lock
    commit_chain (lock_on core' lock.height cert1.node block2.height)
        (block1.parent == cert1.node && block2.parent == cert2.node) cert2.node

  -- The vote for a block.
  unfoldable pub cast : ReplicaCore slab → ℕ → Outcome (ReplicaCore slab × Actions)
  unfolding node_at
  cast core key = do
    block ← node_at core key
    done (record core { vote_height = block.height }, vote key ∷ [])

  unfoldable pub on_proposed :
      ReplicaCore slab → Digest → Message.Block → Outcome (ReplicaCore slab × Actions)
  unfolding ingest should_vote cast update
  on_proposed core block_digest block = do
    (core', key) ← ingest core block_digest block
    votes ← should_vote core' key
    assert votes
    (core'', voted) ← cast core' key
    (core''', actions) ← update (record core'' { block_leaf = key }) key
    done (core''', voted ++ actions)

  unfoldable pub on_proposal :
      ReplicaCore slab → Digest → Message.Block → Outcome (ReplicaCore slab × Actions)
  unfolding ingest should_vote cast update
  on_proposal core block_digest block = do
    (core', key) ← ingest core block_digest block
    votes ← should_vote core' key
    (core'', voted) ← if votes then cast core' key else done (core', [])
    (core''', actions) ← update core'' key
    done (core''', voted ++ actions)

  unfoldable pub on_quorum_cert : ReplicaCore slab → Message.QuorumCert → Outcome (ReplicaCore slab)
  unfolding update_quorum_cert_high
  on_quorum_cert core cert = do
    node ← unwrap (lookup cert.node core.node_index)
    let (quorum_certs, key) =
        slab.insert QuorumCert core.quorum_certs (record { node = node; sig = cert.sig })
    update_quorum_cert_high (record core { quorum_certs = quorum_certs }) key

  -- The `match` of `handle`.
  unfoldable pub react : ReplicaCore slab → ReplicaCoreEvent → Outcome (ReplicaCore slab × Actions)
  unfolding on_proposed on_proposal on_quorum_cert
  react core (request command) = do
    (pool, _) ← Pool.push core.pool command
    done (record core { pool = pool }, [])
  react core (proposed block_digest block) = on_proposed core block_digest block
  react core (proposal block_digest block) = on_proposal core block_digest block
  react core (quorum_cert cert) = do core' ← on_quorum_cert core cert; done (core', [])

  unfoldable pub handle : ReplicaCore slab → ReplicaCoreEvent → Outcome (ReplicaCore slab × Actions)
  unfolding react beat
  handle core event = do
    (core', actions) ← react core event
    (core'', proposals) ← beat core'
    done (core'', actions ++ proposals)
