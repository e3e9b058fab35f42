-- ===== src/Pbft/Core.antt =====
-- `ReplicaCore` of `src/pbft/mod.rs`: the protocol without messages and signatures. An event yields
-- the new core and the actions that the code pushes, in order.
pub mod Propose
pub mod Finalize
pub mod Phases
pub mod SameBlocks
pub mod Certificates
pub mod Grows
pub mod Signed
use bft_kit.Base.{
  ℕ, zero, suc, ◌+◌, ◌%◌, Bool, true, false, not, ◌&&◌, ◌||◌, Option, none, some, List, [], ◌∷◌,
  ◌++◌, length, ltb, ◌==◌, if◌then◌else◌, is_some, u16, u16_mod, u32, u32_mod, wrapping_sub,
  Outcome, done, panic, out_of_fuel, assert, unwrap, ◌>>=◌, ◌>>◌,
}
use bft_kit.Base.Map.{Map, lookup, insert, contains, below}
use bft_kit.Command.{Command}
use bft_kit.Pool
use bft_kit.Pool.{CommandPool}
use bft_kit.Crypto.{Primitives, Digest, Sig, block_digest}

pub record Spec : Type 0 where
  pub num_faulty : ℕ
  pub num_replica : ℕ

-- `Replica::new` panics when there is no replica, so the division is never by zero.
unfoldable pub primary : Spec → ℕ → ℕ
primary spec view_num = u16 (view_num % spec.num_replica)

-- `num_replica - num_faulty`.
abbrev pub quorum_size : Spec → ℕ
quorum_size spec = wrapping_sub u16_mod spec.num_replica spec.num_faulty

pub record ReplicaCoreConfig : Type 0 where
  pub spec : Spec
  pub id : ℕ
  pub max_num_inflight : ℕ
  pub max_batch_size : ℕ

-- `ReplicaCoreConfig::new_basic`.
unfoldable pub new_basic : Spec → ℕ → ReplicaCoreConfig
new_basic spec id = record { spec = spec; id = id; max_num_inflight = 1; max_batch_size = 1 }

-- `Quorum<T>`: by the replica's identifier.
abbrev pub Quorum : Type 0 → Type 0
Quorum T = Map T

pub record Block : Type 0 where
  pub commands : List Command
  pub digest : Digest
  pub pre_prepare : ℕ × Sig
  pub prepare_quorum : Option (Quorum Sig)
  pub commit_quorum : Option (Quorum Sig)

pub record ReplicaCore : Type 0 where
  pub config : ReplicaCoreConfig
  pub view_num : ℕ
  pub pool : CommandPool
  pub blocks : Map Block
  pub propose_num : ℕ
  pub finalize_num : ℕ

pub data ReplicaCoreEvent : Type 0 where
  request : Command → ReplicaCoreEvent
  proposal : ℕ → Block → ReplicaCoreEvent
  prepare_quorum : ℕ → Quorum Sig → ReplicaCoreEvent
  commit_quorum : ℕ → Quorum Sig → ReplicaCoreEvent
  view_expired : ReplicaCoreEvent
  view_change_quorum : ℕ → Quorum (Map Block) → ReplicaCoreEvent
  enter_view : ℕ → Quorum (Map Block) → Map Block → ReplicaCoreEvent

pub data ReplicaCoreAction : Type 0 where
  propose : ℕ → List Command → ReplicaCoreAction
  prepare : ℕ → Digest → ReplicaCoreAction
  commit : ℕ → ReplicaCoreAction
  finalize : ℕ → ReplicaCoreAction
  forward : ℕ → Command → ReplicaCoreAction
  view_change : ℕ → Map Block → ReplicaCoreAction
  new_view : ℕ → Quorum (Map Block) → Map (List Command) → ReplicaCoreAction
  entered_view : ReplicaCoreAction

abbrev pub Actions : Type 0
Actions = List ReplicaCoreAction

-- `ReplicaCore::new`.
unfoldable pub new_core : ReplicaCoreConfig → ReplicaCore
unfolding Pool.new_close_loop
new_core config = record {
  config = config;
  view_num = 0;
  pool = Pool.new_close_loop;
  blocks = [];
  propose_num = 0;
  finalize_num = 0;
}

unfoldable pub is_primary_of : ReplicaCore → ℕ → Bool
unfolding primary
is_primary_of core view_num = primary core.config.spec view_num == core.config.id

unfoldable pub is_primary : ReplicaCore → Bool
unfolding is_primary_of
is_primary core = is_primary_of core core.view_num

unfoldable pub can_propose : ReplicaCore → Bool
can_propose core =
    is_primary core
    && ltb (wrapping_sub u32_mod core.propose_num core.finalize_num) core.config.max_num_inflight

-- The loop of `ReplicaCore::propose`.
propose_loop : ℕ → ReplicaCore → Outcome (ReplicaCore × Actions)
propose_loop zero core = out_of_fuel
propose_loop (suc fuel) core = elim (can_propose core) [
  | false ↦ done (core, [])
  | true ↦ do
    (pool, batch) ← Pool.close_batch core.pool core.config.max_batch_size
    elim batch [
      | none ↦ done (record core { pool = pool }, [])
      | some commands ↦ do
        let propose_num = u32 (core.propose_num + 1)
        (core', actions) ←
            propose_loop fuel (record core { pool = pool; propose_num = propose_num })
        done (core', propose propose_num commands ∷ actions)
    ]
]

-- The loop makes at most `max_num_inflight` proposals.
unfoldable pub propose_all : ReplicaCore → Outcome (ReplicaCore × Actions)
unfolding propose_loop
propose_all core = propose_loop (suc core.config.max_num_inflight) core

-- `self.pool.commit` for each command of a block.
commit_all : CommandPool → List Command → Outcome CommandPool
commit_all pool [] = done pool
commit_all pool (command ∷ commands) = do
  pool' ← Pool.commit pool command
  commit_all pool' commands

-- `is_some_and(|block| ..)` of the loop that finalizes.
abbrev pub is_ready : Option Block → Bool
is_ready none = false
is_ready (some block) = is_some block.prepare_quorum && is_some block.commit_quorum

-- The `while` loop of the `CommitQuorum` event.
finalize_loop : ℕ → ReplicaCore → Outcome (ReplicaCore × Actions)
unfolding commit_all
finalize_loop zero core = out_of_fuel
finalize_loop (suc fuel) core =
    let next = u32 (core.finalize_num + 1) in
    elim (is_ready (lookup next core.blocks)) [
      | false ↦ done (core, [])
      | true ↦ do
        block ← unwrap (lookup next core.blocks)
        pool ← commit_all core.pool block.commands
        (core', actions) ← finalize_loop fuel (record core { pool = pool; finalize_num = next })
        done (core', finalize next ∷ actions)
    ]

-- Each round goes past one more block, so the number of blocks bounds the rounds.
unfoldable pub finalize_all : ReplicaCore → Outcome (ReplicaCore × Actions)
unfolding finalize_loop
finalize_all core = finalize_loop (suc (length core.blocks)) core

-- The `Request` event.
on_request : ReplicaCore → Command → Outcome (ReplicaCore × Actions)
on_request core command = do
  (pool, _) ← Pool.push core.pool command
  let core' = record core { pool = pool }
  if is_primary core'
      then propose_all core'
      else done (core', forward (primary core'.config.spec core'.view_num) command ∷ [])

-- The `Proposal` event.
on_proposal : ReplicaCore → ℕ → Block → ReplicaCore × Actions
on_proposal core block_num block = if contains block_num core.blocks then (core, []) else (
  record core { blocks = insert block_num block core.blocks },
  if is_primary core then [] else prepare block_num block.digest ∷ [],
)

-- The `PrepareQuorum` event.
on_prepare_quorum : ReplicaCore → ℕ → Quorum Sig → Outcome (ReplicaCore × Actions)
on_prepare_quorum core block_num quorum = do
  block ← unwrap (lookup block_num core.blocks)
  assert (not (is_some block.prepare_quorum))
  let block' = record block { prepare_quorum = some quorum }
  done (record core { blocks = insert block_num block' core.blocks }, commit block_num ∷ [])

-- The `CommitQuorum` event.
on_commit_quorum : ReplicaCore → ℕ → Quorum Sig → Outcome (ReplicaCore × Actions)
on_commit_quorum core block_num quorum = do
  block ← unwrap (lookup block_num core.blocks)
  assert (not (is_some block.commit_quorum))
  let block' = record block { commit_quorum = some quorum }
  (core', finalized) ← finalize_all (record core { blocks = insert block_num block' core.blocks })
  (core'', proposed) ← propose_all core'
  done (core'', finalized ++ proposed)

-- `view_change_proposals`, which is still to be written.
view_change_proposals : Quorum (Map Block) → Map (List Command)
view_change_proposals quorum = []

-- The loop that prepares the blocks of the new view.
adopt : Map Block → Map Block → Map Block × Actions
adopt blocks [] = (blocks, [])
adopt blocks ((block_num, block) ∷ proposals) =
    let (blocks', actions) = adopt (insert block_num block blocks) proposals in
    (blocks', prepare block_num block.digest ∷ actions)

take_over : ReplicaCore → Map Block → ReplicaCore × Actions
unfolding adopt
take_over core [] = (core, entered_view ∷ [])
take_over core ((min_num, block) ∷ proposals) =
    let (blocks, actions) = adopt (below min_num core.blocks) ((min_num, block) ∷ proposals) in
    (record core { blocks = blocks }, entered_view ∷ actions)

-- The `ViewChangeQuorum` event.
on_view_change_quorum : ReplicaCore → ℕ → Quorum (Map Block) → ReplicaCore × Actions
on_view_change_quorum core view_num quorum =
    if is_primary_of core view_num
    then (
      record core { view_num = view_num },
      new_view view_num quorum (view_change_proposals quorum) ∷ [],
    )
    else (core, [])

module _ (prim : Primitives) where
  -- The loop over the zipped proposals that may return early.
  agree : Map Block → Map (List Command) → Bool
  agree ((block_num, block) ∷ blocks) ((other_block_num, commands) ∷ proposals) =
      block_num == other_block_num
      && block.digest == block_digest prim commands
      && agree blocks proposals
  agree _ _ = true

  -- The `EnterView` event.
  on_enter_view : ReplicaCore → ℕ → Quorum (Map Block) → Map Block → Outcome (ReplicaCore × Actions)
  unfolding agree take_over view_change_proposals
  on_enter_view core view_num quorum proposals = do
    assert (not (is_primary_of core view_num))
    done (
        if agree proposals (view_change_proposals quorum)
        then take_over (record core { view_num = view_num }) proposals
        else (core, []))

  -- `ReplicaCore::handle`.
  unfoldable pub handle : ReplicaCore → ReplicaCoreEvent → Outcome (ReplicaCore × Actions)
  unfolding on_request on_proposal on_prepare_quorum on_commit_quorum on_enter_view
      on_view_change_quorum
  handle core (request command) = on_request core command
  handle core (proposal block_num block) = done (on_proposal core block_num block)
  handle core (prepare_quorum block_num quorum) = on_prepare_quorum core block_num quorum
  handle core (commit_quorum block_num quorum) = on_commit_quorum core block_num quorum
  handle core view_expired = done (core, view_change (u32 (core.view_num + 1)) core.blocks ∷ [])
  handle core (view_change_quorum view_num quorum) =
      done (on_view_change_quorum core view_num quorum)
  handle core (enter_view view_num quorum proposals) = on_enter_view core view_num quorum proposals

-- `is_prepared` and `is_committed`.
abbrev pub has_prepare_quorum : Option Block → Bool
has_prepare_quorum none = false
has_prepare_quorum (some block) = is_some block.prepare_quorum

abbrev pub has_commit_quorum : Option Block → Bool
has_commit_quorum none = false
has_commit_quorum (some block) = is_some block.commit_quorum

unfoldable pub is_prepared : ReplicaCore → ℕ → Bool
is_prepared core block_num =
    ltb block_num core.finalize_num || has_prepare_quorum (lookup block_num core.blocks)

-- The index into `blocks` is reached only where `is_prepared` has found the block.
unfoldable pub is_committed : ReplicaCore → ℕ → Bool
unfolding is_prepared
is_committed core block_num =
    ltb block_num core.finalize_num
    || is_prepared core block_num && has_commit_quorum (lookup block_num core.blocks)
