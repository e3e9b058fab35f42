-- ===== src/Network.antt =====
-- `System` of `src/testing.rs`, the replicas of a protocol and the messages between them, and `Effect`
-- of `src/pbft/tests.rs` and `src/hotstuff/tests.rs`, which is the same in both.
pub mod Runs
use bft_kit.Base.{
  ℕ, zero, suc, ◌+◌, ◌*◌, ◌≤◌, ◌<◌, ◌≡◌, Bool, true, false, not, ◌&&◌, ◌||◌, Option, none, some,
  List, [], ◌∷◌, ◌++◌, length, get_elem?, set, ltb, leb, ◌==◌, if◌then◌else◌, u16, Outcome, done,
  panic, assert, unwrap, ◌>>=◌, ◌>>◌,
}
use bft_kit.Command.{Command}
use bft_kit.Replica.{ReplicaAction, AbstractReplica}

pub data Event (Message : Type 0) : Type 0 where
  send_to_replica : ℕ → Message → Event Message

-- What a run shows to the test.
pub data Action : Type 0 where
  finalize : ℕ → List Command → Action

pub record System (Replica Message : Type 0) : Type 0 where
  pub replicas : List Replica
  pub events : List (Event Message)

module _ {Message : Type 0} where
  -- `for id in 0..num_replica`, with what there is from `id` on.
  unfoldable pub broadcast : ℕ → ℕ → ℕ → Message → List (Event Message)
  broadcast zero id from message = []
  broadcast (suc count) id from message =
      let rest = broadcast count (id + 1) from message in
      if id == from then rest else Event.send_to_replica id message ∷ rest

  -- The events that `filter_exhaust` drops before the next step.
  unfoldable pub skipped : (Event Message → Bool) → List (Event Message) → List (Event Message)
  skipped skip [] = []
  skipped skip (event ∷ events) = if skip event then skipped skip events else event ∷ events

module _ {Replica Message : Type 0} where
  abbrev pub num_replica : System Replica Message → ℕ
  num_replica system = u16 (length system.replicas)

  abbrev pub push_events : System Replica Message → List (Event Message) → System Replica Message
  push_events system events = record system { events = system.events ++ events }

  -- `effect` of an action: what it adds to the events, and to the actions of the run.
  unfoldable pub effect :
      ℕ
      → ReplicaAction Message
      → System Replica Message
      → Outcome (System Replica Message × List Action)
  unfolding broadcast
  effect from (ReplicaAction.send_to_replica id message) system = do
    assert (not (id == from))
    done (push_events system (Event.send_to_replica id message ∷ []), [])
  effect from (ReplicaAction.send_to_all_replicas message) system =
      done (push_events system (broadcast (num_replica system) 0 from message), [])
  effect from (ReplicaAction.finalize commands) system =
      done (system, Action.finalize from commands ∷ [])

  -- `System::effect`. The effect of an action pushes no actions of the replica, so the `while` loop
  -- makes one round.
  unfoldable pub effect_all :
      ℕ
      → List (ReplicaAction Message)
      → System Replica Message
      → Outcome (System Replica Message × List Action)
  unfolding effect
  effect_all from [] system = done (system, [])
  effect_all from (action ∷ actions) system = do
    (system', out) ← effect from action system
    (system'', out') ← effect_all from actions system'
    done (system'', out ++ out')

  -- `self.replicas[replica_id]` is called, and what it pushes takes effect.
  unfoldable pub call :
      ℕ
      → (Replica → Outcome (Replica × List (ReplicaAction Message)))
      → System Replica Message
      → Outcome (System Replica Message × List Action)
  unfolding effect_all
  call id f system = do
    replica ← unwrap (get_elem? system.replicas id)
    (replica', sent) ← f replica
    effect_all id sent (record system { replicas = set system.replicas id replica' })

  -- `assert!(actions.is_empty())`.
  abbrev pub quietly : System Replica Message × List Action → Outcome (System Replica Message)
  quietly (system, []) = done system
  quietly (system, action ∷ actions) = panic

module _ {Replica Message : Type 0} (replica : AbstractReplica Replica Message) where
  -- The loop of `init`, with the replicas from `id` on.
  unfoldable pub init_from : ℕ → ℕ → System Replica Message → Outcome (System Replica Message)
  unfolding call
  init_from zero id system = done system
  init_from (suc count) id system = do
    result ← call id replica.init system
    system' ← quietly result
    init_from count (id + 1) system'

  unfoldable pub init : System Replica Message → Outcome (System Replica Message)
  unfolding init_from
  init system = init_from (num_replica system) 0 system

  unfoldable pub request : System Replica Message → ℕ → Command → Outcome (System Replica Message)
  unfolding call
  request system id command = do
    result ← call id (λ r. replica.request r command) system
    quietly result

  -- A message is received. `None` where there is none, for `false`.
  unfoldable pub step :
      System Replica Message → Outcome (Option (System Replica Message × List Action))
  unfolding call
  step system = elim system.events [
    | [] ↦ done none
    | event ∷ events ↦ elim event [
      | send_to_replica id message ↦ do
        result ← call id (λ r. replica.receive r message) (record system { events = events })
        done (some result)
    ]
  ]

  -- What a step that is run for its effect leaves.
  abbrev pub or_same :
      System Replica Message
      → Option (System Replica Message × List Action)
      → System Replica Message × List Action
  or_same system none = (system, [])
  or_same system (some result) = result

  -- `exhaust`, which panics after the last step, also when that one left no event.
  unfoldable pub exhaust :
      ℕ → System Replica Message → Outcome (System Replica Message × List Action)
  unfolding step
  exhaust zero system = panic
  exhaust (suc max_num_step) system = do
    stepped ← step system
    elim stepped [
      | none ↦ done (system, [])
      | some (system', out) ↦ do
        (system'', out') ← exhaust max_num_step system'
        done (system'', out ++ out')
    ]

  -- `filter_exhaust`, with the number of steps that are left.
  unfoldable pub filter_exhaust :
      (Event Message → Bool)
      → ℕ
      → System Replica Message
      → Outcome (System Replica Message × List Action)
  unfolding step skipped
  filter_exhaust skip zero system = elim (skipped skip system.events) [
    | [] ↦ done (record system { events = [] }, [])
    | event ∷ events ↦ panic
  ]
  filter_exhaust skip (suc left) system = elim (skipped skip system.events) [
    | [] ↦ done (record system { events = [] }, [])
    | event ∷ events ↦ do
      let kept : System Replica Message = record system { events = event ∷ events }
      stepped ← step kept
      let (system', out) = or_same kept stepped
      (system'', out') ← filter_exhaust skip left system'
      done (system'', out ++ out')
  ]
