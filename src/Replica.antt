-- ===== src/Replica.antt =====
-- The interface between the protocols and what runs them: `Action` and `AbstractReplica` of
-- `src/replica.rs`.
use bft_kit.Base.{ℕ, List, Outcome}
use bft_kit.Command.{Command}

-- `crate::ReplicaAction`.
pub data ReplicaAction (Message : Type 0) : Type 0 where
  send_to_replica : ℕ → Message → ReplicaAction Message
  send_to_all_replicas : Message → ReplicaAction Message
  finalize : List Command → ReplicaAction Message

-- A call returns the replica and what it pushes to `actions`.
pub record AbstractReplica (Replica Message : Type 0) : Type 0 where
  pub init : Replica → Outcome (Replica × List (ReplicaAction Message))
  pub request : Replica → Command → Outcome (Replica × List (ReplicaAction Message))
  pub receive : Replica → Message → Outcome (Replica × List (ReplicaAction Message))
  pub tick : Replica → Outcome (Replica × List (ReplicaAction Message))
