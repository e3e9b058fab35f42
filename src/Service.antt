-- ===== src/Service.antt =====
-- `ServiceTask` and `AbstractService` of `src/transport.rs`, and the services of the protocols:
-- `on_finalized` of `src/unreplicated.rs`, `src/pbft/transport.rs` and `src/hotstuff/transport.rs`.
pub mod Once
pub mod Examples
use bft_kit.Base.{
  ℕ, ◌+◌, Bool, true, false, Option, none, some, List, [], ◌∷◌, ◌++◌, ltb, leb, ◌==◌, if◌then◌else◌,
}
use bft_kit.Base.Map.{Map, lookup, insert, contains}
use bft_kit.Command.{Command}
use bft_kit.Pbft.Message

-- The channel to the replica and the sockets are outside; `clients` has the clients with a
-- connection, the keys of `write_senders`.
pub record ServiceTask (Reply : Type 0) : Type 0 where
  pub replies : Map Reply
  pub replica_id : ℕ
  pub clients : Map (Unit {0})

-- `ServiceTask::new`.
unfoldable pub new : {Reply : Type 0} → ℕ → ServiceTask Reply
new replica_id = record { replies = []; replica_id = replica_id; clients = [] }

-- The interface `AbstractService`.
pub record AbstractService (Reply Finalized : Type 0) : Type 0 where
  pub reply_seq : Reply → ℕ
  pub on_finalized : Finalized → ServiceTask Reply → ServiceTask Reply × List (ℕ × Reply)

-- What the task does: it writes a reply to a client, or sends a request on to the replica.
pub data Effect (Reply : Type 0) : Type 0 where
  write : ℕ → Reply → Effect Reply
  submit : Command → Effect Reply

-- `matches!(replies.get(..), Some(reply) if reply.seq >= command.seq)`.
abbrev pub is_answered : {Reply : Type 0} → (Reply → ℕ) → Option Reply → ℕ → Bool
is_answered reply_seq none seq = false
is_answered reply_seq (some reply) seq = leb seq (reply_seq reply)

-- The closure of `filter_map`, for one command; the services differ in the reply that they make.
unfoldable pub execute :
    {Reply : Type 0}
    → (Reply → ℕ)
    → (Command → ServiceTask Reply → Reply)
    → Command
    → ServiceTask Reply
    → ServiceTask Reply × List (ℕ × Reply)
execute reply_seq make command task =
    if is_answered reply_seq (lookup command.client_id task.replies) command.seq
    then (task, [])
    else (
      record task { replies = insert command.client_id (make command task) task.replies },
      (command.client_id, make command task) ∷ [],
    )

unfoldable pub execute_all :
    {Reply : Type 0}
    → (Reply → ℕ)
    → (Command → ServiceTask Reply → Reply)
    → List Command
    → ServiceTask Reply
    → ServiceTask Reply × List (ℕ × Reply)
unfolding execute
execute_all reply_seq make [] task = (task, [])
execute_all reply_seq make (command ∷ commands) task =
    let (task', replies) = execute reply_seq make command task in
    let (task'', replies') = execute_all reply_seq make commands task' in
    (task'', replies ++ replies')

-- The reply of src/unreplicated.rs, and that of src/hotstuff/message.rs.
pub record UnreplicatedReply : Type 0 where
  pub seq : ℕ
  pub result : List ℕ

pub record HotstuffReply : Type 0 where
  pub seq : ℕ
  pub result : List ℕ
  pub replica_id : ℕ

-- `Finalized` of src/pbft/transport.rs.
pub record PbftFinalized : Type 0 where
  pub commands : List Command
  pub view_num : ℕ

abbrev pub unreplicated_reply : Command → ServiceTask UnreplicatedReply → UnreplicatedReply
unreplicated_reply command task = record { seq = command.seq; result = [] }

abbrev pub hotstuff_reply : Command → ServiceTask HotstuffReply → HotstuffReply
hotstuff_reply command task = record {
  seq = command.seq;
  result = [];
  replica_id = task.replica_id;
}

abbrev pub pbft_reply : ℕ → Command → ServiceTask Message.Reply → Message.Reply
pbft_reply view_num command task = record {
  seq = command.seq;
  result = [];
  replica_id = task.replica_id;
  view_num = view_num;
}

unfoldable pub unreplicated_service : AbstractService UnreplicatedReply Command
unfolding execute
unreplicated_service = record {
  reply_seq = λ reply. reply.seq;
  on_finalized = λ command. execute (λ reply. reply.seq) unreplicated_reply command;
}

unfoldable pub hotstuff_service : AbstractService HotstuffReply (List Command)
unfolding execute_all
hotstuff_service = record {
  reply_seq = λ reply. reply.seq;
  on_finalized = λ commands. execute_all (λ reply. reply.seq) hotstuff_reply commands;
}

unfoldable pub pbft_service : AbstractService Message.Reply PbftFinalized
unfolding execute_all
pbft_service = record {
  reply_seq = λ reply. reply.seq;
  on_finalized = λ finalized.
      execute_all (λ reply. reply.seq) (pbft_reply finalized.view_num) finalized.commands;
}

module _ {Reply Finalized : Type 0} (service : AbstractService Reply Finalized) where
  -- A client's connection is accepted; `none` ends the task with an error, as `ensure!` does.
  unfoldable pub on_accept : ServiceTask Reply → ℕ → Option (ServiceTask Reply)
  on_accept task client_id =
      if contains client_id task.clients
      then none
      else some (record task { clients = insert client_id tt task.clients })

  -- A client's request.
  unfoldable pub on_message : ServiceTask Reply → Command → Option (List (Effect Reply))
  on_message task command = elim (lookup command.client_id task.replies) [
    | none ↦ some (submit command ∷ [])
    | some reply ↦
        if ltb command.seq (service.reply_seq reply)
        then some []
        else if service.reply_seq reply == command.seq
        then if contains command.client_id task.clients
          then some (write command.client_id reply ∷ [])
          else none
        else some (submit command ∷ [])
  ]

  -- The loop that writes the replies.
  unfoldable pub write_all : ServiceTask Reply → List (ℕ × Reply) → Option (List (Effect Reply))
  write_all task [] = some []
  write_all task ((client_id, reply) ∷ replies) =
      let rest = write_all task replies in
      if contains client_id task.clients
      then elim rest [ none ↦ none | some effects ↦ some (write client_id reply ∷ effects) ]
      else none

  -- What the replica has finalized.
  unfoldable pub on_finalized :
      ServiceTask Reply → Finalized → ServiceTask Reply × Option (List (Effect Reply))
  unfolding write_all
  on_finalized task finalized =
      let (task', replies) = service.on_finalized finalized task in (task', write_all task' replies)
