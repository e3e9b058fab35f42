-- ===== src/Client.antt =====
-- The clients: the loops of `ClientTask::run` of `src/pbft/transport.rs`,
-- `src/hotstuff/transport.rs` and `src/unreplicated.rs`, an iteration at a time. The channels and
-- the clock are outside.
pub mod Backed
pub mod Counted
pub mod Replies
pub mod Examples
use bft_kit.Base.{
  ℕ, zero, suc, ◌+◌, Bool, true, false, ◌&&◌, not, Option, none, some, List, [], ◌∷◌, length, drop,
  ◌==◌, if◌then◌else◌, u16, u32,
}
use bft_kit.Base.Map.{Map, lookup, insert, remove, contains}
use bft_kit.Command.{Command}
use bft_kit.Pbft.Message
use bft_kit.Pbft.Core.{Spec, primary}
use bft_kit.Service.{HotstuffReply, UnreplicatedReply}

-- `ClientConfig` of src/workload.rs, less the sending rate.
pub data ClientConfig : Type 0 where
  close_loop : ClientConfig
  open_loop : ℕ → ClientConfig

-- `SeqScratch` less its start time. The unreplicated client has no `results`.
pub record SeqScratch : Type 0 where
  pub results : Map (List ℕ)
  pub expected_result : Option (List ℕ)

-- The variables of the loop. Only the client of PBFT uses `view_num`.
pub record Client : Type 0 where
  pub id : ℕ
  pub seq : ℕ
  pub seq_scratch : Map SeqScratch
  pub view_num : ℕ

unfoldable pub new : ℕ → Client
new id = record { id = id; seq = 0; seq_scratch = []; view_num = 0 }

unfoldable pub is_same : List ℕ → List ℕ → Bool
is_same [] [] = true
is_same [] (b ∷ bytes) = false
is_same (a ∷ bytes) [] = false
is_same (a ∷ bytes) (b ∷ bytes') = a == b && is_same bytes bytes'

-- The scratches that there is room for: `none` ends the task with an error, as `ensure!` does.
unfoldable pub make_room : ClientConfig → Map SeqScratch → Option (Map SeqScratch)
make_room close_loop [] = some []
make_room close_loop (entry ∷ entries) = none
make_room (open_loop num_max_inflight) seq_scratch =
    some (if length seq_scratch == num_max_inflight then drop 1 seq_scratch else seq_scratch)

-- `Select::Invoke`, once the command is sent.
unfoldable pub start : ClientConfig → Client → Option (List ℕ) → Option Client
unfolding make_room
start config client expected_result = elim (make_room config client.seq_scratch) [
  | none ↦ none
  | some seq_scratch ↦ some (record client {
    seq = u32 (client.seq + 1);
    seq_scratch =
        insert (u32 (client.seq + 1)) (record { results = []; expected_result = expected_result })
          seq_scratch;
  })
]

abbrev pub command_of : Client → List ℕ → Command
command_of client op = record { client_id = client.id; seq = u32 (client.seq + 1); op = op }

-- What a client sends: a command to one replica or to all.
pub data Send : Type 0 where
  to_replica : ℕ → Command → Send
  to_all : Command → Send

abbrev with_send : Send → Option Client → Option (Client × Send)
with_send send none = none
with_send send (some client) = some (client, send)

-- `egresses` has the replicas that the client is connected to.
unfoldable pub invoke_pbft :
    Spec
    → Map (Unit {0})
    → ClientConfig
    → Client
    → List ℕ
    → Option (List ℕ)
    → Option (Client × Send)
unfolding start
invoke_pbft spec egresses config client op result =
    if contains (primary spec client.view_num) egresses
    then with_send (to_replica (primary spec client.view_num) (command_of client op))
        (start config client result)
    else none

unfoldable pub invoke_hotstuff :
    ClientConfig → Client → List ℕ → Option (List ℕ) → Option (Client × Send)
unfolding start
invoke_hotstuff config client op result =
    with_send (to_all (command_of client op)) (start config client result)

unfoldable pub invoke_unreplicated :
    Map (Unit {0}) → ClientConfig → Client → List ℕ → Option (List ℕ) → Option (Client × Send)
unfolding start
invoke_unreplicated egresses config client op result =
    if contains 0 egresses
    then with_send (to_replica 0 (command_of client op)) (start config client result)
    else none

-- `results.values().filter(|&result| result == &reply.result)`.
unfoldable pub matching : List ℕ → Map (List ℕ) → Map (List ℕ)
unfolding is_same
matching result [] = []
matching result ((replica_id, other) ∷ results) =
    let rest = matching result results in
    if is_same other result then (replica_id, other) ∷ rest else rest

-- `if let Some(result) = scratch.expected_result { ensure!(reply.result == result) }`.
unfoldable pub is_expected : Option (List ℕ) → List ℕ → Bool
unfolding is_same
is_expected none result = true
is_expected (some expected) result = is_same result expected

-- The end of a command: whether it is committed, and the client after it.
abbrev pub commit : Client → Bool → Option (Client × Bool)
commit client true = some (client, true)
commit client false = none

-- A reply that counts towards `num_faulty + 1` equal results.
unfoldable pub count_reply : ℕ → Client → ℕ → ℕ → List ℕ → ℕ → Option (Client × Bool)
unfolding matching is_expected
count_reply num_faulty client seq replica_id result view_num =
    elim (lookup seq client.seq_scratch) [
      | none ↦ some (client, false)
      | some scratch ↦
          let results = insert replica_id result scratch.results in
          if u16 (length (matching result results)) == u16 (num_faulty + 1)
          then commit
              (record client { view_num = view_num; seq_scratch = remove seq client.seq_scratch })
              (is_expected scratch.expected_result result)
          else some (
            record client {
              seq_scratch = insert seq (record scratch { results = results }) client.seq_scratch;
            },
            false,
          )
    ]

-- `Select::Message`. Only a reply of PBFT brings a view.
unfoldable pub on_pbft_reply : Spec → Client → Message.Reply → Option (Client × Bool)
unfolding count_reply
on_pbft_reply spec client reply =
    count_reply spec.num_faulty client reply.seq reply.replica_id reply.result reply.view_num

unfoldable pub on_hotstuff_reply : Spec → Client → HotstuffReply → Option (Client × Bool)
unfolding count_reply
on_hotstuff_reply spec client reply =
    count_reply spec.num_faulty client reply.seq reply.replica_id reply.result client.view_num

unfoldable pub on_unreplicated_reply : Client → UnreplicatedReply → Option (Client × Bool)
unfolding is_expected
on_unreplicated_reply client reply = elim (lookup reply.seq client.seq_scratch) [
  | none ↦ some (client, false)
  | some scratch ↦
      commit (record client { seq_scratch = remove reply.seq client.seq_scratch })
        (is_expected scratch.expected_result reply.result)
]
