-- ===== src/Pbft/Agreement/Examples.antt =====
-- Four replicas of PBFT, of which the last is faulty, run on a request.
use bft_kit.Base.{
  ℕ, zero, suc, ◌≤◌, ◌≡◌, refl, Bool, Option, none, some, List, [], ◌∷◌, get_elem?, ◌==◌, Outcome,
  done, panic, out_of_fuel, arith,
}
use bft_kit.Base.Counting.{count}
use bft_kit.Base.Map.{lookup, insert, remove}
use bft_kit.Command.{Command, commands_bytes}
use bft_kit.Pool
use bft_kit.Pool.CloseLoop
use bft_kit.Crypto.{Sig, uninitialized, block_digest, sign, verify}
use bft_kit.Crypto.Examples.{
  toy, config_of, replica_config_0, replica_config_1, replica_config_2, replica_config_3,
}
use bft_kit.Pbft.Message.{pre_prepare_bytes, vote_bytes}
use bft_kit.Pbft.Core
use bft_kit.Pbft.Core.{Spec, Block, Quorum, ReplicaCoreConfig, new_core}
use bft_kit.Pbft.Replica.{Replica, ToReplica, new, check_prepare_quorum, check_commit_quorum}
use bft_kit.Pbft.Replica.Receive
use bft_kit.Pbft.Replica.Drain
use bft_kit.Pbft.Replica.Tick.{pbft_replica}
use bft_kit.Network.{Event, System, Action, request, exhaust}
use bft_kit.Network.Runs.{Run, Reach, start, later, requested, exhaust-Reach}
use bft_kit.Pbft.Agreement.{Injects}
use bft_kit.Pbft.Agreement.Safety.{Starts, Commits, agreement}

abbrev core_config : ℕ → ReplicaCoreConfig
core_config id = record {
  spec = record { num_faulty = 1; num_replica = 4 };
  id = id;
  max_num_inflight = 1;
  max_batch_size = 1;
}

abbrev new_replica : ℕ → Replica
new_replica id = record {
  core = new_core (core_config id);
  core_actions = [];
  crypto_config = config_of id;
  block_scratches = [];
  ticked_scratch_num = 0;
}

abbrev first : System Replica ToReplica
first = record {
  replicas = new_replica 0 ∷ new_replica 1 ∷ new_replica 2 ∷ new_replica 3 ∷ [];
  events = [];
}

abbrev some_command : Command
some_command = record { client_id = 3; seq = 1; op = 5 ∷ [] }

abbrev or_first : Outcome (System Replica ToReplica) → System Replica ToReplica
or_first (done s) = s
or_first panic = first
or_first out_of_fuel = first

abbrev system_of : Outcome (System Replica ToReplica × List Action) → System Replica ToReplica
system_of (done (s, out)) = s
system_of panic = first
system_of out_of_fuel = first

abbrev out_of : Outcome (System Replica ToReplica × List Action) → List Action
out_of (done (s, out)) = out
out_of panic = []
out_of out_of_fuel = []

abbrev asked : Outcome (System Replica ToReplica)
asked = request (pbft_replica toy) first 0 some_command

abbrev ran : Outcome (System Replica ToReplica × List Action)
ran = exhaust (pbft_replica toy) 30 (or_first asked)

asked_done : asked ≡ done (or_first asked)
unfolding request pbft_replica Drain.request new_core Pool.new_close_loop Pool.push CloseLoop.push
    lookup insert block_digest commands_bytes sign pre_prepare_bytes Core.handle Core.is_primary
    Core.propose_all Core.can_propose Pool.close_batch CloseLoop.close_batch
asked_done = refl

ran_done : ran ≡ done (system_of ran, out_of ran)
unfolding request exhaust pbft_replica Drain.request new_core Pool.new_close_loop Pool.push
    CloseLoop.push lookup insert remove block_digest commands_bytes sign verify pre_prepare_bytes
    vote_bytes Core.handle Drain.receive Pool.commit CloseLoop.commit Pool.close_batch
    CloseLoop.close_batch Core.is_primary Core.propose_all Core.can_propose Receive.on_pre_prepare
    check_prepare_quorum Receive.on_prepare Core.is_prepared check_commit_quorum Receive.on_commit
    Core.is_committed Core.finalize_all
ran_done = refl

all_finalize :
    out_of ran
    ≡ Action.finalize 0 (some_command ∷ [])
      ∷ Action.finalize 1 (some_command ∷ [])
      ∷ Action.finalize 2 (some_command ∷ [])
      ∷ Action.finalize 3 (some_command ∷ [])
      ∷ []
unfolding request exhaust pbft_replica Drain.request new_core Pool.new_close_loop Pool.push
    CloseLoop.push lookup insert remove block_digest commands_bytes sign verify pre_prepare_bytes
    vote_bytes Core.handle Drain.receive Pool.commit CloseLoop.commit Pool.close_batch
    CloseLoop.close_batch Core.is_primary Core.propose_all Core.can_propose Receive.on_pre_prepare
    check_prepare_quorum Receive.on_prepare Core.is_prepared check_commit_quorum Receive.on_commit
    Core.is_committed Core.finalize_all
all_finalize = refl

abbrev faulty : ℕ → Bool
faulty i = i == 3

abbrev spec : Spec
spec = record { num_faulty = 1; num_replica = 4 }

first-Starts : Starts toy spec (config_of 0) replica_config_0 first
unfolding new
first-Starts = record { made = made; quiet = refl }
  where
    made :
        (j : ℕ) (r : Replica)
        → get_elem? first.replicas j ≡ some r
        → (config : ReplicaCoreConfig) × (config.id ≡ j)
          × (config.spec ≡ spec)
          × (new toy config ≡ done r)
    made zero r at = (core_config 0, refl, refl, rw replica_config_0 (cc))
    made (suc zero) r at = (core_config 1, refl, refl, rw replica_config_1 (cc))
    made (suc (suc zero)) r at = (core_config 2, refl, refl, rw replica_config_2 (cc))
    made (suc (suc (suc zero))) r at = (core_config 3, refl, refl, rw replica_config_3 (cc))
    made (suc (suc (suc (suc j)))) r at = absurd (cc)

reached :
    (history : List (Event ToReplica)) × Reach
      (pbft_replica toy)
      (Injects toy (config_of 0).public_keys faulty)
      first
      (record { system = system_of ran; history = history })
reached =
    exhaust-Reach (pbft_replica toy) (Injects toy (config_of 0).public_keys faulty) 30
      (or_first asked) ((or_first asked).events) ran_done
      (later start (requested 0 some_command asked_done))

abbrev last : Run Replica ToReplica
last = record { system = system_of ran; history = reached.0 }

abbrev or_replica : Option Replica → Replica
or_replica none = new_replica 0
or_replica (some r) = r

abbrev replica_at : ℕ → Replica
replica_at i = or_replica (get_elem? (system_of ran).replicas i)

abbrev or_block : Option Block → Block
or_block none = record {
  commands = [];
  digest = 0;
  pre_prepare = (0, uninitialized);
  prepare_quorum = none;
  commit_quorum = none;
}
or_block (some block) = block

abbrev or_no_votes : Option (Quorum Sig) → Quorum Sig
or_no_votes none = []
or_no_votes (some quorum) = quorum

abbrev block_at : ℕ → Block
block_at i = or_block (lookup 1 (replica_at i).core.blocks)

commits_0 : Commits toy spec (config_of 0) replica_config_0 faulty last 0 1
unfolding request exhaust pbft_replica Drain.request new_core Pool.new_close_loop Pool.push
    CloseLoop.push lookup insert remove block_digest commands_bytes sign verify pre_prepare_bytes
    vote_bytes Core.handle Drain.receive Pool.commit CloseLoop.commit Pool.close_batch
    CloseLoop.close_batch Core.is_primary Core.propose_all Core.can_propose Receive.on_pre_prepare
    check_prepare_quorum Receive.on_prepare Core.is_prepared check_commit_quorum Receive.on_commit
    Core.is_committed Core.finalize_all
commits_0 = record {
  replica = replica_at 0;
  at = refl;
  block = block_at 0;
  found = refl;
  quorum = or_no_votes (block_at 0).commit_quorum;
  certified = refl;
}

commits_1 : Commits toy spec (config_of 0) replica_config_0 faulty last 1 1
unfolding request exhaust pbft_replica Drain.request new_core Pool.new_close_loop Pool.push
    CloseLoop.push lookup insert remove block_digest commands_bytes sign verify pre_prepare_bytes
    vote_bytes Core.handle Drain.receive Pool.commit CloseLoop.commit Pool.close_batch
    CloseLoop.close_batch Core.is_primary Core.propose_all Core.can_propose Receive.on_pre_prepare
    check_prepare_quorum Receive.on_prepare Core.is_prepared check_commit_quorum Receive.on_commit
    Core.is_committed Core.finalize_all
commits_1 = record {
  replica = replica_at 1;
  at = refl;
  block = block_at 1;
  found = refl;
  quorum = or_no_votes (block_at 1).commit_quorum;
  certified = refl;
}

one_faulty : count faulty 4 ≤ 1
unfolding count
one_faulty = omega arith

agreement_example :
    (commits_0.block.digest ≡ commits_1.block.digest)
    × (block_digest toy commits_0.block.commands ≡ block_digest toy commits_1.block.commands)
agreement_example =
    agreement toy spec (config_of 0) replica_config_0 faulty first last 0 1 1 first-Starts reached.1
      (omega arith) (omega arith) one_faulty commits_0 commits_1
