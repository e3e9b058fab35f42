-- ===== src/Pbft/Examples.antt =====
-- Replicas of `src/pbft/mod.rs` run on a few messages.
use bft_kit.Base.{
  ℕ, ◌≡◌, refl, false, none, some, List, [], ◌∷◌, Outcome, done, panic, out_of_fuel, arith,
}
use bft_kit.Replica.{ReplicaAction}
use bft_kit.Base.Map.{lookup, insert}
use bft_kit.Command.{Command, commands_bytes}
use bft_kit.Pool.{CommandPool}
use bft_kit.Pool.Examples.{command, pushed_3, pushed_3-IsValid}
use bft_kit.Crypto.{uninitialized, sign, verify, block_digest}
use bft_kit.Crypto.Examples.{toy, toy-IsSound, config_of, replica_config_0, replica_config_1}
use bft_kit.Pbft.Message.{Vote, pre_prepare_bytes, vote_bytes}
use bft_kit.Pbft.Core.{
  ReplicaCoreConfig, Block, ReplicaCore, ReplicaCoreAction, Actions, new_core, is_primary, handle,
  propose_all, finalize_all, is_prepared,
}
use bft_kit.Pbft.Core.Propose.{Proposed, propose_all_lem}
use bft_kit.Pbft.Core.Finalize.{Finalized, finalize_all_lem}
use bft_kit.Pbft.Replica.{
  Replica, ToReplica, Sending, Sent, new, feed, signed_vote, signed_pre_prepare,
  check_prepare_quorum, check_commit_quorum, put_scratch, scratch_of,
}
use bft_kit.Pbft.Replica.Receive.{dispatch, on_pre_prepare, extend_matching}
use bft_kit.Pbft.Replica.Drain
use bft_kit.Pbft.Replica.Drain.{drain, receive}
use bft_kit.Pbft.Replica.WellFormed.{IsWellFormed, new-WellFormed}
use bft_kit.Pbft.Replica.Kept.{receive-IsWellFormed}
use bft_kit.Pbft.Replica.Recorded.{Recorded}
use bft_kit.Pbft.Replica.Votes.{
  awaits_prepare, receive_unknown_voter, commit_of_prepare, counts_votes,
}

abbrev core_config : ℕ → ReplicaCoreConfig
core_config id = record {
  spec = record { num_faulty = 1; num_replica = 4 };
  id = id;
  max_num_inflight = 1;
  max_batch_size = 1;
}

abbrev new_replica : ℕ → Replica
new_replica id = record {
  core = new_core (core_config id);
  core_actions = [];
  crypto_config = config_of id;
  block_scratches = [];
  ticked_scratch_num = 0;
}

new_0 : new toy (core_config 0) ≡ done (new_replica 0)
unfolding new
new_0 = rw replica_config_0 refl

new_1 : new toy (core_config 1) ≡ done (new_replica 1)
unfolding new
new_1 = rw replica_config_1 refl

abbrev some_command : Command
some_command = record { client_id = 3; seq = 1; op = 5 ∷ [] }

-- What a call left behind.
abbrev replica_after : Replica → Outcome Sent → Replica
replica_after r (done (r', sent)) = r'
replica_after r panic = r
replica_after r out_of_fuel = r

abbrev sent_by : Outcome Sent → List Sending
sent_by (done (r', sent)) = sent
sent_by panic = []
sent_by out_of_fuel = []

-- The replica 1 has received the primary's first proposal.
abbrev proposal_of_0 : ToReplica
proposal_of_0 =
    ToReplica.pre_prepare
      (signed_pre_prepare toy (new_replica 0) 1 (block_digest toy (some_command ∷ [])))
      (some_command ∷ [])

abbrev proposed_to_1 : Outcome Sent
proposed_to_1 = receive toy (new_replica 1) proposal_of_0

abbrev replica_1 : Replica
replica_1 = replica_after (new_replica 1) proposed_to_1

proposed_to_1_done : proposed_to_1 ≡ done (replica_1, sent_by proposed_to_1)
unfolding receive dispatch on_pre_prepare signed_pre_prepare pre_prepare_bytes block_digest
    commands_bytes sign verify new_core lookup insert feed handle drain is_primary signed_vote
    vote_bytes scratch_of extend_matching check_prepare_quorum put_scratch
proposed_to_1_done = refl

receive-IsWellFormed_example : IsWellFormed toy replica_1
receive-IsWellFormed_example =
    receive-IsWellFormed toy (new_replica 1) proposal_of_0
      (new-WellFormed toy (core_config 1) new_1) proposed_to_1_done

abbrev one_proposal : Actions
one_proposal = ReplicaCoreAction.propose 1 (some_command ∷ []) ∷ []

abbrev proposing : Outcome Sent
proposing = Drain.perform_all toy (new_replica 0) one_proposal

-- A primary with commands of three clients.
abbrev busy_core : ReplicaCore
busy_core = record {
  config = core_config 0;
  view_num = 0;
  pool = CommandPool.close_loop pushed_3;
  blocks = [];
  propose_num = 0;
  finalize_num = 0;
}

propose_all_lem_example :
    (core' : ReplicaCore) × (actions : Actions) × (propose_all busy_core ≡ done (core', actions))
    × Proposed busy_core actions core'
propose_all_lem_example =
    propose_all_lem busy_core (record { pool = pushed_3; at = refl; valid = pushed_3-IsValid })
      (record {
        propose_fits = omega arith;
        finalize_fits = omega arith;
        inflight_fits = omega arith;
      })

-- The same core once its first block has both quorums.
abbrev voted_core : ReplicaCore
voted_core = record busy_core {
  blocks =
      (
        1,
        record {
          commands = command 2 3 ∷ [];
          digest = 8;
          pre_prepare = (0, uninitialized);
          prepare_quorum = some ((0, uninitialized) ∷ (1, uninitialized) ∷ []);
          commit_quorum = some ((0, uninitialized) ∷ (1, uninitialized) ∷ (2, uninitialized) ∷ []);
        },
      )
      ∷ [];
  propose_num = 1;
}

finalize_all_lem_example :
    (core' : ReplicaCore) × (actions : Actions) × (finalize_all voted_core ≡ done (core', actions))
    × Finalized voted_core actions core'
finalize_all_lem_example =
    finalize_all_lem voted_core (record { pool = pushed_3; at = refl; valid = pushed_3-IsValid })
      (omega arith)

abbrev vote_of_0 : Vote
vote_of_0 = signed_vote toy (new_replica 0) 1 77

undecided_1 : is_prepared (new_replica 1).core 1 ≡ false
unfolding is_prepared new_core lookup
undecided_1 = refl

counts_votes_example :
    Recorded toy
      (new_replica 1)
      (ToReplica.prepare vote_of_0)
      vote_of_0
      (dispatch toy (new_replica 1) (ToReplica.prepare vote_of_0))
unfolding new_core signed_vote
counts_votes_example =
    counts_votes toy (new_replica 0) (new_replica 1) (ToReplica.prepare vote_of_0) 4 1 77
      toy-IsSound replica_config_0 replica_config_1 refl (awaits_prepare vote_of_0 undecided_1)

abbrev vote_of_9 : Vote
vote_of_9 = record { view_num = 0; block_num = 1; digest = 77; replica_id = 9; sig = uninitialized }

receive_unknown_voter_example : receive toy (new_replica 1) (ToReplica.prepare vote_of_9) ≡ panic
unfolding new_core
receive_unknown_voter_example =
    receive_unknown_voter toy (new_replica 1) (ToReplica.prepare vote_of_9) vote_of_9
      (awaits_prepare vote_of_9 undecided_1) refl (omega arith)

abbrev block_1 : Block
block_1 = record {
  commands = some_command ∷ [];
  digest = block_digest toy (some_command ∷ []);
  pre_prepare =
      (0, (signed_pre_prepare toy (new_replica 0) 1 (block_digest toy (some_command ∷ []))).sig);
  prepare_quorum = none;
  commit_quorum = none;
}

abbrev prepared_by_1 : Outcome Sent
prepared_by_1 = Drain.on_prepare toy (new_replica 1) 1 block_1.digest

abbrev committed_by_1 : Outcome Sent
committed_by_1 = Drain.on_commit toy replica_1 1

prepared_by_1_done :
    prepared_by_1 ≡ done (replica_after (new_replica 1) prepared_by_1, sent_by prepared_by_1)
unfolding Drain.on_prepare new_core check_prepare_quorum lookup insert extend_matching
prepared_by_1_done = refl

committed_by_1_done :
    committed_by_1 ≡ done (replica_after replica_1 committed_by_1, sent_by committed_by_1)
unfolding Drain.on_commit receive dispatch on_pre_prepare signed_pre_prepare pre_prepare_bytes
    block_digest commands_bytes sign verify new_core lookup insert feed handle drain is_primary
    signed_vote vote_bytes scratch_of extend_matching check_prepare_quorum check_commit_quorum
    put_scratch is_prepared
committed_by_1_done = refl

commit_of_prepare_example :
    (vote : Vote) × (sent_by prepared_by_1
      ≡ ReplicaAction.send_to_all_replicas (ToReplica.prepare vote) ∷ [])
    × (sent_by committed_by_1 ≡ ReplicaAction.send_to_all_replicas (ToReplica.commit vote) ∷ [])
unfolding receive dispatch on_pre_prepare signed_pre_prepare pre_prepare_bytes block_digest
    commands_bytes sign verify new_core lookup insert feed handle drain is_primary signed_vote
    vote_bytes scratch_of extend_matching check_prepare_quorum put_scratch is_prepared
commit_of_prepare_example =
    commit_of_prepare toy (new_replica 1) replica_1 1 block_1 refl refl refl refl prepared_by_1_done
      committed_by_1_done
