-- ===== src/Pbft/Replica/Drain.antt =====
-- The loop of `Replica::receive` over the actions of the core, and `receive` itself.
use bft_kit.Base.{
  ℕ, zero, suc, none, List, [], ◌∷◌, ◌++◌, is_some, Outcome, done, panic, out_of_fuel, assert,
  unwrap, ◌>>=◌, ◌>>◌,
}
use bft_kit.Replica.{ReplicaAction}
use bft_kit.Base.Map.{lookup, insert, remove}
use bft_kit.Command.{Command}
use bft_kit.Crypto.{Primitives, Digest, block_digest}
use bft_kit.Pbft.Message.{PrePrepare}
use bft_kit.Pbft.Core.{Block, ReplicaCoreEvent, ReplicaCoreAction, Actions}
use bft_kit.Pbft.Replica.{
  Replica, ToReplica, Sent, Flow, return, proceed, scratch_of, feed, signed_vote,
  signed_pre_prepare, check_prepare_quorum, check_commit_quorum,
}
use bft_kit.Pbft.Replica.Receive.{extend_matching, dispatch}

-- The rounds of the loop are at most as many as the phases that an action can go through.
abbrev pub max_rounds : ℕ
max_rounds = 4

module _ (prim : Primitives) where
  -- The block of a proposal of this replica.
  own_block : PrePrepare → List Command → Block
  own_block m commands = record {
    commands = commands;
    digest = m.digest;
    pre_prepare = (m.view_num, m.sig);
    prepare_quorum = none;
    commit_quorum = none;
  }

  unfoldable pub on_propose : Replica → ℕ → List Command → Outcome Sent
  unfolding own_block feed signed_pre_prepare
  on_propose r block_num commands = do
    let m = signed_pre_prepare prim r block_num (block_digest prim commands)
    r' ← feed prim r (ReplicaCoreEvent.proposal block_num (own_block m commands))
    done (r', ReplicaAction.send_to_all_replicas (ToReplica.pre_prepare m commands) ∷ [])

  unfoldable pub on_prepare : Replica → ℕ → Digest → Outcome Sent
  unfolding scratch_of extend_matching signed_vote
  on_prepare r block_num digest = do
    let scratch = scratch_of r block_num
    let vote = signed_vote prim r block_num digest
    r' ← check_prepare_quorum prim r block_num (record {
      prepare_votes = [];
      prepare_quorum =
          insert vote.replica_id vote.sig
            (extend_matching digest scratch.prepare_quorum scratch.prepare_votes);
      commit_votes = [];
      commit_quorum = extend_matching digest scratch.commit_quorum scratch.commit_votes;
    })
    done (r', ReplicaAction.send_to_all_replicas (ToReplica.prepare vote) ∷ [])

  unfoldable pub on_commit : Replica → ℕ → Outcome Sent
  unfolding signed_vote
  on_commit r block_num = do
    scratch ← unwrap (lookup block_num r.block_scratches)
    block ← unwrap (lookup block_num r.core.blocks)
    let vote = signed_vote prim r block_num block.digest
    r' ←
        check_commit_quorum prim r block_num
          (record scratch { commit_quorum = insert vote.replica_id vote.sig scratch.commit_quorum })
    done (r', ReplicaAction.send_to_all_replicas (ToReplica.commit vote) ∷ [])

  unfoldable pub on_finalize : Replica → ℕ → Outcome Sent
  on_finalize r block_num = do
    assert (is_some (lookup block_num r.block_scratches))
    block ← unwrap (lookup block_num r.core.blocks)
    done (
      record r { block_scratches = remove block_num r.block_scratches },
      ReplicaAction.finalize block.commands ∷ [],
    )

  -- One action. `ViewChange` and `NewView` are `todo!()` in the code.
  unfoldable pub perform : Replica → ReplicaCoreAction → Outcome Sent
  unfolding on_propose on_prepare on_commit on_finalize
  perform r (ReplicaCoreAction.propose block_num commands) = on_propose r block_num commands
  perform r (ReplicaCoreAction.prepare block_num digest) = on_prepare r block_num digest
  perform r (ReplicaCoreAction.commit block_num) = on_commit r block_num
  perform r (ReplicaCoreAction.finalize block_num) = on_finalize r block_num
  perform r (ReplicaCoreAction.forward replica_id command) =
      done (r, ReplicaAction.send_to_replica replica_id (ToReplica.request command) ∷ [])
  perform r (ReplicaCoreAction.view_change view_num blocks) = panic
  perform r (ReplicaCoreAction.new_view view_num view_changes proposals) = panic
  perform r ReplicaCoreAction.entered_view = done (record r { block_scratches = [] }, [])

  -- The `for` loop over the actions that one round takes.
  unfoldable pub perform_all : Replica → Actions → Outcome Sent
  unfolding perform
  perform_all r [] = done (r, [])
  perform_all r (action ∷ actions) = do
    (r', sent) ← perform r action
    (r'', sent') ← perform_all r' actions
    done (r'', sent ++ sent')

  -- The `while` loop: each round takes the actions that there are.
  unfoldable pub drain : ℕ → Replica → Actions → Outcome Sent
  unfolding perform_all
  drain fuel r [] = done (r, [])
  drain zero r (action ∷ actions) = out_of_fuel
  drain (suc fuel) r (action ∷ actions) = do
    (r', sent) ← perform_all (record r { core_actions = [] }) (action ∷ actions)
    (r'', sent') ← drain fuel r' r'.core_actions
    done (r'', sent ++ sent')

  unfoldable pub finish : Flow → Outcome Sent
  unfolding drain
  finish (return r sent) = done (r, sent)
  finish (proceed r) = drain max_rounds r r.core_actions

  unfoldable pub receive : Replica → ToReplica → Outcome Sent
  unfolding dispatch finish
  receive r message = do flow ← dispatch prim r message; finish flow

  unfoldable pub request : Replica → Command → Outcome Sent
  unfolding receive
  request r command = receive r (ToReplica.request command)
