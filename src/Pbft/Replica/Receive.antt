-- ===== src/Pbft/Replica/Receive.antt =====
-- `Replica::receive` and `Replica::request` of `src/pbft/mod.rs`.
use bft_kit.Base.{
  not, ◌&&◌, ◌||◌, Option, none, some, List, [], ◌∷◌, ◌++◌, get_elem?, ◌==◌, if◌then◌else◌, is_some,
  Outcome, done, unwrap, ◌>>=◌,
}
use bft_kit.Replica.{ReplicaAction}
use bft_kit.Base.Map.{lookup, insert}
use bft_kit.Command.{Command}
use bft_kit.Crypto.{Primitives, Digest, Sig, block_digest, verify}
use bft_kit.Pbft.Message.{PrePrepare, Vote, pre_prepare_bytes, vote_bytes}
use bft_kit.Pbft.Core.{primary, Quorum, Block, ReplicaCoreEvent, is_prepared, is_committed}
use bft_kit.Pbft.Replica.{
  Replica, ToReplica, Sending, Flow, return, proceed, scratch_of, put_scratch, feed, signed_vote,
  check_prepare_quorum, check_commit_quorum,
}

-- The votes for a digest, put into a quorum: `quorum.extend(votes.into_iter().filter_map(..))`.
unfoldable pub extend_matching : Digest → Quorum Sig → List Vote → Quorum Sig
extend_matching digest quorum [] = quorum
extend_matching digest quorum (vote ∷ votes) =
    extend_matching digest
      (if vote.digest == digest then insert vote.replica_id vote.sig quorum else quorum) votes

module _ (prim : Primitives) where
  -- A second `PrePrepare` for a block that the replica has: it sends its votes once more.
  unfoldable pub resend : Replica → PrePrepare → Block → List Sending
  unfolding signed_vote
  resend r m block =
      let vote = signed_vote prim r m.block_num m.digest in
      let replica_id = primary r.core.config.spec r.core.view_num in
      if block.digest == m.digest
      then ReplicaAction.send_to_replica replica_id (ToReplica.prepare vote)
        ∷ (if is_some block.prepare_quorum
            then ReplicaAction.send_to_replica replica_id (ToReplica.commit vote) ∷ []
            else [])
      else []

  new_block : PrePrepare → List Command → Block
  new_block m commands = record {
    commands = commands;
    digest = block_digest prim commands;
    pre_prepare = (m.view_num, m.sig);
    prepare_quorum = none;
    commit_quorum = none;
  }

  unfoldable pub on_pre_prepare : Replica → PrePrepare → List Command → Outcome Flow
  unfolding resend new_block feed
  on_pre_prepare r m commands =
      if m.view_num == r.core.view_num
      then elim (lookup m.block_num r.core.blocks) [
        | some block ↦ done (return r (resend r m block))
        | none ↦ do
          public_key ←
              unwrap (get_elem? r.crypto_config.public_keys (primary r.core.config.spec m.view_num))
          if verify prim (pre_prepare_bytes m) public_key m.sig
                && m.digest == block_digest prim commands
              then (do
                r' ← feed prim r (ReplicaCoreEvent.proposal m.block_num (new_block m commands))
                done (proceed r'))
              else done (return r [])
      ]
      else done (return r [])

  -- A `Prepare` whose signature is right.
  unfoldable pub count_prepare : Replica → Vote → Option Block → Outcome Flow
  unfolding scratch_of put_scratch
  count_prepare r vote none =
      let scratch = scratch_of r vote.block_num in
      done (
        proceed (
          put_scratch r vote.block_num
            (record scratch { prepare_votes = scratch.prepare_votes ++ vote ∷ [] })))
  count_prepare r vote (some block) =
      let scratch = scratch_of r vote.block_num in
      if vote.digest == block.digest
      then (do
        r' ← check_prepare_quorum prim r vote.block_num (record scratch {
          prepare_quorum = insert vote.replica_id vote.sig scratch.prepare_quorum;
        })
        done (proceed r'))
      else done (return (put_scratch r vote.block_num scratch) [])

  unfoldable pub on_prepare : Replica → Vote → Outcome Flow
  unfolding count_prepare
  on_prepare r vote =
      if not (vote.view_num == r.core.view_num) || is_prepared r.core vote.block_num
      then done (return r [])
      else do
        public_key ← unwrap (get_elem? r.crypto_config.public_keys vote.replica_id)
        if verify prim (vote_bytes vote) public_key vote.sig
            then count_prepare r vote (lookup vote.block_num r.core.blocks)
            else done (return r [])

  -- A `Commit` whose signature is right.
  unfoldable pub count_commit : Replica → Vote → Option Block → Outcome Flow
  unfolding scratch_of put_scratch
  count_commit r vote none =
      let scratch = scratch_of r vote.block_num in
      done (
        proceed (
          put_scratch r vote.block_num
            (record scratch { commit_votes = scratch.commit_votes ++ vote ∷ [] })))
  count_commit r vote (some block) =
      let scratch = scratch_of r vote.block_num in
      if vote.digest == block.digest
      then (do
        r' ← check_commit_quorum prim r vote.block_num (record scratch {
          commit_quorum = insert vote.replica_id vote.sig scratch.commit_quorum;
        })
        done (proceed r'))
      else done (return (put_scratch r vote.block_num scratch) [])

  unfoldable pub on_commit : Replica → Vote → Outcome Flow
  unfolding count_commit
  on_commit r vote =
      if not (vote.view_num == r.core.view_num) || is_committed r.core vote.block_num
      then done (return r [])
      else do
        public_key ← unwrap (get_elem? r.crypto_config.public_keys vote.replica_id)
        if verify prim (vote_bytes vote) public_key vote.sig
            then count_commit r vote (lookup vote.block_num r.core.blocks)
            else done (return r [])

  -- The `match` on the message.
  unfoldable pub dispatch : Replica → ToReplica → Outcome Flow
  unfolding feed
  dispatch r (ToReplica.request command) = do
    r' ← feed prim r (ReplicaCoreEvent.request command)
    done (proceed r')
  dispatch r (ToReplica.pre_prepare m commands) = on_pre_prepare r m commands
  dispatch r (ToReplica.prepare vote) = on_prepare r vote
  dispatch r (ToReplica.commit vote) = on_commit r vote
