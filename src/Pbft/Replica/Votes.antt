-- ===== src/Pbft/Replica/Votes.antt =====
-- How a replica takes the votes of others, and what it votes itself.
use bft_kit.Base.{
  ℕ, ◌≤◌, ◌≡◌, refl, sym, true, false, some, List, [], ◌∷◌, length, get_elem?, ◌==◌, unwrap,
  Outcome, done, panic, >>=-eq-done, arith,
}
use bft_kit.Replica.{ReplicaAction}
use bft_kit.Base.Lists.Indexing.{get_of_ge}
use bft_kit.Base.Map.{lookup}
use bft_kit.Crypto.{Primitives, IsSound, Digest, PublicKey, verify, replica_config}
use bft_kit.Crypto.Keys.{replica_config_fits}
use bft_kit.Pbft.Message.{Vote, vote_bytes}
use bft_kit.Pbft.Core.{Block, is_prepared, is_committed}
use bft_kit.Pbft.Core.Phases.{done_pair}
use bft_kit.Pbft.Replica.{
  Replica, ToReplica, Sending, Flow, return, signed_vote, check_prepare_quorum, check_commit_quorum,
}
use bft_kit.Pbft.Replica.Receive
use bft_kit.Pbft.Replica.Receive.{count_prepare, count_commit, dispatch}
use bft_kit.Pbft.Replica.Recorded.{Recorded, count_prepare-Recorded, count_commit-Recorded}
use bft_kit.Pbft.Replica.Drain
use bft_kit.Pbft.Replica.Drain.{receive}

-- A message with a vote for a block that the replica has not decided yet.
pub data Awaits (r : Replica) : ToReplica → Vote → Type 0 where
  awaits_prepare :
      (vote : Vote)
      → is_prepared r.core vote.block_num ≡ false
      → Awaits r (ToReplica.prepare vote) vote
  awaits_commit :
      (vote : Vote)
      → is_committed r.core vote.block_num ≡ false
      → Awaits r (ToReplica.commit vote) vote

module _ (prim : Primitives) where
  -- A vote of the current view for a block that is not decided yet, from an identifier above those of
  -- the replicas, makes the replica panic: the code indexes its keys with it before it verifies.
  pub receive_unknown_voter :
      (r : Replica) (message : ToReplica) (vote : Vote)
      → Awaits r message vote
      → vote.view_num ≡ r.core.view_num
      → length r.crypto_config.public_keys ≤ vote.replica_id
      → receive prim r message ≡ panic
  unfolding receive dispatch Receive.on_prepare Receive.on_commit
  receive_unknown_voter r _ _ (awaits_prepare vote undecided) view above =
      let missing = get_of_ge r.crypto_config.public_keys vote.replica_id above in ground arith
  receive_unknown_voter r _ _ (awaits_commit vote undecided) view above =
      let missing = get_of_ge r.crypto_config.public_keys vote.replica_id above in ground arith

  -- What a replica signs to prepare a block is what it signs to commit it: in one view, for one block,
  -- the two messages that it sends have the same vote. So whoever has its `Prepare` has its `Commit`.
  pub commit_of_prepare :
      (r q : Replica) (k : ℕ) (block : Block) {r' q' : Replica} {prepares commits : List Sending}
      → q.core.view_num ≡ r.core.view_num
      → q.core.config ≡ r.core.config
      → q.crypto_config ≡ r.crypto_config
      → lookup k q.core.blocks ≡ some block
      → Drain.on_prepare prim r k block.digest ≡ done (r', prepares)
      → Drain.on_commit prim q k ≡ done (q', commits)
      → (vote : Vote) × (prepares
          ≡ ReplicaAction.send_to_all_replicas (ToReplica.prepare vote) ∷ [])
        × (commits ≡ ReplicaAction.send_to_all_replicas (ToReplica.commit vote) ∷ [])
  unfolding Drain.on_prepare Drain.on_commit signed_vote
  commit_of_prepare r q k block view config keys found p c =
      let (r1, checks, p2) = >>=-eq-done (check_prepare_quorum prim r k _) _ p in
      let (scratch, kept, c2) = >>=-eq-done (unwrap (lookup k q.block_scratches)) _ c in
      let (block', found', c3) = >>=-eq-done (unwrap (lookup k q.core.blocks)) _ c2 in
      let (q1, checks', c4) = >>=-eq-done (check_commit_quorum prim q k _) _ c3 in
      let same : block ≡ block' = ground arith in
      let sent = (done_pair c4).1 in
      (
        signed_vote prim r k block.digest,
        sym (done_pair p2).1,
        rw (view, config, keys, ← same) at (sym sent),
      )

  on_prepare_counts :
      (r : Replica) (vote : Vote) (key : PublicKey)
      → vote.view_num ≡ r.core.view_num
      → is_prepared r.core vote.block_num ≡ false
      → get_elem? r.crypto_config.public_keys vote.replica_id ≡ some key
      → verify prim (vote_bytes vote) key vote.sig ≡ true
      → Receive.on_prepare prim r vote
        ≡ count_prepare prim r vote (lookup vote.block_num r.core.blocks)
  unfolding Receive.on_prepare
  on_prepare_counts r vote key view undecided at good =
      let view' : (vote.view_num == r.core.view_num) ≡ true = ground arith in
      rw (view', undecided, at, good) refl

  on_commit_counts :
      (r : Replica) (vote : Vote) (key : PublicKey)
      → vote.view_num ≡ r.core.view_num
      → is_committed r.core vote.block_num ≡ false
      → get_elem? r.crypto_config.public_keys vote.replica_id ≡ some key
      → verify prim (vote_bytes vote) key vote.sig ≡ true
      → Receive.on_commit prim r vote
        ≡ count_commit prim r vote (lookup vote.block_num r.core.blocks)
  unfolding Receive.on_commit
  on_commit_counts r vote key view undecided at good =
      let view' : (vote.view_num == r.core.view_num) ≡ true = ground arith in
      rw (view', undecided, at, good) refl

  -- What the code does with a vote once its signature is verified.
  abbrev count : Replica → ToReplica → Outcome Flow
  count r (ToReplica.prepare vote) = count_prepare prim r vote (lookup vote.block_num r.core.blocks)
  count r (ToReplica.commit vote) = count_commit prim r vote (lookup vote.block_num r.core.blocks)
  count r _ = done (return r [])

  count-Recorded :
      (r : Replica) (message : ToReplica) (vote : Vote)
      → Awaits r message vote
      → Recorded prim r message vote (count r message)
  count-Recorded r _ _ (awaits_prepare vote undecided) =
      count_prepare-Recorded prim r vote (lookup vote.block_num r.core.blocks) refl
  count-Recorded r _ _ (awaits_commit vote undecided) =
      count_commit-Recorded prim r vote (lookup vote.block_num r.core.blocks) refl

  dispatch_counts :
      (r : Replica) (message : ToReplica) (vote : Vote) (key : PublicKey)
      → Awaits r message vote
      → vote.view_num ≡ r.core.view_num
      → get_elem? r.crypto_config.public_keys vote.replica_id ≡ some key
      → verify prim (vote_bytes vote) key vote.sig ≡ true
      → dispatch prim r message ≡ count r message
  unfolding dispatch
  dispatch_counts r _ _ key (awaits_prepare vote undecided) view at good =
      on_prepare_counts r vote key view undecided at good
  dispatch_counts r _ _ key (awaits_commit vote undecided) view at good =
      on_commit_counts r vote key view undecided at good

  -- The vote of a replica of the system, in the same view, for a block that another has not decided,
  -- is taken by that one: its signature verifies, and the vote is kept behind the early votes of its
  -- kind when the block is not there; dropped when it is for another digest than that of the block; and
  -- else put into the quorum of its kind, which stays when it is not enough, and when it is enough is
  -- emptied and handed to the core as the certificate of the block. Enough is a quorum less one of
  -- prepares, and a quorum of commits for a block that is prepared.
  pub counts_votes :
      (a b : Replica) (message : ToReplica) (n k : ℕ) (digest : Digest)
      → IsSound prim
      → replica_config prim a.core.config.id n ≡ done a.crypto_config
      → replica_config prim b.core.config.id n ≡ done b.crypto_config
      → a.core.view_num ≡ b.core.view_num
      → Awaits b message (signed_vote prim a k digest)
      → Recorded prim b message (signed_vote prim a k digest) (dispatch prim b message)
  unfolding signed_vote vote_bytes
  counts_votes a b message n k digest sound ea eb view awaits =
      let vote = signed_vote prim a k digest in
      let (below, all, (key, at, good)) =
        replica_config_fits prim a.core.config.id b.core.config.id n (vote_bytes vote) sound ea
          eb in
      rw (dispatch_counts b message vote key awaits view at good)
        (count-Recorded b message vote awaits)
