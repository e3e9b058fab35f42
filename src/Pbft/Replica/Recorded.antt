-- ===== src/Pbft/Replica/Recorded.antt =====
-- What becomes of a vote whose signature is verified: `ToReplica::Prepare` and `ToReplica::Commit` of
-- `Replica::receive` in `src/pbft/mod.rs`, from the look at the block on.
use bft_kit.Base.{
  ℕ, ◌+◌, ◌≤◌, ◌≡◌, ◌≢◌, refl, ap, true, ◌&&◌, leb, u16, Option, none, some, ◌++◌, ◌>>=◌, List, [],
  ◌∷◌, length, ◌==◌, Bool-cases, inl, inr, Outcome, done, arith,
}
use bft_kit.Base.Map.{lookup, insert, lookup-insert_self}
use bft_kit.Crypto.{Primitives, Sig}
use bft_kit.Pbft.Message.{Vote}
use bft_kit.Pbft.Core.{Block, Quorum, ReplicaCoreEvent, quorum_size, is_prepared}
use bft_kit.Pbft.Replica.{
  BlockScratch, Replica, ToReplica, Flow, return, proceed, scratch_of, put_scratch, feed,
  check_prepare_quorum, check_commit_quorum,
}
use bft_kit.Pbft.Replica.Receive.{count_prepare, count_commit}

module _ (prim : Primitives) where
  -- Where a message that awaits a decision is counted: the early votes and the quorum of a scratch,
  -- what makes a quorum, and the event that it is for.
  abbrev pub votes_in : ToReplica → BlockScratch → List Vote
  votes_in (ToReplica.prepare vote) scratch = scratch.prepare_votes
  votes_in (ToReplica.commit vote) scratch = scratch.commit_votes
  votes_in _ scratch = []

  abbrev pub quorum_in : ToReplica → BlockScratch → Quorum Sig
  quorum_in (ToReplica.prepare vote) scratch = scratch.prepare_quorum
  quorum_in (ToReplica.commit vote) scratch = scratch.commit_quorum
  quorum_in _ scratch = []

  -- A commit waits for the prepare certificate.
  abbrev pub IsEnough : Replica → ℕ → ToReplica → Quorum Sig → Type 0
  IsEnough r n (ToReplica.prepare vote) quorum =
      quorum_size r.core.config.spec ≤ u16 (u16 (length quorum) + 1)
  IsEnough r n (ToReplica.commit vote) quorum =
      (is_prepared r.core n ≡ true) × (quorum_size r.core.config.spec ≤ u16 (length quorum))
  IsEnough r n _ quorum = ⊥

  abbrev pub certificate_of : ToReplica → ℕ → Quorum Sig → ReplicaCoreEvent
  certificate_of (ToReplica.prepare vote) n quorum = ReplicaCoreEvent.prepare_quorum n quorum
  certificate_of (ToReplica.commit vote) n quorum = ReplicaCoreEvent.commit_quorum n quorum
  certificate_of _ n quorum = ReplicaCoreEvent.view_expired

  -- What becomes of the vote.
  pub data Recorded (r : Replica) (message : ToReplica) (vote : Vote) : Outcome Flow → Type 0 where
    -- Before the block, it is kept behind the other early votes.
    early :
        lookup vote.block_num r.core.blocks ≡ none
        → (r' : Replica) → r'.core ≡ r.core
        → votes_in message (scratch_of r' vote.block_num)
          ≡ votes_in message (scratch_of r vote.block_num) ++ vote ∷ []
        → Recorded r message vote (done (proceed r'))
    -- For another digest than that of the block, it is dropped.
    other :
        (block : Block)
        → lookup vote.block_num r.core.blocks ≡ some block
        → vote.digest ≢ block.digest
        → (r' : Replica) → r'.core ≡ r.core
        → scratch_of r' vote.block_num ≡ scratch_of r vote.block_num
        → Recorded r message vote (done (return r' []))
    -- For the digest of the block, it is put into the quorum, which is not enough yet,
    waits :
        (block : Block)
        → lookup vote.block_num r.core.blocks ≡ some block
        → vote.digest ≡ block.digest
        → (r' : Replica) → r'.core ≡ r.core
        → quorum_in message (scratch_of r' vote.block_num)
          ≡ insert vote.replica_id vote.sig (quorum_in message (scratch_of r vote.block_num))
        → (IsEnough r vote.block_num message (quorum_in message (scratch_of r' vote.block_num)) → ⊥)
        → Recorded r message vote (done (proceed r'))
    -- or is, and then the core is handed the certificate with the vote.
    completes :
        (block : Block)
        → lookup vote.block_num r.core.blocks ≡ some block
        → vote.digest ≡ block.digest
        → (quorum : Quorum Sig)
        → quorum ≡ insert vote.replica_id vote.sig (quorum_in message (scratch_of r vote.block_num))
        → IsEnough r vote.block_num message quorum
        → (r' : Replica) → r'.core ≡ r.core
        → r'.core_actions ≡ r.core_actions
        → quorum_in message (scratch_of r' vote.block_num) ≡ []
        → Recorded r message vote (
            feed prim r' (certificate_of message vote.block_num quorum) >>= λ r''.
            done (proceed r''))

  scratch_of-put :
      (r : Replica) (n : ℕ) (scratch : BlockScratch)
      → scratch_of (put_scratch r n scratch) n ≡ scratch
  unfolding scratch_of put_scratch
  scratch_of-put r n scratch = rw (lookup-insert_self n scratch r.block_scratches) refl

  put-core :
      (r : Replica) (n : ℕ) (scratch : BlockScratch) → (put_scratch r n scratch).core ≡ r.core
  unfolding put_scratch
  put-core r n scratch = refl

  put-core_actions :
      (r : Replica) (n : ℕ) (scratch : BlockScratch)
      → (put_scratch r n scratch).core_actions ≡ r.core_actions
  unfolding put_scratch
  put-core_actions r n scratch = refl

  pub count_prepare-Recorded :
      (r : Replica) (vote : Vote) (found : Option Block)
      → lookup vote.block_num r.core.blocks ≡ found
      → Recorded r (ToReplica.prepare vote) vote (count_prepare prim r vote found)
  unfolding count_prepare check_prepare_quorum
  count_prepare-Recorded r vote none at =
      let scratch = scratch_of r vote.block_num in
      let kept : BlockScratch = record scratch {
        prepare_votes = scratch.prepare_votes ++ vote ∷ [];
      } in
      early at (put_scratch r vote.block_num kept) (put-core r vote.block_num kept)
        (ap (λ s. s.prepare_votes) (scratch_of-put r vote.block_num kept))
  count_prepare-Recorded r vote (some block) at =
      let n = vote.block_num in
      let scratch = scratch_of r n in
      let quorum = insert vote.replica_id vote.sig scratch.prepare_quorum in
      let full : BlockScratch = record scratch { prepare_quorum = quorum } in
      let taken : BlockScratch = record scratch { prepare_quorum = [] } in
      elim (Bool-cases (vote.digest == block.digest)) [
        | inr differs ↦ rw differs (
            other block at (ground arith) (put_scratch r n scratch) (put-core r n scratch)
              (scratch_of-put r n scratch))
        | inl same ↦
            elim (Bool-cases
              (leb (quorum_size r.core.config.spec) (u16 (u16 (length quorum) + 1)))) [
                | inr few ↦
                    rw (same, few)
                      (waits block at (ground arith) (put_scratch r n full) (put-core r n full)
                        (ap (λ s. s.prepare_quorum) (scratch_of-put r n full))
                        (rw (scratch_of-put r n full) (λ enough. ground arith)))
                | inl enough ↦
                    rw (same, enough)
                      (completes block at (ground arith) quorum refl (ground arith)
                        (put_scratch r n taken) (put-core r n taken) (put-core_actions r n taken)
                        (ap (λ s. s.prepare_quorum) (scratch_of-put r n taken)))
              ]
      ]

  pub count_commit-Recorded :
      (r : Replica) (vote : Vote) (found : Option Block)
      → lookup vote.block_num r.core.blocks ≡ found
      → Recorded r (ToReplica.commit vote) vote (count_commit prim r vote found)
  unfolding count_commit check_commit_quorum
  count_commit-Recorded r vote none at =
      let scratch = scratch_of r vote.block_num in
      let kept : BlockScratch = record scratch {
        commit_votes = scratch.commit_votes ++ vote ∷ [];
      } in
      early at (put_scratch r vote.block_num kept) (put-core r vote.block_num kept)
        (ap (λ s. s.commit_votes) (scratch_of-put r vote.block_num kept))
  count_commit-Recorded r vote (some block) at =
      let n = vote.block_num in
      let scratch = scratch_of r n in
      let quorum = insert vote.replica_id vote.sig scratch.commit_quorum in
      let full : BlockScratch = record scratch { commit_quorum = quorum } in
      let taken : BlockScratch = record scratch { commit_quorum = [] } in
      elim (Bool-cases (vote.digest == block.digest)) [
        | inr differs ↦ rw differs (
            other block at (ground arith) (put_scratch r n scratch) (put-core r n scratch)
              (scratch_of-put r n scratch))
        | inl same ↦
            elim (Bool-cases (
              is_prepared r.core n && leb (quorum_size r.core.config.spec) (u16 (length quorum)))) [
                | inr few ↦
                    rw (same, few)
                      (waits block at (ground arith) (put_scratch r n full) (put-core r n full)
                        (ap (λ s. s.commit_quorum) (scratch_of-put r n full))
                        (rw (scratch_of-put r n full) (λ enough. ground arith)))
                | inl enough ↦
                    rw (same, enough)
                      (completes block at (ground arith) quorum refl (ground arith)
                        (put_scratch r n taken) (put-core r n taken) (put-core_actions r n taken)
                        (ap (λ s. s.commit_quorum) (scratch_of-put r n taken)))
              ]
      ]
