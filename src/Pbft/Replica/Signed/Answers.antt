-- ===== src/Pbft/Replica/Signed/Answers.antt =====
-- What the match of `receive` of a PBFT replica sends: votes in its own name, for the blocks that
-- it has.
use bft_kit.Base.{
  ℕ, ◌≡◌, not, ◌&&◌, ◌||◌, Option, none, some, List, [], get_elem?, ◌==◌, is_some, All, Bool-cases,
  Option-cases, inl, inr, unwrap, Outcome, done, >>=-eq-done, arith,
}
use bft_kit.Replica.{ReplicaAction}
use bft_kit.Base.Map.{lookup}
use bft_kit.Command.{Command}
use bft_kit.Crypto.{Primitives, block_digest, verify}
use bft_kit.Pbft.Message.{PrePrepare, Vote, pre_prepare_bytes, vote_bytes}
use bft_kit.Pbft.Core.{primary, Block, ReplicaCore, is_prepared, is_committed}
use bft_kit.Pbft.Core.Grows.{HasDigest, Grows}
use bft_kit.Pbft.Replica.{
  Replica, ToReplica, Sending, Flow, return, proceed, feed, signed_vote, check_prepare_quorum,
  check_commit_quorum,
}
use bft_kit.Pbft.Replica.Receive.{
  resend, on_pre_prepare, count_prepare, on_prepare, count_commit, on_commit, dispatch,
}

abbrev pub MessageFits : ℕ → ReplicaCore → ToReplica → Type 0
MessageFits id core (ToReplica.prepare vote) =
    (vote.replica_id ≡ id) × HasDigest core vote.block_num vote.digest
MessageFits id core (ToReplica.commit vote) =
    (vote.replica_id ≡ id) × HasDigest core vote.block_num vote.digest
MessageFits id core _ = Unit

abbrev pub SendingFits : ℕ → ReplicaCore → Sending → Type 0
SendingFits id core (ReplicaAction.send_to_replica to message) = MessageFits id core message
SendingFits id core (ReplicaAction.send_to_all_replicas message) = MessageFits id core message
SendingFits id core (ReplicaAction.finalize commands) = Unit

pub MessageFits-Grows :
    {core core' : ReplicaCore} (id : ℕ) (message : ToReplica)
    → Grows core core'
    → MessageFits id core message
    → MessageFits id core' message
MessageFits-Grows id (ToReplica.request command) g f = tt
MessageFits-Grows id (ToReplica.pre_prepare m commands) g f = tt
MessageFits-Grows id (ToReplica.prepare vote) g (is, f) = (is, g.kept vote.block_num vote.digest f)
MessageFits-Grows id (ToReplica.commit vote) g (is, f) = (is, g.kept vote.block_num vote.digest f)

pub SendingFits-Grows :
    {core core' : ReplicaCore} (id : ℕ) (a : Sending)
    → Grows core core'
    → SendingFits id core a
    → SendingFits id core' a
SendingFits-Grows id (ReplicaAction.send_to_replica to message) g f =
    MessageFits-Grows id message g f
SendingFits-Grows id (ReplicaAction.send_to_all_replicas message) g f =
    MessageFits-Grows id message g f
SendingFits-Grows id (ReplicaAction.finalize commands) g f = tt

abbrev pub sent_of : Flow → List Sending
sent_of (return r sent) = sent
sent_of (proceed r) = []

sent_by : {f g : Flow} → ◌≡◌ {A = Outcome Flow} (done f) (done g) → sent_of g ≡ sent_of f
sent_by h = cc

module _ (prim : Primitives) where
  resend-Fits :
      (id : ℕ) (r : Replica) (m : PrePrepare) (block : Block)
      → r.core.config.id ≡ id
      → lookup m.block_num r.core.blocks ≡ some block
      → All (SendingFits id r.core) (resend prim r m block)
  unfolding resend signed_vote
  resend-Fits id r m block is at = elim (Bool-cases (block.digest == m.digest)) [
    | inr e ↦ rw e tt
    | inl e ↦
        let has : HasDigest r.core m.block_num m.digest = record {
          block = block;
          at = at;
          digest = ground arith;
        } in
        rw e (elim (Bool-cases (is_some block.prepare_quorum)) [
          | inl e2 ↦ rw e2 ((is, has), ((is, has), tt))
          | inr e2 ↦ rw e2 ((is, has), tt)
        ])
  ]

  on_pre_prepare-Fits :
      (id : ℕ) (r : Replica) (m : PrePrepare) (commands : List Command) {f : Flow}
      → on_pre_prepare prim r m commands ≡ done f
      → r.core.config.id ≡ id
      → All (SendingFits id r.core) (sent_of f)
  unfolding on_pre_prepare
  on_pre_prepare-Fits id r m commands h is = elim (Bool-cases (m.view_num == r.core.view_num)) [
    | inr e ↦ rw (sent_by (rw e at h)) tt
    | inl e ↦ elim (Option-cases (lookup m.block_num r.core.blocks)) [
      | inr (block, e') ↦ rw (sent_by (rw (e, e') at h)) (resend-Fits id r m block is e')
      | inl e' ↦
          let h1 = rw (e, e') at h in
          let (key, has, h2) =
            >>=-eq-done
              (unwrap
                (get_elem? r.crypto_config.public_keys (primary r.core.config.spec m.view_num)))
              _ h1 in
          elim (Bool-cases (
            verify prim (pre_prepare_bytes m) key m.sig
            && m.digest == block_digest prim commands)) [
              | inr e2 ↦ rw (sent_by (rw e2 at h2)) tt
              | inl e2 ↦
                  let (r1, fed, h3) = >>=-eq-done (feed prim r _) _ (rw e2 at h2) in
                  rw (sent_by h3) tt
            ]
    ]
  ]

  count_prepare-quiet :
      (r : Replica) (vote : Vote) (found : Option Block) {f : Flow}
      → count_prepare prim r vote found ≡ done f
      → sent_of f ≡ []
  unfolding count_prepare
  count_prepare-quiet r vote none h = sent_by h
  count_prepare-quiet r vote (some block) h = elim (Bool-cases (vote.digest == block.digest)) [
    | inr e ↦ sent_by (rw e at h)
    | inl e ↦
        let (r1, checks, h2) =
          >>=-eq-done (check_prepare_quorum prim r vote.block_num _) _ (rw e at h) in
        sent_by h2
  ]

  count_commit-quiet :
      (r : Replica) (vote : Vote) (found : Option Block) {f : Flow}
      → count_commit prim r vote found ≡ done f
      → sent_of f ≡ []
  unfolding count_commit
  count_commit-quiet r vote none h = sent_by h
  count_commit-quiet r vote (some block) h = elim (Bool-cases (vote.digest == block.digest)) [
    | inr e ↦ sent_by (rw e at h)
    | inl e ↦
        let (r1, checks, h2) =
          >>=-eq-done (check_commit_quorum prim r vote.block_num _) _ (rw e at h) in
        sent_by h2
  ]

  on_prepare-quiet :
      (r : Replica) (vote : Vote) {f : Flow} → on_prepare prim r vote ≡ done f → sent_of f ≡ []
  unfolding on_prepare
  on_prepare-quiet r vote h =
      elim (Bool-cases
        (not (vote.view_num == r.core.view_num) || is_prepared r.core vote.block_num)) [
          | inl e ↦ sent_by (rw e at h)
          | inr e ↦
              let (key, has, h2) =
                >>=-eq-done (unwrap (get_elem? r.crypto_config.public_keys vote.replica_id)) _
                  (rw e at h) in
              elim (Bool-cases (verify prim (vote_bytes vote) key vote.sig)) [
                | inl e2 ↦
                    count_prepare-quiet r vote (lookup vote.block_num r.core.blocks) (rw e2 at h2)
                | inr e2 ↦ sent_by (rw e2 at h2)
              ]
        ]

  on_commit-quiet :
      (r : Replica) (vote : Vote) {f : Flow} → on_commit prim r vote ≡ done f → sent_of f ≡ []
  unfolding on_commit
  on_commit-quiet r vote h =
      elim (Bool-cases
        (not (vote.view_num == r.core.view_num) || is_committed r.core vote.block_num)) [
          | inl e ↦ sent_by (rw e at h)
          | inr e ↦
              let (key, has, h2) =
                >>=-eq-done (unwrap (get_elem? r.crypto_config.public_keys vote.replica_id)) _
                  (rw e at h) in
              elim (Bool-cases (verify prim (vote_bytes vote) key vote.sig)) [
                | inl e2 ↦
                    count_commit-quiet r vote (lookup vote.block_num r.core.blocks) (rw e2 at h2)
                | inr e2 ↦ sent_by (rw e2 at h2)
              ]
        ]

  pub dispatch-Fits :
      (id : ℕ) (r : Replica) (message : ToReplica) {f : Flow}
      → dispatch prim r message ≡ done f
      → r.core.config.id ≡ id
      → All (SendingFits id r.core) (sent_of f)
  unfolding dispatch
  dispatch-Fits id r (ToReplica.request command) h is =
      let (r1, fed, h2) = >>=-eq-done (feed prim r _) _ h in rw (sent_by h2) tt
  dispatch-Fits id r (ToReplica.pre_prepare m commands) h is =
      on_pre_prepare-Fits id r m commands h is
  dispatch-Fits id r (ToReplica.prepare vote) h is = rw (on_prepare-quiet r vote h) tt
  dispatch-Fits id r (ToReplica.commit vote) h is = rw (on_commit-quiet r vote h) tt
