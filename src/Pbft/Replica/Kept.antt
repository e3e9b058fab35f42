-- ===== src/Pbft/Replica/Kept.antt =====
-- Every message keeps a replica well formed.
use bft_kit.Base.{
  ℕ, zero, suc, ◌≡◌, refl, not, ◌&&◌, ◌||◌, Option, none, some, List, [], ◌∷◌, get_elem?, ◌==◌,
  is_some, Bool-cases, Option-cases, inl, inr, assert, unwrap, Outcome, done, >>=-eq-done, arith,
}
use bft_kit.Base.Map.{lookup, lookup-remove, insert-IsSortedFrom}
use bft_kit.Command.{Command}
use bft_kit.Crypto.{Primitives, block_digest, verify}
use bft_kit.Pbft.Message.{PrePrepare, Vote, pre_prepare_bytes, vote_bytes}
use bft_kit.Pbft.Core.{primary, Block, ReplicaCoreAction, Actions, is_prepared, is_committed}
use bft_kit.Pbft.Core.Phases.{done_pair}
use bft_kit.Pbft.Replica.{
  BlockScratch, Replica, ToReplica, Sending, Flow, return, proceed, scratch_of, feed,
  signed_pre_prepare, check_prepare_quorum, check_commit_quorum,
}
use bft_kit.Pbft.Replica.Receive.{
  on_pre_prepare, count_prepare, on_prepare, count_commit, on_commit, dispatch,
}
use bft_kit.Pbft.Replica.Drain.{max_rounds, perform, perform_all, drain, finish, receive}
use bft_kit.Pbft.Replica.WellFormed.{
  IsWellFormed, put_scratch-WellFormed, scratch_of-Fits, feed-WellFormed,
  check_prepare_quorum-WellFormed, check_commit_quorum-WellFormed, extend_matching-IsSorted,
}

-- The replica that a flow goes on with.
abbrev pub replica_of : Flow → Replica
replica_of (return r sent) = r
replica_of (proceed r) = r

pub flow_of :
    {f : Flow} {g : Flow} → ◌≡◌ {A = Outcome Flow} (done f) (done g) → replica_of f ≡ replica_of g
flow_of h = cc

none_scratched : (n : ℕ) {s : BlockScratch} → lookup n [] ≡ some s → ⊥
unfolding lookup
none_scratched n h = cc

module _ (prim : Primitives) where
  on_pre_prepare-WellFormed :
      (r : Replica) (m : PrePrepare) (commands : List Command) {f : Flow}
      → on_pre_prepare prim r m commands ≡ done f
      → IsWellFormed prim r
      → IsWellFormed prim (replica_of f)
  unfolding on_pre_prepare
  on_pre_prepare-WellFormed r m commands h w = elim (Bool-cases (m.view_num == r.core.view_num)) [
    | inr e ↦ rw (← (flow_of (rw e at h))) w
    | inl e ↦ elim (Option-cases (lookup m.block_num r.core.blocks)) [
      | inr (block, e') ↦ rw (← (flow_of (rw (e, e') at h))) w
      | inl e' ↦
          let h1 = rw (e, e') at h in
          let (key, has, h2) =
            >>=-eq-done
              (unwrap
                (get_elem? r.crypto_config.public_keys (primary r.core.config.spec m.view_num)))
              _ h1 in
          elim (Bool-cases (
            verify prim (pre_prepare_bytes m) key m.sig
            && m.digest == block_digest prim commands)) [
              | inr e2 ↦ rw (← (flow_of (rw e2 at h2))) w
              | inl e2 ↦
                  let (r1, fed, h3) = >>=-eq-done (feed prim r _) _ (rw e2 at h2) in
                  rw (← (flow_of h3)) (
                    feed-WellFormed prim r _
                      (record { digest = refl; prepared = tt; committed = tt }) fed w)
            ]
    ]
  ]

  count_prepare-WellFormed :
      (r : Replica) (vote : Vote) (found : Option Block) {f : Flow}
      → count_prepare prim r vote found ≡ done f
      → IsWellFormed prim r
      → IsWellFormed prim (replica_of f)
  unfolding count_prepare
  count_prepare-WellFormed r vote none h w =
      let s = scratch_of-Fits prim r vote.block_num w in
      rw (← (flow_of h)) (
        put_scratch-WellFormed prim r vote.block_num _
          (record { prepares = s.prepares; commits = s.commits }) w)
  count_prepare-WellFormed r vote (some block) h w =
      elim (Bool-cases (vote.digest == block.digest)) [
        | inr e ↦ rw (← (flow_of (rw e at h))) (
            put_scratch-WellFormed prim r vote.block_num _ (scratch_of-Fits prim r vote.block_num w)
              w)
        | inl e ↦
            let (r1, checks, h2) =
              >>=-eq-done (check_prepare_quorum prim r vote.block_num _) _ (rw e at h) in
            let s = scratch_of-Fits prim r vote.block_num w in
            rw (← (flow_of h2)) (
              check_prepare_quorum-WellFormed prim r vote.block_num _
                (record {
                  prepares =
                      insert-IsSortedFrom 0 vote.replica_id vote.sig _ (omega arith) s.prepares;
                  commits = s.commits;
                })
                checks w)
      ]

  on_prepare-WellFormed :
      (r : Replica) (vote : Vote) {f : Flow}
      → on_prepare prim r vote ≡ done f
      → IsWellFormed prim r
      → IsWellFormed prim (replica_of f)
  unfolding on_prepare
  on_prepare-WellFormed r vote h w =
      elim (Bool-cases
        (not (vote.view_num == r.core.view_num) || is_prepared r.core vote.block_num)) [
          | inl e ↦ rw (← (flow_of (rw e at h))) w
          | inr e ↦
              let (key, has, h2) =
                >>=-eq-done (unwrap (get_elem? r.crypto_config.public_keys vote.replica_id)) _
                  (rw e at h) in
              elim (Bool-cases (verify prim (vote_bytes vote) key vote.sig)) [
                | inl e2 ↦
                    count_prepare-WellFormed r vote (lookup vote.block_num r.core.blocks)
                      (rw e2 at h2) w
                | inr e2 ↦ rw (← (flow_of (rw e2 at h2))) w
              ]
        ]

  count_commit-WellFormed :
      (r : Replica) (vote : Vote) (found : Option Block) {f : Flow}
      → count_commit prim r vote found ≡ done f
      → IsWellFormed prim r
      → IsWellFormed prim (replica_of f)
  unfolding count_commit
  count_commit-WellFormed r vote none h w =
      let s = scratch_of-Fits prim r vote.block_num w in
      rw (← (flow_of h)) (
        put_scratch-WellFormed prim r vote.block_num _
          (record { prepares = s.prepares; commits = s.commits }) w)
  count_commit-WellFormed r vote (some block) h w =
      elim (Bool-cases (vote.digest == block.digest)) [
        | inr e ↦ rw (← (flow_of (rw e at h))) (
            put_scratch-WellFormed prim r vote.block_num _ (scratch_of-Fits prim r vote.block_num w)
              w)
        | inl e ↦
            let (r1, checks, h2) =
              >>=-eq-done (check_commit_quorum prim r vote.block_num _) _ (rw e at h) in
            let s = scratch_of-Fits prim r vote.block_num w in
            rw (← (flow_of h2)) (
              check_commit_quorum-WellFormed prim r vote.block_num _
                (record {
                  prepares = s.prepares;
                  commits =
                      insert-IsSortedFrom 0 vote.replica_id vote.sig _ (omega arith) s.commits;
                })
                checks w)
      ]

  on_commit-WellFormed :
      (r : Replica) (vote : Vote) {f : Flow}
      → on_commit prim r vote ≡ done f
      → IsWellFormed prim r
      → IsWellFormed prim (replica_of f)
  unfolding on_commit
  on_commit-WellFormed r vote h w =
      elim (Bool-cases
        (not (vote.view_num == r.core.view_num) || is_committed r.core vote.block_num)) [
          | inl e ↦ rw (← (flow_of (rw e at h))) w
          | inr e ↦
              let (key, has, h2) =
                >>=-eq-done (unwrap (get_elem? r.crypto_config.public_keys vote.replica_id)) _
                  (rw e at h) in
              elim (Bool-cases (verify prim (vote_bytes vote) key vote.sig)) [
                | inl e2 ↦
                    count_commit-WellFormed r vote (lookup vote.block_num r.core.blocks)
                      (rw e2 at h2) w
                | inr e2 ↦ rw (← (flow_of (rw e2 at h2))) w
              ]
        ]

  dispatch-WellFormed :
      (r : Replica) (message : ToReplica) {f : Flow}
      → dispatch prim r message ≡ done f
      → IsWellFormed prim r
      → IsWellFormed prim (replica_of f)
  unfolding dispatch
  dispatch-WellFormed r (ToReplica.request command) h w =
      let (r1, fed, h2) = >>=-eq-done (feed prim r _) _ h in
      rw (← (flow_of h2)) (feed-WellFormed prim r _ tt fed w)
  dispatch-WellFormed r (ToReplica.pre_prepare m commands) h w =
      on_pre_prepare-WellFormed r m commands h w
  dispatch-WellFormed r (ToReplica.prepare vote) h w = on_prepare-WellFormed r vote h w
  dispatch-WellFormed r (ToReplica.commit vote) h w = on_commit-WellFormed r vote h w

  perform-WellFormed :
      (r : Replica) (a : ReplicaCoreAction) {r' : Replica} {sent : List Sending}
      → perform prim r a ≡ done (r', sent)
      → IsWellFormed prim r
      → IsWellFormed prim r'
  unfolding perform signed_pre_prepare
  perform-WellFormed r (ReplicaCoreAction.propose k commands) h w =
      let (r1, fed, h2) = >>=-eq-done (feed prim r _) _ h in
      rw (← (done_pair h2).0)
        (feed-WellFormed prim r _ (record { digest = refl; prepared = tt; committed = tt }) fed w)
  perform-WellFormed r (ReplicaCoreAction.prepare k digest) h w =
      let (r1, checks, h2) = >>=-eq-done (check_prepare_quorum prim r k _) _ h in
      let s = scratch_of-Fits prim r k w in
      rw (← (done_pair h2).0) (
        check_prepare_quorum-WellFormed prim r k _
          (record {
            prepares =
                insert-IsSortedFrom 0 _ _ _ (omega arith) (
                  extend_matching-IsSorted prim digest _ (scratch_of r k).prepare_votes s.prepares);
            commits =
                extend_matching-IsSorted prim digest _ (scratch_of r k).commit_votes s.commits;
          })
          checks w)
  perform-WellFormed r (ReplicaCoreAction.commit k) h w =
      let (scratch, kept, h2) = >>=-eq-done (unwrap (lookup k r.block_scratches)) _ h in
      let (block, found, h3) = >>=-eq-done (unwrap (lookup k r.core.blocks)) _ h2 in
      let (r1, checks, h4) = >>=-eq-done (check_commit_quorum prim r k _) _ h3 in
      let s = w.scratches_fit k scratch (ground arith) in
      rw (← (done_pair h4).0) (
        check_commit_quorum-WellFormed prim r k _
          (record {
            prepares = s.prepares;
            commits = insert-IsSortedFrom 0 _ _ _ (omega arith) s.commits;
          })
          checks w)
  perform-WellFormed r (ReplicaCoreAction.finalize k) h w =
      let (u, kept, h2) = >>=-eq-done (assert (is_some (lookup k r.block_scratches))) _ h in
      let (block, found, h3) = >>=-eq-done (unwrap (lookup k r.core.blocks)) _ h2 in
      rw (← (done_pair h3).0) (record {
        core_fits = w.core_fits;
        scratches_fit =
            λ n s at. w.scratches_fit n s (ground (arith, lookup-remove k n r.block_scratches));
      })
  perform-WellFormed r (ReplicaCoreAction.forward replica_id command) h w = rw (← (done_pair h).0) w
  perform-WellFormed r (ReplicaCoreAction.view_change view_num blocks) h w = absurd (cc)
  perform-WellFormed r (ReplicaCoreAction.new_view view_num view_changes proposals) h w =
      absurd (cc)
  perform-WellFormed r ReplicaCoreAction.entered_view h w =
      rw (← (done_pair h).0)
        (record { core_fits = w.core_fits; scratches_fit = λ n s at. absurd (none_scratched n at) })

  perform_all-WellFormed :
      (r : Replica) (actions : Actions) {r' : Replica} {sent : List Sending}
      → perform_all prim r actions ≡ done (r', sent)
      → IsWellFormed prim r
      → IsWellFormed prim r'
  unfolding perform_all
  perform_all-WellFormed r [] h w = rw (← (done_pair h).0) w
  perform_all-WellFormed r (a ∷ actions) h w =
      let (s, first, h2) = >>=-eq-done (perform prim r a) _ h in
      let (t, rest, h3) = >>=-eq-done (perform_all prim s.0 actions) _ h2 in
      rw (← (done_pair h3).0)
        (perform_all-WellFormed s.0 actions rest (perform-WellFormed r a first w))

  drain-WellFormed :
      (fuel : ℕ) (r : Replica) (actions : Actions) {r' : Replica} {sent : List Sending}
      → drain prim fuel r actions ≡ done (r', sent)
      → IsWellFormed prim r
      → IsWellFormed prim r'
  unfolding drain
  drain-WellFormed fuel r [] h w = rw (← (done_pair h).0) w
  drain-WellFormed zero r (a ∷ actions) h w = absurd (cc)
  drain-WellFormed (suc fuel) r (a ∷ actions) h w =
      let (s, round, h2) =
        >>=-eq-done (perform_all prim (record r { core_actions = [] }) (a ∷ actions)) _ h in
      let (t, rest, h3) = >>=-eq-done (drain prim fuel s.0 s.0.core_actions) _ h2 in
      let w1 : IsWellFormed prim (record r { core_actions = [] }) = record {
        core_fits = w.core_fits;
        scratches_fit = w.scratches_fit;
      } in
      rw (← (done_pair h3).0) (
        drain-WellFormed fuel s.0 s.0.core_actions rest
          (perform_all-WellFormed (record r { core_actions = [] }) (a ∷ actions) round w1))

  finish-WellFormed :
      (f : Flow) {r' : Replica} {sent : List Sending}
      → finish prim f ≡ done (r', sent)
      → IsWellFormed prim (replica_of f)
      → IsWellFormed prim r'
  unfolding finish
  finish-WellFormed (return r sent) h w = rw (← (done_pair h).0) w
  finish-WellFormed (proceed r) h w = drain-WellFormed max_rounds r r.core_actions h w

  -- Whatever message a well-formed replica receives, right or wrong, of a correct replica or not, it
  -- stays well formed, when the call returns: each of its blocks has the digest of its commands, each
  -- prepare certificate has votes of at least `num_replica - num_faulty - 1` replicas and each commit
  -- certificate of at least `num_replica - num_faulty`, all different.
  pub receive-IsWellFormed :
      (r : Replica) (message : ToReplica) {r' : Replica} {sent : List Sending}
      → IsWellFormed prim r
      → receive prim r message ≡ done (r', sent)
      → IsWellFormed prim r'
  unfolding receive
  receive-IsWellFormed r message w h =
      let (f, dispatches, h2) = >>=-eq-done (dispatch prim r message) _ h in
      finish-WellFormed f h2 (dispatch-WellFormed r message dispatches w)
