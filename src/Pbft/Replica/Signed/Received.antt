-- ===== src/Pbft/Replica/Signed/Received.antt =====
-- The match of `receive` of a PBFT replica keeps the votes as they should be.
use bft_kit.Base.{
  ℕ, ◌≡◌, refl, sym, ◌∙◌, ap, true, not, ◌&&◌, ◌||◌, Option, none, some, List, [], ◌∷◌, get_elem?,
  ◌==◌, All-append, Bool-cases, Option-cases, inl, inr, unwrap, done, >>=-eq-done, arith,
}
use bft_kit.Base.Map.{lookup}
use bft_kit.Command.{Command}
use bft_kit.Crypto.{Primitives, Digest, Sig, PublicKey, ReplicaConfig, block_digest, verify}
use bft_kit.Pbft.Message.{PrePrepare, Vote, pre_prepare_bytes, vote_bytes}
use bft_kit.Pbft.Core.{primary, Block, is_prepared, is_committed}
use bft_kit.Pbft.Core.Grows.{HasDigest, HasDigest-unique, Grows-refl}
use bft_kit.Pbft.Replica.{Replica, ToReplica, Flow, feed, check_prepare_quorum, check_commit_quorum}
use bft_kit.Pbft.Replica.Receive.{
  on_pre_prepare, count_prepare, on_prepare, count_commit, on_commit, dispatch,
}
use bft_kit.Pbft.Replica.Kept.{replica_of, flow_of}
use bft_kit.Pbft.Replica.Inversion.{feed-inv}
use bft_kit.Pbft.Replica.Signed.{
  IsAt, IsSigned, Goes, scratch_of-Signed, put_scratch-Goes, Fed-Goes, check_prepare_quorum-Goes,
  check_commit_quorum-Goes, AreSigned-insert,
}

module _ (prim : Primitives) (Signed : ℕ → Digest → ℕ → Sig → Type 0) where
  pub Goes-refl : (r : Replica) → IsSigned Signed r → Goes Signed r r
  Goes-refl r f = record { grows = Grows-refl r.core; crypto = refl; signed = f }

  on_pre_prepare-Goes :
      (r : Replica) (m : PrePrepare) (commands : List Command) {f : Flow}
      → on_pre_prepare prim r m commands ≡ done f
      → IsSigned Signed r
      → Goes Signed r (replica_of f)
  unfolding on_pre_prepare
  on_pre_prepare-Goes r m commands h w = elim (Bool-cases (m.view_num == r.core.view_num)) [
    | inr e ↦ rw (← (flow_of (rw e at h))) (Goes-refl r w)
    | inl e ↦ elim (Option-cases (lookup m.block_num r.core.blocks)) [
      | inr (block, e') ↦ rw (← (flow_of (rw (e, e') at h))) (Goes-refl r w)
      | inl e' ↦
          let h1 = rw (e, e') at h in
          let (key, has, h2) =
            >>=-eq-done
              (unwrap
                (get_elem? r.crypto_config.public_keys (primary r.core.config.spec m.view_num)))
              _ h1 in
          elim (Bool-cases (
            verify prim (pre_prepare_bytes m) key m.sig
            && m.digest == block_digest prim commands)) [
              | inr e2 ↦ rw (← (flow_of (rw e2 at h2))) (Goes-refl r w)
              | inl e2 ↦
                  let (r1, fed, h3) = >>=-eq-done (feed prim r _) _ (rw e2 at h2) in
                  rw (← (flow_of h3)) (
                    Fed-Goes Signed prim (record { prepared = tt; committed = tt })
                      (feed-inv prim r _ fed) w)
            ]
    ]
  ]

  -- A vote that the replica takes is signed.
  module _ (r : Replica) (w : IsSigned Signed r) (vote : Vote)
      (good : Signed vote.block_num vote.digest vote.replica_id vote.sig) where
    count_prepare-Goes :
        (found : Option Block) {f : Flow}
        → lookup vote.block_num r.core.blocks ≡ found
        → count_prepare prim r vote found ≡ done f
        → Goes Signed r (replica_of f)
    unfolding count_prepare
    count_prepare-Goes none at h =
        let s = scratch_of-Signed Signed r vote.block_num w in
        rw (← (flow_of h)) (
          put_scratch-Goes Signed r vote.block_num _
            (record {
              prepare_votes = All-append _ _ (vote ∷ []) s.prepare_votes (good, tt);
              commit_votes = s.commit_votes;
              prepares = s.prepares;
              commits = s.commits;
              no_prepares = s.no_prepares;
              no_commits = s.no_commits;
            })
            w)
    count_prepare-Goes (some block) at h =
        let s = scratch_of-Signed Signed r vote.block_num w in
        elim (Bool-cases (vote.digest == block.digest)) [
          | inr e ↦ rw (← (flow_of (rw e at h))) (put_scratch-Goes Signed r vote.block_num _ s w)
          | inl e ↦
              let (r1, checks, h2) =
                >>=-eq-done (check_prepare_quorum prim r vote.block_num _) _ (rw e at h) in
              let has : HasDigest r.core vote.block_num vote.digest = record {
                block = block;
                at = at;
                digest = ground arith;
              } in
              rw (← (flow_of h2)) (
                check_prepare_quorum-Goes Signed prim r vote.block_num _
                  (record {
                    prepare_votes = s.prepare_votes;
                    commit_votes = s.commit_votes;
                    prepares = λ d k.
                        let same = HasDigest-unique r.core vote.block_num vote.digest d has k in
                        AreSigned-insert Signed vote.block_num d _ vote.replica_id vote.sig
                          (rw same at good) (s.prepares d k);
                    commits = s.commits;
                    no_prepares = λ z. absurd (let bad = sym z ∙ at in cc);
                    no_commits = s.no_commits;
                  })
                  checks w)
        ]

    count_commit-Goes :
        (found : Option Block) {f : Flow}
        → lookup vote.block_num r.core.blocks ≡ found
        → count_commit prim r vote found ≡ done f
        → Goes Signed r (replica_of f)
    unfolding count_commit
    count_commit-Goes none at h =
        let s = scratch_of-Signed Signed r vote.block_num w in
        rw (← (flow_of h)) (
          put_scratch-Goes Signed r vote.block_num _
            (record {
              prepare_votes = s.prepare_votes;
              commit_votes = All-append _ _ (vote ∷ []) s.commit_votes (good, tt);
              prepares = s.prepares;
              commits = s.commits;
              no_prepares = s.no_prepares;
              no_commits = s.no_commits;
            })
            w)
    count_commit-Goes (some block) at h =
        let s = scratch_of-Signed Signed r vote.block_num w in
        elim (Bool-cases (vote.digest == block.digest)) [
          | inr e ↦ rw (← (flow_of (rw e at h))) (put_scratch-Goes Signed r vote.block_num _ s w)
          | inl e ↦
              let (r1, checks, h2) =
                >>=-eq-done (check_commit_quorum prim r vote.block_num _) _ (rw e at h) in
              let has : HasDigest r.core vote.block_num vote.digest = record {
                block = block;
                at = at;
                digest = ground arith;
              } in
              rw (← (flow_of h2)) (
                check_commit_quorum-Goes Signed prim r vote.block_num _
                  (record {
                    prepare_votes = s.prepare_votes;
                    commit_votes = s.commit_votes;
                    prepares = s.prepares;
                    commits = λ d k.
                        let same = HasDigest-unique r.core vote.block_num vote.digest d has k in
                        AreSigned-insert Signed vote.block_num d _ vote.replica_id vote.sig
                          (rw same at good) (s.commits d k);
                    no_prepares = s.no_prepares;
                    no_commits = λ z. absurd (let bad = sym z ∙ at in cc);
                  })
                  checks w)
        ]

  pub IsAt-Goes :
      {view id : ℕ} {crypto : ReplicaConfig} {r r' : Replica}
      → IsAt view id crypto r
      → Goes Signed r r'
      → IsAt view id crypto r'
  IsAt-Goes a g = record {
    view_is = g.grows.role.view_num ∙ a.view_is;
    id_is = ap (λ c. c.id) g.grows.role.config ∙ a.id_is;
    crypto_is = g.crypto ∙ a.crypto_is;
  }

  -- A vote that verifies is signed.
  abbrev pub Heard : ℕ → ReplicaConfig → Vote → Type 0
  Heard view crypto vote =
      (key : PublicKey)
      → vote.view_num ≡ view
      → get_elem? crypto.public_keys vote.replica_id ≡ some key
      → verify prim (vote_bytes vote) key vote.sig ≡ true
      → Signed vote.block_num vote.digest vote.replica_id vote.sig

  abbrev pub MessageHeard : ℕ → ReplicaConfig → ToReplica → Type 0
  MessageHeard view crypto (ToReplica.prepare vote) = Heard view crypto vote
  MessageHeard view crypto (ToReplica.commit vote) = Heard view crypto vote
  MessageHeard view crypto _ = Unit

  module _ (view id : ℕ) (crypto : ReplicaConfig) where
    on_prepare-Goes :
        (r : Replica) (vote : Vote) {f : Flow}
        → on_prepare prim r vote ≡ done f
        → Heard view crypto vote
        → IsAt view id crypto r
        → IsSigned Signed r
        → Goes Signed r (replica_of f)
    unfolding on_prepare
    on_prepare-Goes r vote h heard a w =
        elim (Bool-cases
          (not (vote.view_num == r.core.view_num) || is_prepared r.core vote.block_num)) [
            | inl e ↦ rw (← (flow_of (rw e at h))) (Goes-refl r w)
            | inr e ↦
                let (key, has, h2) =
                  >>=-eq-done (unwrap (get_elem? r.crypto_config.public_keys vote.replica_id)) _
                    (rw e at h) in
                elim (Bool-cases (verify prim (vote_bytes vote) key vote.sig)) [
                  | inl e2 ↦
                      let here : vote.view_num ≡ r.core.view_num = ground arith in
                      let at : get_elem? r.crypto_config.public_keys vote.replica_id ≡ some key =
                        ground arith in
                      let good = heard key (here ∙ a.view_is) (rw (← a.crypto_is) at) e2 in
                      count_prepare-Goes r w vote good (lookup vote.block_num r.core.blocks) refl
                        (rw e2 at h2)
                  | inr e2 ↦ rw (← (flow_of (rw e2 at h2))) (Goes-refl r w)
                ]
          ]

    on_commit-Goes :
        (r : Replica) (vote : Vote) {f : Flow}
        → on_commit prim r vote ≡ done f
        → Heard view crypto vote
        → IsAt view id crypto r
        → IsSigned Signed r
        → Goes Signed r (replica_of f)
    unfolding on_commit
    on_commit-Goes r vote h heard a w =
        elim (Bool-cases
          (not (vote.view_num == r.core.view_num) || is_committed r.core vote.block_num)) [
            | inl e ↦ rw (← (flow_of (rw e at h))) (Goes-refl r w)
            | inr e ↦
                let (key, has, h2) =
                  >>=-eq-done (unwrap (get_elem? r.crypto_config.public_keys vote.replica_id)) _
                    (rw e at h) in
                elim (Bool-cases (verify prim (vote_bytes vote) key vote.sig)) [
                  | inl e2 ↦
                      let here : vote.view_num ≡ r.core.view_num = ground arith in
                      let at : get_elem? r.crypto_config.public_keys vote.replica_id ≡ some key =
                        ground arith in
                      let good = heard key (here ∙ a.view_is) (rw (← a.crypto_is) at) e2 in
                      count_commit-Goes r w vote good (lookup vote.block_num r.core.blocks) refl
                        (rw e2 at h2)
                  | inr e2 ↦ rw (← (flow_of (rw e2 at h2))) (Goes-refl r w)
                ]
          ]

    pub dispatch-Goes :
        (r : Replica) (message : ToReplica) {f : Flow}
        → dispatch prim r message ≡ done f
        → MessageHeard view crypto message
        → IsAt view id crypto r
        → IsSigned Signed r
        → Goes Signed r (replica_of f)
    unfolding dispatch
    dispatch-Goes r (ToReplica.request command) h heard a w =
        let (r1, fed, h2) = >>=-eq-done (feed prim r _) _ h in
        rw (← (flow_of h2)) (Fed-Goes Signed prim tt (feed-inv prim r _ fed) w)
    dispatch-Goes r (ToReplica.pre_prepare m commands) h heard a w =
        on_pre_prepare-Goes r m commands h w
    dispatch-Goes r (ToReplica.prepare vote) h heard a w = on_prepare-Goes r vote h heard a w
    dispatch-Goes r (ToReplica.commit vote) h heard a w = on_commit-Goes r vote h heard a w
