-- ===== src/Pbft/Replica/Signed/Steps.antt =====
-- Every call of a PBFT replica keeps the votes as they should be.
use bft_kit.Base.{
  ℕ, zero, suc, ◌≡◌, refl, sym, ◌∙◌, none, List, [], ◌∷◌, is_some, assert, unwrap, done,
  >>=-eq-done, arith,
}
use bft_kit.Base.Map.{lookup, lookup-remove}
use bft_kit.Crypto.{Primitives, Digest, Sig, ReplicaConfig}
use bft_kit.Pbft.Core.{ReplicaCoreAction, Actions}
use bft_kit.Pbft.Core.Phases.{done_pair}
use bft_kit.Pbft.Core.Grows.{
  HasDigest, HasDigest-unique, Grows-refl, ActionFits, ActionsFit, ActionsFit-Grows,
}
use bft_kit.Pbft.Replica.{
  Replica, ToReplica, Sending, Flow, return, proceed, scratch_of, feed, signed_vote,
  check_prepare_quorum, check_commit_quorum,
}
use bft_kit.Pbft.Replica.Receive.{dispatch}
use bft_kit.Pbft.Replica.Drain.{max_rounds, perform, perform_all, drain, finish, receive}
use bft_kit.Pbft.Replica.Kept.{replica_of}
use bft_kit.Pbft.Replica.Inversion.{feed-inv}
use bft_kit.Pbft.Replica.Signed.{
  IsAt, IsSigned, Goes, Goes-trans, no_entry, scratch_of-Signed, Fed-Goes,
  check_prepare_quorum-Goes, check_commit_quorum-Goes, AreSigned-insert, AreSigned-same,
  extend_matching-Signed,
}
use bft_kit.Pbft.Replica.Signed.Received.{MessageHeard, Goes-refl, IsAt-Goes, dispatch-Goes}

module _ (prim : Primitives) (Signed : ℕ → Digest → ℕ → Sig → Type 0) where
  -- What the replica signs is signed.
  module _ (view id : ℕ) (crypto : ReplicaConfig)
      (own : (r : Replica) (n : ℕ) (d : Digest)
        → IsAt view id crypto r
        → Signed n d r.core.config.id (signed_vote prim r n d).sig) where
    pub perform-Goes :
        (r : Replica) (action : ReplicaCoreAction) {r' : Replica} {sent : List Sending}
        → perform prim r action ≡ done (r', sent)
        → ActionFits r.core action
        → IsAt view id crypto r
        → IsSigned Signed r
        → Goes Signed r r'
    unfolding perform
    perform-Goes r (ReplicaCoreAction.propose n commands) h fits a w =
        let (r1, fed, h2) = >>=-eq-done (feed prim r _) _ h in
        rw (← (done_pair h2).0) (
          Fed-Goes Signed prim (record { prepared = tt; committed = tt }) (feed-inv prim r _ fed) w)
    perform-Goes r (ReplicaCoreAction.prepare n d) h fits a w =
        let (r1, checks, h2) = >>=-eq-done (check_prepare_quorum prim r n _) _ h in
        let s = scratch_of-Signed Signed r n w in
        let absent : lookup n r.core.blocks ≡ none → ⊥ = λ z. (let bad = sym z ∙ fits.at in cc) in
        rw (← (done_pair h2).0) (
          check_prepare_quorum-Goes Signed prim r n _
            (record {
              prepare_votes = tt;
              commit_votes = tt;
              prepares = λ e k.
                  let same = HasDigest-unique r.core n d e fits k in
                  AreSigned-same Signed n d e _ same (
                    AreSigned-insert Signed n d _ r.core.config.id _ (own r n d a) (
                      extend_matching-Signed Signed n d _ (scratch_of r n).prepare_votes
                        s.prepare_votes (s.prepares d fits)));
              commits = λ e k.
                  let same = HasDigest-unique r.core n d e fits k in
                  AreSigned-same Signed n d e _ same (
                    extend_matching-Signed Signed n d _ (scratch_of r n).commit_votes s.commit_votes
                      (s.commits d fits));
              no_prepares = λ z. absurd (absent z);
              no_commits = λ z. absurd (absent z);
            })
            checks w)
    perform-Goes r (ReplicaCoreAction.commit n) h fits a w =
        let (scratch, kept, h2) = >>=-eq-done (unwrap (lookup n r.block_scratches)) _ h in
        let (block, found, h3) = >>=-eq-done (unwrap (lookup n r.core.blocks)) _ h2 in
        let (r1, checks, h4) = >>=-eq-done (check_commit_quorum prim r n _) _ h3 in
        let s = w.scratches n scratch (ground arith) in
        let has : HasDigest r.core n block.digest = record {
          block = block;
          at = ground arith;
          digest = refl;
        } in
        rw (← (done_pair h4).0) (
          check_commit_quorum-Goes Signed prim r n _
            (record {
              prepare_votes = s.prepare_votes;
              commit_votes = s.commit_votes;
              prepares = s.prepares;
              commits = λ e k.
                  let same = HasDigest-unique r.core n block.digest e has k in
                  AreSigned-same Signed n block.digest e _ same (
                    AreSigned-insert Signed n block.digest _ r.core.config.id _
                      (own r n block.digest a) (s.commits block.digest has));
              no_prepares = s.no_prepares;
              no_commits = λ z. absurd (let bad = sym z ∙ has.at in cc);
            })
            checks w)
    perform-Goes r (ReplicaCoreAction.finalize n) h fits a w =
        let (u, kept, h2) = >>=-eq-done (assert (is_some (lookup n r.block_scratches))) _ h in
        let (block, found, h3) = >>=-eq-done (unwrap (lookup n r.core.blocks)) _ h2 in
        rw (← (done_pair h3).0) (record {
          grows = Grows-refl r.core;
          crypto = refl;
          signed = record {
            core_signed = w.core_signed;
            scratches =
                λ k s at. w.scratches k s (ground (arith, at, lookup-remove n k r.block_scratches));
            actions_fit = w.actions_fit;
          };
        })
    perform-Goes r (ReplicaCoreAction.forward replica_id command) h fits a w =
        rw (← (done_pair h).0) (Goes-refl prim Signed r w)
    perform-Goes r (ReplicaCoreAction.view_change view_num blocks) h fits a w = absurd (cc)
    perform-Goes r (ReplicaCoreAction.new_view view_num view_changes proposals) h fits a w =
        absurd (cc)
    perform-Goes r ReplicaCoreAction.entered_view h fits a w = rw (← (done_pair h).0) (record {
      grows = Grows-refl r.core;
      crypto = refl;
      signed = record {
        core_signed = w.core_signed;
        scratches = λ k s at. absurd (no_entry k at);
        actions_fit = w.actions_fit;
      };
    })

    pub perform_all-Goes :
        (r : Replica) (actions : Actions) {r' : Replica} {sent : List Sending}
        → perform_all prim r actions ≡ done (r', sent)
        → ActionsFit r.core actions
        → IsAt view id crypto r
        → IsSigned Signed r
        → Goes Signed r r'
    unfolding perform_all
    perform_all-Goes r [] h fits a w = rw (← (done_pair h).0) (Goes-refl prim Signed r w)
    perform_all-Goes r (action ∷ actions) h (fit, fits) a w =
        let (s, first, h2) = >>=-eq-done (perform prim r action) _ h in
        let (t, rest, h3) = >>=-eq-done (perform_all prim s.0 actions) _ h2 in
        let g = perform-Goes r action first fit a w in
        rw (← (done_pair h3).0) (
          Goes-trans Signed g (
            perform_all-Goes s.0 actions rest (ActionsFit-Grows actions g.grows fits)
              (IsAt-Goes prim Signed a g) g.signed))

    pub drain-Goes :
        (fuel : ℕ) (r : Replica) (actions : Actions) {r' : Replica} {sent : List Sending}
        → drain prim fuel r actions ≡ done (r', sent)
        → ActionsFit r.core actions
        → IsAt view id crypto r
        → IsSigned Signed r
        → Goes Signed r r'
    unfolding drain
    drain-Goes fuel r [] h fits a w = rw (← (done_pair h).0) (Goes-refl prim Signed r w)
    drain-Goes zero r (action ∷ actions) h fits a w = absurd (cc)
    drain-Goes (suc fuel) r (action ∷ actions) h fits a w =
        let r1 : Replica = record r { core_actions = [] } in
        let (s, round, h2) = >>=-eq-done (perform_all prim r1 (action ∷ actions)) _ h in
        let (t, rest, h3) = >>=-eq-done (drain prim fuel s.0 s.0.core_actions) _ h2 in
        let a1 : IsAt view id crypto r1 = record {
          view_is = a.view_is;
          id_is = a.id_is;
          crypto_is = a.crypto_is;
        } in
        let w1 : IsSigned Signed r1 = record {
          core_signed = w.core_signed;
          scratches = w.scratches;
          actions_fit = tt;
        } in
        let g = perform_all-Goes r1 (action ∷ actions) round fits a1 w1 in
        let g' : Goes Signed r s.0 = record {
          grows = g.grows;
          crypto = g.crypto;
          signed = g.signed;
        } in
        rw (← (done_pair h3).0) (
          Goes-trans Signed g' (
            drain-Goes fuel s.0 s.0.core_actions rest g.signed.actions_fit
              (IsAt-Goes prim Signed a g') g.signed))

    finish-Goes :
        (f : Flow) {r' : Replica} {sent : List Sending}
        → finish prim f ≡ done (r', sent)
        → IsAt view id crypto (replica_of f)
        → IsSigned Signed (replica_of f)
        → Goes Signed (replica_of f) r'
    unfolding finish
    finish-Goes (return r sent) h a w = rw (← (done_pair h).0) (Goes-refl prim Signed r w)
    finish-Goes (proceed r) h a w = drain-Goes max_rounds r r.core_actions h w.actions_fit a w

    pub receive-Goes :
        (r : Replica) (message : ToReplica) {r' : Replica} {sent : List Sending}
        → receive prim r message ≡ done (r', sent)
        → MessageHeard prim Signed view crypto message
        → IsAt view id crypto r
        → IsSigned Signed r
        → Goes Signed r r' × IsAt view id crypto r'
    unfolding receive
    receive-Goes r message h heard a w =
        let (f, dispatches, h2) = >>=-eq-done (dispatch prim r message) _ h in
        let g = dispatch-Goes prim Signed view id crypto r message dispatches heard a w in
        let whole = Goes-trans Signed g (finish-Goes f h2 (IsAt-Goes prim Signed a g) g.signed) in
        (whole, IsAt-Goes prim Signed a whole)
