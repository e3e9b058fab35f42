-- ===== src/Pbft/Replica/Signed/Sends.antt =====
-- A PBFT replica sends votes in its own name only, and for the digests of the blocks that it has.
use bft_kit.Base.{
  ℕ, zero, suc, ◌≡◌, refl, List, [], ◌∷◌, is_some, All, All-append, assert, unwrap, done,
  >>=-eq-done, arith,
}
use bft_kit.Base.Lists.Indexing.{All-map}
use bft_kit.Base.Map.{lookup}
use bft_kit.Crypto.{Primitives, Digest, Sig, ReplicaConfig}
use bft_kit.Pbft.Core.{ReplicaCore, ReplicaCoreAction, Actions}
use bft_kit.Pbft.Core.Phases.{done_pair}
use bft_kit.Pbft.Core.Grows.{HasDigest, Grows, ActionFits, ActionsFit, ActionsFit-Grows}
use bft_kit.Pbft.Replica.{
  Replica, ToReplica, Sending, Flow, return, proceed, feed, signed_vote, check_prepare_quorum,
  check_commit_quorum,
}
use bft_kit.Pbft.Replica.Receive.{dispatch}
use bft_kit.Pbft.Replica.Drain.{max_rounds, perform, perform_all, drain, finish, receive}
use bft_kit.Pbft.Replica.Kept.{replica_of}
use bft_kit.Pbft.Replica.Signed.{IsAt, IsSigned}
use bft_kit.Pbft.Replica.Signed.Received.{MessageHeard, dispatch-Goes, IsAt-Goes}
use bft_kit.Pbft.Replica.Signed.Steps.{perform-Goes, perform_all-Goes, drain-Goes}
use bft_kit.Pbft.Replica.Signed.Answers.{SendingFits, SendingFits-Grows, sent_of, dispatch-Fits}

module _ (prim : Primitives) where
  perform-Fits :
      (id : ℕ) (r : Replica) (a : ReplicaCoreAction) {r' : Replica} {sent : List Sending}
      → perform prim r a ≡ done (r', sent)
      → r.core.config.id ≡ id
      → ActionFits r.core a
      → All (SendingFits id r.core) sent
  unfolding perform signed_vote
  perform-Fits id r (ReplicaCoreAction.propose n commands) h is fits =
      let (r1, fed, h2) = >>=-eq-done (feed prim r _) _ h in rw (← (done_pair h2).1) (tt, tt)
  perform-Fits id r (ReplicaCoreAction.prepare n d) h is fits =
      let (r1, checks, h2) = >>=-eq-done (check_prepare_quorum prim r n _) _ h in
      rw (← (done_pair h2).1) ((is, fits), tt)
  perform-Fits id r (ReplicaCoreAction.commit n) h is fits =
      let (scratch, kept, h2) = >>=-eq-done (unwrap (lookup n r.block_scratches)) _ h in
      let (block, found, h3) = >>=-eq-done (unwrap (lookup n r.core.blocks)) _ h2 in
      let (r1, checks, h4) = >>=-eq-done (check_commit_quorum prim r n _) _ h3 in
      let has : HasDigest r.core n block.digest = record {
        block = block;
        at = ground arith;
        digest = refl;
      } in
      rw (← (done_pair h4).1) ((is, has), tt)
  perform-Fits id r (ReplicaCoreAction.finalize n) h is fits =
      let (u, kept, h2) = >>=-eq-done (assert (is_some (lookup n r.block_scratches))) _ h in
      let (block, found, h3) = >>=-eq-done (unwrap (lookup n r.core.blocks)) _ h2 in
      rw (← (done_pair h3).1) (tt, tt)
  perform-Fits id r (ReplicaCoreAction.forward replica_id command) h is fits =
      rw (← (done_pair h).1) (tt, tt)
  perform-Fits id r (ReplicaCoreAction.view_change view_num blocks) h is fits = absurd (cc)
  perform-Fits id r (ReplicaCoreAction.new_view view_num view_changes proposals) h is fits =
      absurd (cc)
  perform-Fits id r ReplicaCoreAction.entered_view h is fits = rw (← (done_pair h).1) tt

  grown :
      {core core' : ReplicaCore} (id : ℕ) (sent : List Sending)
      → Grows core core'
      → All (SendingFits id core) sent
      → All (SendingFits id core') sent
  grown id sent g all = All-map sent (λ a f. SendingFits-Grows id a g f) all

  module _ (Signed : ℕ → Digest → ℕ → Sig → Type 0) (view id : ℕ) (crypto : ReplicaConfig)
      (own : (r : Replica) (n : ℕ) (d : Digest)
        → IsAt view id crypto r
        → Signed n d r.core.config.id (signed_vote prim r n d).sig) where
    perform_all-Fits :
        (r : Replica) (actions : Actions) {r' : Replica} {sent : List Sending}
        → perform_all prim r actions ≡ done (r', sent)
        → ActionsFit r.core actions
        → IsAt view id crypto r
        → IsSigned Signed r
        → All (SendingFits id r'.core) sent
    unfolding perform_all
    perform_all-Fits r [] h fits a w = rw (← (done_pair h).1) tt
    perform_all-Fits r (action ∷ actions) h (fit, fits) a w =
        let (s, first, h2) = >>=-eq-done (perform prim r action) _ h in
        let (t, rest, h3) = >>=-eq-done (perform_all prim s.0 actions) _ h2 in
        let g = perform-Goes prim Signed view id crypto own r action first fit a w in
        let a' = IsAt-Goes prim Signed a g in
        let fits' = ActionsFit-Grows actions g.grows fits in
        let g2 =
          perform_all-Goes prim Signed view id crypto own s.0 actions rest fits' a' g.signed in
        let (same, out) = done_pair h3 in
        rw (← same, ← out)
          (All-append _ s.1 t.1
            (grown id s.1 g2.grows
              (grown id s.1 g.grows (perform-Fits id r action first a.id_is fit)))
            (perform_all-Fits s.0 actions rest fits' a' g.signed))

    drain-Fits :
        (fuel : ℕ) (r : Replica) (actions : Actions) {r' : Replica} {sent : List Sending}
        → drain prim fuel r actions ≡ done (r', sent)
        → ActionsFit r.core actions
        → IsAt view id crypto r
        → IsSigned Signed r
        → All (SendingFits id r'.core) sent
    unfolding drain
    drain-Fits fuel r [] h fits a w = rw (← (done_pair h).1) tt
    drain-Fits zero r (action ∷ actions) h fits a w = absurd (cc)
    drain-Fits (suc fuel) r (action ∷ actions) h fits a w =
        let r1 : Replica = record r { core_actions = [] } in
        let (s, round, h2) = >>=-eq-done (perform_all prim r1 (action ∷ actions)) _ h in
        let (t, rest, h3) = >>=-eq-done (drain prim fuel s.0 s.0.core_actions) _ h2 in
        let a1 : IsAt view id crypto r1 = record {
          view_is = a.view_is;
          id_is = a.id_is;
          crypto_is = a.crypto_is;
        } in
        let w1 : IsSigned Signed r1 = record {
          core_signed = w.core_signed;
          scratches = w.scratches;
          actions_fit = tt;
        } in
        let g =
          perform_all-Goes prim Signed view id crypto own r1 (action ∷ actions) round fits a1 w1 in
        let a' = IsAt-Goes prim Signed a1 g in
        let g2 =
          drain-Goes prim Signed view id crypto own fuel s.0 s.0.core_actions rest
            g.signed.actions_fit a' g.signed in
        let (same, out) = done_pair h3 in
        rw (← same, ← out)
          (All-append _ s.1 t.1
            (grown id s.1 g2.grows (perform_all-Fits r1 (action ∷ actions) round fits a1 w1))
            (drain-Fits fuel s.0 s.0.core_actions rest g.signed.actions_fit a' g.signed))

    finish-Fits :
        (f : Flow) {r' : Replica} {sent : List Sending}
        → finish prim f ≡ done (r', sent)
        → All (SendingFits id (replica_of f).core) (sent_of f)
        → IsAt view id crypto (replica_of f)
        → IsSigned Signed (replica_of f)
        → All (SendingFits id r'.core) sent
    unfolding finish
    finish-Fits (return r sent) h fits a w =
        let (same, out) = done_pair h in rw (← same, ← out) fits
    finish-Fits (proceed r) h fits a w = drain-Fits max_rounds r r.core_actions h w.actions_fit a w

    pub receive-Fits :
        (r : Replica) (message : ToReplica) {r' : Replica} {sent : List Sending}
        → receive prim r message ≡ done (r', sent)
        → MessageHeard prim Signed view crypto message
        → IsAt view id crypto r
        → IsSigned Signed r
        → All (SendingFits id r'.core) sent
    unfolding receive
    receive-Fits r message h heard a w =
        let (f, dispatches, h2) = >>=-eq-done (dispatch prim r message) _ h in
        let g = dispatch-Goes prim Signed view id crypto r message dispatches heard a w in
        finish-Fits f h2
          (grown id (sent_of f) g.grows (dispatch-Fits prim id r message dispatches a.id_is))
          (IsAt-Goes prim Signed a g) g.signed
