-- ===== src/Pbft/Agreement/Steps.antt =====
-- What every step of a run keeps: the replicas are well formed, and the votes on their way are of
-- replicas that have the block, or that are faulty.
use bft_kit.Base.{
  ℕ, ◌≡◌, refl, sym, ◌∙◌, ap, Bool, some, List, [], ◌∷◌, ◌++◌, get_elem?, ◌==◌, if◌then◌else◌, All,
  All-append, Bool-cases, inl, inr, arith,
}
use bft_kit.Base.Lists.Indexing.{get-set, get-lt-length}
use bft_kit.Replica.{ReplicaAction}
use bft_kit.Crypto.{Primitives, PublicKey}
use bft_kit.Pbft.Message.{Vote}
use bft_kit.Pbft.Core.{Spec}
use bft_kit.Pbft.Core.Grows.{Grows-refl}
use bft_kit.Pbft.Replica.{Replica, ToReplica, Sending}
use bft_kit.Pbft.Replica.Drain
use bft_kit.Pbft.Replica.Drain.{receive}
use bft_kit.Pbft.Replica.Tick.{pbft_replica}
use bft_kit.Pbft.Replica.Kept.{receive-IsWellFormed}
use bft_kit.Pbft.Replica.Signed.{IsAt, Goes}
use bft_kit.Pbft.Replica.Signed.Received.{MessageHeard}
use bft_kit.Pbft.Replica.Signed.Steps.{receive-Goes}
use bft_kit.Pbft.Replica.Signed.Answers.{SendingFits}
use bft_kit.Pbft.Replica.Signed.Sends.{receive-Fits}
use bft_kit.Network.{Event, System}
use bft_kit.Network.Runs.{
  EventHolds, SendingHolds, Called, Run, Step, requested, stepped, lost, injected, Reach, start,
  later, request-Called, step-Stepped,
}
use bft_kit.Pbft.Agreement.{
  AllGrow, Forged, of_faulty, unverified, repeated, Injects, VoteHeld, MessageHeld, SignedAt,
  Member, Member-Grows, events-Grows, carried-Held,
}

All-head {ℓ} :
    {A : Type 0} (P : A → Type ℓ) (xs : List A) {y : A} {ys : List A}
    → xs ≡ y ∷ ys
    → All P xs
    → P y × All P ys
All-head P xs e all = rw e at all

module _ (prim : Primitives) (keys : List PublicKey) (faulty : ℕ → Bool) (spec : Spec) where
  -- All the system, with the messages on their way and those before.
  pub record IsSafe (run : Run Replica ToReplica) : Type 0 where
    pub members :
        (j : ℕ) (r : Replica)
        → get_elem? run.system.replicas j ≡ some r
        → Member prim keys faulty spec run.system.replicas j r
    pub events :
        All (EventHolds (MessageHeld prim keys faulty run.system.replicas)) run.system.events
    pub history : All (EventHolds (MessageHeld prim keys faulty run.system.replicas)) run.history

  heard :
      (s : List Replica) (j : ℕ) (r : Replica) (m : ToReplica)
      → r.crypto_config.public_keys ≡ keys
      → MessageHeld prim keys faulty s m
      → MessageHeard prim (SignedAt prim keys faulty s j) 0 r.crypto_config m
  heard s j r (ToReplica.request command) same f = tt
  heard s j r (ToReplica.pre_prepare m commands) same f = tt
  heard s j r (ToReplica.prepare v) same f =
      λ key view at good. inr (f view (key, rw (← same) at, good))
  heard s j r (ToReplica.commit v) same f =
      λ key view at good. inr (f view (key, rw (← same) at, good))

  sent_held :
      (s : List Replica) (j : ℕ) (r : Replica) (sent : List Sending)
      → get_elem? s j ≡ some r
      → All (SendingFits j r.core) sent
      → All (SendingHolds (MessageHeld prim keys faulty s)) sent
  sent_held s j r [] at f = tt
  sent_held s j r (action ∷ sent) at (f, fs) = (one action f, sent_held s j r sent at fs)
    where
      message :
          (m : ToReplica)
          → SendingFits j r.core (ReplicaAction.send_to_all_replicas m)
          → MessageHeld prim keys faulty s m
      message (ToReplica.request command) f = tt
      message (ToReplica.pre_prepare m commands) f = tt
      message (ToReplica.prepare v) (is, has) =
          λ view good. inr (record { replica = r; at = rw is at; has = has })
      message (ToReplica.commit v) (is, has) =
          λ view good. inr (record { replica = r; at = rw is at; has = has })

      one : (a : Sending) → SendingFits j r.core a → SendingHolds (MessageHeld prim keys faulty s) a
      one (ReplicaAction.send_to_replica to m) f = message m f
      one (ReplicaAction.send_to_all_replicas m) f = message m f
      one (ReplicaAction.finalize commands) f = tt

  module _ (s s' : System Replica ToReplica) (history : List (Event ToReplica)) (j : ℕ)
      (m : ToReplica)
      (c : Called (MessageHeld prim keys faulty s'.replicas) j (λ r. receive prim r m) s s')
      (held : MessageHeld prim keys faulty s.replicas m)
      (safe : IsSafe (record { system = s; history = history })) where
    before-Member : Member prim keys faulty spec s.replicas j c.before
    before-Member = safe.members j c.before c.at

    before-IsAt : IsAt 0 j c.before.crypto_config c.before
    before-IsAt =
        let mem = before-Member in
        record { view_is = mem.view_is; id_is = mem.id_is; crypto_is = refl }

    called-Goes :
        Goes (SignedAt prim keys faulty s.replicas j) c.before c.after
        × IsAt 0 j c.before.crypto_config c.after
    called-Goes =
        let mem = before-Member in
        receive-Goes prim (SignedAt prim keys faulty s.replicas j) 0 j c.before.crypto_config
          (λ r n d a. inl a.id_is) c.before m c.ran
          (heard s.replicas j c.before m mem.keys_are held) before-IsAt mem.signed

    called_fits : All (SendingFits j c.after.core) c.sent
    called_fits =
        let mem = before-Member in
        receive-Fits prim (SignedAt prim keys faulty s.replicas j) 0 j c.before.crypto_config
          (λ r n d a. inl a.id_is) c.before m c.ran
          (heard s.replicas j c.before m mem.keys_are held) before-IsAt mem.signed

    after_at :
        (i : ℕ)
        → get_elem? s'.replicas i ≡ (if j == i then some c.after else get_elem? s.replicas i)
    after_at i = rw c.replicas (get-set s.replicas j i c.after (get-lt-length s.replicas j c.at))

    called-Grows : AllGrow s.replicas s'.replicas
    called-Grows i r at = elim (Bool-cases (j == i)) [
      | inl e ↦
          let e' : j ≡ i = ground arith in
          let same : some c.before ≡ some r = sym c.at ∙ rw e' at in
          let same' : c.before ≡ r = cc in
          (c.after, ground (arith, after_at i), rw (← same') called-Goes.0.grows)
      | inr e ↦ (r, ground (arith, at, after_at i), Grows-refl r.core)
    ]

    after-Member : Member prim keys faulty spec s.replicas j c.after
    after-Member =
        let mem = before-Member in
        let (goes, a) = called-Goes in
        record {
          view_is = a.view_is;
          below = mem.below;
          id_is = a.id_is;
          spec_is = ap (λ x. x.spec) goes.grows.role.config ∙ mem.spec_is;
          keys_are = ap (λ x. x.public_keys) goes.crypto ∙ mem.keys_are;
          formed = receive-IsWellFormed prim c.before m mem.formed c.ran;
          signed = goes.signed;
        }

    called-Safe : IsSafe (record { system = s'; history = history ++ s'.events })
    called-Safe =
        let g = called-Grows in
        let events =
          c.events (sent_held s'.replicas j c.after c.sent (ground (arith, after_at j)) called_fits)
            (events-Grows prim keys faulty s.replicas s'.replicas s.events g safe.events) in
        record {
          members = λ k r at. elim (Bool-cases (j == k)) [
            | inl e ↦
                let e' : j ≡ k = ground arith in
                let same : some c.after ≡ some r = ground (arith, at, after_at k) in
                let same' : c.after ≡ r = cc in
                rw (← same', ← e')
                  (Member-Grows prim keys faulty spec s.replicas s'.replicas j c.after g
                    after-Member)
            | inr e ↦
                Member-Grows prim keys faulty spec s.replicas s'.replicas k r g
                  (safe.members k r (ground (arith, at, after_at k)))
          ];
          events = events;
          history =
              All-append _ history s'.events
                (events-Grows prim keys faulty s.replicas s'.replicas history g safe.history)
                events;
        }

  -- What comes from outside says nothing new of a replica that is not faulty.
  Forged-Held :
      (s : List Replica) (history : List (Event ToReplica)) (v : Vote)
      → All (EventHolds (MessageHeld prim keys faulty s)) history
      → Forged prim keys faulty history v
      → VoteHeld prim keys faulty s v
  Forged-Held s history v all (of_faulty bad) =
      λ view good. let (key, at, right) = good in inl (bad, get-lt-length keys v.replica_id at)
  Forged-Held s history v all (unverified wrong) = λ view good. absurd (wrong good)
  Forged-Held s history v all (repeated w carried good view n d i) = λ zero_view verified.
      rw (← n, ← d, ← i)
        (carried-Held prim keys faulty s history w all carried (view ∙ zero_view) good)

  injected-Held :
      (s : List Replica) (history : List (Event ToReplica)) (event : Event ToReplica)
      → All (EventHolds (MessageHeld prim keys faulty s)) history
      → Injects prim keys faulty history event
      → EventHolds (MessageHeld prim keys faulty s) event
  injected-Held s history (Event.send_to_replica id (ToReplica.request command)) all f = tt
  injected-Held s history (Event.send_to_replica id (ToReplica.pre_prepare m commands)) all f = tt
  injected-Held s history (Event.send_to_replica id (ToReplica.prepare v)) all f =
      Forged-Held s history v all f
  injected-Held s history (Event.send_to_replica id (ToReplica.commit v)) all f =
      Forged-Held s history v all f

  Step-Safe :
      {a b : Run Replica ToReplica}
      → Step (pbft_replica prim) (Injects prim keys faulty) a b
      → IsSafe a
      → IsSafe b
  unfolding pbft_replica Drain.request
  Step-Safe (requested {s} {s'} {h} id command does) safe =
      called-Safe s s' h id (ToReplica.request command)
        (request-Called (MessageHeld prim keys faulty s'.replicas) (pbft_replica prim) s id command
          does)
        tt safe
  Step-Safe (stepped {s} {s'} {h} does) safe =
      let f = step-Stepped (MessageHeld prim keys faulty s'.replicas) (pbft_replica prim) s does in
      let all =
        All-head (EventHolds (MessageHeld prim keys faulty s.replicas)) s.events f.events
          safe.events in
      called-Safe (record s { events = f.rest }) s' h f.id f.message f.called all.0
        (record { members = safe.members; events = all.1; history = safe.history })
  Step-Safe (lost {s} event events is) safe =
      let all =
        All-head (EventHolds (MessageHeld prim keys faulty s.replicas)) s.events is safe.events in
      record { members = safe.members; events = all.1; history = safe.history }
  Step-Safe (injected {s} {h} event may) safe = record {
    members = safe.members;
    events = (injected-Held s.replicas h event safe.history may, safe.events);
    history = safe.history;
  }

  pub Reach-Safe :
      {first : System Replica ToReplica} {run : Run Replica ToReplica}
      → Reach (pbft_replica prim) (Injects prim keys faulty) first run
      → IsSafe (record { system = first; history = [] })
      → IsSafe run
  Reach-Safe start safe = safe
  Reach-Safe (later reach step) safe = Step-Safe step (Reach-Safe reach safe)
