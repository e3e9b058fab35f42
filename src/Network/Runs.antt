-- ===== src/Network/Runs.antt =====
-- Runs of a system of replicas among which messages may be lost, repeated and forged.
use bft_kit.Base.{
  ℕ, zero, suc, ◌+◌, ◌≡◌, refl, ◌∙◌, ap, not, some, List, [], ◌∷◌, ◌++◌, get_elem?, set, ◌==◌, All,
  All-append, Bool-cases, Option-cases, inl, inr, assert, unwrap, Outcome, done, >>=-eq-done, arith,
}
use bft_kit.Command.{Command}
use bft_kit.Replica.{ReplicaAction, AbstractReplica}
use bft_kit.Network.{
  Event, System, Action, num_replica, broadcast, effect, effect_all, call, quietly, request, step,
  exhaust,
}
use bft_kit.Pbft.Core.Phases.{done_pair}
use bft_kit.Hotstuff.Core.Quiet.{done_eq}

module _ {Message : Type 0} (P : Message → Type 0) where
  abbrev pub EventHolds : Event Message → Type 0
  EventHolds (Event.send_to_replica id message) = P message

  abbrev pub SendingHolds : ReplicaAction Message → Type 0
  SendingHolds (ReplicaAction.send_to_replica id message) = P message
  SendingHolds (ReplicaAction.send_to_all_replicas message) = P message
  SendingHolds (ReplicaAction.finalize commands) = Unit

  broadcast-Holds :
      (count id from : ℕ) (message : Message)
      → P message
      → All EventHolds (broadcast count id from message)
  unfolding broadcast
  broadcast-Holds zero id from message p = tt
  broadcast-Holds (suc count) id from message p = elim (Bool-cases (id == from)) [
    | inl e ↦ rw e (broadcast-Holds count (id + 1) from message p)
    | inr e ↦ rw e (p, broadcast-Holds count (id + 1) from message p)
  ]

  -- The replicas stay, and all messages that are added have the property.
  record Adds {Replica : Type 0} (s s' : System Replica Message) : Type 0 where
    replicas : s'.replicas ≡ s.replicas
    events : All EventHolds s.events → All EventHolds s'.events

  module _ {Replica : Type 0} where
    effect-Adds :
        (from : ℕ) (action : ReplicaAction Message) (s : System Replica Message)
        {r : System Replica Message × List Action}
        → SendingHolds action
        → effect from action s ≡ done r
        → Adds s r.0
    unfolding effect
    effect-Adds from (ReplicaAction.send_to_replica id message) s p h =
        let (u, other, h2) = >>=-eq-done (assert (not (id == from))) _ h in
        rw (← done_eq h2)
          (record { replicas = refl; events = λ all. All-append _ s.events _ all (p, tt) })
    effect-Adds from (ReplicaAction.send_to_all_replicas message) s p h = rw (← done_eq h) (record {
      replicas = refl;
      events =
          λ all. All-append _ s.events _ all (broadcast-Holds (num_replica s) 0 from message p);
    })
    effect-Adds from (ReplicaAction.finalize commands) s p h =
        rw (← done_eq h) (record { replicas = refl; events = λ all. all })

    pub effect_all-Adds :
        (from : ℕ) (actions : List (ReplicaAction Message)) (s : System Replica Message)
        {r : System Replica Message × List Action}
        → All SendingHolds actions
        → effect_all from actions s ≡ done r
        → (r.0.replicas ≡ s.replicas) × (All EventHolds s.events → All EventHolds r.0.events)
    unfolding effect_all
    effect_all-Adds from [] s p h = rw (← done_eq h) (refl, λ all. all)
    effect_all-Adds from (action ∷ actions) s (p, ps) h =
        let (a, first, h2) = >>=-eq-done (effect from action s) _ h in
        let (b, rest, h3) = >>=-eq-done (effect_all from actions a.0) _ h2 in
        let f = effect-Adds from action s p first in
        let (same, holds) = effect_all-Adds from actions a.0 ps rest in
        rw (← done_eq h3) (same ∙ f.replicas, λ all. holds (f.events all))

module _ {Message : Type 0} where
  unit_all : (sent : List (ReplicaAction Message)) → All (SendingHolds (λ m. Unit)) sent
  unit_all [] = tt
  unit_all (ReplicaAction.send_to_replica id message ∷ sent) = (tt, unit_all sent)
  unit_all (ReplicaAction.send_to_all_replicas message ∷ sent) = (tt, unit_all sent)
  unit_all (ReplicaAction.finalize commands ∷ sent) = (tt, unit_all sent)

-- A system, with all messages that were ever on their way.
pub record Run (Replica Message : Type 0) : Type 0 where
  pub system : System Replica Message
  pub history : List (Event Message)

module _ {Replica Message : Type 0} where
  -- What a call does.
  pub record Called (P : Message → Type 0) (id : ℕ)
      (f : Replica → Outcome (Replica × List (ReplicaAction Message)))
      (s s' : System Replica Message) : Type 0 where
    pub before : Replica
    pub after : Replica
    pub sent : List (ReplicaAction Message)
    pub at : get_elem? s.replicas id ≡ some before
    pub ran : f before ≡ done (after, sent)
    pub replicas : s'.replicas ≡ set s.replicas id after
    pub events :
        All (SendingHolds P) sent → All (EventHolds P) s.events → All (EventHolds P) s'.events

  pub call-Called :
      (P : Message → Type 0) (id : ℕ)
      (f : Replica → Outcome (Replica × List (ReplicaAction Message))) (s : System Replica Message)
      {r : System Replica Message × List Action}
      → call id f s ≡ done r
      → Called P id f s r.0
  unfolding call
  call-Called P id f s h =
      let (before, at, h2) = >>=-eq-done (unwrap (get_elem? s.replicas id)) _ h in
      let (r, ran, h3) = >>=-eq-done (f before) _ h2 in
      let s1 : System Replica Message = record s { replicas = set s.replicas id r.0 } in
      record {
        before = before;
        after = r.0;
        sent = r.1;
        at = ground arith;
        ran = ran;
        replicas = (effect_all-Adds (λ m. Unit) id r.1 s1 (unit_all r.1) h3).0;
        events = λ ps all. (effect_all-Adds P id r.1 s1 ps h3).1 all;
      }

  quietly-done :
      (r : System Replica Message × List Action) {s : System Replica Message}
      → quietly r ≡ done s
      → r.0 ≡ s
  quietly-done (s, []) h = done_eq h
  quietly-done (s, action ∷ actions) h = absurd (cc)

  -- A step of a run. What `injects` allows may come from outside: a message that is repeated, or
  -- one that a faulty replica sends.
  pub data Step (replica : AbstractReplica Replica Message)
      (injects : List (Event Message) → Event Message → Type 0)
      : Run Replica Message → Run Replica Message → Type 0 where
    requested :
        {s s' : System Replica Message} {h : List (Event Message)} (id : ℕ) (command : Command)
        → request replica s id command ≡ done s'
        → Step replica injects
            (record { system = s; history = h })
            (record { system = s'; history = h ++ s'.events })
    stepped :
        {s s' : System Replica Message} {h : List (Event Message)} {out : List Action}
        → step replica s ≡ done (some (s', out))
        → Step replica injects
            (record { system = s; history = h })
            (record { system = s'; history = h ++ s'.events })
    lost :
        {s : System Replica Message} {h : List (Event Message)} (event : Event Message)
        (events : List (Event Message))
        → s.events ≡ event ∷ events
        → Step replica injects
            (record { system = s; history = h })
            (record { system = record s { events = events }; history = h })
    injected :
        {s : System Replica Message} {h : List (Event Message)} (event : Event Message)
        → injects h event
        → Step replica injects
            (record { system = s; history = h })
            (record { system = record s { events = event ∷ s.events }; history = h })

  pub data Reach (replica : AbstractReplica Replica Message)
      (injects : List (Event Message) → Event Message → Type 0) (first : System Replica Message)
      : Run Replica Message → Type 0 where
    start : Reach replica injects first (record { system = first; history = [] })
    later :
        {a b : Run Replica Message}
        → Reach replica injects first a
        → Step replica injects a b
        → Reach replica injects first b

  pub request-Called :
      (P : Message → Type 0) (replica : AbstractReplica Replica Message)
      (s : System Replica Message) (id : ℕ) (command : Command) {s' : System Replica Message}
      → request replica s id command ≡ done s'
      → Called P id (λ r. replica.request r command) s s'
  unfolding request
  request-Called P replica s id command h =
      let (r, calls, h2) = >>=-eq-done (call id (λ x. replica.request x command) s) _ h in
      rw (← (quietly-done r h2)) (call-Called P id _ s calls)

  -- The event of a step is received.
  pub record Stepped (P : Message → Type 0) (replica : AbstractReplica Replica Message)
      (s s' : System Replica Message) : Type 0 where
    pub id : ℕ
    pub message : Message
    pub rest : List (Event Message)
    pub events : s.events ≡ Event.send_to_replica id message ∷ rest
    pub called : Called P id (λ r. replica.receive r message) (record s { events = rest }) s'

  step_of :
      (P : Message → Type 0) (replica : AbstractReplica Replica Message) (replicas : List Replica)
      (events : List (Event Message)) {s' : System Replica Message} {out : List Action}
      → step replica (record { replicas = replicas; events = events }) ≡ done (some (s', out))
      → Stepped P replica (record { replicas = replicas; events = events }) s'
  unfolding step
  step_of P replica replicas [] h = absurd (cc)
  step_of P replica replicas (Event.send_to_replica id message ∷ rest) {s'} {out} h =
      let s : System Replica Message = record { replicas = replicas; events = rest } in
      let (r, calls, h2) = >>=-eq-done (call id (λ x. replica.receive x message) s) _ h in
      let same : some r ≡ some (s', out) = done_eq h2 in
      let same' : r.0 ≡ s' = cc in
      record {
        id = id;
        message = message;
        rest = rest;
        events = refl;
        called = rw (← same') (call-Called P id _ s calls);
      }

  pub step-Stepped :
      (P : Message → Type 0) (replica : AbstractReplica Replica Message)
      (s : System Replica Message) {s' : System Replica Message} {out : List Action}
      → step replica s ≡ done (some (s', out))
      → Stepped P replica s s'
  step-Stepped P replica s h = step_of P replica s.replicas s.events h

  -- `exhaust` is a run.
  pub exhaust-Reach :
      (replica : AbstractReplica Replica Message)
      (injects : List (Event Message) → Event Message → Type 0) {first : System Replica Message}
      (max_num_step : ℕ) (s : System Replica Message) (h : List (Event Message))
      {s' : System Replica Message} {out : List Action}
      → exhaust replica max_num_step s ≡ done (s', out)
      → Reach replica injects first (record { system = s; history = h })
      → (h' : List (Event Message)) × Reach replica injects first
          (record { system = s'; history = h' })
  unfolding exhaust
  exhaust-Reach replica injects zero s h e reach = absurd (cc)
  exhaust-Reach replica injects (suc max_num_step) s h {s'} {out} e reach =
      let (o, steps, e2) = >>=-eq-done (step replica s) _ e in
      elim (Option-cases o) [
        | inl nothing ↦
            let same : ◌≡◌ {A = Outcome (System Replica Message × List Action)} (done (s, []))
                (done (s', out)) =
              rw nothing at e2 in
            (h, rw (← (done_pair same).0) reach)
        | inr (r, some_step) ↦
            let (t, rest, e3) =
              >>=-eq-done (exhaust replica max_num_step r.0) _ (rw some_step at e2) in
            let same = done_pair e3 in
            let (h', reach') =
              exhaust-Reach replica injects max_num_step r.0 (h ++ r.0.events) rest
                (later reach (stepped {out = r.1} (steps ∙ ap done some_step))) in
            (h', rw (← same.0) reach')
      ]
