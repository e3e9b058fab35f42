-- ===== src/Service/Once.antt =====
-- At most once execution: what a service answers to the commands of finalized blocks.
use bft_kit.Base.{
  ℕ, ◌<◌, ◌≡◌, refl, true, false, Option, none, some, List, [], ◌∷◌, ◌++◌, All, All-append, ltb,
  ◌==◌, Bool-cases, Option-cases, inl, inr, arith,
}
use bft_kit.Base.Lists.Indexing.{All-map}
use bft_kit.Base.Map.{lookup, contains, lookup-insert}
use bft_kit.Command.{Command}
use bft_kit.Service.{
  ServiceTask, AbstractService, Effect, write, submit, is_answered, execute, execute_all,
  on_message, pbft_service, hotstuff_service, unreplicated_service, pbft_reply, hotstuff_reply,
  unreplicated_reply,
}

-- The replies to each client have increasing sequence numbers.
abbrev pub IsIncreasing : {Reply : Type 0} → (Reply → ℕ) → List (ℕ × Reply) → Type 0
IsIncreasing reply_seq [] = Unit
IsIncreasing reply_seq ((client_id, reply) ∷ replies) =
    All (λ r. client_id ≡ r.0 → reply_seq reply < reply_seq r.1) replies
    × IsIncreasing reply_seq replies

-- The command is answered.
abbrev pub Answered : {Reply : Type 0} → (Reply → ℕ) → ServiceTask Reply → ℕ → ℕ → Type 0
Answered reply_seq task client_id seq =
    is_answered reply_seq (lookup client_id task.replies) seq ≡ true

module _ {Reply : Type 0} (reply_seq : Reply → ℕ) where
  -- What the execution of some commands does.
  pub record Executed (task : ServiceTask Reply) (replies : List (ℕ × Reply))
      (task' : ServiceTask Reply) : Type 0 where
    -- What was answered stays answered,
    pub kept : (k seq : ℕ) → Answered reply_seq task k seq → Answered reply_seq task' k seq
    -- what is replied was not answered, and is now,
    pub fresh :
        All (λ r. is_answered reply_seq (lookup r.0 task.replies) (reply_seq r.1) ≡ false) replies
    pub noted : All (λ r. Answered reply_seq task' r.0 (reply_seq r.1)) replies
    pub increasing : IsIncreasing reply_seq replies

  append-IsIncreasing :
      (xs ys : List (ℕ × Reply))
      → IsIncreasing reply_seq xs
      → IsIncreasing reply_seq ys
      → All (λ x. All (λ y. x.0 ≡ y.0 → reply_seq x.1 < reply_seq y.1) ys) xs
      → IsIncreasing reply_seq (xs ++ ys)
  append-IsIncreasing [] ys sx sy h = sy
  append-IsIncreasing (x ∷ xs) ys sx sy h =
      (All-append _ xs ys sx.0 h.0, append-IsIncreasing xs ys sx.1 sy h.1)

  -- What is answered before is below what is fresh after.
  answered_below :
      (task : ServiceTask Reply) (x : ℕ × Reply) (y : ℕ × Reply)
      → Answered reply_seq task x.0 (reply_seq x.1)
      → is_answered reply_seq (lookup y.0 task.replies) (reply_seq y.1) ≡ false
      → x.0 ≡ y.0
      → reply_seq x.1 < reply_seq y.1
  answered_below task x y old new same = elim (Option-cases (lookup y.0 task.replies)) [
    | inl e ↦ absurd (ground (arith, rw same at old))
    | inr (r, e) ↦ ground (arith, rw same at old)
  ]

  Executed-trans :
      {a b c : ServiceTask Reply} {xs ys : List (ℕ × Reply)}
      → Executed a xs b
      → Executed b ys c
      → Executed a (xs ++ ys) c
  Executed-trans {a} {b} {c} {xs} {ys} s t = record {
    kept = λ k seq h. t.kept k seq (s.kept k seq h);
    fresh = All-append _ xs ys s.fresh (All-map ys (λ y h. still_fresh y h) t.fresh);
    noted = All-append _ xs ys (All-map xs (λ x h. t.kept x.0 (reply_seq x.1) h) s.noted) t.noted;
    increasing =
        append-IsIncreasing xs ys s.increasing t.increasing (
          All-map xs (λ x old. All-map ys (λ y new. answered_below b x y old new) t.fresh) s.noted);
  }
    where
      still_fresh :
          (y : ℕ × Reply)
          → is_answered reply_seq (lookup y.0 b.replies) (reply_seq y.1) ≡ false
          → is_answered reply_seq (lookup y.0 a.replies) (reply_seq y.1) ≡ false
      still_fresh y h =
          elim (Bool-cases (is_answered reply_seq (lookup y.0 a.replies) (reply_seq y.1))) [
            | inl e ↦ let e' = s.kept y.0 (reply_seq y.1) e in absurd (cc)
            | inr e ↦ e
          ]

module _ {Reply : Type 0} (reply_seq : Reply → ℕ) (make : Command → ServiceTask Reply → Reply)
    (makes : (c : Command) (task : ServiceTask Reply) → reply_seq (make c task) ≡ c.seq) where
  execute-Executed :
      (c : Command) (task : ServiceTask Reply)
      → Executed reply_seq task (execute reply_seq make c task).1 (execute reply_seq make c task).0
        × Answered reply_seq (execute reply_seq make c task).0 c.client_id c.seq
  unfolding execute
  execute-Executed c task =
      let m = makes c task in
      elim (Bool-cases (is_answered reply_seq (lookup c.client_id task.replies) c.seq)) [
        | inl e ↦ rw e (record { kept = λ k seq h. h; fresh = tt; noted = tt; increasing = tt }, e)
        | inr e ↦ rw e (
          record {
            kept = λ k seq h.
                ground (arith, m, lookup-insert c.client_id k (make c task) task.replies);
            fresh = (rw m e, tt);
            noted = (
              ground (arith, m, lookup-insert c.client_id c.client_id (make c task) task.replies),
              tt,
            );
            increasing = (tt, tt);
          },
          ground (arith, m, lookup-insert c.client_id c.client_id (make c task) task.replies),
        )
      ]

  execute_all-Executed :
      (commands : List Command) (task : ServiceTask Reply)
      → Executed reply_seq task
          (execute_all reply_seq make commands task).1
          (execute_all reply_seq make commands task).0
        × All
            (λ c. Answered reply_seq (execute_all reply_seq make commands task).0 c.client_id c.seq)
            commands
  unfolding execute_all
  execute_all-Executed [] task =
      (record { kept = λ k seq h. h; fresh = tt; noted = tt; increasing = tt }, tt)
  execute_all-Executed (c ∷ commands) task =
      let (one, answered) = execute-Executed c task in
      let (rest, all) = execute_all-Executed commands (execute reply_seq make c task).0 in
      (Executed-trans reply_seq one rest, (rest.kept c.client_id c.seq answered, all))

module _ {Reply Finalized : Type 0} (service : AbstractService Reply Finalized)
    (commands_of : Finalized → List Command) where
  -- The law of a service: what it finalizes it answers, and it replies to what was not answered yet.
  pub record IsOnce : Type 0 where
    pub executes :
        (finalized : Finalized) (task : ServiceTask Reply)
        → Executed service.reply_seq task
            (service.on_finalized finalized task).1
            (service.on_finalized finalized task).0
    pub answers :
        (finalized : Finalized) (task : ServiceTask Reply)
        → All
            (λ c.
              Answered service.reply_seq (service.on_finalized finalized task).0 c.client_id c.seq)
            (commands_of finalized)

  -- What is finalized one after another.
  pub finalize_each : List Finalized → ServiceTask Reply → ServiceTask Reply × List (ℕ × Reply)
  finalize_each [] task = (task, [])
  finalize_each (finalized ∷ rest) task =
      let (task', replies) = service.on_finalized finalized task in
      let (task'', replies') = finalize_each rest task' in (task'', replies ++ replies')

  finalize_each-Executed :
      (list : List Finalized) (task : ServiceTask Reply)
      → IsOnce
      → Executed service.reply_seq task (finalize_each list task).1 (finalize_each list task).0
        × All
            (λ f.
              All
                (λ c. Answered service.reply_seq (finalize_each list task).0 c.client_id c.seq)
                (commands_of f))
            list
  unfolding finalize_each
  finalize_each-Executed [] task once =
      (record { kept = λ k seq h. h; fresh = tt; noted = tt; increasing = tt }, tt)
  finalize_each-Executed (f ∷ list) task once =
      let (rest, all) = finalize_each-Executed list (service.on_finalized f task).0 once in
      (
        Executed-trans service.reply_seq (once.executes f task) rest,
        (All-map (commands_of f) (λ c h. rest.kept c.client_id c.seq h) (once.answers f task), all),
      )

  -- Whatever a service with the law finalizes, in whatever blocks, from whatever state: its replies to
  -- each client have increasing sequence numbers, so that no command is executed twice, and none is
  -- for a command that was answered before.
  pub executes_once :
      (list : List Finalized) (task : ServiceTask Reply)
      → IsOnce
      → IsIncreasing service.reply_seq (finalize_each list task).1
        × All
            (λ r.
              is_answered service.reply_seq (lookup r.0 task.replies) (service.reply_seq r.1)
              ≡ false)
            (finalize_each list task).1
  executes_once list task once =
      let (e, all) = finalize_each-Executed list task once in (e.increasing, e.fresh)

  -- What is sent for a request: at most the last reply of its client, and nothing to the replica.
  abbrev pub IsReply : ServiceTask Reply → Command → Effect Reply → Type 0
  IsReply task c (write client_id reply) =
      (client_id ≡ c.client_id) × (lookup c.client_id task.replies ≡ some reply)
  IsReply task c (submit command) = ⊥

  -- `none` is the error that ends the task.
  abbrev pub OnlyReplies : ServiceTask Reply → Command → Option (List (Effect Reply)) → Type 0
  OnlyReplies task c none = Unit
  OnlyReplies task c (some effects) = All (IsReply task c) effects

  on_message-OnlyReplies :
      (c : Command) (task : ServiceTask Reply)
      → Answered service.reply_seq task c.client_id c.seq
      → OnlyReplies task c (on_message service task c)
  unfolding on_message
  on_message-OnlyReplies c task answered = elim (Option-cases (lookup c.client_id task.replies)) [
    | inl e ↦ absurd (ground arith)
    | inr (reply, e) ↦ elim (Bool-cases (ltb c.seq (service.reply_seq reply))) [
      | inl older ↦ let sent : on_message service task c ≡ some [] = ground arith in rw sent tt
      | inr newer ↦
          let found : is_answered service.reply_seq (some reply) c.seq ≡ true = rw e at answered in
          let last : (service.reply_seq reply == c.seq) ≡ true = ground arith in
          elim (Bool-cases (contains c.client_id task.clients)) [
            | inl known ↦
                let sent : on_message service task c ≡ some (write c.client_id reply ∷ []) =
                  ground arith in
                rw sent ((refl, e), tt)
            | inr unknown ↦ let sent : on_message service task c ≡ none = ground arith in rw sent tt
          ]
    ]
  ]

  -- For a request of a command that was finalized nothing is sent to the replica: all that is sent
  -- is the last reply of its client, to that client.
  pub never_resubmits :
      (list : List Finalized) (task : ServiceTask Reply)
      → IsOnce
      → All
          (λ f.
            All
              (λ c.
                OnlyReplies
                  (finalize_each list task).0
                  c
                  (on_message service (finalize_each list task).0 c))
              (commands_of f))
          list
  never_resubmits list task once =
      All-map list
        (λ f h.
          All-map (commands_of f) (λ c a. on_message-OnlyReplies c (finalize_each list task).0 a) h)
        (finalize_each-Executed list task once).1

-- The service of PBFT obeys the law of a service: whatever is finalized, each of its commands is
-- answered after it, what was answered stays answered, and the replies are to commands not answered
-- before, with increasing sequence numbers for each client.
pub pbft_service-IsOnce : IsOnce pbft_service (λ finalized. finalized.commands)
unfolding pbft_service
pbft_service-IsOnce = record {
  executes =
      λ f task. (execute_all-Executed _ (pbft_reply f.view_num) (λ c t. refl) f.commands task).0;
  answers =
      λ f task. (execute_all-Executed _ (pbft_reply f.view_num) (λ c t. refl) f.commands task).1;
}

-- The service of HotStuff obeys the law of a service.
pub hotstuff_service-IsOnce : IsOnce hotstuff_service (λ commands. commands)
unfolding hotstuff_service
hotstuff_service-IsOnce = record {
  executes = λ f task. (execute_all-Executed _ hotstuff_reply (λ c t. refl) f task).0;
  answers = λ f task. (execute_all-Executed _ hotstuff_reply (λ c t. refl) f task).1;
}

-- The service without replication obeys the law of a service.
pub unreplicated_service-IsOnce : IsOnce unreplicated_service (λ command. command ∷ [])
unfolding unreplicated_service
unreplicated_service-IsOnce = record {
  executes = λ c task. (execute-Executed _ unreplicated_reply (λ c t. refl) c task).0;
  answers = λ c task. ((execute-Executed _ unreplicated_reply (λ c t. refl) c task).1, tt);
}
