-- ===== src/Service/Examples.antt =====
-- The service of PBFT run on two blocks with a command in both.
use bft_kit.Base.{ℕ, ◌≡◌, false, List, [], ◌∷◌, All}
use bft_kit.Base.Map.{lookup}
use bft_kit.Command.{Command}
use bft_kit.Pbft.Message
use bft_kit.Service.{ServiceTask, PbftFinalized, is_answered, on_message, pbft_service}
use bft_kit.Service.Once.{
  IsIncreasing, finalize_each, executes_once, OnlyReplies, never_resubmits, pbft_service-IsOnce,
}

abbrev command : ℕ → ℕ → Command
command client_id seq = record { client_id = client_id; seq = seq; op = [] }

abbrev blocks : List PbftFinalized
blocks =
    record { commands = command 1 1 ∷ command 2 4 ∷ []; view_num = 0 }
    ∷ record { commands = command 1 1 ∷ command 1 2 ∷ []; view_num = 1 }
    ∷ []

abbrev task : ServiceTask Message.Reply
task = record { replies = []; replica_id = 3; clients = (1, tt) ∷ (2, tt) ∷ [] }

executes_once_example :
    IsIncreasing pbft_service.reply_seq (finalize_each pbft_service (λ f. f.commands) blocks task).1
    × All
        (λ r.
          is_answered pbft_service.reply_seq (lookup r.0 task.replies) (pbft_service.reply_seq r.1)
          ≡ false)
        (finalize_each pbft_service (λ f. f.commands) blocks task).1
executes_once_example = executes_once pbft_service (λ f. f.commands) blocks task pbft_service-IsOnce

never_resubmits_example :
    All
      (λ f.
        All
          (λ c.
            OnlyReplies pbft_service
              (λ f. f.commands)
              (finalize_each pbft_service (λ f. f.commands) blocks task).0
              c
              (on_message pbft_service
                (finalize_each pbft_service (λ f. f.commands) blocks task).0
                c))
          f.commands)
      blocks
never_resubmits_example =
    never_resubmits pbft_service (λ f. f.commands) blocks task pbft_service-IsOnce
