-- ===== src/Pbft/Replica/Rounds.antt =====
-- The loop of `Replica::receive` ends after as many rounds as there are phases.
use bft_kit.Base.{ℕ, suc, ◌≡◌, Bool, List, [], ◌∷◌, ◌++◌, done}
use bft_kit.Base.Map.{Map}
use bft_kit.Command.{Command}
use bft_kit.Crypto.{Primitives}
use bft_kit.Pbft.Core.{ReplicaCoreAction, Actions}
use bft_kit.Pbft.Core.Phases.{Within, SameRole}
use bft_kit.Pbft.Replica.{Replica, Sending}
use bft_kit.Pbft.Replica.Drain.{perform_all}

-- A step adds actions of at most `n` phases to those of the core, and keeps the replica's role.
pub record Adds (p : Bool) (n : ℕ) (r r' : Replica) : Type 0 where
  pub role : SameRole r.core r'.core
  pub new : Actions
  pub added : r'.core_actions ≡ r.core_actions ++ new
  pub within : Within p n new

module _ (prim : Primitives) where
  -- The loop can make so many rounds, each of which returns.
  pub data Rounds : ℕ → Replica → Actions → Type 0 where
    no_round : (r : Replica) (actions : Actions) → Rounds 0 r actions
    one_more :
        (n : ℕ) (r : Replica) (action : ReplicaCoreAction) (actions : Actions) (r' : Replica)
        (sent : List Sending)
        → perform_all prim (record r { core_actions = [] }) (action ∷ actions) ≡ done (r', sent)
        → Rounds n r' r'.core_actions
        → Rounds (suc n) r (action ∷ actions)
