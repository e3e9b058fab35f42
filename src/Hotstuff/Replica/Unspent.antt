-- ===== src/Hotstuff/Replica/Unspent.antt =====
-- No nonce of a replica of HotStuff signs two votes.
use bft_kit.Base.{ℕ, ◌≡◌, ◌≢◌, Option, none, some, List, [], ◌∷◌, All}
use bft_kit.Base.Map.{lookup}
use bft_kit.Crypto.Threshold.{PublicCommitments, Signers, Schemes}
use bft_kit.Hotstuff.Slab.{Slab}
use bft_kit.Hotstuff.Core.{Node, ReplicaCoreAction}
use bft_kit.Hotstuff.Replica.{Replica, find_nonce, signer_index}
use bft_kit.Hotstuff.Replica.Effects.{own_commitments}
use bft_kit.Hotstuff.Replica.Kept.{Kept}
use bft_kit.Hotstuff.Replica.Nonces.{Has, DrawnFrom}

-- What is assumed of the random generator: no two draws give the same commitments.
abbrev pub IsFresh : Schemes → Type 0
IsFresh schemes =
    (key_share i j : ℕ)
    → (schemes.givre_commit key_share i).0 ≡ (schemes.givre_commit key_share j).0
    → i ≡ j

abbrev pub Differ : List PublicCommitments → Type 0
Differ [] = Unit
Differ (c ∷ cs) = All (λ d. c ≢ d) cs × Differ cs

abbrev pub as_list : Option PublicCommitments → List PublicCommitments
as_list none = []
as_list (some c) = c ∷ []

-- The commitments that a vote for the node is signed with, if this replica is one of its signers.
abbrev own_of : ℕ → Option Signers → Option PublicCommitments
own_of me none = none
own_of me (some signers) = own_commitments me signers

module _ (slab : Slab) where
  abbrev chosen : Replica slab → Option Node → Option PublicCommitments
  chosen r none = none
  chosen r (some node) = own_of (signer_index slab r) (lookup node.digest r.block_signers)

  abbrev pub spends : Replica slab → ReplicaCoreAction → List PublicCommitments
  spends r (ReplicaCoreAction.vote key) = as_list (chosen r (slab.get Node r.core.nodes key))
  spends r (ReplicaCoreAction.propose block) = []
  spends r (ReplicaCoreAction.finalize key) = []

module _ (slab : Slab) (schemes : Schemes) where
  abbrev Drawn : Replica slab → PublicCommitments → Type 0
  Drawn r c = DrawnFrom schemes r.crypto_config.key_share 0 r.draws c

  -- The nonces at hand are drawn, and those that votes were signed with are gone for good.
  pub record Unspent (r : Replica slab) (spent : List PublicCommitments) : Type 0 where
    pub drawn : (c : PublicCommitments) → Has c r.nonces → Drawn r c
    pub gone : All (λ c. Drawn r c × (find_nonce c r.nonces ≡ none)) spent
    pub differ : Differ spent
