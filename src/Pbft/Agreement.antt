-- ===== src/Pbft/Agreement.antt =====
-- A system of PBFT replicas in which some are faulty: who has which blocks, and what may be forged.
pub mod Steps
pub mod Safety
pub mod Examples
use bft_kit.Base.{
  ℕ, ◌<◌, ◌≡◌, ◌⊎◌, refl, sym, ◌∙◌, Bool, true, false, some, List, [], ◌∷◌, length, get_elem?, All,
  inl, inr, arith,
}
use bft_kit.Base.Lists.Indexing.{All-map}
use bft_kit.Crypto.{Primitives, Digest, Sig, PublicKey, verify}
use bft_kit.Pbft.Message.{Vote, vote_bytes}
use bft_kit.Pbft.Core.{Spec}
use bft_kit.Pbft.Core.Grows.{HasDigest, Grows}
use bft_kit.Pbft.Replica.{Replica, ToReplica}
use bft_kit.Pbft.Replica.WellFormed.{IsWellFormed}
use bft_kit.Pbft.Replica.Signed.{IsSigned, IsSigned-weaker}
use bft_kit.Network.{Event}
use bft_kit.Network.Runs.{EventHolds}

-- A message with the vote is among the events.
abbrev pub Carries : List (Event ToReplica) → Vote → Type 0
Carries [] vote = ⊥
Carries (Event.send_to_replica id message ∷ events) vote =
    (message ≡ ToReplica.prepare vote) ⊎ (message ≡ ToReplica.commit vote) ⊎ Carries events vote

-- The replica has a block with the digest.
pub record Holds (s : List Replica) (n : ℕ) (d : Digest) (i : ℕ) : Type 0 where
  pub replica : Replica
  pub at : get_elem? s i ≡ some replica
  pub has : HasDigest replica.core n d

abbrev pub AllGrow : List Replica → List Replica → Type 0
AllGrow s t =
    (i : ℕ) (r : Replica)
    → get_elem? s i ≡ some r
    → (r' : Replica) × (get_elem? t i ≡ some r') × Grows r.core r'.core

module _ (prim : Primitives) (keys : List PublicKey) (faulty : ℕ → Bool) where
  abbrev pub Verifies : Vote → Type 0
  Verifies vote =
      (key : PublicKey) × (get_elem? keys vote.replica_id ≡ some key)
      × (verify prim (vote_bytes vote) key vote.sig ≡ true)

  -- A vote from outside: of a faulty replica, with a wrong signature, or one that a replica has
  -- signed: in a message that was on its way, with the same contents, to prepare or to commit.
  pub data Forged (history : List (Event ToReplica)) (vote : Vote) : Type 0 where
    of_faulty : faulty vote.replica_id ≡ true → Forged history vote
    unverified : (Verifies vote → ⊥) → Forged history vote
    repeated :
        (w : Vote)
        → Carries history w
        → Verifies w
        → w.view_num ≡ vote.view_num
        → w.block_num ≡ vote.block_num
        → w.digest ≡ vote.digest
        → w.replica_id ≡ vote.replica_id
        → Forged history vote

  -- Requests and proposals may be anything.
  abbrev pub Injects : List (Event ToReplica) → Event ToReplica → Type 0
  Injects history (Event.send_to_replica id (ToReplica.prepare vote)) = Forged history vote
  Injects history (Event.send_to_replica id (ToReplica.commit vote)) = Forged history vote
  Injects history (Event.send_to_replica id message) = Unit

  abbrev pub Owned : List Replica → ℕ → Digest → ℕ → Type 0
  Owned s n d i = ((faulty i ≡ true) × (i < length keys)) ⊎ Holds s n d i

  -- Who has signed the vote has the block, or is faulty.
  abbrev pub VoteHeld : List Replica → Vote → Type 0
  VoteHeld s vote =
      vote.view_num ≡ 0 → Verifies vote → Owned s vote.block_num vote.digest vote.replica_id

  abbrev pub MessageHeld : List Replica → ToReplica → Type 0
  MessageHeld s (ToReplica.prepare vote) = VoteHeld s vote
  MessageHeld s (ToReplica.commit vote) = VoteHeld s vote
  MessageHeld s _ = Unit

  -- What replica `j` counts as signed.
  abbrev pub SignedAt : List Replica → ℕ → ℕ → Digest → ℕ → Sig → Type 0
  SignedAt s j n d i sig = (i ≡ j) ⊎ Owned s n d i

  pub record Member (spec : Spec) (s : List Replica) (j : ℕ) (r : Replica) : Type 0 where
    pub view_is : r.core.view_num ≡ 0
    pub below : j < length keys
    pub id_is : r.core.config.id ≡ j
    pub spec_is : r.core.config.spec ≡ spec
    pub keys_are : r.crypto_config.public_keys ≡ keys
    pub formed : IsWellFormed prim r
    pub signed : IsSigned (SignedAt s j) r

  pub Owned-Grows :
      (s t : List Replica) (n : ℕ) (d : Digest) (i : ℕ)
      → AllGrow s t
      → Owned s n d i
      → Owned t n d i
  Owned-Grows s t n d i g (inl bad) = inl bad
  Owned-Grows s t n d i g (inr o) =
      let (r, at, grows) = g i o.replica o.at in
      inr (record { replica = r; at = at; has = grows.kept n d o.has })

  MessageHeld-Grows :
      (s t : List Replica) (m : ToReplica) → AllGrow s t → MessageHeld s m → MessageHeld t m
  MessageHeld-Grows s t (ToReplica.request command) g f = tt
  MessageHeld-Grows s t (ToReplica.pre_prepare m commands) g f = tt
  MessageHeld-Grows s t (ToReplica.prepare v) g f =
      λ view good. Owned-Grows s t v.block_num v.digest v.replica_id g (f view good)
  MessageHeld-Grows s t (ToReplica.commit v) g f =
      λ view good. Owned-Grows s t v.block_num v.digest v.replica_id g (f view good)

  pub events-Grows :
      (s t : List Replica) (events : List (Event ToReplica))
      → AllGrow s t
      → All (EventHolds (MessageHeld s)) events
      → All (EventHolds (MessageHeld t)) events
  events-Grows s t [] g f = tt
  events-Grows s t (Event.send_to_replica id m ∷ events) g (f, fs) =
      (MessageHeld-Grows s t m g f, events-Grows s t events g fs)

  pub carried-Held :
      (s : List Replica) (events : List (Event ToReplica)) (w : Vote)
      → All (EventHolds (MessageHeld s)) events
      → Carries events w
      → VoteHeld s w
  carried-Held s [] w f c = absurd c
  carried-Held s (Event.send_to_replica id m ∷ events) w (f, fs) (inl e) = rw e at f
  carried-Held s (Event.send_to_replica id m ∷ events) w (f, fs) (inr (inl e)) = rw e at f
  carried-Held s (Event.send_to_replica id m ∷ events) w (f, fs) (inr (inr c)) =
      carried-Held s events w fs c

  pub Member-Grows :
      (spec : Spec) (s t : List Replica) (j : ℕ) (r : Replica)
      → AllGrow s t
      → Member spec s j r
      → Member spec t j r
  Member-Grows spec s t j r g m = record {
    view_is = m.view_is;
    below = m.below;
    id_is = m.id_is;
    spec_is = m.spec_is;
    keys_are = m.keys_are;
    formed = m.formed;
    signed = IsSigned-weaker (SignedAt s j) (SignedAt t j) (weaker j) r m.signed;
  }
    where
      weaker :
          (j n : ℕ) (d : Digest) (i : ℕ) (sig : Sig)
          → SignedAt s j n d i sig
          → SignedAt t j n d i sig
      weaker j n d i sig (inl own) = inl own
      weaker j n d i sig (inr o) = inr (Owned-Grows s t n d i g o)
