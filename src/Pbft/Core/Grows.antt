-- ===== src/Pbft/Core/Grows.antt =====
-- The digests of the blocks of the core stay, and what it votes for is there.
use bft_kit.Base.{
  ℕ, ◌≤◌, ◌≡◌, refl, sym, ◌∙◌, Bool, true, false, some, [], ◌∷◌, ◌++◌, ◌==◌, Bool-cases, inl, inr,
  arith,
}
use bft_kit.Base.Map.{lookup, insert, lookup-insert}
use bft_kit.Crypto.{Digest}
use bft_kit.Pbft.Core.{Block, ReplicaCore, ReplicaCoreAction, Actions}
use bft_kit.Pbft.Core.Phases.{phases_left, Within, SameRole, SameRole-refl, SameRole-trans}
use bft_kit.Pbft.Core.SameBlocks.{SameBlocks}

pub record HasDigest (core : ReplicaCore) (n : ℕ) (d : Digest) : Type 0 where
  pub block : Block
  pub at : lookup n core.blocks ≡ some block
  pub digest : block.digest ≡ d

-- A block with another digest does not come in the place of one that is there.
pub record Grows (core core' : ReplicaCore) : Type 0 where
  pub role : SameRole core core'
  pub kept : (n : ℕ) (d : Digest) → HasDigest core n d → HasDigest core' n d

-- A vote to prepare is for a block that is there.
abbrev pub ActionFits : ReplicaCore → ReplicaCoreAction → Type 0
ActionFits core (ReplicaCoreAction.prepare n d) = HasDigest core n d
ActionFits core _ = Unit

abbrev pub ActionsFit : ReplicaCore → Actions → Type 0
ActionsFit core [] = Unit
ActionsFit core (a ∷ actions) = ActionFits core a × ActionsFit core actions

pub Grows-refl : (core : ReplicaCore) → Grows core core
Grows-refl core = record { role = SameRole-refl core; kept = λ n d h. h }

pub Grows-trans : {a b c : ReplicaCore} → Grows a b → Grows b c → Grows a c
Grows-trans s t = record {
  role = SameRole-trans s.role t.role;
  kept = λ n d h. t.kept n d (s.kept n d h);
}

pub HasDigest-unique :
    (core : ReplicaCore) (n : ℕ) (d e : Digest) → HasDigest core n d → HasDigest core n e → d ≡ e
HasDigest-unique core n d e h k =
    let same : some h.block ≡ some k.block = sym h.at ∙ k.at in
    let same' : h.block ≡ k.block = cc in sym h.digest ∙ rw same' k.digest

ActionFits-Grows :
    {core core' : ReplicaCore} (a : ReplicaCoreAction)
    → Grows core core'
    → ActionFits core a
    → ActionFits core' a
ActionFits-Grows (ReplicaCoreAction.propose n commands) g f = tt
ActionFits-Grows (ReplicaCoreAction.prepare n d) g f = g.kept n d f
ActionFits-Grows (ReplicaCoreAction.commit n) g f = tt
ActionFits-Grows (ReplicaCoreAction.finalize n) g f = tt
ActionFits-Grows (ReplicaCoreAction.forward i command) g f = tt
ActionFits-Grows (ReplicaCoreAction.view_change v blocks) g f = tt
ActionFits-Grows (ReplicaCoreAction.new_view v q proposals) g f = tt
ActionFits-Grows ReplicaCoreAction.entered_view g f = tt

pub ActionsFit-Grows :
    {core core' : ReplicaCore} (actions : Actions)
    → Grows core core'
    → ActionsFit core actions
    → ActionsFit core' actions
ActionsFit-Grows [] g f = tt
ActionsFit-Grows (a ∷ actions) g (f, fs) = (ActionFits-Grows a g f, ActionsFit-Grows actions g fs)

pub ActionsFit-append :
    (core : ReplicaCore) (xs ys : Actions)
    → ActionsFit core xs
    → ActionsFit core ys
    → ActionsFit core (xs ++ ys)
ActionsFit-append core [] ys f g = g
ActionsFit-append core (x ∷ xs) ys (f, fs) g = (f, ActionsFit-append core xs ys fs g)

late_fits :
    (core : ReplicaCore) (p : Bool) (a : ReplicaCoreAction)
    → phases_left p a ≤ 1
    → ActionFits core a
late_fits core p (ReplicaCoreAction.propose n commands) w = tt
late_fits core true (ReplicaCoreAction.prepare n d) w = absurd (omega (arith, w))
late_fits core false (ReplicaCoreAction.prepare n d) w = absurd (omega (arith, w))
late_fits core p (ReplicaCoreAction.commit n) w = tt
late_fits core p (ReplicaCoreAction.finalize n) w = tt
late_fits core p (ReplicaCoreAction.forward i command) w = tt
late_fits core p (ReplicaCoreAction.view_change v blocks) w = tt
late_fits core p (ReplicaCoreAction.new_view v q proposals) w = tt
late_fits core p ReplicaCoreAction.entered_view w = tt

pub Within-Fit :
    (core : ReplicaCore) (p : Bool) (actions : Actions)
    → Within p 1 actions
    → ActionsFit core actions
Within-Fit core p [] w = tt
Within-Fit core p (a ∷ actions) (w, ws) = (late_fits core p a w, Within-Fit core p actions ws)

-- A block takes the place of one with its digest, or a free one.
pub insert-Grows :
    (core : ReplicaCore) (n : ℕ) (block : Block)
    → ((old : Block) → lookup n core.blocks ≡ some old → old.digest ≡ block.digest)
    → Grows core (record core { blocks = insert n block core.blocks })
insert-Grows core n block same = record {
  role = record { config = refl; view_num = refl };
  kept = λ k d h. elim (Bool-cases (n == k)) [
    | inl e ↦
        let e' : n ≡ k = ground arith in
        record {
          block = block;
          at = ground (arith, lookup-insert n k block core.blocks);
          digest = sym (same h.block (rw e' h.at)) ∙ h.digest;
        }
    | inr e ↦ record {
      block = h.block;
      at = ground (arith, h.at, lookup-insert n k block core.blocks);
      digest = h.digest;
    }
  ];
}

pub SameBlocks-Grows :
    {core core' : ReplicaCore} → SameRole core core' → SameBlocks core core' → Grows core core'
SameBlocks-Grows role s = record {
  role = role;
  kept = λ n d h. record { block = h.block; at = rw s.blocks h.at; digest = h.digest };
}
