-- ===== src/Hotstuff/Slab.antt =====
-- What the crate slab offers, and what it documents. Nothing is ever removed from the slabs here.
use bft_kit.Base.{ℕ, ◌≡◌, Option, none, some, ◌==◌, if◌then◌else◌}

pub record Slab : Type 1 where
  pub Of : Type 0 → Type 0
  -- `Slab::new`.
  pub empty : (A : Type 0) → Of A
  pub vacant_key : (A : Type 0) → Of A → ℕ
  -- The slab with the value, and its key.
  pub insert : (A : Type 0) → Of A → A → Of A × ℕ
  -- An index, which panics at a key that is vacant.
  pub get : (A : Type 0) → Of A → ℕ → Option A

pub record IsSlab (slab : Slab) : Type 1 where
  pub get-empty : (A : Type 0) (k : ℕ) → slab.get A (slab.empty A) k ≡ none
  pub get-insert :
      (A : Type 0) (s : slab.Of A) (a : A) (k : ℕ)
      → slab.get A (slab.insert A s a).0 k
        ≡ (if (slab.insert A s a).1 == k then some a else slab.get A s k)
  pub insert-vacant_key :
      (A : Type 0) (s : slab.Of A) (a : A) → (slab.insert A s a).1 ≡ slab.vacant_key A s
  pub get-vacant_key : (A : Type 0) (s : slab.Of A) → slab.get A s (slab.vacant_key A s) ≡ none
