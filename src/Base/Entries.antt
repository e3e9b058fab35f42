-- ===== src/Base/Entries.antt =====
-- What holds of all entries of a map, through its operations.
use bft_kit.Base.{
  ℕ, ◌≡◌, some, [], ◌∷◌, All, drop, zero, suc, Bool-cases, inl, inr, ltb, ◌==◌, arith,
}
use bft_kit.Base.Map.{Map, lookup, insert, remove}

module _ {V : Type 0} (P : ℕ × V → Type 0) where
  pub insert-All : (k : ℕ) (v : V) (m : Map V) → P (k, v) → All P m → All P (insert k v m)
  unfolding insert
  insert-All k v [] p ps = (p, tt)
  insert-All k v ((j, w) ∷ m) p (q, qs) = elim (Bool-cases (j == k)) [
    | inl here ↦ rw here (p, qs)
    | inr there ↦ rw there (elim (Bool-cases (ltb k j)) [
      | inl before ↦ rw before (p, (q, qs))
      | inr after ↦ rw after (q, insert-All k v m p qs)
    ])
  ]

  pub remove-All : (k : ℕ) (m : Map V) → All P m → All P (remove k m)
  unfolding remove
  remove-All k [] ps = tt
  remove-All k ((j, w) ∷ m) (q, qs) = elim (Bool-cases (j == k)) [
    | inl here ↦ rw here (remove-All k m qs)
    | inr there ↦ rw there (q, remove-All k m qs)
  ]

  pub drop-All : (n : ℕ) (m : Map V) → All P m → All P (drop n m)
  drop-All zero m ps = ps
  drop-All (suc n) [] ps = tt
  drop-All (suc n) (x ∷ m) (p, ps) = drop-All n m ps

  pub lookup-All : (k : ℕ) (m : Map V) {v : V} → lookup k m ≡ some v → All P m → P (k, v)
  unfolding lookup
  lookup-All k [] h ps = absurd (cc)
  lookup-All k ((j, w) ∷ m) {v} h (q, qs) = elim (Bool-cases (j == k)) [
    | inl here ↦
        let same : j ≡ k = ground arith in
        let h' : some w ≡ some v = rw here at h in let value : w ≡ v = cc in rw (← same, ← value) q
    | inr there ↦ lookup-All k m (rw there at h) qs
  ]
