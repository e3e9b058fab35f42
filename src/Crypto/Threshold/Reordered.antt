-- ===== src/Crypto/Threshold/Reordered.antt =====
-- The entries of a map collect into the map again, in whatever order they come.
use mathlib.Core.List.{Permᴰ}
use bft_kit.Base.{ℕ, suc, ◌≤◌, ◌≡◌, ◌≢◌, refl, sym, ◌∙◌, ap, List, [], ◌∷◌, length, All, arith}
use bft_kit.Base.Lists.Indexing.{All-map}
use bft_kit.Base.Map.{Map, insert, IsSortedFrom, insert-IsSortedFrom}
use bft_kit.Crypto.Threshold.{collect}

-- A permutation has the same length, and what holds of all elements holds of all.
pub Perm-length : {V : Type 0} {xs ys : List V} → Permᴰ xs ys → length ys ≡ length xs
Perm-length Permᴰ.nil = refl
Perm-length (Permᴰ.cons e p) = ap suc (Perm-length p)
Perm-length (Permᴰ.swap e f) = refl
Perm-length (Permᴰ.trans p q) = Perm-length q ∙ Perm-length p

pub All-Perm : {V : Type 0} (P : V → Type 0) {xs ys : List V} → Permᴰ xs ys → All P xs → All P ys
All-Perm P Permᴰ.nil all = tt
All-Perm P (Permᴰ.cons e p) (h, all) = (rw (← e) h, All-Perm P p all)
All-Perm P (Permᴰ.swap e f) (h, (k, all)) = (rw (← f) k, (rw (← e) h, all))
All-Perm P (Permᴰ.trans p q) all = All-Perm P q (All-Perm P p all)

module _ {V : Type 0} where
  -- The indices all differ.
  abbrev pub Distinct : Map V → Type 0
  Distinct [] = Unit
  Distinct (x ∷ xs) = All (λ y. x.0 ≢ y.0) xs × Distinct xs

  Distinct-Perm : {xs ys : Map V} → Permᴰ xs ys → Distinct xs → Distinct ys
  Distinct-Perm Permᴰ.nil d = tt
  Distinct-Perm (Permᴰ.cons {l₂ = ys} e p) (away, d) = (
    All-map ys (λ y other h. other (ap (λ x. x.0) e ∙ h)) (All-Perm (λ y. _ ≢ y.0) p away),
    Distinct-Perm p d,
  )
  Distinct-Perm (Permᴰ.swap {l = l} e f) ((ab, from_a), (from_b, d)) = (
    (
      λ h. ab (ap (λ x. x.0) e ∙ sym h ∙ sym (ap (λ x. x.0) f)),
      All-map l (λ y other h. other (ap (λ x. x.0) f ∙ h)) from_b,
    ),
    (All-map l (λ y other h. other (ap (λ x. x.0) e ∙ h)) from_a, d),
  )
  Distinct-Perm (Permᴰ.trans p q) d = Distinct-Perm q (Distinct-Perm p d)

  pub sorted-Distinct : (k : ℕ) (m : Map V) → IsSortedFrom k m → (All (λ y. k ≤ y.0) m) × Distinct m
  sorted-Distinct k [] s = (tt, tt)
  sorted-Distinct k ((j, v) ∷ m) s =
      let (above, d) = sorted-Distinct (suc j) m s.1 in
      (
        (s.0, All-map m (λ y le. omega (arith, le, s.0)) above),
        (All-map m (λ y le e. absurd (omega (arith, le, e))) above, d),
      )

  insert_comm :
      (n k j : ℕ) (v w : V) (m : Map V)
      → IsSortedFrom n m
      → k ≢ j
      → insert k v (insert j w m) ≡ insert j w (insert k v m)
  unfolding insert
  insert_comm n k j v w [] s h = ground arith
  insert_comm n k j v w ((i, u) ∷ m) s h = ground (arith, insert_comm (suc i) k j v w m s.1 h)

  pub collect-Perm :
      {xs ys : Map V}
      → Permᴰ xs ys
      → Distinct xs
      → (m : Map V) → IsSortedFrom 0 m
      → collect m xs ≡ collect m ys
  unfolding collect
  collect-Perm Permᴰ.nil d m s = refl
  collect-Perm (Permᴰ.cons {a = a} {l₁ = xs} e p) (away, d) m s =
      rw (← e)
        (collect-Perm p d (insert a.0 a.1 m) (insert-IsSortedFrom 0 a.0 a.1 m (omega arith) s))
  collect-Perm (Permᴰ.swap {a = a} {b = b} {l = l} e f) ((ab, away), d) m s =
      rw (← e, ← f) (ap (λ x. collect x l) (insert_comm 0 b.0 a.0 b.1 a.1 m s (λ h. ab (sym h))))
  collect-Perm (Permᴰ.trans p q) d m s =
      collect-Perm p d m s ∙ collect-Perm q (Distinct-Perm p d) m s
