-- ===== src/Pool/CloseLoop/SwapRemove.antt =====
-- The elements that `Vec::swap_remove` leaves, at each index.
use bft_kit.Base.{
  ℕ, zero, suc, ◌-◌, ◌<◌, ◌≡◌, refl, none, some, List, [], ◌∷◌, length, get_elem?, set, length-set,
  ltb, ◌==◌, if◌then◌else◌, arith,
}
use bft_kit.Base.Lists.Indexing.{get-set}
use bft_kit.Pool.CloseLoop.{drop_last, last?, swap_remove}

module _ {ℓ} {A : Type ℓ} where
  get-drop_last :
      (xs : List A) (i : ℕ)
      → get_elem? (drop_last xs) i ≡ (if ltb (suc i) (length xs) then get_elem? xs i else none)
  unfolding drop_last
  get-drop_last [] i = ground arith
  get-drop_last (x ∷ []) i = ground arith
  get-drop_last (x ∷ x' ∷ xs) zero = ground arith
  get-drop_last (x ∷ x' ∷ xs) (suc i) = ground (arith, get-drop_last (x' ∷ xs) i)

  length-drop_last : (xs : List A) → length (drop_last xs) ≡ length xs - 1
  unfolding drop_last
  length-drop_last [] = omega arith
  length-drop_last (x ∷ []) = omega arith
  length-drop_last (x ∷ x' ∷ xs) = omega (arith, length-drop_last (x' ∷ xs))

  pub last?-get : (xs : List A) → last? xs ≡ get_elem? xs (length xs - 1)
  unfolding last?
  last?-get [] = refl
  last?-get (x ∷ []) = ground arith
  last?-get (x ∷ x' ∷ xs) =
      let e : suc (suc (length xs)) - 1 ≡ suc (length xs) = omega arith in
      let f : suc (length xs) - 1 ≡ length xs = omega arith in
      let ih = last?-get (x' ∷ xs) in rw e (rw f at ih)

  last?-of_suc : (x : A) (xs : List A) → (y : A) × (last? (x ∷ xs) ≡ some y)
  unfolding last?
  last?-of_suc x [] = (x, refl)
  last?-of_suc x (x' ∷ xs) = last?-of_suc x' xs

  pub get-swap_remove :
      (xs : List A) (i j : ℕ)
      → i < length xs
      → get_elem? (swap_remove xs i) j
        ≡ (if ltb (suc j) (length xs) then (if i == j then last? xs else get_elem? xs j) else none)
  unfolding swap_remove
  get-swap_remove [] i j h = elim h [ ]
  get-swap_remove (x ∷ xs) i j h =
      let (y, e) = last?-of_suc x xs in
      ground (
        arith,
        e,
        get-drop_last (set (x ∷ xs) i y) j,
        length-set (x ∷ xs) i y,
        get-set (x ∷ xs) i j y,
      )

  pub length-swap_remove : (xs : List A) (i : ℕ) → length (swap_remove xs i) ≡ length xs - 1
  unfolding swap_remove last?
  length-swap_remove [] i = omega arith
  length-swap_remove (x ∷ xs) i =
      let (y, e) = last?-of_suc x xs in
      ground (arith, e, length-drop_last (set (x ∷ xs) i y), length-set (x ∷ xs) i y)
