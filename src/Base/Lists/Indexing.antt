-- ===== src/Base/Lists/Indexing.antt =====
-- What the operations on lists do to the elements at each index.
use Prim.Native.Nat.{ℕ, zero, suc, ◌+◌, ◌<◌, ◌≤◌}
use mathlib.Core.Path.{◌≡◌, refl}
use mathlib.Core.List.{List, [], ◌∷◌, ◌++◌}
use mathlib.Core.Option.{none, some}
use native.Mathlib.Omega.{arith}
use bft_kit.Base.Tests.{◌==◌, if◌then◌else◌}
use bft_kit.Base.Lists.{length, get_elem?, set, take, drop, All}

module _ {ℓ} {A : Type ℓ} where
  pub get-lt-length : (xs : List A) (i : ℕ) {a : A} → get_elem? xs i ≡ some a → i < length xs
  get-lt-length [] i h = cc
  get-lt-length (x ∷ xs) zero h = omega arith
  get-lt-length (x ∷ xs) (suc i) h = omega (arith, get-lt-length xs i h)

  pub get_of_lt : (xs : List A) (i : ℕ) → i < length xs → (a : A) × (get_elem? xs i ≡ some a)
  get_of_lt [] i h = elim h [ ]
  get_of_lt (x ∷ xs) zero h = (x, refl)
  get_of_lt (x ∷ xs) (suc i) h = get_of_lt xs i (omega arith)

  pub get_of_ge : (xs : List A) (i : ℕ) → length xs ≤ i → get_elem? xs i ≡ none
  get_of_ge [] i le = refl
  get_of_ge (x ∷ xs) zero le = absurd (omega arith)
  get_of_ge (x ∷ xs) (suc i) le = get_of_ge xs i (omega arith)

  pub get-set :
      (xs : List A) (i j : ℕ) (v : A)
      → i < length xs
      → get_elem? (set xs i v) j ≡ (if i == j then some v else get_elem? xs j)
  get-set [] i j v h = elim h [ ]
  get-set (x ∷ xs) zero zero v h = refl
  get-set (x ∷ xs) zero (suc j) v h = ground arith
  get-set (x ∷ xs) (suc i) zero v h = ground arith
  get-set (x ∷ xs) (suc i) (suc j) v h = ground (arith, get-set xs i j v)

  pub get-snoc :
      (xs : List A) (i : ℕ) (v : A)
      → get_elem? (xs ++ v ∷ []) i ≡ (if i == length xs then some v else get_elem? xs i)
  get-snoc [] zero v = refl
  get-snoc [] (suc i) v = ground arith
  get-snoc (x ∷ xs) zero v = ground arith
  get-snoc (x ∷ xs) (suc i) v = ground (arith, get-snoc xs i v)

  pub get-drop : (n : ℕ) (xs : List A) (i : ℕ) → get_elem? (drop n xs) i ≡ get_elem? xs (n + i)
  get-drop zero xs i = ground arith
  get-drop (suc n) [] i = refl
  get-drop (suc n) (x ∷ xs) i =
      let e : suc n + i ≡ suc (n + i) = omega arith in rw e (get-drop n xs i)

  pub get-take : (n : ℕ) (xs : List A) (i : ℕ) → i < n → get_elem? (take n xs) i ≡ get_elem? xs i
  get-take zero xs i h = elim h [ ]
  get-take (suc n) [] i h = refl
  get-take (suc n) (x ∷ xs) zero h = refl
  get-take (suc n) (x ∷ xs) (suc i) h = get-take n xs i (omega arith)

  pub All-get {κ} :
      (P : A → Type κ) (xs : List A) (i : ℕ) {a : A} → All P xs → get_elem? xs i ≡ some a → P a
  All-get P [] i h e = absurd (cc)
  All-get P (x ∷ xs) zero h e = ground (arith, h.0)
  All-get P (x ∷ xs) (suc i) h e = All-get P xs i h.1 e

  pub All-map {κ κ'} :
      {P : A → Type κ} {Q : A → Type κ'} (xs : List A) → ((a : A) → P a → Q a) → All P xs → All Q xs
  All-map [] f h = tt
  All-map (x ∷ xs) f h = (f x h.0, All-map xs f h.1)

  pub All-of-get {κ} :
      (P : A → Type κ) (xs : List A) → ((i : ℕ) (a : A) → get_elem? xs i ≡ some a → P a) → All P xs
  All-of-get P [] h = tt
  All-of-get P (x ∷ xs) h = (h 0 x refl, All-of-get P xs (λ i a e. h (suc i) a e))
