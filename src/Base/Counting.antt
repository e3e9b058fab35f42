-- ===== src/Base/Counting.antt =====
-- How many numbers below a bound pass a test, and what two large sets of them have in common.
use bft_kit.Base.{
  ℕ, zero, suc, ◌+◌, ◌*◌, ◌≤◌, ◌<◌, ◌≡◌, ◌⊎◌, refl, Bool, true, false, not, ◌&&◌, some, none, [],
  ◌∷◌, length, ◌==◌, is_some, Bool-cases, Option-cases, inl, inr, arith,
}
use bft_kit.Base.Map.{Map, lookup, IsSortedFrom}

abbrev pub one_if : Bool → ℕ
one_if true = 1
one_if false = 0

unfoldable pub count : (ℕ → Bool) → ℕ → ℕ
count p zero = 0
count p (suc n) = one_if (p n) + count p n

count-le : (p : ℕ → Bool) (n : ℕ) → count p n ≤ n
unfolding count
count-le p zero = omega arith
count-le p (suc n) = ground (arith, count-le p n)

-- Either a number below the bound passes the test, or none does.
pub find_below :
    (p : ℕ → Bool) (n : ℕ) → ((i : ℕ) × (i < n) × (p i ≡ true)) ⊎ ((i : ℕ) → i < n → p i ≡ false)
find_below p zero = inr (λ i h. absurd (omega (arith, h)))
find_below p (suc n) = elim (Bool-cases (p n)) [
  | inl e ↦ inl (n, omega arith, e)
  | inr e ↦ elim (find_below p n) [
    | inl (i, below, e') ↦ inl (i, omega (arith, below), e')
    | inr all ↦ inr (λ i h. elim (Bool-cases (i == n)) [
      | inl same ↦ let same' : i ≡ n = ground arith in rw same' e
      | inr other ↦ all i (ground arith)
    ])
  ]
]

-- Where what is in both sets is in the third.
count-both :
    (p q r : ℕ → Bool) (n : ℕ)
    → ((i : ℕ) → i < n → (p i && q i && not (r i)) ≡ false)
    → count p n + count q n ≤ n + count r n
unfolding count
count-both p q r zero h = omega arith
count-both p q r (suc n) h =
    let here = h n (omega arith) in
    ground (arith, count-both p q r n (λ i below. h i (omega (arith, below))))

module _ {V : Type 0} where
  pub lookup-below : (k j : ℕ) (m : Map V) → IsSortedFrom k m → j < k → lookup j m ≡ none
  unfolding lookup
  lookup-below k j [] s h = refl
  lookup-below k j ((i, v) ∷ m) (le, s) h = ground (arith, lookup-below (suc i) j m s)

  abbrev pub has : Map V → ℕ → Bool
  has m i = is_some (lookup i m)

  count-above :
      (j : ℕ) (v : V) (m : Map V) (n : ℕ) → n ≤ j → count (has ((j, v) ∷ m)) n ≡ count (has m) n
  unfolding count lookup
  count-above j v m zero h = refl
  count-above j v m (suc n) h = ground (arith, count-above j v m n)

  count-cons :
      (j : ℕ) (v : V) (m : Map V) (n : ℕ)
      → j < n
      → lookup j m ≡ none
      → count (has ((j, v) ∷ m)) n ≡ suc (count (has m) n)
  unfolding count lookup
  count-cons j v m zero h absent = absurd (omega (arith, h))
  count-cons j v m (suc n) h absent = elim (Bool-cases (j == n)) [
    | inl e ↦
        let e' : j ≡ n = ground arith in
        let rest = count-above j v m n (omega (arith, e')) in ground (arith, rest)
    | inr e ↦ ground (arith, count-cons j v m n)
  ]

  pub length-count :
      (k n : ℕ) (m : Map V)
      → IsSortedFrom k m
      → ((i : ℕ) (v : V) → lookup i m ≡ some v → i < n)
      → length m ≤ count (has m) n
  unfolding lookup
  length-count k n [] s small = omega arith
  length-count k n ((j, v) ∷ m) (le, s) small =
      let absent = lookup-below (suc j) j m s (omega arith) in
      let below : j < n = small j v (ground arith) in
      let rest = length-count (suc j) n m s (λ i w at. small i w (elim (Bool-cases (j == i)) [
        | inl e ↦ let e' : j ≡ i = ground arith in absurd (ground (arith, absent))
        | inr e ↦ ground arith
      ])) in
      omega (arith, rest, count-cons j v m n below absent)

  -- Two sets of `n - f` numbers below `n > 3 * f` have a number in common that is not of some `f`.
  pub quorums_meet :
      (n f : ℕ) (p q : Map V) (faulty : ℕ → Bool)
      → IsSortedFrom 0 p
      → IsSortedFrom 0 q
      → ((i : ℕ) (v : V) → lookup i p ≡ some v → i < n)
      → ((i : ℕ) (v : V) → lookup i q ≡ some v → i < n)
      → n ≤ length p + f
      → n ≤ length q + f
      → 3 * f < n
      → count faulty n ≤ f
      → (i : ℕ) × (v : V) × (w : V) × (lookup i p ≡ some v)
        × (lookup i q ≡ some w)
        × (faulty i ≡ false)
  quorums_meet n f p q faulty sp sq bp bq np nq most few =
      elim (find_below (λ i. has p i && has q i && not (faulty i)) n) [
        | inr none_good ↦ absurd (
            omega (
              arith,
              count-both (has p) (has q) faulty n none_good,
              length-count 0 n p sp bp,
              length-count 0 n q sq bq,
            ))
        | inl (i, below, e) ↦ elim (Option-cases (lookup i p)) [
          | inl a ↦ absurd (ground (arith, a))
          | inr (v, a) ↦ elim (Option-cases (lookup i q)) [
            | inl b ↦ absurd (ground (arith, a, b))
            | inr (w, b) ↦ (i, v, w, a, b, ground (arith, a, b))
          ]
        ]
      ]
