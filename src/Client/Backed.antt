-- ===== src/Client/Backed.antt =====
-- How many replicas have sent a result, of those whose results a client has recorded.
use bft_kit.Base.{
  ℕ, suc, ◌≤◌, ◌≡◌, refl, true, false, some, List, [], ◌∷◌, All, length, ltb, ◌==◌, Bool-cases, inl,
  inr, arith,
}
use bft_kit.Base.Map.{Map, lookup, insert, IsSortedFrom}
use bft_kit.Base.Counting.{lookup-below}
use bft_kit.Base.Lists.Indexing.{All-map}
use bft_kit.Client.{is_same, matching}

-- Replicas, all different, with this result among those recorded.
pub record Backers (results : Map (List ℕ)) (result : List ℕ) (voters : Map (List ℕ)) : Type 0 where
  pub different : IsSortedFrom 0 voters
  pub recorded : All (λ v. lookup v.0 results ≡ some result) voters

-- At least `n` different replicas have sent the result.
pub record Backed (n : ℕ) (results : Map (List ℕ)) (result : List ℕ) : Type 0 where
  pub voters : Map (List ℕ)
  pub backers : Backers results result voters
  pub enough : n ≤ length voters

pub is_same-eq : (a b : List ℕ) → is_same a b ≡ true → a ≡ b
unfolding is_same
is_same-eq [] [] h = refl
is_same-eq [] (y ∷ ys) h = absurd (cc)
is_same-eq (x ∷ xs) [] h = absurd (cc)
is_same-eq (x ∷ xs) (y ∷ ys) h =
    let same : x ≡ y = ground arith in
    let rest : is_same xs ys ≡ true = ground arith in let tail = is_same-eq xs ys rest in cc

pub is_same_self : (a : List ℕ) → is_same a a ≡ true
unfolding is_same
is_same_self [] = refl
is_same_self (x ∷ xs) = ground (arith, is_same_self xs)

module _ {V : Type 0} where
  sorted_below :
      (n m : ℕ) (results : Map V) → n ≤ m → IsSortedFrom m results → IsSortedFrom n results
  sorted_below n m [] le s = tt
  sorted_below n m ((k, r) ∷ results) le s = (omega (arith, s.0), s.1)

  -- The keys of a map lie above.
  keys_above : (k : ℕ) (m : Map V) → IsSortedFrom k m → All (λ v. k ≤ v.0) m
  keys_above k [] s = tt
  keys_above k ((j, r) ∷ m) s =
      (s.0, All-map m (λ v le. omega (arith, le, s.0)) (keys_above (suc j) m s.1))

matching-IsSortedFrom :
    (n : ℕ) (result : List ℕ) (results : Map (List ℕ))
    → IsSortedFrom n results
    → IsSortedFrom n (matching result results)
unfolding matching
matching-IsSortedFrom n result [] s = tt
matching-IsSortedFrom n result ((k, r) ∷ results) s = elim (Bool-cases (is_same r result)) [
  | inl e ↦ rw e (s.0, matching-IsSortedFrom (suc k) result results s.1)
  | inr e ↦ rw e (
      sorted_below n (suc k) (matching result results) (omega (arith, s.0))
        (matching-IsSortedFrom (suc k) result results s.1))
]

matching-recorded :
    (n : ℕ) (result : List ℕ) (results : Map (List ℕ))
    → IsSortedFrom n results
    → All (λ v. lookup v.0 results ≡ some result) (matching result results)
unfolding matching lookup
matching-recorded n result [] s = tt
matching-recorded n result ((k, r) ∷ results) s =
    let rest : All (λ v. lookup v.0 ((k, r) ∷ results) ≡ some result) (matching result results) =
      All-both (matching result results)
        (keys_above (suc k) (matching result results)
          (matching-IsSortedFrom (suc k) result results s.1))
        (matching-recorded (suc k) result results s.1) in
    elim (Bool-cases (is_same r result)) [
      | inl e ↦ let same = is_same-eq r result e in rw e (ground (arith, same), rest)
      | inr e ↦ rw e rest
    ]
  where
    All-both :
        (vs : Map (List ℕ))
        → All (λ v. suc k ≤ v.0) vs
        → All (λ v. lookup v.0 results ≡ some result) vs
        → All (λ v. lookup v.0 ((k, r) ∷ results) ≡ some result) vs
    All-both [] above at = tt
    All-both (v ∷ vs) (above, aboves) (at, ats) =
        (ground (arith, above, at), All-both vs aboves ats)

-- What is counted are replicas that back the result,
matching-Backers :
    (result : List ℕ) (results : Map (List ℕ))
    → IsSortedFrom 0 results
    → Backers results result (matching result results)
matching-Backers result results s = record {
  different = matching-IsSortedFrom 0 result results s;
  recorded = matching-recorded 0 result results s;
}

pass_head :
    (k : ℕ) (r result : List ℕ) (results vs : Map (List ℕ))
    → IsSortedFrom (suc k) vs
    → All (λ v. lookup v.0 ((k, r) ∷ results) ≡ some result) vs
    → All (λ v. lookup v.0 results ≡ some result) vs
unfolding lookup
pass_head k r result results vs s at = go vs (keys_above (suc k) vs s) at
  where
    go :
        (vs : Map (List ℕ))
        → All (λ v. suc k ≤ v.0) vs
        → All (λ v. lookup v.0 ((k, r) ∷ results) ≡ some result) vs
        → All (λ v. lookup v.0 results ≡ some result) vs
    go [] above at = tt
    go (v ∷ vs) (above, aboves) (at, ats) = (ground (arith, above, at), go vs aboves ats)

-- and no replica that does is left out.
backers_counted :
    (n : ℕ) (result : List ℕ) (results voters : Map (List ℕ))
    → IsSortedFrom n results
    → IsSortedFrom n voters
    → All (λ v. lookup v.0 results ≡ some result) voters
    → length voters ≤ length (matching result results)
unfolding matching lookup
backers_counted n result [] [] s t at = omega arith
backers_counted n result [] (v ∷ voters) s t at = absurd (ground (arith, at.0))
backers_counted n result ((k, r) ∷ results) [] s t at = omega arith
backers_counted n result ((k, r) ∷ results) ((i, v) ∷ voters) (le, s) (le', t) (at, ats) =
    elim (Bool-cases (k == i)) [
      | inl e ↦
          let e' : k ≡ i = ground arith in
          let same : r ≡ result =
            (let whole : some r ≡ some result = ground (arith, at, e) in cc) in
          let counted : is_same r result ≡ true = rw same (is_same_self result) in
          let t' : IsSortedFrom (suc k) voters = rw e' t in
          let rest =
            backers_counted (suc k) result results voters s t'
              (pass_head k r result results voters t' ats) in
          ground (arith, counted, rest)
      | inr e ↦ elim (Bool-cases (ltb i k)) [
        | inl below ↦
            let absent = lookup-below (suc k) i results s (ground arith) in
            absurd (ground (arith, at, absent))
        | inr above ↦
            let t' : IsSortedFrom (suc k) ((i, v) ∷ voters) = (ground arith, t) in
            let rest =
              backers_counted (suc k) result results ((i, v) ∷ voters) s t'
                (pass_head k r result results ((i, v) ∷ voters) t' (at, ats)) in
            ground (arith, rest)
      ]
    ]

pub Backed-counted :
    (n : ℕ) (results : Map (List ℕ)) (result : List ℕ)
    → IsSortedFrom 0 results
    → Backed n results result
    → n ≤ length (matching result results)
Backed-counted n results result s b =
    let le = backers_counted 0 result results b.voters s b.backers.different b.backers.recorded in
    omega (arith, le, b.enough)

pub counted-Backed :
    (n : ℕ) (results : Map (List ℕ)) (result : List ℕ)
    → IsSortedFrom 0 results
    → n ≤ length (matching result results)
    → Backed n results result
counted-Backed n results result s le = record {
  voters = matching result results;
  backers = matching-Backers result results s;
  enough = le;
}

-- One more reply adds at most one, and none to other results.
pub matching-insert :
    (k : ℕ) (v r : List ℕ) (m : Map (List ℕ))
    → length (matching r (insert k v m)) ≤ suc (length (matching r m))
unfolding matching insert
matching-insert k v r [] = ground arith
matching-insert k v r ((j, w) ∷ m) = ground (arith, matching-insert k v r m)

pub matching-insert_other :
    (k : ℕ) (v r : List ℕ) (m : Map (List ℕ))
    → is_same v r ≡ false
    → length (matching r (insert k v m)) ≤ length (matching r m)
unfolding matching insert
matching-insert_other k v r [] e = ground arith
matching-insert_other k v r ((j, w) ∷ m) e = ground (arith, e, matching-insert_other k v r m e)
