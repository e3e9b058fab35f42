-- ===== src/Crypto/Threshold/Collected.antt =====
-- The signature that is a vector of signatures: what is collected verifies, and too few never do.
use mathlib.Core.List.{append-nil, Permᴰ}
use bft_kit.Base.{
  ℕ, zero, suc, ◌+◌, ◌≤◌, ◌<◌, ◌≡◌, ◌≢◌, refl, sym, ◌∙◌, ap, true, some, List, [], ◌∷◌, ◌++◌,
  length, get_elem?, ok, done, unwrap, >>=-eq-done, Bool-cases, inl, inr, All, arith,
}
use bft_kit.Base.Entries.{insert-All}
use bft_kit.Base.Map.{Map, insert, IsSortedFrom, insert-IsSortedFrom, length-insert-le}
use bft_kit.Crypto
use bft_kit.Crypto.{Primitives, Digest}
use bft_kit.Crypto.Threshold.Reordered.{Perm-length, All-Perm, sorted-Distinct, collect-Perm}
use bft_kit.Crypto.Threshold.{
  Schemes, Sig, PartialSig, PartialSigs, PublicMasterKey, AggregateContext, add_partial, collect,
  count_valid, verify_digest,
}

abbrev pub Entries : Type 0
Entries = List (ℕ × Crypto.Sig)

-- What the standard library documents of a map: it yields each entry once, in some order.
abbrev pub IsOrder : (Map Crypto.Sig → Entries) → Type 0
IsOrder order = (m : Map Crypto.Sig) → Permᴰ m (order m)

-- All keys of the map lie below `k`.
abbrev Below {ℓ} : {V : Type ℓ} → ℕ → Map V → Type 0
Below k [] = Unit
Below k ((j, v) ∷ m) = (j < k) × Below k m

module _ {ℓ} {V : Type ℓ} where
  insert-snoc : (k : ℕ) (v : V) (m : Map V) → Below k m → insert k v m ≡ m ++ (k, v) ∷ []
  unfolding insert
  insert-snoc k v [] b = refl
  insert-snoc k v ((j, w) ∷ m) b = ground (arith, insert-snoc k v m)

  Below-snoc : (k : ℕ) (v : V) (m : Map V) → Below k m → Below (suc k) (m ++ (k, v) ∷ [])
  Below-snoc k v [] b = omega arith
  Below-snoc k v ((j, w) ∷ m) b = (omega arith, Below-snoc k v m b.1)

  Below-le : (j k : ℕ) (m : Map V) → j ≤ k → Below j m → Below k m
  Below-le j k [] le b = tt
  Below-le j k ((i, w) ∷ m) le b = (omega arith, Below-le j k m le b.1)

  snoc-append : (m : Map V) (e : ℕ × V) (es : Map V) → (m ++ e ∷ []) ++ es ≡ m ++ (e ∷ es)
  snoc-append [] e es = refl
  snoc-append (x ∷ m) e es = ap (λ l. x ∷ l) (snoc-append m e es)

  collect-sorted : (k : ℕ) (m es : Map V) → Below k m → IsSortedFrom k es → collect m es ≡ m ++ es
  unfolding collect
  collect-sorted k m [] b s = rw append-nil
  collect-sorted k m ((j, v) ∷ es) b s =
      let b' = Below-le k j m s.0 b in
      rw (insert-snoc j v m b') (
        collect-sorted (suc j) (m ++ (j, v) ∷ []) es (Below-snoc j v m b') s.1
        ∙ snoc-append m (j, v) es)

  -- Collecting the entries of a map gives the map back.
  pub collect_self : (m : Map V) → IsSortedFrom 0 m → collect [] m ≡ m
  collect_self m s = collect-sorted 0 [] m tt s

-- So do the entries of a map, in whatever order it is drained.
collect_drained :
    (order : Map Crypto.Sig → Entries) (m : Map Crypto.Sig)
    → IsOrder order
    → IsSortedFrom 0 m
    → collect [] (order m) ≡ m
collect_drained order m lawful sorted =
    sym (collect-Perm (lawful m) (sorted-Distinct 0 m sorted).1 [] tt) ∙ collect_self m sorted

module _ (prim : Primitives) (schemes : Schemes) (digest : Digest)
    (public_keys : List Crypto.PublicKey) where
  -- The signature verifies under the key of its index.
  abbrev pub IsGood : ℕ × Crypto.Sig → Type 0
  IsGood entry =
      (key : Crypto.PublicKey) × (get_elem? public_keys entry.0 ≡ some key)
      × (Crypto.verify_digest prim digest key entry.1 ≡ true)

  count-good :
      (most : ℕ) (entries : Entries)
      → length entries ≤ most
      → All IsGood entries
      → count_valid prim schemes digest public_keys most entries ≡ done (length entries)
  unfolding count_valid
  count-good zero [] le good = refl
  count-good (suc most) [] le good = refl
  count-good zero (e ∷ entries) le good = absurd (omega arith)
  count-good (suc most) ((index, sig) ∷ entries) le good =
      let (key, at, valid) = good.0 in
      let rest = count-good most entries (omega arith) good.1 in ground (arith, rest)

  count-le :
      (most : ℕ) (entries : Entries) (n : ℕ)
      → count_valid prim schemes digest public_keys most entries ≡ done n
      → n ≤ length entries
  unfolding count_valid
  count-le zero entries n h = ground arith
  count-le (suc most) [] n h = ground arith
  count-le (suc most) ((index, sig) ∷ entries) n h =
      let (key, e, h2) = >>=-eq-done (unwrap (get_elem? public_keys index)) _ h in
      elim (Bool-cases (Crypto.verify_digest prim digest key sig)) [
        | inl valid ↦
            let (count, e2, h3) =
              >>=-eq-done (count_valid prim schemes digest public_keys most entries) _
                (rw valid at h2) in
            ground (arith, count-le most entries count)
        | inr invalid ↦
            let h3 : count_valid prim schemes digest public_keys (suc most) entries ≡ done n =
              rw invalid at h2 in
            ground (arith, count-le (suc most) entries n)
      ]

  module _ (order : Map Crypto.Sig → Entries) (lawful : IsOrder order) where
    -- A vector with signatures of fewer replicas than the threshold is never accepted, whatever it
    -- repeats.
    pub verify_digest-few :
        (sigs : Entries) (threshold : ℕ)
        → length (collect [] sigs) < threshold
        → verify_digest prim schemes order digest
            (Sig.vec sigs)
            (PublicMasterKey.vec public_keys threshold)
          ≢ done true
    unfolding verify_digest
    verify_digest-few sigs threshold few h =
        let (n, e, h2) =
          >>=-eq-done
            (count_valid prim schemes digest public_keys (threshold + 1) (order (collect [] sigs)))
            _ h in
        let le = count-le (threshold + 1) (order (collect [] sigs)) n e in
        ground (arith, le, Perm-length (lawful (collect [] sigs)))

    -- When the signature of one more replica makes the collected signatures reach the threshold,
    -- all of them right, `add_partial` returns a signature that `verify_digest` accepts, in
    -- whatever order the one drains its map and the other goes through its own.
    pub verify_digest-add_partial :
        (sigs : Map Crypto.Sig) (index : ℕ) (sig : Crypto.Sig) (threshold : ℕ)
        → IsOrder schemes.drain
        → IsSortedFrom 0 sigs
        → length sigs < threshold
        → threshold ≤ length (insert index sig sigs)
        → All IsGood sigs
        → IsGood (index, sig)
        → (whole : Sig) × (add_partial schemes
              (PartialSigs.vec sigs)
              index
              (PartialSig.vec sig)
              (AggregateContext.vec threshold)
            ≡ (PartialSigs.vec [], ok (some whole)))
          × (verify_digest prim schemes order digest whole
                (PublicMasterKey.vec public_keys threshold)
              ≡ done true)
    unfolding add_partial verify_digest
    verify_digest-add_partial sigs index sig threshold drains sorted few enough good new =
        let all = insert index sig sigs in
        let l = length-insert-le index sig sigs in
        let reached : length all ≡ threshold = omega arith in
        let sorted' = insert-IsSortedFrom 0 index sig sigs (omega arith) sorted in
        let c = collect_drained schemes.drain all drains sorted' in
        let size = Perm-length (lawful all) in
        let counted =
          count-good (threshold + 1) (order all) (omega (arith, size, reached))
            (All-Perm IsGood (lawful all) (insert-All IsGood index sig sigs new good)) in
        (Sig.vec (schemes.drain all), ground arith, ground (arith, c, counted, size, reached))
