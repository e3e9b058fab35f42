-- ===== src/Crypto/Threshold/Shares.antt =====
-- The shares of a givre signature: they are aggregated once each signer has sent one, and a share of
-- someone who is no signer makes the call fail.
use bft_kit.Base.{
  ℕ, zero, suc, ◌≤◌, ◌<◌, ◌≡◌, refl, ap, none, some, List, [], ◌∷◌, length, get_elem?, Result, ok,
  err, All, Option-cases, inl, inr, arith,
}
use bft_kit.Base.Map.{Map, lookup, insert, remove, lookup-remove, IsSortedFrom}
use bft_kit.Base.Lists.Indexing.{All-map}
use bft_kit.Crypto.Threshold.{
  Schemes, Signers, PublicCommitments, Sig, PartialSig, PartialSigs, GivreAggregateContext,
  AggregateContext, take_shares, aggregated, finish_givre, add_givre, add_partial,
}

abbrev pub SignedShares : Type 0
SignedShares = List (ℕ × PublicCommitments × ℕ)

-- Who the shares are of.
abbrev pub signers_of : SignedShares → Signers
signers_of [] = []
signers_of ((index, commitments, share) ∷ rest) = (index, commitments) ∷ signers_of rest

-- The share is the one that the map has for its index.
abbrev pub IsIn : Map ℕ → ℕ × PublicCommitments × ℕ → Type 0
IsIn shares signed = lookup signed.0 shares ≡ some signed.2

abbrev pub HasShare : Map ℕ → ℕ × PublicCommitments → Type 0
HasShare shares signer = (share : ℕ) × (lookup signer.0 shares ≡ some share)

-- Shares that are taken out leave those of the other indices.
IsIn-remove :
    (k : ℕ) (shares : Map ℕ) (signed : ℕ × PublicCommitments × ℕ)
    → IsIn (remove k shares) signed
    → IsIn shares signed
IsIn-remove k shares (index, commitments, share) h = ground (arith, lookup-remove k index shares)

HasShare-remove :
    (k n : ℕ) (shares : Map ℕ) (signers : Signers)
    → k < n
    → IsSortedFrom n signers
    → All (HasShare shares) signers
    → All (HasShare (remove k shares)) signers
HasShare-remove k n shares [] lt sorted all = tt
HasShare-remove k n shares ((index, commitments) ∷ signers) lt sorted ((share, e), all) = (
  (share, ground (arith, lookup-remove k index shares)),
  HasShare-remove k (suc index) shares signers (omega arith) sorted.1 all,
)

take_shares-all :
    (n : ℕ) (signers : Signers) (shares : Map ℕ)
    → IsSortedFrom n signers
    → All (HasShare shares) signers
    → (taken : SignedShares) × ((take_shares signers shares).1 ≡ ok taken)
      × (signers_of taken ≡ signers)
      × All (IsIn shares) taken
unfolding take_shares
take_shares-all n [] shares sorted all = ([], refl, refl, tt)
take_shares-all n ((index, commitments) ∷ signers) shares sorted ((share, e), all) =
    let (taken, t, who, from) =
      take_shares-all (suc index) signers (remove index shares) sorted.1
        (HasShare-remove index (suc index) shares signers (omega arith) sorted.1 all) in
    (
      (index, commitments, share) ∷ taken,
      ground (arith, e, t),
      ap (λ l. (index, commitments) ∷ l) who,
      (e, All-map taken (IsIn-remove index shares) from),
    )

take_shares-missing :
    (signers : Signers) (shares : Map ℕ) (i index : ℕ) (commitments : PublicCommitments)
    → get_elem? signers i ≡ some (index, commitments)
    → lookup index shares ≡ none
    → (take_shares signers shares).1 ≡ err
unfolding take_shares
take_shares-missing [] shares i index commitments at h = absurd (cc)
take_shares-missing ((j, c) ∷ signers) shares zero index commitments at h =
    let same : lookup j shares ≡ none = ground arith in ground (arith, same)
take_shares-missing ((j, c) ∷ signers) shares (suc i) index commitments at h =
    elim (Option-cases (lookup j shares)) [
      | inl e ↦ ground (arith, e)
      | inr (share, e) ↦
          let left : lookup index (remove j shares) ≡ none =
            ground (arith, lookup-remove j index shares) in
          ground
            (arith, e, take_shares-missing signers (remove j shares) i index commitments at left)
    ]

module _ (schemes : Schemes) where
  finish-ok :
      (context : GivreAggregateContext) (r : Map ℕ × Result SignedShares) {taken : SignedShares}
      → r.1 ≡ ok taken
      → (finish_givre schemes context r).1
        ≡ aggregated Sig.givre (schemes.givre_aggregate context.key_share taken context.digest)
  unfolding finish_givre
  finish-ok context (left, ok signers) h = ground arith
  finish-ok context (left, err) h = absurd (cc)

  finish-err :
      (context : GivreAggregateContext) (r : Map ℕ × Result SignedShares)
      → r.1 ≡ err
      → (finish_givre schemes context r).1 ≡ err
  unfolding finish_givre
  finish-err context (left, ok signers) h = absurd (cc)
  finish-err context (left, err) h = refl

module _ (schemes : Schemes) (shares : Map ℕ) (index share : ℕ) (context : GivreAggregateContext)
    (enough : schemes.givre_min_signers context.key_share
      ≤ length (insert index share shares)) where
  -- When there are enough shares, and each signer of the context, in the order of the indices, has
  -- sent one, `add_partial` aggregates for each signer its own share, and returns what `aggregate`
  -- does.
  pub add_partial-all :
      IsSortedFrom 0 context.signers
      → All (HasShare (insert index share shares)) context.signers
      → (taken : SignedShares) × (signers_of taken ≡ context.signers)
        × All (IsIn (insert index share shares)) taken
        × ((add_partial schemes
              (PartialSigs.givre shares)
              index
              (PartialSig.givre share)
              (AggregateContext.givre context)).1
            ≡ aggregated Sig.givre (schemes.givre_aggregate context.key_share taken context.digest))
  unfolding add_partial add_givre
  add_partial-all sorted all =
      let (taken, t, who, from) =
        take_shares-all 0 context.signers (insert index share shares) sorted all in
      (
        taken,
        who,
        from,
        ground (
          arith,
          finish-ok schemes context (take_shares context.signers (insert index share shares)) t,
        ),
      )

  -- When there are enough shares, but one signer of the context has sent none, so that a share is of
  -- someone else, `add_partial` fails.
  pub add_partial-missing :
      (i signer : ℕ) (commitments : PublicCommitments)
      → get_elem? context.signers i ≡ some (signer, commitments)
      → lookup signer (insert index share shares) ≡ none
      → (add_partial schemes
          (PartialSigs.givre shares)
          index
          (PartialSig.givre share)
          (AggregateContext.givre context)).1
        ≡ err
  unfolding add_partial add_givre
  add_partial-missing i signer commitments at h =
      let e =
        take_shares-missing context.signers (insert index share shares) i signer commitments at h in
      ground (
        arith,
        finish-err schemes context (take_shares context.signers (insert index share shares)) e,
      )
