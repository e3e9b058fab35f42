-- ===== src/Hotstuff/Replica/Nonces.antt =====
-- The nonces of a replica of HotStuff: what is found after they are added and removed, and where they
-- come from.
use bft_kit.Base.{
  ℕ, zero, suc, ◌+◌, ◌≤◌, ◌<◌, ◌≡◌, refl, ◌⊎◌, inl, inr, true, none, some, [], ◌∷◌, if◌then◌else◌,
  Bool-cases, arith,
}
use bft_kit.Crypto.Threshold.{PublicCommitments, Schemes}
use bft_kit.Hotstuff.Replica.{
  NonceMap, same_commitments, find_nonce, remove_nonce, put_nonce, put_nonces, draw_supply,
}

pub same_commitments-eq : (a b : PublicCommitments) → same_commitments a b ≡ true → a ≡ b
same_commitments-eq a b h = ground arith

pub same_commitments_refl : (a : PublicCommitments) → same_commitments a a ≡ true
same_commitments_refl a = ground arith

pub find-put :
    (q c : PublicCommitments) (nonce : ℕ) (nonces : NonceMap)
    → find_nonce q (put_nonce c nonce nonces)
      ≡ (if same_commitments c q then some nonce else find_nonce q nonces)
unfolding find_nonce put_nonce
find-put q c nonce [] = refl
find-put q c nonce ((d, x) ∷ nonces) = ground (arith, find-put q c nonce nonces)

pub find-remove :
    (q c : PublicCommitments) (nonces : NonceMap)
    → find_nonce q (remove_nonce c nonces)
      ≡ (if same_commitments c q then none else find_nonce q nonces)
unfolding find_nonce remove_nonce
find-remove q c [] = ground arith
find-remove q c ((d, x) ∷ nonces) = ground (arith, find-remove q c nonces)

abbrev pub Has : PublicCommitments → NonceMap → Type 0
Has c nonces = (nonce : ℕ) × (find_nonce c nonces ≡ some nonce)

pub not_Has_nil : (c : PublicCommitments) → Has c [] → ⊥
unfolding find_nonce
not_Has_nil c (nonce, e) = cc

-- What is found after the nonces of a supply are added was there, or is of the supply.
pub put_nonces-Has :
    (q : PublicCommitments) (nonces supply : NonceMap)
    → Has q (put_nonces nonces supply)
    → Has q nonces ⊎ Has q supply
unfolding put_nonces find_nonce
put_nonces-Has q nonces [] h = inl h
put_nonces-Has q nonces ((c, x) ∷ supply) h =
    elim (put_nonces-Has q (put_nonce c x nonces) supply h) [
      | inr (y, e) ↦ inr (either q c x y supply e)
      | inl (y, e) ↦ elim (Bool-cases (same_commitments c q)) [
        | inl same ↦ inr (x, rw same refl)
        | inr other ↦ inl (y, ground (arith, find-put q c x nonces))
      ]
    ]
  where
    either :
        (q c : PublicCommitments) (x y : ℕ) (supply : NonceMap)
        → find_nonce q supply ≡ some y
        → Has q ((c, x) ∷ supply)
    either q c x y supply e = elim (Bool-cases (same_commitments c q)) [
      | inl same ↦ (x, rw same refl)
      | inr other ↦ (y, rw other e)
    ]

module _ (schemes : Schemes) (key_share : ℕ) where
  -- The commitments come from a draw from `low` on, below `high`.
  abbrev pub DrawnFrom : ℕ → ℕ → PublicCommitments → Type 0
  DrawnFrom low high c =
      (i : ℕ) × (low ≤ i) × (i < high) × (c ≡ (schemes.givre_commit key_share i).0)

  pub draw_supply-Has :
      (n draws : ℕ) (supply : NonceMap) (q : PublicCommitments)
      → Has q (draw_supply schemes key_share n draws supply)
      → Has q supply ⊎ DrawnFrom draws (draws + n) q
  unfolding draw_supply
  draw_supply-Has zero draws supply q h = inl h
  draw_supply-Has (suc n) draws supply q h =
      let drawn = schemes.givre_commit key_share draws in
      elim (draw_supply-Has n (suc draws) (put_nonce drawn.0 drawn.1 supply) q h) [
        | inr (i, low, high, e) ↦ inr (i, omega arith, omega arith, e)
        | inl (y, e) ↦ elim (Bool-cases (same_commitments drawn.0 q)) [
          | inl same ↦
              let eq = same_commitments-eq drawn.0 q same in
              inr (draws, omega arith, omega arith, rw eq refl)
          | inr other ↦ inl (y, ground (arith, find-put q drawn.0 drawn.1 supply))
        ]
      ]
