-- ===== src/Crypto/Threshold/Examples.antt =====
-- Small threshold schemes, and `src/crypto/threshold.rs` run on them.
use mathlib.Core.List.{append-nil, Permᴰ}
use mathlib.Core.List.Permᴰ
use bft_kit.Base.{
  ℕ, ◌+◌, ◌≤◌, ◌<◌, ◌≡◌, ◌≢◌, refl, true, some, [], ◌∷◌, ◌++◌, length, ◌==◌, ok, done, All, arith,
}
use bft_kit.Base.Map.{Map, insert, lookup}
use bft_kit.Crypto
use bft_kit.Crypto.{Primitives, verify_digest}
use bft_kit.Crypto.Examples.{toy, key_of, config_of}
use bft_kit.Crypto.Threshold.{
  Schemes, PublicCommitments, Signers, Sig, PartialSig, PartialSigs, PublicMasterKey,
  GivreAggregateContext, AggregateContext, aggregated, add_partial, collect,
}
use bft_kit.Crypto.Threshold
use bft_kit.Crypto.Threshold.Collected.{
  Entries, IsOrder, IsGood, verify_digest-few, verify_digest-add_partial,
}
use bft_kit.Crypto.Threshold.Shares.{SignedShares, signers_of, IsIn, HasShare, add_partial-all}

-- The entries of a map from the last to the first.
abbrev pub backwards : Map Crypto.Sig → Entries → Entries
backwards [] after = after
backwards (e ∷ m) after = backwards m (e ∷ after)

-- Three of four sign. A signature is the digest that it is of.
abbrev pub toy_schemes : Schemes
toy_schemes = record {
  drain = λ m. backwards m [];
  keys = λ keys. keys;
  bls_threshold = λ key_set. 2;
  bls_sign = λ key digest. digest + key;
  bls_verify_share = λ key_set index share digest. share == digest + index;
  bls_combine = λ key_set shares. some 1;
  bls_verify = λ key_set sig digest. sig == digest;
  givre_public_key = λ key_share. key_share;
  givre_min_signers = λ key_share. 3;
  givre_commit = λ key_share i. (record { hiding_comm = i; binding_comm = key_share }, i + 100);
  givre_sign = λ key_share nonce digest signers. some (nonce + digest);
  givre_aggregate = λ key_share signers digest. some digest;
  givre_verify = λ public_key digest sig. sig == digest;
}

abbrev in_order : Map Crypto.Sig → Entries
in_order m = m

in_order-IsOrder : IsOrder in_order
in_order-IsOrder m = Permᴰ.refl m

backwards-Perm : (m after : Entries) → Permᴰ (m ++ after) (backwards m after)
backwards-Perm [] after = Permᴰ.refl after
backwards-Perm (e ∷ m) after = Permᴰ.trans (to_middle e m after) (backwards-Perm m (e ∷ after))
  where
    to_middle :
        (e : ℕ × Crypto.Sig) (m after : Entries) → Permᴰ (e ∷ (m ++ after)) (m ++ (e ∷ after))
    to_middle e [] after = Permᴰ.refl (e ∷ after)
    to_middle e (x ∷ m) after =
        Permᴰ.trans (Permᴰ.swap refl refl) (Permᴰ.cons refl (to_middle e m after))

toy-IsOrder : IsOrder toy_schemes.drain
toy-IsOrder m = rw append-nil at (backwards-Perm m [])

abbrev sig_of : ℕ → Crypto.Sig
sig_of i = Crypto.Sig.secp256k1 (40 + key_of i)

abbrev first_sig : Map Crypto.Sig
first_sig = (0, sig_of 0) ∷ []

first_verifies : IsGood toy toy_schemes 40 (config_of 0).public_keys (0, sig_of 0)
unfolding verify_digest
first_verifies = (Crypto.PublicKey.secp256k1 (key_of 0), refl, refl)

third_verifies : IsGood toy toy_schemes 40 (config_of 0).public_keys (2, sig_of 2)
unfolding verify_digest
third_verifies = (Crypto.PublicKey.secp256k1 (key_of 2), refl, refl)

two_sigs : 2 ≤ length (insert 2 (sig_of 2) first_sig)
unfolding insert
two_sigs = omega arith

verify_digest-add_partial_example :
    (whole : Sig) × (add_partial toy_schemes
        (PartialSigs.vec first_sig)
        2
        (PartialSig.vec (sig_of 2))
        (AggregateContext.vec 2)
      ≡ (PartialSigs.vec [], ok (some whole)))
    × (Threshold.verify_digest toy toy_schemes in_order 40 whole
          (PublicMasterKey.vec (config_of 0).public_keys 2)
        ≡ done true)
verify_digest-add_partial_example =
    verify_digest-add_partial toy toy_schemes 40 (config_of 0).public_keys in_order in_order-IsOrder
      first_sig 2 (sig_of 2) 2 toy-IsOrder (omega arith) (omega arith) two_sigs (first_verifies, tt)
      third_verifies

-- One replica's signature twice.
one_twice : length (collect [] ((0, sig_of 0) ∷ (0, sig_of 0) ∷ [])) < 2
unfolding collect insert
one_twice = omega arith

verify_digest-few_example :
    Threshold.verify_digest toy toy_schemes in_order 40
      (Sig.vec ((0, sig_of 0) ∷ (0, sig_of 0) ∷ []))
      (PublicMasterKey.vec (config_of 0).public_keys 2)
    ≢ done true
verify_digest-few_example =
    verify_digest-few toy toy_schemes 40 (config_of 0).public_keys in_order in_order-IsOrder
      ((0, sig_of 0) ∷ (0, sig_of 0) ∷ []) 2 one_twice

abbrev commitments : ℕ → PublicCommitments
commitments i = record { hiding_comm = i; binding_comm = 7 }

abbrev three_signers : GivreAggregateContext
three_signers = record {
  key_share = 7;
  signers = (0, commitments 4) ∷ (1, commitments 5) ∷ (3, commitments 6) ∷ [];
  digest = 40;
}

abbrev two_shares : Map ℕ
two_shares = (0, 140) ∷ (3, 143) ∷ []

all_three : All (HasShare (insert 1 141 two_shares)) three_signers.signers
unfolding insert lookup
all_three = ((140, refl), ((141, refl), ((143, refl), tt)))

three_there : 3 ≤ length (insert 1 141 two_shares)
unfolding insert
three_there = omega arith

add_partial-all_example :
    (taken : SignedShares) × (signers_of taken ≡ three_signers.signers)
    × All (IsIn (insert 1 141 two_shares)) taken
    × ((add_partial toy_schemes
          (PartialSigs.givre two_shares)
          1
          (PartialSig.givre 141)
          (AggregateContext.givre three_signers)).1
        ≡ aggregated Sig.givre (toy_schemes.givre_aggregate 7 taken 40))
add_partial-all_example =
    add_partial-all toy_schemes two_shares 1 141 three_signers three_there (omega arith) all_three
