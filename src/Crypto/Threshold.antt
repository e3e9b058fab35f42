-- ===== src/Crypto/Threshold.antt =====
-- `src/crypto/threshold.rs`: signatures that a threshold of replicas makes together. What the
-- crates threshold_crypto and givre compute, and the order in which a map of the standard library
-- is drained, is the record `Schemes`, an argument of all that uses it.
pub mod Shares
pub mod Reordered
pub mod Collected
pub mod Examples
use bft_kit.Base.{
  ℕ, zero, suc, ◌+◌, Bool, true, false, Option, none, some, List, [], ◌∷◌, length, get_elem?, ltb,
  leb, ◌==◌, if◌then◌else◌, Result, ok, err, Outcome, done, unwrap, ◌>>=◌,
}
use bft_kit.Base.Map.{Map, lookup, insert, remove}
use bft_kit.Crypto
use bft_kit.Crypto.{Primitives, Digest}

pub record PublicCommitments : Type 0 where
  pub hiding_comm : ℕ
  pub binding_comm : ℕ

-- Who signs, and with which commitments.
abbrev pub Signers : Type 0
Signers = List (ℕ × PublicCommitments)

-- Keys, shares, nonces and signatures of the crates are their bytes, each read as one number.
pub record Schemes : Type 0 where
  -- `HashMap::drain` of the standard library, which leaves the order of the entries open, and the
  -- keys in the order in which `HashMap::keys` yields them.
  pub drain : Map Crypto.Sig → List (ℕ × Crypto.Sig)
  pub keys : List PublicCommitments → List PublicCommitments
  -- `PublicKeySet::threshold`, `SecretKeyShare::sign`, `PublicKeyShare::verify` of the share at an
  -- index, `combine_signatures` and `PublicKey::verify`.
  pub bls_threshold : ℕ → ℕ
  pub bls_sign : ℕ → Digest → ℕ
  pub bls_verify_share : ℕ → ℕ → ℕ → Digest → Bool
  pub bls_combine : ℕ → Map ℕ → Option ℕ
  pub bls_verify : ℕ → ℕ → Digest → Bool
  -- `shared_public_key`, normalized, and `min_signers` of a `KeyShare`.
  pub givre_public_key : ℕ → ℕ
  pub givre_min_signers : ℕ → ℕ
  -- `round1::commit` at the n-th draw of the random generator, `round2::sign`, `aggregate`, and
  -- `Signature::verify`.
  pub givre_commit : ℕ → ℕ → PublicCommitments × ℕ
  pub givre_sign : ℕ → ℕ → Digest → Signers → Option ℕ
  pub givre_aggregate : ℕ → List (ℕ × PublicCommitments × ℕ) → Digest → Option ℕ
  pub givre_verify : ℕ → Digest → ℕ → Bool

pub data Sig : Type 0 where
  vec : List (ℕ × Crypto.Sig) → Sig
  threshold_crypto : ℕ → Sig
  givre : ℕ → Sig

pub data PartialSig : Type 0 where
  vec : Crypto.Sig → PartialSig
  threshold_crypto : ℕ → PartialSig
  givre : ℕ → PartialSig

pub data PartialSigs : Type 0 where
  vec : Map Crypto.Sig → PartialSigs
  threshold_crypto : Map ℕ → PartialSigs
  givre : Map ℕ → PartialSigs

pub data PartialSecretKey : Type 0 where
  vec : Crypto.SecretKey → PartialSecretKey
  threshold_crypto : ℕ → PartialSecretKey

-- `vec` holds the keys and the threshold.
pub data PublicMasterKey : Type 0 where
  vec : List Crypto.PublicKey → ℕ → PublicMasterKey
  threshold_crypto : ℕ → PublicMasterKey
  givre : ℕ → PublicMasterKey

pub record GivreAggregateContext : Type 0 where
  pub key_share : ℕ
  pub signers : Signers
  pub digest : Digest

pub data AggregateContext : Type 0 where
  vec : ℕ → AggregateContext
  threshold_crypto : ℕ → AggregateContext
  givre : GivreAggregateContext → AggregateContext

-- What `add_partial` leaves of the shares, and what it returns.
abbrev pub Added : Type 0
Added = PartialSigs × Result (Option Sig)

-- The loop over the signers: it takes the share of each, up to the first that has none.
unfoldable pub take_shares : Signers → Map ℕ → Map ℕ × Result (List (ℕ × PublicCommitments × ℕ))
take_shares [] shares = (shares, ok [])
take_shares ((index, commitments) ∷ signers) shares = elim (lookup index shares) [
  | none ↦ (shares, err)
  | some share ↦
      let (left, rest) = take_shares signers (remove index shares) in
      (left, elim rest [ ok taken ↦ ok ((index, commitments, share) ∷ taken) | err ↦ err ])
]

-- `signature?` as the last expression, where the call is a crate's.
abbrev pub aggregated : (ℕ → Sig) → Option ℕ → Result (Option Sig)
aggregated wrap none = err
aggregated wrap (some sig) = ok (some (wrap sig))

module _ (schemes : Schemes) where
  -- `PublicMasterKey::givre`.
  unfoldable pub givre_master_key : ℕ → PublicMasterKey
  givre_master_key key_share = PublicMasterKey.givre (schemes.givre_public_key key_share)

  unfoldable pub add_vec : Map Crypto.Sig → ℕ → Crypto.Sig → ℕ → Added
  add_vec sigs index sig threshold =
      let sigs' = insert index sig sigs in
      if ltb (length sigs') threshold
      then (PartialSigs.vec sigs', ok none)
      else (PartialSigs.vec [], ok (some (Sig.vec (schemes.drain sigs'))))

  unfoldable pub add_bls : Map ℕ → ℕ → ℕ → ℕ → Added
  add_bls shares index share key_set =
      let shares' = insert index share shares in
      if leb (length shares') (schemes.bls_threshold key_set)
      then (PartialSigs.threshold_crypto shares', ok none)
      else (
        PartialSigs.threshold_crypto shares',
        aggregated Sig.threshold_crypto (schemes.bls_combine key_set shares'),
      )

  unfoldable pub finish_givre :
      GivreAggregateContext → Map ℕ × Result (List (ℕ × PublicCommitments × ℕ)) → Added
  finish_givre context (left, err) = (PartialSigs.givre left, err)
  finish_givre context (left, ok signers) = (
    PartialSigs.givre left,
    aggregated Sig.givre (schemes.givre_aggregate context.key_share signers context.digest),
  )

  unfoldable pub add_givre : Map ℕ → ℕ → ℕ → GivreAggregateContext → Added
  unfolding finish_givre take_shares
  add_givre shares index share context =
      let shares' = insert index share shares in
      if ltb (length shares') (schemes.givre_min_signers context.key_share)
      then (PartialSigs.givre shares', ok none)
      else finish_givre context (take_shares context.signers shares')

  unfoldable pub add_partial : PartialSigs → ℕ → PartialSig → AggregateContext → Added
  unfolding add_vec add_bls add_givre
  add_partial (PartialSigs.vec sigs) index (PartialSig.vec sig) (AggregateContext.vec threshold) =
      add_vec sigs index sig threshold
  add_partial (PartialSigs.threshold_crypto shares) index (PartialSig.threshold_crypto share)
        (AggregateContext.threshold_crypto key_set) =
      add_bls shares index share key_set
  add_partial (PartialSigs.givre shares) index (PartialSig.givre share)
        (AggregateContext.givre context) =
      add_givre shares index share context
  add_partial sigs index sig context = (sigs, err)

-- `collect` into a map: of two entries with one index the later stays.
unfoldable pub collect {ℓ} : {V : Type ℓ} → Map V → List (ℕ × V) → Map V
collect m [] = m
collect m ((index, v) ∷ entries) = collect (insert index v m) entries

module _ (prim : Primitives) (schemes : Schemes) where
  -- `sign`, of the message with these bytes.
  unfoldable pub sign : List ℕ → PartialSecretKey → PartialSig
  sign message (PartialSecretKey.vec secret_key) =
      PartialSig.vec (Crypto.sign prim message secret_key)
  sign message (PartialSecretKey.threshold_crypto secret_key_share) =
      PartialSig.threshold_crypto (schemes.bls_sign secret_key_share (Crypto.digest prim message))

  unfoldable pub verify_partial : List ℕ → PublicMasterKey → ℕ → PartialSig → Outcome Bool
  verify_partial message (PublicMasterKey.vec public_keys threshold) index (PartialSig.vec sig) = do
    public_key ← unwrap (get_elem? public_keys index)
    done (Crypto.verify prim message public_key sig)
  verify_partial message (PublicMasterKey.threshold_crypto key_set) index
        (PartialSig.threshold_crypto share) =
      done (schemes.bls_verify_share key_set index share (Crypto.digest prim message))
  verify_partial message master_key index partial_sig = done false

  -- `filter(..).take(most).count()` over the entries, in the order in which the map yields them.
  unfoldable pub count_valid :
      Digest → List Crypto.PublicKey → ℕ → List (ℕ × Crypto.Sig) → Outcome ℕ
  count_valid digest public_keys zero entries = done 0
  count_valid digest public_keys (suc most) [] = done 0
  count_valid digest public_keys (suc most) ((index, sig) ∷ entries) = do
    public_key ← unwrap (get_elem? public_keys index)
    elim (Crypto.verify_digest prim digest public_key sig) [
      | true ↦ do count ← count_valid digest public_keys most entries; done (count + 1)
      | false ↦ count_valid digest public_keys (suc most) entries
    ]

  -- Whether `verify_digest` is `Ok`. A `HashMap` yields its entries in an order that the standard
  -- library leaves open, the argument `order`.
  unfoldable pub verify_digest :
      (Map Crypto.Sig → List (ℕ × Crypto.Sig)) → Digest → Sig → PublicMasterKey → Outcome Bool
  unfolding collect count_valid
  verify_digest order digest (Sig.vec sigs) (PublicMasterKey.vec public_keys threshold) = do
    count ← count_valid digest public_keys (threshold + 1) (order (collect [] sigs))
    done (count == threshold)
  verify_digest order digest (Sig.threshold_crypto sig) (PublicMasterKey.threshold_crypto key_set) =
      done (schemes.bls_verify key_set sig digest)
  verify_digest order digest (Sig.givre sig) (PublicMasterKey.givre public_key) =
      done (schemes.givre_verify public_key digest sig)
  verify_digest order digest sig master_key = done false

  -- `verify`, of the message with these bytes.
  unfoldable pub verify :
      (Map Crypto.Sig → List (ℕ × Crypto.Sig)) → List ℕ → Sig → PublicMasterKey → Outcome Bool
  unfolding verify_digest
  verify order message sig master_key =
      verify_digest order (Crypto.digest prim message) sig master_key
