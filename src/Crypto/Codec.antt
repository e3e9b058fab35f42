-- ===== src/Crypto/Codec.antt =====
-- `Encode` and `Decode` of the signatures, of `src/crypto.rs` and `src/crypto/threshold.rs`, where they
-- are written by hand. Bytes are appended to what is written, and taken from the front of what is read.
-- The formats of bincode and of the crates of the signatures are arguments.
pub mod RoundTrip
pub mod Examples
use bft_kit.Base.{
  ℕ, ◌≡◌, Bool, true, false, ◌&&◌, Option, none, some, List, [], ◌∷◌, ◌++◌, length, ◌==◌,
  if◌then◌else◌, Result, ok, err,
}
use bft_kit.Crypto
use bft_kit.Crypto.Threshold.{PublicCommitments}

abbrev pub Bytes : Type 0
Bytes = List ℕ

-- What a decoder returns: a value and the bytes that are left.
abbrev pub Decoded : Type 0 → Type 0
Decoded A = Result (A × Bytes)

-- How bincode writes texts and vectors of bytes, and how it reads them and arrays of a given length,
-- which it writes as they are.
pub record Bincode : Type 0 where
  pub put_text : Bytes → Bytes
  pub take_text : Bytes → Decoded Bytes
  pub put_vec : Bytes → Bytes
  pub take_vec : Bytes → Decoded Bytes
  pub take_array : ℕ → Bytes → Decoded Bytes

pub record IsBincode (b : Bincode) : Type 0 where
  pub take_text-put : (v rest : Bytes) → b.take_text (b.put_text v ++ rest) ≡ ok (v, rest)
  pub take_vec-put : (v rest : Bytes) → b.take_vec (b.put_vec v ++ rest) ≡ ok (v, rest)
  pub take_array_lem :
      (n : ℕ) (v rest : Bytes) → length v ≡ n → b.take_array n (v ++ rest) ≡ ok (v, rest)

-- How the crates write their values as bytes, and read them back.
pub record Formats : Type 0 where
  pub secp_compact : ℕ → Bytes
  pub secp_from_compact : Bytes → Option ℕ
  pub ed_bytes : ℕ → Bytes
  pub ed_from_bytes : Bytes → ℕ
  pub bls_bytes : ℕ → Bytes
  pub bls_from_bytes : Bytes → Option ℕ
  pub bls_share_bytes : ℕ → Bytes
  pub bls_share_from_bytes : Bytes → Option ℕ
  pub givre_bytes : ℕ → Bytes
  pub givre_from_slice : Bytes → Option ℕ
  pub scalar_bytes : ℕ → Bytes
  pub scalar_from_bytes : Bytes → Option ℕ
  pub point_bytes : ℕ → Bytes
  pub point_from_bytes : Bytes → Option ℕ

pub record IsFormats (f : Formats) : Type 0 where
  pub secp_length : (s : ℕ) → length (f.secp_compact s) ≡ 64
  pub secp_back : (s : ℕ) → f.secp_from_compact (f.secp_compact s) ≡ some s
  pub ed_length : (s : ℕ) → length (f.ed_bytes s) ≡ 64
  pub ed_back : (s : ℕ) → f.ed_from_bytes (f.ed_bytes s) ≡ s
  pub bls_length : (s : ℕ) → length (f.bls_bytes s) ≡ 96
  pub bls_back : (s : ℕ) → f.bls_from_bytes (f.bls_bytes s) ≡ some s
  pub bls_share_length : (s : ℕ) → length (f.bls_share_bytes s) ≡ 96
  pub bls_share_back : (s : ℕ) → f.bls_share_from_bytes (f.bls_share_bytes s) ≡ some s
  pub givre_back : (s : ℕ) → f.givre_from_slice (f.givre_bytes s) ≡ some s
  pub scalar_back : (s : ℕ) → f.scalar_from_bytes (f.scalar_bytes s) ≡ some s
  pub point_back : (s : ℕ) → f.point_from_bytes (f.point_bytes s) ≡ some s

infixl 5 ◌>>=◌
abbrev pub ◌>>=◌ : {A B : Type 0} → Result A → (A → Result B) → Result B
ok a >>= f = f a
err >>= f = err

-- `map(..).map_err(..)` of what a crate reads.
abbrev pub read : {A : Type 0} → Option A → Bytes → Decoded A
read none rest = err
read (some a) rest = ok (a, rest)

unfoldable pub same_bytes : Bytes → Bytes → Bool
same_bytes [] [] = true
same_bytes (x ∷ xs) (y ∷ ys) = let rest = same_bytes xs ys in (x == y) && rest
same_bytes _ _ = false

-- The tags `"secp256k1"` and `"ed25519"`.
abbrev pub secp256k1_tag : Bytes
secp256k1_tag = b's' ∷ b'e' ∷ b'c' ∷ b'p' ∷ b'2' ∷ b'5' ∷ b'6' ∷ b'k' ∷ b'1' ∷ []

abbrev pub ed25519_tag : Bytes
ed25519_tag = b'e' ∷ b'd' ∷ b'2' ∷ b'5' ∷ b'5' ∷ b'1' ∷ b'9' ∷ []

module _ (bincode : Bincode) (formats : Formats) where
  unfoldable pub encode_sig : Crypto.Sig → Result Bytes
  encode_sig Crypto.Sig.uninitialized = err
  encode_sig (Crypto.Sig.secp256k1 sig) =
      ok (bincode.put_text secp256k1_tag ++ formats.secp_compact sig)
  encode_sig (Crypto.Sig.ed25519 sig) = ok (bincode.put_text ed25519_tag ++ formats.ed_bytes sig)

  unfoldable pub decode_tagged : Bytes → Bytes → Decoded Crypto.Sig
  unfolding same_bytes
  decode_tagged tag input =
      if same_bytes tag secp256k1_tag
      then (do
        (bytes, rest) ← bincode.take_array 64 input
        (sig, rest') ← read (formats.secp_from_compact bytes) rest
        ok (Crypto.Sig.secp256k1 sig, rest'))
      else if same_bytes tag ed25519_tag
      then (do
        (bytes, rest) ← bincode.take_array 64 input
        ok (Crypto.Sig.ed25519 (formats.ed_from_bytes bytes), rest))
      else err

  unfoldable pub decode_sig : Bytes → Decoded Crypto.Sig
  unfolding decode_tagged
  decode_sig input = do (tag, rest) ← bincode.take_text input; decode_tagged tag rest

  -- `ThresholdCryptoSig` and `ThresholdCryptoSigShare`.
  unfoldable pub encode_bls : ℕ → Bytes
  encode_bls sig = formats.bls_bytes sig

  unfoldable pub decode_bls : Bytes → Decoded ℕ
  decode_bls input = do
    (bytes, rest) ← bincode.take_array 96 input
    read (formats.bls_from_bytes bytes) rest

  unfoldable pub encode_bls_share : ℕ → Bytes
  encode_bls_share share = formats.bls_share_bytes share

  unfoldable pub decode_bls_share : Bytes → Decoded ℕ
  decode_bls_share input = do
    (bytes, rest) ← bincode.take_array 96 input
    read (formats.bls_share_from_bytes bytes) rest

  -- `GivreSig`, `GivreSigShare` and `GivrePublicCommitments`.
  unfoldable pub encode_givre : ℕ → Bytes
  encode_givre sig = bincode.put_vec (formats.givre_bytes sig)

  unfoldable pub decode_givre : Bytes → Decoded ℕ
  decode_givre input = do
    (bytes, rest) ← bincode.take_vec input
    read (formats.givre_from_slice bytes) rest

  unfoldable pub encode_givre_share : ℕ → Bytes
  encode_givre_share share = bincode.put_vec (formats.scalar_bytes share)

  unfoldable pub decode_givre_share : Bytes → Decoded ℕ
  decode_givre_share input = do
    (bytes, rest) ← bincode.take_vec input
    read (formats.scalar_from_bytes bytes) rest

  unfoldable pub encode_commitments : PublicCommitments → Bytes
  encode_commitments c =
      bincode.put_vec (formats.point_bytes c.hiding_comm)
      ++ bincode.put_vec (formats.point_bytes c.binding_comm)

  unfoldable pub decode_commitments : Bytes → Decoded PublicCommitments
  decode_commitments input = do
    (bytes, rest) ← bincode.take_vec input
    (hiding_comm, rest') ← read (formats.point_from_bytes bytes) rest
    (bytes', rest'') ← bincode.take_vec rest'
    (binding_comm, rest''') ← read (formats.point_from_bytes bytes') rest''
    ok (record { hiding_comm = hiding_comm; binding_comm = binding_comm }, rest''')
