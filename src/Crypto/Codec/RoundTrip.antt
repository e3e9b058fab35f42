-- ===== src/Crypto/Codec/RoundTrip.antt =====
-- What is encoded decodes to itself, and leaves the bytes behind it.
use mathlib.Core.List.{append_assoc}
use bft_kit.Base.{ℕ, ◌≡◌, refl, ap, Option, none, some, ◌++◌, Result, ok, err}
use bft_kit.Crypto
use bft_kit.Crypto.Threshold.{PublicCommitments}
use bft_kit.Crypto.Codec.{
  Bytes, Bincode, IsBincode, Formats, IsFormats, ◌>>=◌, read, secp256k1_tag, ed25519_tag,
  encode_sig, decode_sig, encode_bls, decode_bls, encode_bls_share, decode_bls_share, encode_givre,
  decode_givre, encode_givre_share, decode_givre_share, encode_commitments, decode_commitments,
}

-- A step that succeeds, and what comes behind it.
then_ok :
    {A B : Type 0} (m : Result A) (f : A → Result B) {a : A} {r : Result B}
    → m ≡ ok a
    → f a ≡ r
    → (m >>= f) ≡ r
then_ok (ok a) f e h = cc
then_ok err f e h = absurd (cc)

read-some :
    {A : Type 0} (o : Option A) (rest : Bytes) {a : A} → o ≡ some a → read o rest ≡ ok (a, rest)
read-some none rest e = absurd (cc)
read-some (some a) rest e = cc

module _ (bincode : Bincode) (formats : Formats) (lawful : IsBincode bincode)
    (faithful : IsFormats formats) where
  decode_secp :
      (sig : ℕ) (rest : Bytes)
      → decode_sig bincode formats
          ((bincode.put_text secp256k1_tag ++ formats.secp_compact sig) ++ rest)
        ≡ ok (Crypto.Sig.secp256k1 sig, rest)
  unfolding decode_sig
  decode_secp sig rest = rw (append_assoc) (
      then_ok _ _ (lawful.take_text-put secp256k1_tag (formats.secp_compact sig ++ rest)) (
        then_ok _ _
          (lawful.take_array_lem 64 (formats.secp_compact sig) rest (faithful.secp_length sig))
          (then_ok _ _ (read-some _ rest (faithful.secp_back sig)) refl)))

  decode_ed :
      (sig : ℕ) (rest : Bytes)
      → decode_sig bincode formats ((bincode.put_text ed25519_tag ++ formats.ed_bytes sig) ++ rest)
        ≡ ok (Crypto.Sig.ed25519 sig, rest)
  unfolding decode_sig
  decode_ed sig rest = rw (append_assoc) (
      then_ok _ _ (lawful.take_text-put ed25519_tag (formats.ed_bytes sig ++ rest)) (
        then_ok _ _ (lawful.take_array_lem 64 (formats.ed_bytes sig) rest (faithful.ed_length sig))
          (ap (λ k. ok (Crypto.Sig.ed25519 k, rest)) (faithful.ed_back sig))))

  decode-encode_sig :
      (sig : Crypto.Sig) (rest : Bytes) {bytes : Bytes}
      → encode_sig bincode formats sig ≡ ok bytes
      → decode_sig bincode formats (bytes ++ rest) ≡ ok (sig, rest)
  unfolding encode_sig
  decode-encode_sig Crypto.Sig.uninitialized rest h = absurd (cc)
  decode-encode_sig (Crypto.Sig.secp256k1 sig) rest {bytes} h =
      let same : bincode.put_text secp256k1_tag ++ formats.secp_compact sig ≡ bytes = cc in
      rw (← same) (decode_secp sig rest)
  decode-encode_sig (Crypto.Sig.ed25519 sig) rest {bytes} h =
      let same : bincode.put_text ed25519_tag ++ formats.ed_bytes sig ≡ bytes = cc in
      rw (← same) (decode_ed sig rest)

  decode-encode_bls :
      (sig : ℕ) (rest : Bytes)
      → decode_bls bincode formats (encode_bls bincode formats sig ++ rest) ≡ ok (sig, rest)
  unfolding encode_bls decode_bls
  decode-encode_bls sig rest =
      then_ok _ _ (lawful.take_array_lem 96 (formats.bls_bytes sig) rest (faithful.bls_length sig))
        (read-some _ rest (faithful.bls_back sig))

  decode-encode_bls_share :
      (share : ℕ) (rest : Bytes)
      → decode_bls_share bincode formats (encode_bls_share bincode formats share ++ rest)
        ≡ ok (share, rest)
  unfolding encode_bls_share decode_bls_share
  decode-encode_bls_share share rest =
      then_ok _ _
        (lawful.take_array_lem 96 (formats.bls_share_bytes share) rest
          (faithful.bls_share_length share))
        (read-some _ rest (faithful.bls_share_back share))

  decode-encode_givre :
      (sig : ℕ) (rest : Bytes)
      → decode_givre bincode formats (encode_givre bincode formats sig ++ rest) ≡ ok (sig, rest)
  unfolding encode_givre decode_givre
  decode-encode_givre sig rest =
      then_ok _ _ (lawful.take_vec-put (formats.givre_bytes sig) rest)
        (read-some _ rest (faithful.givre_back sig))

  decode-encode_givre_share :
      (share : ℕ) (rest : Bytes)
      → decode_givre_share bincode formats (encode_givre_share bincode formats share ++ rest)
        ≡ ok (share, rest)
  unfolding encode_givre_share decode_givre_share
  decode-encode_givre_share share rest =
      then_ok _ _ (lawful.take_vec-put (formats.scalar_bytes share) rest)
        (read-some _ rest (faithful.scalar_back share))

  decode-encode_commitments :
      (c : PublicCommitments) (rest : Bytes)
      → decode_commitments bincode formats (encode_commitments bincode formats c ++ rest)
        ≡ ok (c, rest)
  unfolding encode_commitments decode_commitments
  decode-encode_commitments c rest =
      let hiding = formats.point_bytes c.hiding_comm in
      let binding = formats.point_bytes c.binding_comm in
      rw (append_assoc) (
        then_ok _ _ (lawful.take_vec-put hiding (bincode.put_vec binding ++ rest)) (
          then_ok _ _ (read-some _ _ (faithful.point_back c.hiding_comm)) (
            then_ok _ _ (lawful.take_vec-put binding rest)
              (then_ok _ _ (read-some _ rest (faithful.point_back c.binding_comm)) refl))))

  -- A signature of a replica that can be encoded, the signatures and shares of the two threshold
  -- schemes, and the public commitments decode to themselves after they are encoded, whatever bytes
  -- come behind them, and leave those bytes.
  pub codec_round_trip :
      (sig : Crypto.Sig) (whole share : ℕ) (c : PublicCommitments) (rest : Bytes) {bytes : Bytes}
      → encode_sig bincode formats sig ≡ ok bytes
      → (decode_sig bincode formats (bytes ++ rest) ≡ ok (sig, rest))
        × (decode_bls bincode formats (encode_bls bincode formats whole ++ rest) ≡ ok (whole, rest))
        × (decode_bls_share bincode formats (encode_bls_share bincode formats share ++ rest)
            ≡ ok (share, rest))
        × (decode_givre bincode formats (encode_givre bincode formats whole ++ rest)
            ≡ ok (whole, rest))
        × (decode_givre_share bincode formats (encode_givre_share bincode formats share ++ rest)
            ≡ ok (share, rest))
        × (decode_commitments bincode formats (encode_commitments bincode formats c ++ rest)
            ≡ ok (c, rest))
  codec_round_trip sig whole share c rest encoded = (
    decode-encode_sig sig rest encoded,
    decode-encode_bls whole rest,
    decode-encode_bls_share share rest,
    decode-encode_givre whole rest,
    decode-encode_givre_share share rest,
    decode-encode_commitments c rest,
  )
