-- ===== src/Crypto/Codec/Examples.antt =====
-- Formats as simple as can be, and the codec run on them.
use bft_kit.Base.{
  ℕ, zero, suc, ◌≡◌, refl, ap, none, some, [], ◌∷◌, ◌++◌, length, take, drop, ok, err, Option,
}
use bft_kit.Crypto
use bft_kit.Crypto.Threshold.{PublicCommitments}
use bft_kit.Crypto.Codec.{
  Bytes, Decoded, Bincode, IsBincode, Formats, IsFormats, encode_sig, decode_sig, encode_bls,
  decode_bls, encode_bls_share, decode_bls_share, encode_givre, decode_givre, encode_givre_share,
  decode_givre_share, encode_commitments, decode_commitments,
}
use bft_kit.Crypto.Codec.RoundTrip.{codec_round_trip}

-- The length in front, and that many bytes.
abbrev take_counted : Bytes → Decoded Bytes
take_counted [] = err
take_counted (n ∷ bytes) = ok (take n bytes, drop n bytes)

take_append : (v rest : Bytes) → take (length v) (v ++ rest) ≡ v
take_append [] rest = refl
take_append (b ∷ v) rest = ap (λ l. b ∷ l) (take_append v rest)

drop_append : (v rest : Bytes) → drop (length v) (v ++ rest) ≡ rest
drop_append [] rest = refl
drop_append (b ∷ v) rest = drop_append v rest

abbrev counted : Bincode
counted = record {
  put_text = λ v. length v ∷ v;
  take_text = take_counted;
  put_vec = λ v. length v ∷ v;
  take_vec = take_counted;
  take_array = λ n bytes. ok (take n bytes, drop n bytes);
}

take_counted_lem : (v rest : Bytes) → take_counted (length v ∷ v ++ rest) ≡ ok (v, rest)
take_counted_lem v rest = rw (take_append v rest, drop_append v rest) refl

counted_array :
    (n : ℕ) (v rest : Bytes) → length v ≡ n → counted.take_array n (v ++ rest) ≡ ok (v, rest)
counted_array n v rest e = rw (← e, take_append v rest, drop_append v rest) refl

counted-IsBincode : IsBincode counted
counted-IsBincode = record {
  take_text-put = take_counted_lem;
  take_vec-put = take_counted_lem;
  take_array_lem = counted_array;
}

abbrev zeros : ℕ → Bytes
zeros zero = []
zeros (suc n) = 0 ∷ zeros n

abbrev first : Bytes → Option ℕ
first [] = none
first (b ∷ bytes) = some b

abbrev first_or_zero : Bytes → ℕ
first_or_zero [] = 0
first_or_zero (b ∷ bytes) = b

abbrev plain : Formats
plain = record {
  secp_compact = λ s. s ∷ zeros 63;
  secp_from_compact = first;
  ed_bytes = λ s. s ∷ zeros 63;
  ed_from_bytes = first_or_zero;
  bls_bytes = λ s. s ∷ zeros 95;
  bls_from_bytes = first;
  bls_share_bytes = λ s. s ∷ zeros 95;
  bls_share_from_bytes = first;
  givre_bytes = λ s. s ∷ [];
  givre_from_slice = first;
  scalar_bytes = λ s. s ∷ [];
  scalar_from_bytes = first;
  point_bytes = λ s. s ∷ [];
  point_from_bytes = first;
}

plain-IsFormats : IsFormats plain
plain-IsFormats = record {
  secp_length = λ s. refl;
  secp_back = λ s. refl;
  ed_length = λ s. refl;
  ed_back = λ s. refl;
  bls_length = λ s. refl;
  bls_back = λ s. refl;
  bls_share_length = λ s. refl;
  bls_share_back = λ s. refl;
  givre_back = λ s. refl;
  scalar_back = λ s. refl;
  point_back = λ s. refl;
}

abbrev some_sig : Crypto.Sig
some_sig = Crypto.Sig.secp256k1 77

abbrev some_commitments : PublicCommitments
some_commitments = record { hiding_comm = 5; binding_comm = 6 }

abbrev sig_bytes : Bytes
sig_bytes = 9 ∷ b's' ∷ b'e' ∷ b'c' ∷ b'p' ∷ b'2' ∷ b'5' ∷ b'6' ∷ b'k' ∷ b'1' ∷ 77 ∷ zeros 63

some_sig_encoded : encode_sig counted plain some_sig ≡ ok sig_bytes
unfolding encode_sig
some_sig_encoded = refl

codec_round_trip_example :
    (decode_sig counted plain (sig_bytes ++ (1 ∷ 2 ∷ [])) ≡ ok (some_sig, 1 ∷ 2 ∷ []))
    × (decode_bls counted plain (encode_bls counted plain 8 ++ (1 ∷ 2 ∷ [])) ≡ ok (8, 1 ∷ 2 ∷ []))
    × (decode_bls_share counted plain (encode_bls_share counted plain 9 ++ (1 ∷ 2 ∷ []))
        ≡ ok (9, 1 ∷ 2 ∷ []))
    × (decode_givre counted plain (encode_givre counted plain 8 ++ (1 ∷ 2 ∷ []))
        ≡ ok (8, 1 ∷ 2 ∷ []))
    × (decode_givre_share counted plain (encode_givre_share counted plain 9 ++ (1 ∷ 2 ∷ []))
        ≡ ok (9, 1 ∷ 2 ∷ []))
    × (decode_commitments counted plain
          (encode_commitments counted plain some_commitments ++ (1 ∷ 2 ∷ []))
        ≡ ok (some_commitments, 1 ∷ 2 ∷ []))
codec_round_trip_example =
    codec_round_trip counted plain counted-IsBincode plain-IsFormats some_sig 8 9 some_commitments
      (1 ∷ 2 ∷ []) some_sig_encoded
