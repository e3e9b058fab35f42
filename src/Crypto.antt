-- ===== src/Crypto.antt =====
-- `src/crypto.rs`: digests, signatures and the keys of the replicas. What the crates sha2, secp256k1
-- and ed25519-dalek compute is the record `Primitives`, an argument of all that uses it.
pub mod Keys
pub mod Digests
pub mod Threshold
pub mod Codec
pub mod Examples
use bft_kit.Base.{
  ◌≡◌, ℕ, zero, suc, ◌+◌, ◌-◌, ◌/◌, ◌%◌, Bool, true, false, Option, none, some, List, [], ◌∷◌, ◌++◌,
  length, get_elem?, ltb, if◌then◌else◌, Outcome, done, unwrap, ◌>>=◌,
}
use bft_kit.Command.{Command, commands_bytes}

-- The 32 bytes of a digest, and the bytes of a key or a signature, each read as one number.
abbrev pub Digest : Type 0
Digest = ℕ

pub record Primitives : Type 0 where
  pub sha256 : List ℕ → Digest
  -- `SecretKey::from_byte_array`, which refuses zero and numbers above the order of the group.
  pub secp_secret : List ℕ → Option ℕ
  pub secp_public : ℕ → ℕ
  pub secp_sign : Digest → ℕ → ℕ
  pub secp_verify : Digest → ℕ → ℕ → Bool
  pub ed_public : ℕ → ℕ
  -- `sign_prehashed` and `verify_prehashed`, over the bytes that SHA-512 has read.
  pub ed_sign : List ℕ → ℕ → ℕ
  pub ed_verify : List ℕ → ℕ → ℕ → Bool

-- What the crates document: a signature verifies under the public key of the key that made it.
pub record IsSound (prim : Primitives) : Type 0 where
  pub secp_sound :
      (d : Digest) (k : ℕ) → prim.secp_verify d (prim.secp_sign d k) (prim.secp_public k) ≡ true
  pub ed_sound :
      (m : List ℕ) (k : ℕ) → prim.ed_verify m (prim.ed_sign m k) (prim.ed_public k) ≡ true

pub data Sig : Type 0 where
  uninitialized : Sig
  secp256k1 : ℕ → Sig
  ed25519 : ℕ → Sig

pub data SecretKey : Type 0 where
  secp256k1 : ℕ → SecretKey
  ed25519 : ℕ → SecretKey

pub data PublicKey : Type 0 where
  secp256k1 : ℕ → PublicKey
  ed25519 : ℕ → PublicKey

pub record ReplicaConfig : Type 0 where
  pub secret_key : SecretKey
  pub public_keys : List PublicKey

-- The decimal digits of a number below 10 ^ fuel, as `format!` writes them.
decimal_onto : ℕ → ℕ → List ℕ → List ℕ
decimal_onto zero n digits = digits
decimal_onto (suc fuel) n digits =
    let rest = decimal_onto fuel (n / 10) ((b'0' + n % 10) ∷ digits) in
    if ltb n 10 then (b'0' + n % 10) ∷ digits else rest

pad : ℕ → List ℕ → List ℕ
pad zero bytes = []
pad (suc n) [] = 0 ∷ pad n []
pad (suc n) (b ∷ bytes) = b ∷ pad n bytes

-- The 32 bytes that `replica_secret_key` reads: `replica#`, the identifier, and zeros.
secret_bytes : ℕ → List ℕ
unfolding decimal_onto pad
secret_bytes replica_id =
    pad 32 (b'r' ∷ b'e' ∷ b'p' ∷ b'l' ∷ b'i' ∷ b'c' ∷ b'a' ∷ b'#' ∷ decimal_onto 5 replica_id [])

module _ (prim : Primitives) where
  -- `DigestHash::digest` of a value whose `update` feeds these bytes to the hash.
  unfoldable pub digest : List ℕ → Digest
  digest bytes = prim.sha256 bytes

  -- `block_digest` of src/pbft/mod.rs.
  unfoldable pub block_digest : List Command → Digest
  unfolding digest
  block_digest commands = digest (commands_bytes commands)

  -- `sign` and `verify` in a build that is no test.
  unfoldable pub sign : List ℕ → SecretKey → Sig
  unfolding digest
  sign message (SecretKey.secp256k1 key) = Sig.secp256k1 (prim.secp_sign (digest message) key)
  sign message (SecretKey.ed25519 key) = Sig.ed25519 (prim.ed_sign message key)

  unfoldable pub verify : List ℕ → PublicKey → Sig → Bool
  unfolding digest
  verify message (PublicKey.secp256k1 key) (Sig.secp256k1 sig) =
      prim.secp_verify (digest message) sig key
  verify message (PublicKey.ed25519 key) (Sig.ed25519 sig) = prim.ed_verify message sig key
  verify message _ _ = false

  unfoldable pub verify_digest : Digest → PublicKey → Sig → Bool
  verify_digest d (PublicKey.secp256k1 key) (Sig.secp256k1 sig) = prim.secp_verify d sig key
  verify_digest d _ _ = false

  unfoldable pub public_key : SecretKey → PublicKey
  public_key (SecretKey.secp256k1 key) = PublicKey.secp256k1 (prim.secp_public key)
  public_key (SecretKey.ed25519 key) = PublicKey.ed25519 (prim.ed_public key)

  replica_secret_key : ℕ → Outcome SecretKey
  unfolding secret_bytes
  replica_secret_key replica_id = do
    key ← unwrap (prim.secp_secret (secret_bytes replica_id))
    done (SecretKey.secp256k1 key)

  -- The keys of the replicas from `i` on.
  replica_secret_keys : ℕ → ℕ → Outcome (List SecretKey)
  unfolding replica_secret_key
  replica_secret_keys zero i = done []
  replica_secret_keys (suc n) i = do
    key ← replica_secret_key i
    keys ← replica_secret_keys n (i + 1)
    done (key ∷ keys)

  public_keys_of : List SecretKey → List PublicKey
  unfolding public_key
  public_keys_of [] = []
  public_keys_of (key ∷ keys) = public_key key ∷ public_keys_of keys

  -- `ReplicaConfig::new`.
  unfoldable pub replica_config : ℕ → ℕ → Outcome ReplicaConfig
  unfolding replica_secret_keys public_keys_of
  replica_config replica_id num_replica = do
    secret_keys ← replica_secret_keys num_replica 0
    secret_key ← unwrap (get_elem? secret_keys replica_id)
    done (record { secret_key = secret_key; public_keys = public_keys_of secret_keys })
