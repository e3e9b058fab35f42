-- ===== src/Crypto/Examples.antt =====
-- A small instance of the cryptographic primitives, and `src/crypto.rs` run on it.
use bft_kit.Base.{
  ℕ, ◌+◌, ◌*◌, ◌%◌, ◌<◌, ◌≡◌, refl, true, some, List, [], ◌∷◌, length, get_elem?, ◌==◌, done, arith,
}
use bft_kit.Command.{Command}
use bft_kit.Crypto.{
  Primitives, IsSound, SecretKey, PublicKey, ReplicaConfig, sign, verify, block_digest,
  replica_config,
}
use bft_kit.Crypto.Keys.{replica_config_fits}
use bft_kit.Crypto.Digests.{swallow, block_digest-swallow}

abbrev checksum : List ℕ → ℕ
checksum [] = 7
checksum (b ∷ bytes) = let rest = checksum bytes in (b + 31 * rest) % 65536

abbrev pub toy : Primitives
toy = record {
  sha256 = checksum;
  secp_secret = λ bytes. some (checksum bytes);
  secp_public = λ key. key;
  secp_sign = λ digest key. digest + key;
  secp_verify = λ digest sig key. sig == digest + key;
  ed_public = λ key. key;
  ed_sign = λ message key. checksum message + key;
  ed_verify = λ message sig key. sig == checksum message + key;
}

pub toy-IsSound : IsSound toy
toy-IsSound = record { secp_sound = λ d k. ground arith; ed_sound = λ m k. ground arith }

abbrev pub key_of : ℕ → ℕ
key_of i = checksum (
    b'r'
    ∷ b'e'
    ∷ b'p'
    ∷ b'l'
    ∷ b'i'
    ∷ b'c'
    ∷ b'a'
    ∷ b'#'
    ∷ (b'0' + i)
    ∷ 0
    ∷ 0
    ∷ 0
    ∷ 0
    ∷ 0
    ∷ 0
    ∷ 0
    ∷ 0
    ∷ 0
    ∷ 0
    ∷ 0
    ∷ 0
    ∷ 0
    ∷ 0
    ∷ 0
    ∷ 0
    ∷ 0
    ∷ 0
    ∷ 0
    ∷ 0
    ∷ 0
    ∷ 0
    ∷ 0
    ∷ [])

-- What replica `i` of four has.
abbrev pub config_of : ℕ → ReplicaConfig
config_of i = record {
  secret_key = SecretKey.secp256k1 (key_of i);
  public_keys =
      PublicKey.secp256k1 (key_of 0)
      ∷ PublicKey.secp256k1 (key_of 1)
      ∷ PublicKey.secp256k1 (key_of 2)
      ∷ PublicKey.secp256k1 (key_of 3)
      ∷ [];
}

pub replica_config_0 : replica_config toy 0 4 ≡ done (config_of 0)
unfolding replica_config
replica_config_0 = refl

pub replica_config_1 : replica_config toy 1 4 ≡ done (config_of 1)
unfolding replica_config
replica_config_1 = refl

pub replica_config_2 : replica_config toy 2 4 ≡ done (config_of 2)
unfolding replica_config
replica_config_2 = refl

pub replica_config_3 : replica_config toy 3 4 ≡ done (config_of 3)
unfolding replica_config
replica_config_3 = refl

replica_config_fits_example :
    (1 < 4)
    × (length (config_of 0).public_keys ≡ 4)
    × ((k : PublicKey) × (get_elem? (config_of 0).public_keys 1 ≡ some k)
        × (verify toy (5 ∷ []) k (sign toy (5 ∷ []) (config_of 1).secret_key) ≡ true))
replica_config_fits_example =
    replica_config_fits toy 1 0 4 (5 ∷ []) toy-IsSound replica_config_1 replica_config_0

abbrev one_command : Command
one_command = record { client_id = 1; seq = 1; op = 9 ∷ [] }

abbrev other_command : Command
other_command = record { client_id = 2; seq = 1; op = [] }

block_digest-swallow_example :
    block_digest toy (one_command ∷ other_command ∷ [])
    ≡ block_digest toy (swallow one_command (other_command ∷ []) ∷ [])
block_digest-swallow_example = block_digest-swallow toy one_command (other_command ∷ [])
