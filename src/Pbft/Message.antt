-- ===== src/Pbft/Message.antt =====
-- `src/pbft/message.rs`: the signed messages, and the bytes that a signature covers.
use bft_kit.Base.{ℕ, ◌++◌, ◌%◌, ◌/◌, List, [], ◌∷◌}
use bft_kit.Command.{u32_le_bytes, u16_le_bytes}
use bft_kit.Crypto.{Digest, Sig}

pub record Reply : Type 0 where
  pub seq : ℕ
  pub view_num : ℕ
  pub result : List ℕ
  pub replica_id : ℕ

pub record PrePrepare : Type 0 where
  pub view_num : ℕ
  pub block_num : ℕ
  pub digest : Digest
  pub sig : Sig

pub record Vote : Type 0 where
  pub view_num : ℕ
  pub block_num : ℕ
  pub digest : Digest
  pub replica_id : ℕ
  pub sig : Sig

-- The 32 bytes of a digest.
digest_bytes_onto : ℕ → Digest → List ℕ → List ℕ
digest_bytes_onto ℕ.zero d bytes = bytes
digest_bytes_onto (ℕ.suc n) d bytes = digest_bytes_onto n (d / 256) ((d % 256) ∷ bytes)

unfoldable pub digest_bytes : Digest → List ℕ
unfolding digest_bytes_onto
digest_bytes d = digest_bytes_onto 32 d []

-- `PrePrepare::update`.
unfoldable pub pre_prepare_bytes : PrePrepare → List ℕ
unfolding digest_bytes
pre_prepare_bytes m = u32_le_bytes m.view_num ++ (u32_le_bytes m.block_num ++ digest_bytes m.digest)

-- `Vote::update`.
unfoldable pub vote_bytes : Vote → List ℕ
unfolding digest_bytes
vote_bytes m =
    u32_le_bytes m.view_num
    ++ (u32_le_bytes m.block_num ++ (digest_bytes m.digest ++ u16_le_bytes m.replica_id))
