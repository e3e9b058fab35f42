-- ===== src/Hotstuff/Message.antt =====
-- `src/hotstuff/message.rs`.
use bft_kit.Base.{ℕ, ◌++◌, List}
use bft_kit.Command.{Command, u32_le_bytes, commands_bytes}
use bft_kit.Crypto.{Digest}
use bft_kit.Crypto.Threshold.{Signers, Sig, PartialSig}
use bft_kit.Pbft.Message.{digest_bytes}

pub record QuorumCert : Type 0 where
  pub node : Digest
  pub sig : Sig

pub record Block : Type 0 where
  pub parent : Digest
  pub commands : List Command
  pub justify : QuorumCert
  pub height : ℕ

-- A new block with who is to sign it.
pub record Generic : Type 0 where
  pub block : Digest
  pub signers : Signers

pub record VoteGeneric : Type 0 where
  pub node : Digest
  pub partial_sig : PartialSig
  pub signer_index : ℕ

-- `Block::update`.
unfoldable pub block_bytes : Block → List ℕ
unfolding digest_bytes commands_bytes
block_bytes block =
    digest_bytes block.parent
    ++ (commands_bytes block.commands
        ++ (digest_bytes block.justify.node ++ u32_le_bytes block.height))
