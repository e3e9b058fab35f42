-- ===== src/Pbft/Replica.antt =====
-- `Replica` of `src/pbft/mod.rs`: messages, votes and signatures around the core. A call yields the
-- new replica and the actions that the code pushes, in order.
pub mod Receive
pub mod Drain
pub mod Inversion
pub mod Rounds
pub mod Tick
pub mod WellFormed
pub mod Kept
pub mod Recorded
pub mod Votes
pub mod Signed
use bft_kit.Base.{
  ℕ, zero, suc, ◌+◌, ◌-◌, Bool, true, false, not, ◌&&◌, ◌||◌, Option, none, some, List, [], ◌∷◌,
  ◌++◌, length, get_elem?, ltb, leb, ◌==◌, if◌then◌else◌, is_some, u16, u16_mod, u32, wrapping_sub,
  Outcome, done, panic, out_of_fuel, assert, unwrap, ◌>>=◌, ◌>>◌,
}
use bft_kit.Base.Map.{Map, lookup, insert, remove}
use bft_kit.Command.{Command}
use bft_kit.Replica.{ReplicaAction}
use bft_kit.Crypto
use bft_kit.Crypto.{
  Primitives, Digest, Sig, uninitialized, SecretKey, PublicKey, ReplicaConfig, block_digest, sign,
  verify, replica_config,
}
use bft_kit.Pbft.Message.{PrePrepare, Vote, pre_prepare_bytes, vote_bytes}
use bft_kit.Pbft.Core.{
  Spec, primary, quorum_size, ReplicaCoreConfig, Quorum, Block, ReplicaCore, ReplicaCoreEvent,
  Actions, new_core, handle, is_primary, is_prepared, is_committed,
}

pub record BlockScratch : Type 0 where
  pub prepare_votes : List Vote
  pub prepare_quorum : Quorum Sig
  pub commit_votes : List Vote
  pub commit_quorum : Quorum Sig

pub record Replica : Type 0 where
  pub core : ReplicaCore
  pub core_actions : Actions
  pub crypto_config : ReplicaConfig
  pub block_scratches : Map BlockScratch
  pub ticked_scratch_num : ℕ

pub data ToReplica : Type 0 where
  request : Command → ToReplica
  pre_prepare : PrePrepare → List Command → ToReplica
  prepare : Vote → ToReplica
  commit : Vote → ToReplica

-- `crate::ReplicaAction<ToReplica>`.
abbrev pub Sending : Type 0
Sending = ReplicaAction ToReplica

abbrev pub Sent : Type 0
Sent = Replica × List Sending

-- What the `match` of `receive` comes to: an early `return`, or the loop over the core's actions.
pub data Flow : Type 0 where
  return : Replica → List Sending → Flow
  proceed : Replica → Flow

-- `BlockScratch::default()`, and `block_scratches.entry(..).or_default()`.
abbrev pub empty_scratch : BlockScratch
empty_scratch = record {
  prepare_votes = [];
  prepare_quorum = [];
  commit_votes = [];
  commit_quorum = [];
}

abbrev pub or_default : Option BlockScratch → BlockScratch
or_default none = empty_scratch
or_default (some scratch) = scratch

unfoldable pub scratch_of : Replica → ℕ → BlockScratch
scratch_of r block_num = or_default (lookup block_num r.block_scratches)

-- What the code writes through its reference to the scratch.
unfoldable pub put_scratch : Replica → ℕ → BlockScratch → Replica
put_scratch r block_num scratch = record r {
  block_scratches = insert block_num scratch r.block_scratches;
}

module _ (prim : Primitives) where
  -- `Replica::new`.
  unfoldable pub new : ReplicaCoreConfig → Outcome Replica
  new config = do
    crypto_config ← replica_config prim config.id config.spec.num_replica
    done (record {
      core = new_core config;
      core_actions = [];
      crypto_config = crypto_config;
      block_scratches = [];
      ticked_scratch_num = 0;
    })

  -- `self.core.handle(event, &mut self.core_actions)`.
  unfoldable pub feed : Replica → ReplicaCoreEvent → Outcome Replica
  feed r event = do
    (core, actions) ← handle prim r.core event
    done (record r { core = core; core_actions = r.core_actions ++ actions })

  unfoldable pub signed_vote : Replica → ℕ → Digest → Vote
  signed_vote r block_num digest =
      let vote : Vote = record {
        view_num = r.core.view_num;
        block_num = block_num;
        digest = digest;
        replica_id = r.core.config.id;
        sig = uninitialized;
      } in
      record vote { sig = sign prim (vote_bytes vote) r.crypto_config.secret_key }

  unfoldable pub signed_pre_prepare : Replica → ℕ → Digest → PrePrepare
  signed_pre_prepare r block_num digest =
      let m : PrePrepare = record {
        view_num = r.core.view_num;
        block_num = block_num;
        digest = digest;
        sig = uninitialized;
      } in
      record m { sig = sign prim (pre_prepare_bytes m) r.crypto_config.secret_key }

  -- `check_prepare_quorum` and `check_commit_quorum`, with the scratch written back.
  unfoldable pub check_prepare_quorum : Replica → ℕ → BlockScratch → Outcome Replica
  unfolding feed put_scratch
  check_prepare_quorum r block_num scratch =
      if leb (quorum_size r.core.config.spec) (u16 (u16 (length scratch.prepare_quorum) + 1))
      then feed (put_scratch r block_num (record scratch { prepare_quorum = [] }))
          (ReplicaCoreEvent.prepare_quorum block_num scratch.prepare_quorum)
      else done (put_scratch r block_num scratch)

  unfoldable pub check_commit_quorum : Replica → ℕ → BlockScratch → Outcome Replica
  unfolding feed put_scratch
  check_commit_quorum r block_num scratch =
      if is_prepared r.core block_num
        && leb (quorum_size r.core.config.spec) (u16 (length scratch.commit_quorum))
      then feed (put_scratch r block_num (record scratch { commit_quorum = [] }))
          (ReplicaCoreEvent.commit_quorum block_num scratch.commit_quorum)
      else done (put_scratch r block_num scratch)
