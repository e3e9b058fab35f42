-- ===== src/Hotstuff/Replica.antt =====
-- `Replica` of `src/hotstuff/mod.rs`: the messages, the nonces and the signatures around the core.
-- A call yields the new replica and the actions that the code pushes, in order.
pub mod Receive
pub mod Effects
pub mod Chosen
pub mod Nonces
pub mod Kept
pub mod Unspent
pub mod Rejects
pub mod Load
pub mod Rounds
pub mod Examples
pub mod Pending
pub mod Matched
pub mod Waiting
pub mod Released
pub mod Fits
pub mod Waits
use bft_kit.Base.{
  ℕ, zero, suc, ◌+◌, Bool, true, false, ◌&&◌, Option, none, some, List, [], ◌∷◌, ◌++◌, length, ◌==◌,
  if◌then◌else◌, u16, Result, ok, err, Outcome, done, panic, unwrap, assert, ◌>>=◌, ◌>>◌,
}
use bft_kit.Base.Map.{Map, lookup, insert, remove, contains}
use bft_kit.Command.{Command}
use bft_kit.Replica.{ReplicaAction}
use bft_kit.Crypto.{Primitives, Digest}
use bft_kit.Crypto.Threshold.{
  PublicCommitments, Signers, Schemes, PartialSigs, Sig, AggregateContext, Added, add_partial,
}
use bft_kit.Hotstuff.Message
use bft_kit.Hotstuff.Message.{Generic, VoteGeneric}
use bft_kit.Hotstuff.Slab.{Slab}
use bft_kit.Hotstuff.Core
use bft_kit.Hotstuff.Core.{
  ReplicaCoreConfig, Node, ReplicaCore, ReplicaCoreEvent, Actions, leader, handle,
}

-- The secret nonces by their public commitments, as a list of pairs.
abbrev pub NonceMap : Type 0
NonceMap = List (PublicCommitments × ℕ)

abbrev pub same_commitments : PublicCommitments → PublicCommitments → Bool
same_commitments a b = a.hiding_comm == b.hiding_comm && a.binding_comm == b.binding_comm

unfoldable pub find_nonce : PublicCommitments → NonceMap → Option ℕ
find_nonce c [] = none
find_nonce c ((d, nonce) ∷ nonces) =
    if same_commitments d c then some nonce else find_nonce c nonces

unfoldable pub remove_nonce : PublicCommitments → NonceMap → NonceMap
remove_nonce c [] = []
remove_nonce c ((d, nonce) ∷ nonces) =
    if same_commitments d c then remove_nonce c nonces else (d, nonce) ∷ remove_nonce c nonces

unfoldable pub put_nonce : PublicCommitments → ℕ → NonceMap → NonceMap
put_nonce c nonce [] = (c, nonce) ∷ []
put_nonce c nonce ((d, other) ∷ nonces) =
    if same_commitments d c then (c, nonce) ∷ nonces else (d, other) ∷ put_nonce c nonce nonces

-- `extend`.
unfoldable pub put_nonces : NonceMap → NonceMap → NonceMap
unfolding put_nonce
put_nonces nonces [] = nonces
put_nonces nonces ((c, nonce) ∷ supply) = put_nonces (put_nonce c nonce nonces) supply

-- The keys; a `HashMap` yields them in the order that `Schemes.keys` gives them.
abbrev pub commitments_of : NonceMap → List PublicCommitments
commitments_of [] = []
commitments_of ((c, nonce) ∷ nonces) = c ∷ commitments_of nonces

pub record CryptoConfig : Type 0 where
  pub key_share : ℕ
  pub supply_size : ℕ
  pub refill_threshold : ℕ

pub record QuorumCertScratch : Type 0 where
  pub partial_sigs : PartialSigs
  pub signers : Signers

-- `draws` counts what `refill_nonces` has drawn from the random generator of the thread.
pub record Replica (slab : Slab) : Type 0 where
  pub core : ReplicaCore slab
  pub core_actions : Actions
  pub crypto_config : CryptoConfig
  pub reordering_blocks : Map (List (Digest × Message.Block))
  pub nonces : NonceMap
  pub block_signers : Map Signers
  pub quorum_cert_scratches : Map QuorumCertScratch
  pub public_commitments_pool : Map (List PublicCommitments)
  pub draws : ℕ

pub data ToReplica : Type 0 where
  generic : Generic → Message.Block → ToReplica
  vote_generic : VoteGeneric → ToReplica
  public_commitments_supply : ℕ → List PublicCommitments → ToReplica

-- `crate::ReplicaAction<ToReplica>`.
abbrev pub Sending : Type 0
Sending = ReplicaAction ToReplica

abbrev pub Sent : Slab → Type 0
Sent slab = Replica slab × List Sending

module _ (slab : Slab) where
  -- `Replica::new`.
  unfoldable pub new : ReplicaCoreConfig → CryptoConfig → Replica slab
  new core_config crypto_config = record {
    core = Core.new slab core_config;
    core_actions = [];
    crypto_config = crypto_config;
    reordering_blocks = [];
    nonces = [];
    block_signers = [];
    quorum_cert_scratches = [];
    public_commitments_pool = [];
    draws = 0;
  }

  unfoldable pub signer_index : Replica slab → ℕ
  signer_index r = u16 r.core.config.id

  unfoldable pub is_primary : Replica slab → Bool
  is_primary r = leader == r.core.config.id

  -- `self.core.handle(event, &mut self.core_actions)`.
  unfoldable pub feed : Replica slab → ReplicaCoreEvent → Outcome (Replica slab)
  feed r event = do
    (core, actions) ← handle slab r.core event
    done (record r { core = core; core_actions = r.core_actions ++ actions })

  -- The digest of a node of the slab.
  unfoldable pub digest_at : Replica slab → ℕ → Outcome Digest
  digest_at r key = do node ← unwrap (slab.get Node r.core.nodes key); done node.digest

-- `repeat_with(..).take(supply_size).collect()`: the supply, from the given draw on.
unfoldable pub draw_supply : Schemes → ℕ → ℕ → ℕ → NonceMap → NonceMap
unfolding put_nonce
draw_supply schemes key_share zero draws supply = supply
draw_supply schemes key_share (suc n) draws supply =
    let (c, nonce) = schemes.givre_commit key_share draws in
    draw_supply schemes key_share n (suc draws) (put_nonce c nonce supply)

module _ (slab : Slab) (schemes : Schemes) where
  unfoldable pub refill_nonces : Replica slab → Sent slab
  unfolding draw_supply put_nonces is_primary signer_index
  refill_nonces r =
      let config = r.crypto_config in
      let supply = draw_supply schemes config.key_share config.supply_size r.draws [] in
      let r' : Replica slab = record r {
        nonces = put_nonces r.nonces supply;
        draws = r.draws + config.supply_size;
      } in
      if is_primary slab r
      then (
        record r' {
          public_commitments_pool =
              insert (signer_index slab r) (schemes.keys (commitments_of supply))
                r.public_commitments_pool;
        },
        [],
      )
      else (
        r',
        ReplicaAction.send_to_replica leader (
              ToReplica.public_commitments_supply (signer_index slab r)
                (schemes.keys (commitments_of supply)))
            ∷ [],
      )

  -- `init`.
  unfoldable pub init : Replica slab → Sent slab
  unfolding refill_nonces
  init r = refill_nonces r

  -- What `handle_vote_generic` does with what `add_partial` returns. An error is `todo!()`.
  unfoldable pub certify :
      Replica slab → VoteGeneric → QuorumCertScratch → Added → Outcome (Replica slab)
  unfolding feed
  certify r vote scratch (partial_sigs, err) = panic
  certify r vote scratch (partial_sigs, ok none) = done (record r {
    quorum_cert_scratches =
        insert vote.node (record scratch { partial_sigs = partial_sigs }) r.quorum_cert_scratches;
  })
  certify r vote scratch (partial_sigs, ok (some sig)) = do
    let r' : Replica slab = record r {
      quorum_cert_scratches = remove vote.node r.quorum_cert_scratches;
    }
    assert (contains vote.node r.core.node_index)
    feed slab r' (ReplicaCoreEvent.quorum_cert (record { node = vote.node; sig = sig }))

  unfoldable pub handle_vote_generic : Replica slab → VoteGeneric → Outcome (Replica slab)
  unfolding certify
  handle_vote_generic r vote = do
    scratch ← unwrap (lookup vote.node r.quorum_cert_scratches)
    certify r vote scratch (
        add_partial schemes scratch.partial_sigs vote.signer_index vote.partial_sig (
          AggregateContext.givre (record {
            key_share = r.crypto_config.key_share;
            signers = scratch.signers;
            digest = vote.node;
          })))
