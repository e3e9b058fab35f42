-- ===== src/Hotstuff/Replica/Effects.antt =====
-- `Replica::effect_core_actions` of `src/hotstuff/mod.rs`, the loop over the actions of the core, and
-- `receive` and `request` with it.
use bft_kit.Base.{
  ℕ, zero, suc, not, Option, none, some, List, [], ◌∷◌, ◌++◌, length, ltb, ◌==◌, if◌then◌else◌,
  Outcome, done, out_of_fuel, unwrap, assert, ◌>>=◌, ◌>>◌,
}
use bft_kit.Replica.{ReplicaAction}
use bft_kit.Base.Map.{Map, lookup, insert, remove, contains}
use bft_kit.Command.{Command}
use bft_kit.Crypto
use bft_kit.Crypto.{Primitives, Digest, digest}
use bft_kit.Crypto.Threshold.{PublicCommitments, Signers, Schemes, PartialSig, PartialSigs}
use bft_kit.Pbft.Core.{quorum_size}
use bft_kit.Hotstuff.Message
use bft_kit.Hotstuff.Message.{Generic, VoteGeneric, block_bytes}
use bft_kit.Hotstuff.Slab.{Slab}
use bft_kit.Hotstuff.Core.{
  NodeData, ReplicaCoreEvent, ReplicaCoreAction, Actions, leader, node_at, cert_at,
}
use bft_kit.Hotstuff.Replica.{
  Replica, ToReplica, Sent, find_nonce, remove_nonce, signer_index, is_primary, feed, digest_at,
  refill_nonces, handle_vote_generic,
}
use bft_kit.Hotstuff.Replica.Receive.{Flow, return, proceed, pop, dispatch}

-- `filter_map(.. supply.pop() ..).take(n)` over the pool: the last commitments of the first `n`
-- replicas that have any.
unfoldable pub take_signers :
    ℕ → Map (List PublicCommitments) → Map (List PublicCommitments) × Signers
unfolding pop
take_signers zero pool = (pool, [])
take_signers (suc n) [] = ([], [])
take_signers (suc n) ((index, supply) ∷ pool) = elim (pop supply) [
  | none ↦ let (pool', signers) = take_signers (suc n) pool in ((index, supply) ∷ pool', signers)
  | some (rest, commitments) ↦
      let (pool', signers) = take_signers n pool in
      ((index, rest) ∷ pool', (index, commitments) ∷ signers)
]

-- `signers.iter().find(..)`: what the replica at the index is to sign with.
unfoldable pub own_commitments : ℕ → Signers → Option PublicCommitments
own_commitments me [] = none
own_commitments me ((index, commitments) ∷ signers) =
    if index == me then some commitments else own_commitments me signers

module _ (slab : Slab) (prim : Primitives) (schemes : Schemes) where
  -- The block of the message, with digests in the place of keys.
  unfoldable pub message_block : Replica slab → NodeData → Outcome Message.Block
  unfolding digest_at cert_at
  message_block r block = do
    cert ← cert_at slab r.core block.justify
    justified ← digest_at slab r cert.node
    parent ← digest_at slab r block.parent
    done (record {
      parent = parent;
      commands = block.commands;
      justify = record { node = justified; sig = cert.sig };
      height = block.height;
    })

  unfoldable pub num_signer : Replica slab → ℕ
  num_signer r = quorum_size r.core.config.spec

  unfoldable pub on_propose : Replica slab → NodeData → Outcome (Sent slab)
  unfolding message_block num_signer take_signers feed
  on_propose r node = do
    block ← message_block r node
    let (pool, signers) = take_signers (num_signer r) r.public_commitments_pool
    assert (not (ltb (length signers) (num_signer r)))
    let block_digest = digest prim (block_bytes block)
    assert (not (contains block_digest r.block_signers))
    let r' : Replica slab = record r {
      public_commitments_pool = pool;
      quorum_cert_scratches =
          insert block_digest (record { partial_sigs = PartialSigs.givre []; signers = signers })
            r.quorum_cert_scratches;
      block_signers = insert block_digest signers r.block_signers;
    }
    r'' ← feed slab r' (ReplicaCoreEvent.proposed block_digest block)
    done (
      r'',
      ReplicaAction.send_to_all_replicas
            (ToReplica.generic (record { block = block_digest; signers = signers }) block)
          ∷ [],
    )

  -- The vote goes to the leader, who may be this replica.
  unfoldable pub deliver : Replica slab → VoteGeneric → Outcome (Sent slab)
  unfolding is_primary handle_vote_generic
  deliver r vote =
      if is_primary slab r
      then (do r' ← handle_vote_generic slab schemes r vote; done (r', []))
      else done (r, ReplicaAction.send_to_replica leader (ToReplica.vote_generic vote) ∷ [])

  -- The end of a vote: new nonces when few are left.
  unfoldable pub top_up : Replica slab → Sent slab
  unfolding refill_nonces
  top_up r =
      if ltb (length r.nonces) r.crypto_config.refill_threshold
      then refill_nonces slab schemes r
      else (r, [])

  unfoldable pub on_signed : Replica slab → Digest → Option ℕ → Outcome (Sent slab)
  unfolding deliver top_up signer_index
  on_signed r node none = done (r, [])
  on_signed r node (some share) = do
    (r', sent) ← deliver r (record {
      node = node;
      partial_sig = PartialSig.givre share;
      signer_index = signer_index slab r;
    })
    let (r'', supplied) = top_up r'
    done (r'', sent ++ supplied)

  -- A vote with the nonce of the commitments, when this replica is a signer.
  unfoldable pub sign_vote :
      Replica slab → Digest → Signers → Option PublicCommitments → Outcome (Sent slab)
  unfolding on_signed find_nonce remove_nonce
  sign_vote r node signers none = done (r, [])
  sign_vote r node signers (some commitments) = do
    nonce ← unwrap (find_nonce commitments r.nonces)
    on_signed (record r { nonces = remove_nonce commitments r.nonces }) node
        (schemes.givre_sign r.crypto_config.key_share nonce node signers)

  unfoldable pub on_vote : Replica slab → ℕ → Outcome (Sent slab)
  unfolding digest_at sign_vote own_commitments signer_index
  on_vote r key = do
    node ← digest_at slab r key
    signers ← unwrap (lookup node r.block_signers)
    sign_vote (record r { block_signers = remove node r.block_signers }) node signers
        (own_commitments (signer_index slab r) signers)

  unfoldable pub perform : Replica slab → ReplicaCoreAction → Outcome (Sent slab)
  unfolding on_propose on_vote node_at
  perform r (ReplicaCoreAction.propose block) = on_propose r block
  perform r (ReplicaCoreAction.vote key) = on_vote r key
  perform r (ReplicaCoreAction.finalize key) = do
    block ← node_at slab r.core key
    done (r, ReplicaAction.finalize block.commands ∷ [])

  -- The `for` loop over the actions that one round takes.
  unfoldable pub perform_all : Replica slab → Actions → Outcome (Sent slab)
  unfolding perform
  perform_all r [] = done (r, [])
  perform_all r (action ∷ actions) = do
    (r', sent) ← perform r action
    (r'', sent') ← perform_all r' actions
    done (r'', sent ++ sent')

  -- The `while` loop of `effect_core_actions`: each round takes the actions that there are.
  unfoldable pub effect : ℕ → Replica slab → Actions → Outcome (Sent slab)
  unfolding perform_all
  effect fuel r [] = done (r, [])
  effect zero r (action ∷ actions) = out_of_fuel
  effect (suc fuel) r (action ∷ actions) = do
    (r', sent) ← perform_all (record r { core_actions = [] }) (action ∷ actions)
    (r'', sent') ← effect fuel r' r'.core_actions
    done (r'', sent ++ sent')

  unfoldable pub effect_core_actions : ℕ → Replica slab → Outcome (Sent slab)
  unfolding effect
  effect_core_actions fuel r = effect fuel r r.core_actions

  unfoldable pub finish : ℕ → Flow slab → Outcome (Sent slab)
  unfolding effect_core_actions
  finish fuel (return r) = done (r, [])
  finish fuel (proceed r) = effect_core_actions fuel r

  unfoldable pub request : ℕ → Replica slab → Command → Outcome (Sent slab)
  unfolding feed effect_core_actions
  request fuel r command = do
    r' ← feed slab r (ReplicaCoreEvent.request command)
    effect_core_actions fuel r'

  unfoldable pub receive :
      (Map Crypto.Sig → List (ℕ × Crypto.Sig)) → ℕ → Replica slab → ToReplica → Outcome (Sent slab)
  unfolding dispatch finish
  receive order fuel r message = do
    flow ← dispatch slab prim schemes order r message
    finish fuel flow

  -- `tick` of `AbstractReplica`, which does nothing yet.
  unfoldable pub tick : Replica slab → Sent slab
  tick r = (r, [])
