-- ===== src/Hotstuff/Replica/Receive.antt =====
-- `Replica::receive` of `src/hotstuff/mod.rs` up to its last line: the match on the message.
use bft_kit.Base.{
  ℕ, zero, suc, ◌+◌, ◌*◌, Bool, true, false, not, Option, none, some, List, [], ◌∷◌, ◌++◌, length,
  ◌==◌, if◌then◌else◌, Outcome, done, out_of_fuel, assert, ◌>>=◌, ◌>>◌,
}
use bft_kit.Base.Map.{Map, lookup, insert, remove, contains, extend_entry}
use bft_kit.Crypto.{Primitives, Digest, digest}
use bft_kit.Crypto
use bft_kit.Crypto.Threshold.{Schemes, verify_digest, givre_master_key}
use bft_kit.Hotstuff.Message
use bft_kit.Hotstuff.Message.{Generic, VoteGeneric, block_bytes}
use bft_kit.Hotstuff.Slab.{Slab}
use bft_kit.Hotstuff.Core.{ReplicaCoreEvent}
use bft_kit.Hotstuff.Replica.{Replica, ToReplica, feed, handle_vote_generic}

-- Blocks with their digests.
abbrev pub Blocks : Type 0
Blocks = List (Digest × Message.Block)

abbrev pub or_no_blocks : Option Blocks → Blocks
or_no_blocks none = []
or_no_blocks (some blocks) = blocks

-- How many blocks wait.
unfoldable pub total : Map Blocks → ℕ
total [] = 0
total ((digest, blocks) ∷ m) = length blocks + total m

-- The last element, and what stands before it.
unfoldable pub pop {ℓ} : {A : Type ℓ} → List A → Option (List A × A)
pop [] = none
pop (x ∷ xs) = elim (pop xs) [ none ↦ some ([], x) | some (rest, last) ↦ some (x ∷ rest, last) ]

-- What the `match` of `receive` comes to: an early `return`, or the loop over the core's actions.
pub data Flow (slab : Slab) : Type 0 where
  return : Replica slab → Flow slab
  proceed : Replica slab → Flow slab

module _ (slab : Slab) where
  abbrev pub knows : Replica slab → Digest → Bool
  knows r digest = contains digest r.core.node_index

  -- `reordering_blocks.entry(digest).or_default().push(..)`.
  unfoldable pub postpone : Replica slab → Digest → Digest × Message.Block → Replica slab
  postpone r digest block = record r {
    reordering_blocks = extend_entry digest (block ∷ []) r.reordering_blocks;
  }

  -- A block whose parent and justification are there: it is handed to the core, and the blocks that
  -- wait for it become pending.
  unfoldable pub hand_over :
      Replica slab → Blocks → Digest × Message.Block → Outcome (Replica slab × Blocks)
  unfolding feed
  hand_over r pending (block_digest, block) = do
    let other_pending = or_no_blocks (lookup block_digest r.reordering_blocks)
    let r' : Replica slab = record r { reordering_blocks = remove block_digest r.reordering_blocks }
    r'' ← feed slab r' (ReplicaCoreEvent.proposal block_digest block)
    done (r'', pending ++ other_pending)

  -- The `while let` loop over the pending blocks, on fuel.
  unfoldable pub handle_pending : ℕ → Replica slab → Blocks → Outcome (Replica slab)
  unfolding pop postpone hand_over
  handle_pending zero r pending = out_of_fuel
  handle_pending (suc fuel) r pending = elim (pop pending) [
    | none ↦ done r
    | some (rest, block) ↦ elim (knows r block.1.justify.node) [
      | false ↦ handle_pending fuel (postpone r block.1.justify.node block) rest
      | true ↦ do (r', pending') ← hand_over r rest block; handle_pending fuel r' pending'
    ]
  ]

  -- With `n` blocks pending or waiting, at most `n` are handed over, and at most `n` postponed
  -- before, between and after.
  abbrev pub fuel_for : ℕ → ℕ
  fuel_for n = suc (n * (n + 1) + n)

  unfoldable pub pending_fuel : Replica slab → Blocks → ℕ
  unfolding total
  pending_fuel r pending = fuel_for (length pending + total r.reordering_blocks)

module _ (slab : Slab) (prim : Primitives) (schemes : Schemes)
    (order : Map Crypto.Sig → List (ℕ × Crypto.Sig)) where
  -- The certificate is known, or its signature is right.
  unfoldable pub accepts_justify : Replica slab → Message.Block → Outcome Bool
  unfolding verify_digest givre_master_key
  accepts_justify r block =
      if contains block.justify.node r.core.quorum_cert_index
      then done true
      else verify_digest prim schemes order block.justify.node block.justify.sig
          (givre_master_key schemes r.crypto_config.key_share)

  -- A block that passes the checks.
  unfoldable pub admit : Replica slab → Generic → Message.Block → Outcome (Flow slab)
  unfolding postpone handle_pending pending_fuel
  admit r generic block = do
    let replaced = contains generic.block r.block_signers
    let r' : Replica slab = record r {
      block_signers = insert generic.block generic.signers r.block_signers;
    }
    assert (not replaced)
    if knows slab r' block.parent
        then (do
          r'' ←
              handle_pending slab (pending_fuel slab r' ((generic.block, block) ∷ [])) r'
                ((generic.block, block) ∷ [])
          done (proceed r''))
        else done (return (postpone slab r' block.parent (generic.block, block)))

  unfoldable pub on_generic : Replica slab → Generic → Message.Block → Outcome (Flow slab)
  unfolding accepts_justify admit
  on_generic r generic block =
      if knows slab r generic.block
      then done (return r)
      else if not (digest prim (block_bytes block) == generic.block)
      then done (return r)
      else do
        accepted ← accepts_justify r block
        if accepted then admit r generic block else done (return r)

  unfoldable pub dispatch : Replica slab → ToReplica → Outcome (Flow slab)
  unfolding on_generic handle_vote_generic
  dispatch r (ToReplica.generic generic block) = on_generic r generic block
  dispatch r (ToReplica.vote_generic vote) = do
    r' ← handle_vote_generic slab schemes r vote
    done (proceed r')
  dispatch r (ToReplica.public_commitments_supply index supply) = done (
      proceed (record r {
        public_commitments_pool = extend_entry index supply r.public_commitments_pool;
      }))
