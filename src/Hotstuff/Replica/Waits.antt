-- ===== src/Hotstuff/Replica/Waits.antt =====
-- What the blocks in `reordering_blocks` wait for, through the whole of `Replica::receive` and
-- `Replica::request` in `src/hotstuff/mod.rs`: a proposal of the replica's own stores a node too.
use mathlib.Core.List.{Memᴰ}
use bft_kit.Hotstuff.Replica.Fits.{finish-Fits}
use bft_kit.Hotstuff.Replica.Released.{Fits, Waits-Fits, Waits, flow_replica, dispatch-Waiting}
use bft_kit.Base.{ℕ, ◌≡◌, refl, inl, inr, List, [], ◌∷◌, done, >>=-eq-done, Option-cases, All}
use bft_kit.Base.Map.{Map, lookup}
use bft_kit.Crypto
use bft_kit.Crypto.{Primitives, Digest, digest}
use bft_kit.Crypto.Threshold.{Schemes}
use bft_kit.Hotstuff.Message
use bft_kit.Hotstuff.Message.{Generic, VoteGeneric, block_bytes}
use bft_kit.Hotstuff.Slab.{Slab}
use bft_kit.Hotstuff.Replica.{Sent}
use bft_kit.Hotstuff.Replica.Effects.{receive}
use bft_kit.Hotstuff.Replica.{Replica, ToReplica}
use bft_kit.Hotstuff.Replica.Receive.{Blocks, Flow, dispatch}
use bft_kit.Hotstuff.Replica.Waiting.{Known}

All-Mem {ℓ κ μ} :
    {A : Type ℓ} {P : A → Type κ} {Q : A → Type μ} (xs : List A)
    → All P xs
    → ((x : A) → Memᴰ x xs → P x → Q x)
    → All Q xs
All-Mem [] all f = tt
All-Mem (x ∷ xs) (p, all) f =
    (f x (Memᴰ.head refl) p, All-Mem xs all (λ y m q. f y (Memᴰ.tail m) q))

module _ (slab : Slab) where
  -- A block that waits for a node that the replica has.
  abbrev pub IsLeft : Replica slab → Digest → Digest × Message.Block → Type 0
  IsLeft r d block =
      Known r.core.node_index d
      × ((blocks : Blocks) × (Memᴰ (d, blocks) r.reordering_blocks × Memᴰ block blocks))

  -- Each block that fits waits for what is missing, or is left.
  Waits-self : (r : Replica slab) → Fits slab r → Waits slab (IsLeft r) r
  Waits-self r fits = All-Mem r.reordering_blocks fits (λ entry here ws.
      All-Mem entry.1 ws (λ block there w. (
        w,
        elim (Option-cases (lookup entry.0 r.core.node_index)) [
          | inl missing ↦ inl missing
          | inr known ↦ inr (known, (entry.1, (here, there)))
        ],
      )))

  module _ (prim : Primitives) (schemes : Schemes)
      (order : Map Crypto.Sig → List (ℕ × Crypto.Sig)) where
    -- When each block that waits does so for its parent, or, its parent being there, for the block that
    -- its certificate is for, this is so after any receive that returns; and after the match of receive
    -- on the message, each waits for a block that is not there, or waited for it already before the
    -- message, while it was there.
    pub receive-Waits :
        (fuel : ℕ) (r : Replica slab) (message : ToReplica) {s : Sent slab}
        → receive slab prim schemes order fuel r message ≡ done s
        → Fits slab r
        → Fits slab s.0
          × ((flow : Flow slab) × ((dispatch slab prim schemes order r message ≡ done flow)
                × Waits slab (IsLeft r) (flow_replica slab flow)))
    unfolding receive
    receive-Waits fuel r message h fits =
        let (flow, dispatches, h2) = >>=-eq-done (dispatch slab prim schemes order r message) _ h in
        let w =
          dispatch-Waiting slab (IsLeft r) prim schemes order r message dispatches
            (Waits-self r fits) in
        (
          finish-Fits slab prim schemes fuel flow h2
              (Waits-Fits slab (IsLeft r) (flow_replica slab flow) w),
          (flow, (dispatches, w)),
        )
