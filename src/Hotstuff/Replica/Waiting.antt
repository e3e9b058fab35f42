-- ===== src/Hotstuff/Replica/Waiting.antt =====
-- What the blocks in `reordering_blocks` wait for.
use bft_kit.Base.{
  ℕ, ◌≡◌, ◌⊎◌, inl, inr, false, none, some, [], ◌∷◌, ltb, ◌==◌, Bool-cases, All, All-append, arith,
}
use bft_kit.Base.Map.{Map, lookup, insert, remove, extend_entry, lookup-insert}
use bft_kit.Base.Lists.Indexing.{All-map}
use bft_kit.Crypto.{Digest}
use bft_kit.Hotstuff.Message
use bft_kit.Hotstuff.Message.{Generic, VoteGeneric, block_bytes}
use bft_kit.Hotstuff.Replica.Receive.{Blocks, or_no_blocks}

-- The digest of a node that there is.
abbrev pub Known : Map ℕ → Digest → Type 0
Known index d = (key : ℕ) × (lookup d index ≡ some key)

-- A block waits for its parent, or, its parent being there, for the block that its certificate is for.
abbrev pub WaitsFor : Map ℕ → Digest → Digest × Message.Block → Type 0
WaitsFor index d block =
    (block.1.parent ≡ d) ⊎ ((block.1.justify.node ≡ d) × Known index block.1.parent)

-- Each block waits for its parent or for the block that its certificate is for.
abbrev pub Fitting : Map ℕ → Map Blocks → Type 0
Fitting index blocks = All (λ entry. All (WaitsFor index entry.0) entry.1) blocks

-- Which blocks may wait for a node that is there.
abbrev pub Exempt : Type 1
Exempt = Digest → Digest × Message.Block → Type 0

abbrev pub IsWaiting : Exempt → Map ℕ → Digest → Digest × Message.Block → Type 0
IsWaiting Stale index d block = WaitsFor index d block × ((lookup d index ≡ none) ⊎ Stale d block)

abbrev pub IsEntry : Exempt → Map ℕ → Digest × Blocks → Type 0
IsEntry Stale index entry = All (IsWaiting Stale index entry.0) entry.1

abbrev pub Waiting : Exempt → Map ℕ → Map Blocks → Type 0
Waiting Stale index blocks = All (IsEntry Stale index) blocks

-- The blocks of the loop have their parents.
abbrev pub HasParents : Map ℕ → Blocks → Type 0
HasParents index pending = All (λ block. Known index block.1.parent) pending

module _ (Stale : Exempt) where
  pub extend-Waiting :
      (index : Map ℕ) (d : Digest) (block : Digest × Message.Block) (blocks : Map Blocks)
      → lookup d index ≡ none
      → WaitsFor index d block
      → Waiting Stale index blocks
      → Waiting Stale index (extend_entry d (block ∷ []) blocks)
  unfolding extend_entry
  extend-Waiting index d block [] missing w all = (((w, inl missing), tt), tt)
  extend-Waiting index d block ((j, old) ∷ blocks) missing w (ws, all) =
      elim (Bool-cases (j == d)) [
        | inl here ↦
            let same : d ≡ j = ground arith in
            rw here (
              All-append (IsWaiting Stale index j) old (block ∷ []) ws
                  ((rw same at w, inl (rw same at missing)), tt),
              all,
            )
        | inr there ↦ rw there (elim (Bool-cases (ltb d j)) [
          | inl before ↦ rw before (((w, inl missing), tt), (ws, all))
          | inr after ↦ rw after (ws, extend-Waiting index d block blocks missing w all)
        ])
      ]

  -- The digest is none of those that are waited for.
  pub remove-Waiting :
      (index : Map ℕ) (d : Digest) (blocks : Map Blocks)
      → Waiting Stale index blocks
      → All (λ entry. IsEntry Stale index entry × ((d == entry.0) ≡ false)) (remove d blocks)
  unfolding remove
  remove-Waiting index d [] all = tt
  remove-Waiting index d ((j, old) ∷ blocks) (ws, all) = elim (Bool-cases (j == d)) [
    | inl here ↦ rw here (remove-Waiting index d blocks all)
    | inr there ↦ rw there ((ws, ground arith), remove-Waiting index d blocks all)
  ]

  pub lookup-Waiting :
      (index : Map ℕ) (d : Digest) (blocks : Map Blocks)
      → Waiting Stale index blocks
      → All (IsWaiting Stale index d) (or_no_blocks (lookup d blocks))
  unfolding lookup
  lookup-Waiting index d [] all = tt
  lookup-Waiting index d ((j, old) ∷ blocks) (ws, all) = elim (Bool-cases (j == d)) [
    | inl here ↦ let same : j ≡ d = ground arith in rw here (rw same at ws)
    | inr there ↦ rw there (lookup-Waiting index d blocks all)
  ]

module _ (index : Map ℕ) (d key : ℕ) where
  abbrev pub grown : Map ℕ
  grown = insert d key index

  pub Known-insert : (b : Digest) → Known index b → Known grown b
  Known-insert b (k, e) = elim (Bool-cases (d == b)) [
    | inl here ↦ (key, ground (arith, lookup-insert d b key index))
    | inr there ↦ (k, ground (arith, lookup-insert d b key index))
  ]

  WaitsFor-insert :
      (j : Digest) (block : Digest × Message.Block)
      → WaitsFor index j block
      → WaitsFor grown j block
  WaitsFor-insert j block (inl e) = inl e
  WaitsFor-insert j block (inr (e, known)) = inr (e, Known-insert block.1.parent known)

  pub Fitting-insert : (blocks : Map Blocks) → Fitting index blocks → Fitting grown blocks
  Fitting-insert blocks all =
      All-map blocks (λ entry ws. All-map entry.1 (WaitsFor-insert entry.0) ws) all

  IsWaiting-insert :
      (Stale : Exempt) (j : Digest) (block : Digest × Message.Block)
      → (d == j) ≡ false
      → IsWaiting Stale index j block
      → IsWaiting Stale grown j block
  IsWaiting-insert Stale j block other (w, inl missing) =
      (WaitsFor-insert j block w, inl (ground (arith, lookup-insert d j key index)))
  IsWaiting-insert Stale j block other (w, inr stale) = (WaitsFor-insert j block w, inr stale)

  -- The entries for other digests stay right when the digest is stored.
  pub Waiting-insert :
      (Stale : Exempt) (blocks : Map Blocks)
      → All (λ entry. IsEntry Stale index entry × ((d == entry.0) ≡ false)) blocks
      → Waiting Stale grown blocks
  Waiting-insert Stale blocks all =
      All-map blocks
        (λ entry (ws, other).
          All-map entry.1 (λ block w. IsWaiting-insert Stale entry.0 block other w) ws)
        all

  -- A block that waited for the digest has its parent now.
  pub WaitsFor-parent :
      (block : Digest × Message.Block) → WaitsFor index d block → Known grown block.1.parent
  WaitsFor-parent block (inl e) = (key, ground (arith, e, lookup-insert d block.1.parent key index))
  WaitsFor-parent block (inr (e, known)) = Known-insert block.1.parent known
