-- ===== src/Hotstuff/Replica/Pending.antt =====
-- The loop of `Replica::receive` over the pending blocks comes to an end.
use bft_kit.Base.{
  ℕ, zero, suc, ◌+◌, ◌*◌, ◌≤◌, ◌<◌, ◌≡◌, ◌≢◌, refl, ◌∙◌, ap, none, some, List, [], ◌∷◌, ◌++◌,
  length, length-append, done, out_of_fuel, >>=-ends, >>=-eq-done, done-ends, Bool-cases,
  Option-cases, inl, inr, arith,
}
use bft_kit.Base.Map.{Map, lookup, remove, extend_entry}
use bft_kit.Crypto.{Digest}
use bft_kit.Hotstuff.Message
use bft_kit.Hotstuff.Slab.{Slab, IsSlab}
use bft_kit.Hotstuff.Core.{ReplicaCoreEvent, handle}
use bft_kit.Hotstuff.Core.Quiet.{done_eq}
use bft_kit.Hotstuff.Core.Ancestors.{Ranked}
use bft_kit.Hotstuff.Core.Stored.{handle-Ranked}
use bft_kit.Hotstuff.Core.Total.{handle-ends}
use bft_kit.Hotstuff.Replica.{Replica, feed}
use bft_kit.Hotstuff.Replica.Receive.{
  Blocks, or_no_blocks, total, pop, knows, postpone, hand_over, handle_pending, pending_fuel,
}

module _ {ℓ} {A : Type ℓ} where
  pop-none : (xs : List A) → pop xs ≡ none → xs ≡ []
  unfolding pop
  pop-none [] h = refl
  pop-none (y ∷ xs) h = elim (Option-cases (pop xs)) [
    | inl e ↦ absurd (ground arith)
    | inr (r, e) ↦ absurd (ground arith)
  ]

  pub append-pop :
      (xs : List A) {rest : List A} {x : A} → pop xs ≡ some (rest, x) → xs ≡ rest ++ x ∷ []
  unfolding pop
  append-pop [] h = absurd (cc)
  append-pop (y ∷ xs) {rest} {x} h = elim (Option-cases (pop xs)) [
    | inl e ↦ ground (arith, pop-none xs)
    | inr ((rest', last), e) ↦
        let ih = append-pop xs e in
        let same : y ∷ rest' ≡ rest = ground arith in
        let same' : last ≡ x = ground arith in rw (← same, ← same') (ap (λ l. y ∷ l) ih)
  ]

pub total-extend :
    (k : ℕ) (blocks : Blocks) (m : Map Blocks)
    → total (extend_entry k blocks m) ≡ length blocks + total m
unfolding total extend_entry
total-extend k blocks [] = refl
total-extend k blocks ((j, old) ∷ m) =
    ground (arith, total-extend k blocks m, length-append old blocks)

pub total-remove :
    (k : ℕ) (m : Map Blocks) → length (or_no_blocks (lookup k m)) + total (remove k m) ≤ total m
unfolding total remove lookup
total-remove k [] = omega arith
total-remove k ((j, old) ∷ m) = ground (arith, total-remove k m)

module _ (slab : Slab) (laws : IsSlab slab) where
  pub feed-Ranked :
      (r : Replica slab) (event : ReplicaCoreEvent) {r' : Replica slab}
      → Ranked slab r.core
      → feed slab r event ≡ done r'
      → Ranked slab r'.core
  unfolding feed
  feed-Ranked r event k h =
      let (s, e, h2) = >>=-eq-done (handle slab r.core event) _ h in
      rw (← done_eq h2) (handle-Ranked slab laws r.core event k e)

  pub feed-ends :
      (r : Replica slab) (event : ReplicaCoreEvent)
      → Ranked slab r.core
      → feed slab r event ≢ out_of_fuel
  unfolding feed
  feed-ends r event k =
      >>=-ends (handle slab r.core event) _ (handle-ends slab laws r.core event k)
        (λ s e. done-ends _)

  hand_over-ends :
      (r : Replica slab) (pending : Blocks) (block : Digest × Message.Block)
      → Ranked slab r.core
      → hand_over slab r pending block ≢ out_of_fuel
  unfolding hand_over
  hand_over-ends r pending (block_digest, block) k =
      >>=-ends
        (feed slab (record r { reordering_blocks = remove block_digest r.reordering_blocks })
          (ReplicaCoreEvent.proposal block_digest block))
        _ (feed-ends (record r { reordering_blocks = remove block_digest r.reordering_blocks }) _ k)
        (λ s e. done-ends _)

  -- How many blocks are pending or wait.
  abbrev around : Replica slab → Blocks → ℕ
  around r pending = length pending + total r.reordering_blocks

  feed_waiting :
      (r : Replica slab) (event : ReplicaCoreEvent) {r' : Replica slab}
      → feed slab r event ≡ done r'
      → r'.reordering_blocks ≡ r.reordering_blocks
  unfolding feed
  feed_waiting r event h =
      let (s, e, h2) = >>=-eq-done (handle slab r.core event) _ h in rw (← done_eq h2) refl

  hand_over-around :
      (r : Replica slab) (pending : Blocks) (block : Digest × Message.Block)
      {next : Replica slab × Blocks}
      → hand_over slab r pending block ≡ done next
      → Ranked slab r.core
      → Ranked slab next.0.core × (around next.0 next.1 ≤ around r pending)
  unfolding hand_over
  hand_over-around r pending (block_digest, block) h k =
      let r0 : Replica slab = record r {
        reordering_blocks = remove block_digest r.reordering_blocks;
      } in
      let event = ReplicaCoreEvent.proposal block_digest block in
      let (s, e, h2) = >>=-eq-done (feed slab r0 event) _ h in
      let waiting = feed_waiting r0 event e in
      let others = or_no_blocks (lookup block_digest r.reordering_blocks) in
      rw (← done_eq h2) (
        feed-Ranked r0 event k e,
        omega (
          arith,
          length-append pending others,
          ap total waiting,
          total-remove block_digest r.reordering_blocks,
        ),
      )

  -- One round of the loop, by what `pop` gives.
  handle_pending-step :
      (fuel : ℕ) (r : Replica slab) (pending : Blocks)
      → ((rest : Blocks) (block : Digest × Message.Block)
          → pending ≡ rest ++ block ∷ []
          → handle_pending slab fuel (postpone slab r block.1.justify.node block) rest
            ≢ out_of_fuel)
      → ((rest : Blocks) (block : Digest × Message.Block) (next : Replica slab × Blocks)
          → pending ≡ rest ++ block ∷ []
          → hand_over slab r rest block ≡ done next
          → handle_pending slab fuel next.0 next.1 ≢ out_of_fuel)
      → Ranked slab r.core
      → handle_pending slab (suc fuel) r pending ≢ out_of_fuel
  unfolding handle_pending
  handle_pending-step fuel r pending later now k = elim (Option-cases (pop pending)) [
    | inl e ↦ rw (e, handle_pending) (done-ends _)
    | inr ((rest, block), e) ↦
        let split = append-pop pending e in
        rw (e, handle_pending)
          (elim (Bool-cases (knows slab r block.1.justify.node)) [
            | inr unknown ↦ rw unknown (later rest block split)
            | inl known ↦ rw known (
                >>=-ends (hand_over slab r rest block) _ (hand_over-ends r rest block k)
                  (λ next e2. now rest block next split e2))
          ])
  ]

  handle_pending-ends :
      (fuel n : ℕ) (r : Replica slab) (pending : Blocks)
      → Ranked slab r.core
      → around r pending ≤ n
      → n * (n + 1) + length pending < fuel
      → handle_pending slab fuel r pending ≢ out_of_fuel
  unfolding postpone
  handle_pending-ends zero n r pending k le lt = absurd (omega arith)
  handle_pending-ends (suc fuel) zero r pending k le lt =
      handle_pending-step fuel r pending
        (λ rest block split.
          absurd (omega (arith, ap length split, length-append rest (block ∷ []))))
        (λ rest block next split e.
          absurd (omega (arith, ap length split, length-append rest (block ∷ []))))
        k
  handle_pending-ends (suc fuel) (suc n) r pending k le lt =
      let square : suc n * (suc n + 1) ≡ n * (n + 1) + (n + n + 2) = grind arith in
      handle_pending-step fuel r pending
        (λ rest block split.
          let shorter = ap length split ∙ length-append rest (block ∷ []) in
          handle_pending-ends fuel (suc n) (postpone slab r block.1.justify.node block) rest k
            (omega
              (arith, shorter, total-extend block.1.justify.node (block ∷ []) r.reordering_blocks))
            (omega (arith, shorter)))
        (λ rest block next split e.
          let shorter = ap length split ∙ length-append rest (block ∷ []) in
          let (k', around') = hand_over-around r rest block e k in
          handle_pending-ends fuel n next.0 next.1 k' (omega (arith, shorter))
            (omega (arith, shorter, square)))
        k

  -- On a core whose nodes are stored after their parents, the loop handles all that is pending and all
  -- that it frees: the fuel, a square of the number of blocks that are pending or wait, is enough.
  pub handle_pending_enough :
      (r : Replica slab) (pending : Blocks)
      → Ranked slab r.core
      → handle_pending slab (pending_fuel slab r pending) r pending ≢ out_of_fuel
  unfolding pending_fuel
  handle_pending_enough r pending k =
      handle_pending-ends (pending_fuel slab r pending) (around r pending) r pending k (omega arith)
        (omega arith)
