-- ===== src/Hotstuff/Replica/Released.antt =====
-- What the blocks in `reordering_blocks` wait for, through the `match` of `Replica::receive` in
-- `src/hotstuff/mod.rs`.
use bft_kit.Base.{
  ℕ, zero, suc, ◌≡◌, refl, ◌∙◌, inl, inr, true, not, none, some, List, [], ◌∷◌, ◌++◌, ◌==◌, ok, err,
  done, assert, unwrap, >>=-eq-done, Bool-cases, Option-cases, All, All-append, arith,
}
use bft_kit.Base.Map.{Map, lookup, insert, remove, contains}
use bft_kit.Base.Lists.Indexing.{All-map}
use bft_kit.Crypto
use bft_kit.Crypto.{Primitives, Digest, digest}
use bft_kit.Crypto.Threshold.{Schemes, Added}
use bft_kit.Hotstuff.Message
use bft_kit.Hotstuff.Message.{Generic, VoteGeneric, block_bytes}
use bft_kit.Hotstuff.Slab.{Slab}
use bft_kit.Hotstuff.Core.{ReplicaCore, ReplicaCoreEvent, Actions, handle}
use bft_kit.Hotstuff.Core.Quiet.{done_eq}
use bft_kit.Hotstuff.Core.Indexed.{proposal-index, quorum_cert-index}
use bft_kit.Hotstuff.Replica.{
  Replica, ToReplica, QuorumCertScratch, feed, certify, handle_vote_generic,
}
use bft_kit.Hotstuff.Replica.Receive.{
  Blocks, or_no_blocks, Flow, return, proceed, pop, knows, postpone, hand_over, handle_pending,
  pending_fuel, accepts_justify, admit, on_generic, dispatch,
}
use bft_kit.Hotstuff.Replica.Pending.{append-pop}
use bft_kit.Hotstuff.Replica.Waiting.{
  Known, Exempt, Fitting, Waiting, HasParents, grown, extend-Waiting, remove-Waiting,
  lookup-Waiting, Known-insert, Waiting-insert, WaitsFor-parent,
}

All-init {ℓ κ} :
    {A : Type ℓ} (P : A → Type κ) (xs : List A) (x : A) → All P (xs ++ x ∷ []) → All P xs × P x
All-init P [] x (p, ps) = (tt, p)
All-init P (y ∷ xs) x (p, ps) = let (qs, q) = All-init P xs x ps in ((p, qs), q)

module _ (slab : Slab) where
  abbrev pub flow_replica : Flow slab → Replica slab
  flow_replica (return r) = r
  flow_replica (proceed r) = r

  -- What the replica keeps of a call of the core.
  pub record Fed (r r' : Replica slab) (event : ReplicaCoreEvent) : Type 0 where
    pub answer : ReplicaCore slab × Actions
    pub handled : handle slab r.core event ≡ done answer
    pub index : r'.core.node_index ≡ answer.0.node_index
    pub waiting : r'.reordering_blocks ≡ r.reordering_blocks

  pub feed-Fed :
      (r : Replica slab) (event : ReplicaCoreEvent) {r' : Replica slab}
      → feed slab r event ≡ done r'
      → Fed r r' event
  unfolding feed
  feed-Fed r event h =
      let (s, e, h2) = >>=-eq-done (handle slab r.core event) _ h in
      record {
        answer = s;
        handled = e;
        index = rw (← done_eq h2) refl;
        waiting = rw (← done_eq h2) refl;
      }

  module _ (Stale : Exempt) where
    -- Each block waits for its parent or for what it justifies, and only those that are exempt wait for
    -- one that is there.
    abbrev pub Waits : Replica slab → Type 0
    Waits r = Waiting Stale r.core.node_index r.reordering_blocks

    hand_over-Waits :
        (r : Replica slab) (pending : Blocks) (block : Digest × Message.Block)
        {next : Replica slab × Blocks}
        → hand_over slab r pending block ≡ done next
        → Waits r
        → HasParents r.core.node_index pending
        → Waits next.0 × HasParents next.0.core.node_index next.1
    unfolding hand_over
    hand_over-Waits r pending (d, block) h w p =
        let r0 : Replica slab = record r { reordering_blocks = remove d r.reordering_blocks } in
        let event = ReplicaCoreEvent.proposal d block in
        let (s, e, h2) = >>=-eq-done (feed slab r0 event) _ h in
        let fed = feed-Fed r0 event e in
        let (key, grows) = proposal-index slab r.core d block fed.handled in
        let index' = fed.index ∙ grows in
        let others = or_no_blocks (lookup d r.reordering_blocks) in
        rw (← done_eq h2, index', fed.waiting)
          (
            Waiting-insert r.core.node_index d key Stale (remove d r.reordering_blocks)
                (remove-Waiting Stale r.core.node_index d r.reordering_blocks w),
            All-append (λ b. Known (grown r.core.node_index d key) b.1.parent) pending others
                (All-map pending (λ b known. Known-insert r.core.node_index d key b.1.parent known)
                  p)
                (All-map others (λ b w. WaitsFor-parent r.core.node_index d key b w.0)
                  (lookup-Waiting Stale r.core.node_index d r.reordering_blocks w)),
          )

    handle_pending-Waits :
        (fuel : ℕ) (r : Replica slab) (pending : Blocks) {r' : Replica slab}
        → handle_pending slab fuel r pending ≡ done r'
        → Waits r
        → HasParents r.core.node_index pending
        → Waits r'
    unfolding handle_pending postpone
    handle_pending-Waits zero r pending h w p = absurd (cc)
    handle_pending-Waits (suc fuel) r pending {r'} h w p = elim (Option-cases (pop pending)) [
      | inl e ↦ let same : r ≡ r' = done_eq (rw (e, handle_pending) at h) in rw (← same) w
      | inr ((rest, block), e) ↦
          let (p', known) =
            All-init (λ b. Known r.core.node_index b.1.parent) rest block
              (rw (append-pop pending e) at p) in
          let h1 = rw (e, handle_pending) at h in
          elim (Bool-cases (knows slab r block.1.justify.node)) [
            | inr unknown ↦
                let missing : lookup block.1.justify.node r.core.node_index ≡ none = ground arith in
                handle_pending-Waits fuel (postpone slab r block.1.justify.node block) rest
                  (rw unknown at h1)
                  (extend-Waiting Stale r.core.node_index block.1.justify.node block
                    r.reordering_blocks missing (inr (refl, known)) w)
                  p'
            | inl there ↦
                let (next, e2, h2) = >>=-eq-done (hand_over slab r rest block) _ (rw there at h1) in
                let (w', p'') = hand_over-Waits r rest block e2 w p' in
                handle_pending-Waits fuel next.0 next.1 h2 w' p''
          ]
    ]

    certify-Waits :
        (schemes : Schemes) (r : Replica slab) (vote : VoteGeneric) (scratch : QuorumCertScratch)
        (added : Added) {r' : Replica slab}
        → certify slab schemes r vote scratch added ≡ done r'
        → Waits r
        → Waits r'
    unfolding certify
    certify-Waits schemes r vote scratch (sigs, err) h w = absurd (cc)
    certify-Waits schemes r vote scratch (sigs, ok none) h w = rw (← done_eq h) w
    certify-Waits schemes r vote scratch (sigs, ok (some sig)) h w =
        let (u, stored, h2) = >>=-eq-done (assert (contains vote.node r.core.node_index)) _ h in
        let fed =
          feed-Fed (record r { quorum_cert_scratches = remove vote.node r.quorum_cert_scratches }) _
            h2 in
        let index = fed.index ∙ quorum_cert-index slab r.core _ fed.handled in
        rw (index, fed.waiting) w

    pub handle_vote_generic-Waits :
        (schemes : Schemes) (r : Replica slab) (vote : VoteGeneric) {r' : Replica slab}
        → handle_vote_generic slab schemes r vote ≡ done r'
        → Waits r
        → Waits r'
    unfolding handle_vote_generic
    handle_vote_generic-Waits schemes r vote h w =
        let (scratch, e, h2) =
          >>=-eq-done (unwrap (lookup vote.node r.quorum_cert_scratches)) _ h in
        certify-Waits schemes r vote scratch _ h2 w

    module _ (prim : Primitives) (schemes : Schemes)
        (order : Map Crypto.Sig → List (ℕ × Crypto.Sig)) where
      admit-Waits :
          (r : Replica slab) (generic : Generic) (block : Message.Block) {flow : Flow slab}
          → admit slab prim schemes order r generic block ≡ done flow
          → Waits r
          → Waits (flow_replica flow)
      unfolding admit postpone
      admit-Waits r generic block h w =
          let r0 : Replica slab = record r {
            block_signers = insert generic.block generic.signers r.block_signers;
          } in
          let (u, fresh, h2) =
            >>=-eq-done (assert (not (contains generic.block r.block_signers))) _ h in
          elim (Bool-cases (knows slab r0 block.parent)) [
            | inr unknown ↦
                let missing : lookup block.parent r.core.node_index ≡ none = ground arith in
                rw (← done_eq (rw unknown at h2)) (
                  extend-Waiting Stale r.core.node_index block.parent (generic.block, block)
                    r.reordering_blocks missing (inl refl) w)
            | inl there ↦
                let first : Blocks = (generic.block, block) ∷ [] in
                let (r1, loops, h3) =
                  >>=-eq-done (handle_pending slab (pending_fuel slab r0 first) r0 first) _
                    (rw there at h2) in
                rw (← done_eq h3) (
                  handle_pending-Waits (pending_fuel slab r0 first) r0 first loops w
                    (known_of r.core.node_index block.parent there, tt))
          ]
        where
          known_of : (index : Map ℕ) (d : Digest) → contains d index ≡ true → Known index d
          known_of index d h = elim (Option-cases (lookup d index)) [
            | inl e ↦ absurd (ground arith)
            | inr found ↦ found
          ]

      on_generic-Waits :
          (r : Replica slab) (generic : Generic) (block : Message.Block) {flow : Flow slab}
          → on_generic slab prim schemes order r generic block ≡ done flow
          → Waits r
          → Waits (flow_replica flow)
      unfolding on_generic
      on_generic-Waits r generic block h w = elim (Bool-cases (knows slab r generic.block)) [
        | inl old ↦ rw (← done_eq (rw old at h)) w
        | inr new ↦
            let h1 = rw new at h in
            elim (Bool-cases (digest prim (block_bytes block) == generic.block)) [
              | inr wrong ↦ rw (← done_eq (rw wrong at h1)) w
              | inl right ↦
                  let (accepted, checks, h2) =
                    >>=-eq-done (accepts_justify slab prim schemes order r block) _
                      (rw right at h1) in
                  elim (Bool-cases accepted) [
                    | inr forged ↦ rw (← done_eq (rw forged at h2)) w
                    | inl good ↦ admit-Waits r generic block (rw good at h2) w
                  ]
            ]
      ]

      pub dispatch-Waiting :
          (r : Replica slab) (message : ToReplica) {flow : Flow slab}
          → dispatch slab prim schemes order r message ≡ done flow
          → Waits r
          → Waits (flow_replica flow)
      unfolding dispatch
      dispatch-Waiting r (ToReplica.generic generic block) h w =
          on_generic-Waits r generic block h w
      dispatch-Waiting r (ToReplica.vote_generic vote) h w =
          let (r', votes, h2) = >>=-eq-done (handle_vote_generic slab schemes r vote) _ h in
          rw (← done_eq h2) (handle_vote_generic-Waits schemes r vote votes w)
      dispatch-Waiting r (ToReplica.public_commitments_supply index supply) h w = rw (← done_eq h) w

  -- Each block waits for its parent, or, its parent being there, for what it justifies.
  abbrev pub Fits : Replica slab → Type 0
  Fits r = Fitting r.core.node_index r.reordering_blocks

  pub Waits-Fits : (Stale : Exempt) (r : Replica slab) → Waits Stale r → Fits r
  Waits-Fits Stale r all =
      All-map r.reordering_blocks (λ entry ws. All-map entry.1 (λ block w. w.0) ws) all

  pub handle_vote_generic-Fits :
      (schemes : Schemes) (r : Replica slab) (vote : VoteGeneric) {r' : Replica slab}
      → handle_vote_generic slab schemes r vote ≡ done r'
      → Fits r
      → Fits r'
  handle_vote_generic-Fits schemes r vote {r'} h fits =
      let all =
        All-map r.reordering_blocks (λ entry ws. All-map entry.1 (λ block w. (w, inr tt)) ws)
          fits in
      Waits-Fits (λ d block. Unit) r'
        (handle_vote_generic-Waits (λ d block. Unit) schemes r vote h all)
