-- ===== src/Pbft/Core/Certificates.antt =====
-- The blocks of the core: each has the digest of its commands, and each certificate has as many votes,
-- of different replicas, as the protocol asks for.
use bft_kit.Base.{
  ℕ, ◌+◌, ◌≤◌, ◌≡◌, refl, not, Option, none, some, [], ◌∷◌, length, ◌==◌, is_some, Bool-cases, inl,
  inr, assert, unwrap, Outcome, done, >>=-eq-done, arith,
}
use bft_kit.Base.Map.{lookup, contains, insert, lookup-insert, IsSortedFrom}
use bft_kit.Command.{Command}
use bft_kit.Pool
use bft_kit.Crypto.{Primitives, Sig, block_digest}
use bft_kit.Pbft.Core.{
  Spec, primary, quorum_size, Block, Quorum, ReplicaCore, ReplicaCoreEvent, ReplicaCoreAction,
  Actions, is_primary, propose_all, finalize_all, on_request, on_proposal, on_prepare_quorum,
  on_commit_quorum, handle,
}
use bft_kit.Pbft.Core.Phases.{done_pair}
use bft_kit.Pbft.Core.SameBlocks.{
  SameBlocks, SameBlocks-trans, propose_all-SameBlocks, finalize_all-SameBlocks,
}

-- Votes of different replicas, `missing` fewer than a quorum at the most.
abbrev pub IsCertificate : Spec → ℕ → Quorum Sig → Type 0
IsCertificate spec missing quorum =
    IsSortedFrom 0 quorum × (quorum_size spec ≤ length quorum + missing)

abbrev pub HasCertificate : Spec → ℕ → Option (Quorum Sig) → Type 0
HasCertificate spec missing none = Unit
HasCertificate spec missing (some quorum) = IsCertificate spec missing quorum

pub record BlockFits (prim : Primitives) (spec : Spec) (block : Block) : Type 0 where
  pub digest : block.digest ≡ block_digest prim block.commands
  -- The `PrePrepare` stands for the vote that is missing.
  pub prepared : HasCertificate spec 1 block.prepare_quorum
  pub committed : HasCertificate spec 0 block.commit_quorum

abbrev pub CoreFits : Primitives → ReplicaCore → Type 0
CoreFits prim core =
    (n : ℕ) (block : Block)
    → lookup n core.blocks ≡ some block
    → BlockFits prim core.config.spec block

-- What an event has to bring for the blocks to stay as they should be.
abbrev pub EventFits : Primitives → Spec → ReplicaCoreEvent → Type 0
EventFits prim spec (ReplicaCoreEvent.request command) = Unit
EventFits prim spec (ReplicaCoreEvent.proposal n block) = BlockFits prim spec block
EventFits prim spec (ReplicaCoreEvent.prepare_quorum n quorum) = IsCertificate spec 1 quorum
EventFits prim spec (ReplicaCoreEvent.commit_quorum n quorum) = IsCertificate spec 0 quorum
EventFits prim spec _ = ⊥

module _ (prim : Primitives) where
  SameBlocks-Fits :
      {core core' : ReplicaCore} → SameBlocks core core' → CoreFits prim core → CoreFits prim core'
  SameBlocks-Fits s fits n block found = rw s.config (fits n block (rw s.blocks at found))

  insert-Fits :
      (core : ReplicaCore) (n : ℕ) (block : Block)
      → BlockFits prim core.config.spec block
      → CoreFits prim core
      → CoreFits prim (record core { blocks = insert n block core.blocks })
  insert-Fits core n block one fits k b found = elim (Bool-cases (n == k)) [
    | inl e ↦
        let same : some block ≡ some b = ground (arith, lookup-insert n k block core.blocks) in
        let same' : block ≡ b = cc in rw (← same') one
    | inr e ↦ fits k b (ground (arith, lookup-insert n k block core.blocks))
  ]

  on_request-Fits :
      (core : ReplicaCore) (command : Command) {core' : ReplicaCore} {actions : Actions}
      → on_request core command ≡ done (core', actions)
      → CoreFits prim core
      → CoreFits prim core' × (core'.config ≡ core.config)
  unfolding on_request
  on_request-Fits core command {core'} {actions} h fits =
      let (r, pushes, h2) = >>=-eq-done (Pool.push core.pool command) _ h in
      let core1 : ReplicaCore = record core { pool = r.0 } in
      elim (Bool-cases (is_primary core1)) [
        | inl e ↦
            let proposes : propose_all core1 ≡ done (core', actions) = rw e at h2 in
            let same = propose_all-SameBlocks core1 proposes in
            (SameBlocks-Fits same fits, same.config)
        | inr e ↦
            let h3 : ◌≡◌ {A = Outcome (ReplicaCore × Actions)}
                (done (
                  core1,
                  ReplicaCoreAction.forward (primary core.config.spec core.view_num) command ∷ [],
                ))
                (done (core', actions)) =
              rw e at h2 in
            rw (← (done_pair h3).0) (fits, refl)
      ]

  on_proposal-Fits :
      (core : ReplicaCore) (n : ℕ) (block : Block)
      → BlockFits prim core.config.spec block
      → CoreFits prim core
      → CoreFits prim (on_proposal core n block).0
        × ((on_proposal core n block).0.config ≡ core.config)
  unfolding on_proposal
  on_proposal-Fits core n block one fits = elim (Bool-cases (contains n core.blocks)) [
    | inl e ↦ rw e (fits, refl)
    | inr e ↦ rw e (insert-Fits core n block one fits, refl)
  ]

  -- The core keeps its blocks as they should be, and its configuration.
  pub handle-Fits :
      (core : ReplicaCore) (event : ReplicaCoreEvent) {core' : ReplicaCore} {actions : Actions}
      → EventFits prim core.config.spec event
      → handle prim core event ≡ done (core', actions)
      → CoreFits prim core
      → CoreFits prim core' × (core'.config ≡ core.config)
  unfolding handle on_request on_proposal on_prepare_quorum on_commit_quorum
  handle-Fits core (ReplicaCoreEvent.request command) e h fits = on_request-Fits core command h fits
  handle-Fits core (ReplicaCoreEvent.proposal n block) e h fits =
      rw (← (done_pair h).0) (on_proposal-Fits core n block e fits)
  handle-Fits core (ReplicaCoreEvent.prepare_quorum n q) e h fits =
      let (block, found, h2) = >>=-eq-done (unwrap (lookup n core.blocks)) _ h in
      let (u, fresh, h3) = >>=-eq-done (assert (not (is_some block.prepare_quorum))) _ h2 in
      let (same, one) = done_pair h3 in
      let f = fits n block (ground arith) in
      rw (← same) (
        insert-Fits core n _ (record { digest = f.digest; prepared = e; committed = f.committed })
            fits,
        refl,
      )
  handle-Fits core (ReplicaCoreEvent.commit_quorum n q) e h fits =
      let (block, found, h2) = >>=-eq-done (unwrap (lookup n core.blocks)) _ h in
      let (u, fresh, h3) = >>=-eq-done (assert (not (is_some block.commit_quorum))) _ h2 in
      let block' : Block = record block { commit_quorum = some q } in
      let core1 : ReplicaCore = record core { blocks = insert n block' core.blocks } in
      let (f, finalizes, h4) = >>=-eq-done (finalize_all core1) _ h3 in
      let (s, proposes, h5) = >>=-eq-done (propose_all f.0) _ h4 in
      let (same, all) = done_pair h5 in
      let b = fits n block (ground arith) in
      let fits1 =
        insert-Fits core n block'
          (record { digest = b.digest; prepared = b.prepared; committed = e }) fits in
      let through =
        SameBlocks-trans (finalize_all-SameBlocks core1 finalizes)
          (propose_all-SameBlocks f.0 proposes) in
      rw (← same) (SameBlocks-Fits through fits1, through.config)
  handle-Fits core ReplicaCoreEvent.view_expired e h fits = absurd e
  handle-Fits core (ReplicaCoreEvent.view_change_quorum view_num quorum) e h fits = absurd e
  handle-Fits core (ReplicaCoreEvent.enter_view view_num quorum proposals) e h fits = absurd e
