-- ===== src/Pbft/Core/Signed.antt =====
-- The votes in the certificates of the core are for the digests of its blocks.
use bft_kit.Base.{
  ℕ, ◌≡◌, refl, sym, ◌∙◌, Bool, not, Option, none, some, [], ◌∷◌, ◌==◌, is_some, Bool-cases,
  Option-cases, inl, inr, assert, unwrap, Outcome, done, >>=-eq-done, arith,
}
use bft_kit.Base.Map.{lookup, insert, lookup-insert}
use bft_kit.Command.{Command}
use bft_kit.Pool
use bft_kit.Crypto.{Primitives, Digest, Sig}
use bft_kit.Pbft.Core.{
  primary, Block, Quorum, ReplicaCore, ReplicaCoreEvent, ReplicaCoreAction, Actions, is_primary,
  propose_all, finalize_all, on_request, on_proposal, handle,
}
use bft_kit.Pbft.Core.Phases.{
  Within, SameRole, SameRole-trans, done_pair, propose_all-Within, commit_quorum-Within,
}
use bft_kit.Pbft.Core.SameBlocks.{
  SameBlocks, SameBlocks-trans, propose_all-SameBlocks, finalize_all-SameBlocks,
}
use bft_kit.Pbft.Core.Grows.{
  HasDigest, Grows, ActionsFit, Grows-refl, Grows-trans, Within-Fit, insert-Grows, SameBlocks-Grows,
}

module _ (Signed : ℕ → Digest → ℕ → Sig → Type 0) where
  abbrev pub AreSigned : ℕ → Digest → Quorum Sig → Type 0
  AreSigned n d quorum = (i : ℕ) (s : Sig) → lookup i quorum ≡ some s → Signed n d i s

  abbrev pub MaybeSigned : ℕ → Digest → Option (Quorum Sig) → Type 0
  MaybeSigned n d none = Unit
  MaybeSigned n d (some quorum) = AreSigned n d quorum

  pub record BlockSigned (n : ℕ) (block : Block) : Type 0 where
    pub prepared : MaybeSigned n block.digest block.prepare_quorum
    pub committed : MaybeSigned n block.digest block.commit_quorum

  abbrev pub CoreSigned : ReplicaCore → Type 0
  CoreSigned core =
      (n : ℕ) (block : Block) → lookup n core.blocks ≡ some block → BlockSigned n block

  -- What an event has to bring.
  abbrev pub EventSigned : ReplicaCore → ReplicaCoreEvent → Type 0
  EventSigned core (ReplicaCoreEvent.request command) = Unit
  EventSigned core (ReplicaCoreEvent.proposal n block) = BlockSigned n block
  EventSigned core (ReplicaCoreEvent.prepare_quorum n quorum) =
      (d : Digest) → HasDigest core n d → AreSigned n d quorum
  EventSigned core (ReplicaCoreEvent.commit_quorum n quorum) =
      (d : Digest) → HasDigest core n d → AreSigned n d quorum
  EventSigned core _ = ⊥

  insert-Signed :
      (core : ReplicaCore) (n : ℕ) (block : Block)
      → BlockSigned n block
      → CoreSigned core
      → CoreSigned (record core { blocks = insert n block core.blocks })
  insert-Signed core n block one signed k b found = elim (Bool-cases (n == k)) [
    | inl e ↦
        let e' : n ≡ k = ground arith in
        let same : some block ≡ some b =
          ground (arith, found, lookup-insert n k block core.blocks) in
        let same' : block ≡ b = cc in rw (← same', ← e') one
    | inr e ↦ signed k b (ground (arith, found, lookup-insert n k block core.blocks))
  ]

  -- What a step of the core does.
  pub record Signs (core core' : ReplicaCore) (actions : Actions) : Type 0 where
    pub grows : Grows core core'
    pub actions_fit : ActionsFit core' actions
    pub core_signed : CoreSigned core'

  SameBlocks-Signs :
      {core core' : ReplicaCore} {actions : Actions} (p : Bool)
      → SameRole core core'
      → Within p 1 actions
      → SameBlocks core core'
      → CoreSigned core
      → Signs core core' actions
  SameBlocks-Signs {core} {core'} {actions} p role late s signed = record {
    grows = SameBlocks-Grows role s;
    actions_fit = Within-Fit core' p actions late;
    core_signed = λ n block found. signed n block (rw s.blocks at found);
  }

  on_request-Signs :
      (core : ReplicaCore) (command : Command) {core' : ReplicaCore} {actions : Actions}
      → on_request core command ≡ done (core', actions)
      → CoreSigned core
      → Signs core core' actions
  unfolding on_request
  on_request-Signs core command {core'} {actions} h signed =
      let (r, pushes, h2) = >>=-eq-done (Pool.push core.pool command) _ h in
      let core1 : ReplicaCore = record core { pool = r.0 } in
      elim (Bool-cases (is_primary core1)) [
        | inl e ↦
            let proposes : propose_all core1 ≡ done (core', actions) = rw e at h2 in
            let (role, late) = propose_all-Within core1 proposes in
            let s = propose_all-SameBlocks core1 proposes in
            SameBlocks-Signs (is_primary core1)
              (SameRole-trans {b = core1} (record { config = refl; view_num = refl }) role) late
              (record { config = s.config; blocks = s.blocks }) signed
        | inr e ↦
            let h3 : ◌≡◌ {A = Outcome (ReplicaCore × Actions)}
                (done (
                  core1,
                  ReplicaCoreAction.forward (primary core.config.spec core.view_num) command ∷ [],
                ))
                (done (core', actions)) =
              rw e at h2 in
            let (same, acts) = done_pair h3 in
            rw (← same, ← acts)
              (record {
                grows =
                    SameBlocks-Grows (record { config = refl; view_num = refl })
                      (record { config = refl; blocks = refl });
                actions_fit = (tt, tt);
                core_signed = signed;
              })
      ]

  on_proposal-Signs :
      (core : ReplicaCore) (n : ℕ) (block : Block)
      → BlockSigned n block
      → CoreSigned core
      → Signs core (on_proposal core n block).0 (on_proposal core n block).1
  unfolding on_proposal
  on_proposal-Signs core n block one signed = elim (Option-cases (lookup n core.blocks)) [
    | inr (old, e) ↦
        rw e (record { grows = Grows-refl core; actions_fit = tt; core_signed = signed })
    | inl e ↦ rw e (elim (Bool-cases (is_primary core)) [
      | inl p ↦ rw p (record {
        grows = insert-Grows core n block (λ old at. absurd (cc));
        actions_fit = tt;
        core_signed = insert-Signed core n block one signed;
      })
      | inr p ↦ rw p (record {
        grows = insert-Grows core n block (λ old at. absurd (cc));
        actions_fit = (
          record {
            block = block;
            at = ground (arith, lookup-insert n n block core.blocks);
            digest = refl;
          },
          tt,
        );
        core_signed = insert-Signed core n block one signed;
      })
    ])
  ]

  pub handle-Signs :
      (prim : Primitives) (core : ReplicaCore) (event : ReplicaCoreEvent) {core' : ReplicaCore}
      {actions : Actions}
      → EventSigned core event
      → handle prim core event ≡ done (core', actions)
      → CoreSigned core
      → Signs core core' actions
  unfolding handle
  handle-Signs prim core (ReplicaCoreEvent.request command) e h signed =
      on_request-Signs core command h signed
  handle-Signs prim core (ReplicaCoreEvent.proposal n block) e h signed =
      let (same, acts) = done_pair h in
      rw (← same, ← acts) (on_proposal-Signs core n block e signed)
  handle-Signs prim core (ReplicaCoreEvent.prepare_quorum n q) e h signed =
      let (block, found, h2) = >>=-eq-done (unwrap (lookup n core.blocks)) _ h in
      let (u, fresh, h3) = >>=-eq-done (assert (not (is_some block.prepare_quorum))) _ h2 in
      let (same, acts) = done_pair h3 in
      let at : lookup n core.blocks ≡ some block = ground arith in
      let old = signed n block at in
      rw (← same, ← acts)
        (record {
          grows = insert-Grows core n _ (λ b at'.
              let eq : some block ≡ some b = sym at ∙ at' in
              let eq' : block ≡ b = cc in rw (← eq') refl);
          actions_fit = (tt, tt);
          core_signed =
              insert-Signed core n _
                (record {
                  prepared = e block.digest (record { block = block; at = at; digest = refl });
                  committed = old.committed;
                })
                signed;
        })
  handle-Signs prim core (ReplicaCoreEvent.commit_quorum n q) {core'} {actions} e h signed =
      let (block, found, h2) = >>=-eq-done (unwrap (lookup n core.blocks)) _ h in
      let (u, fresh, h3) = >>=-eq-done (assert (not (is_some block.commit_quorum))) _ h2 in
      let block' : Block = record block { commit_quorum = some q } in
      let core1 : ReplicaCore = record core { blocks = insert n block' core.blocks } in
      let (f, finalizes, h4) = >>=-eq-done (finalize_all core1) _ h3 in
      let (s, proposes, h5) = >>=-eq-done (propose_all f.0) _ h4 in
      let (same, all) = done_pair h5 in
      let (role, late) = commit_quorum-Within prim n q h in
      let at : lookup n core.blocks ≡ some block = ground arith in
      let old = signed n block at in
      let grows1 : Grows core core1 = insert-Grows core n block' (λ b at'.
        let eq : some block ≡ some b = sym at ∙ at' in
        let eq' : block ≡ b = cc in rw (← eq') refl) in
      let signed1 =
        insert-Signed core n block'
          (record {
            prepared = old.prepared;
            committed = e block.digest (record { block = block; at = at; digest = refl });
          })
          signed in
      let through =
        SameBlocks-trans (finalize_all-SameBlocks core1 finalizes)
          (propose_all-SameBlocks f.0 proposes) in
      let through' : SameBlocks core1 core' = rw same at through in
      let role' : SameRole core1 core' = record {
        config = role.config;
        view_num = role.view_num;
      } in
      let rest =
        SameBlocks-Signs {core = core1} {core' = core'} {actions = actions} (is_primary core) role'
          late through' signed1 in
      record {
        grows = Grows-trans grows1 rest.grows;
        actions_fit = rest.actions_fit;
        core_signed = rest.core_signed;
      }
  handle-Signs prim core ReplicaCoreEvent.view_expired e h signed = absurd e
  handle-Signs prim core (ReplicaCoreEvent.view_change_quorum view_num quorum) e h signed = absurd e
  handle-Signs prim core (ReplicaCoreEvent.enter_view view_num quorum proposals) e h signed =
      absurd e
