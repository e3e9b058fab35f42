-- ===== src/Pbft/Core/Phases.antt =====
-- How far an action of the core can lead: every action is of a phase, and an event that an action
-- causes yields only actions of later phases.
use bft_kit.Base.{
  ℕ, zero, suc, ◌+◌, ◌≤◌, ◌≡◌, refl, sym, ◌∙◌, Bool, true, false, not, some, [], ◌∷◌, length, All,
  All-append, if◌then◌else◌, is_some, u32, Bool-cases, Option-cases, inl, inr, assert, unwrap,
  Outcome, done, >>=-eq-done, arith,
}
use bft_kit.Base.Map.{lookup, contains, insert}
use bft_kit.Pool
use bft_kit.Pool.{CommandPool}
use bft_kit.Crypto.{Primitives, Sig}
use bft_kit.Pbft.Core.{
  Block, Quorum, ReplicaCore, ReplicaCoreEvent, ReplicaCoreAction, Actions, is_primary, can_propose,
  propose_loop, propose_all, is_ready, commit_all, finalize_loop, finalize_all, on_proposal, handle,
}

-- The phases left from an action on, on the primary and on another replica.
abbrev pub phases_left : Bool → ReplicaCoreAction → ℕ
phases_left true (ReplicaCoreAction.propose block_num commands) = 1
phases_left false (ReplicaCoreAction.propose block_num commands) = 4
phases_left p (ReplicaCoreAction.prepare block_num digest) = 3
phases_left p (ReplicaCoreAction.commit block_num) = 2
phases_left p _ = 1

abbrev pub Within : Bool → ℕ → Actions → Type 0
Within p n actions = All (λ a. phases_left p a ≤ n) actions

-- Neither the configuration nor the view changes.
pub record SameRole (core core' : ReplicaCore) : Type 0 where
  pub config : core'.config ≡ core.config
  pub view_num : core'.view_num ≡ core.view_num

pub SameRole-refl : (core : ReplicaCore) → SameRole core core
SameRole-refl core = record { config = refl; view_num = refl }

pub SameRole-trans : {a b c : ReplicaCore} → SameRole a b → SameRole b c → SameRole a c
SameRole-trans s t = record { config = t.config ∙ s.config; view_num = t.view_num ∙ s.view_num }

pub SameRole-is_primary : {a b : ReplicaCore} → SameRole a b → is_primary b ≡ is_primary a
unfolding is_primary
SameRole-is_primary s = rw (s.config, s.view_num)

pub done_pair {ℓ κ} :
    {A : Type ℓ} {B : Type κ} {a a' : A} {b b' : B}
    → ◌≡◌ {A = Outcome (A × B)} (done (a, b)) (done (a', b'))
    → (a ≡ a') × (b ≡ b')
done_pair h = (cc, cc)

propose_loop-Within :
    (fuel : ℕ) (core : ReplicaCore) {core' : ReplicaCore} {actions : Actions}
    → propose_loop fuel core ≡ done (core', actions)
    → SameRole core core' × Within (is_primary core) 1 actions
unfolding propose_loop is_primary can_propose
propose_loop-Within zero core h = absurd (cc)
propose_loop-Within (suc fuel) core {core'} {actions} h = elim (Bool-cases (can_propose core)) [
  | inr e ↦
      let h' : ◌≡◌ {A = Outcome (ReplicaCore × Actions)} (done (core, [])) (done (core', actions)) =
        rw (e, propose_loop) at h in
      let (same, nil) = done_pair h' in (rw (← same) (SameRole-refl core), rw (← nil) tt)
  | inl e ↦
      let primary : is_primary core ≡ true = ground arith in
      let h' = rw (e, propose_loop) at h in
      let (r, closes, h2) =
        >>=-eq-done (Pool.close_batch core.pool core.config.max_batch_size) _ h' in
      elim (Option-cases r.1) [
        | inl e' ↦
            let h3 : ◌≡◌ {A = Outcome (ReplicaCore × Actions)}
                (done (record core { pool = r.0 }, [])) (done (core', actions)) =
              rw e' at h2 in
            let (same, nil) = done_pair h3 in
            (rw (← same) (record { config = refl; view_num = refl }), rw (← nil) tt)
        | inr (commands, e') ↦
            let h3 = rw e' at h2 in
            let core1 : ReplicaCore = record core {
              pool = r.0;
              propose_num = u32 (core.propose_num + 1);
            } in
            let (s, runs, h4) = >>=-eq-done (propose_loop fuel core1) _ h3 in
            let (role, within) = propose_loop-Within fuel core1 runs in
            let (same, more) = done_pair h4 in
            (
              rw (← same)
                  (SameRole-trans {b = core1} (record { config = refl; view_num = refl }) role),
              rw (← more) (ground (arith, primary), within),
            )
      ]
]

finalize_loop-Within :
    (fuel : ℕ) (core : ReplicaCore) {core' : ReplicaCore} {actions : Actions} (p : Bool)
    → finalize_loop fuel core ≡ done (core', actions)
    → SameRole core core' × Within p 1 actions
unfolding finalize_loop
finalize_loop-Within zero core p h = absurd (cc)
finalize_loop-Within (suc fuel) core {core'} {actions} p h =
    elim (Bool-cases (is_ready (lookup (u32 (core.finalize_num + 1)) core.blocks))) [
      | inr e ↦
          let h' : ◌≡◌ {A = Outcome (ReplicaCore × Actions)} (done (core, []))
              (done (core', actions)) =
            rw (e, finalize_loop) at h in
          let (same, nil) = done_pair h' in (rw (← same) (SameRole-refl core), rw (← nil) tt)
      | inl e ↦
          let h' = rw (e, finalize_loop) at h in
          let (block, found, h2) =
            >>=-eq-done (unwrap (lookup (u32 (core.finalize_num + 1)) core.blocks)) _ h' in
          let (pool, commits, h3) = >>=-eq-done (commit_all core.pool block.commands) _ h2 in
          let core1 : ReplicaCore = record core {
            pool = pool;
            finalize_num = u32 (core.finalize_num + 1);
          } in
          let (s, runs, h4) = >>=-eq-done (finalize_loop fuel core1) _ h3 in
          let (role, within) = finalize_loop-Within fuel core1 p runs in
          let (same, more) = done_pair h4 in
          (
            rw (← same)
                (SameRole-trans {b = core1} (record { config = refl; view_num = refl }) role),
            rw (← more) (finalize_last p (u32 (core.finalize_num + 1)), within),
          )
    ]
  where
    finalize_last : (p : Bool) (n : ℕ) → phases_left p (ReplicaCoreAction.finalize n) ≤ 1
    finalize_last true n = omega arith
    finalize_last false n = omega arith

pub propose_all-Within :
    (core : ReplicaCore) {core' : ReplicaCore} {actions : Actions}
    → propose_all core ≡ done (core', actions)
    → SameRole core core' × Within (is_primary core) 1 actions
unfolding propose_all
propose_all-Within core h = propose_loop-Within (suc core.config.max_num_inflight) core h

finalize_all-Within :
    (core : ReplicaCore) {core' : ReplicaCore} {actions : Actions} (p : Bool)
    → finalize_all core ≡ done (core', actions)
    → SameRole core core' × Within p 1 actions
unfolding finalize_all
finalize_all-Within core p h = finalize_loop-Within (suc (length core.blocks)) core p h

on_proposal-Within :
    (core : ReplicaCore) (n : ℕ) (b : Block)
    → SameRole core (on_proposal core n b).0
      × (is_primary core ≡ true → (on_proposal core n b).1 ≡ [])
      × Within (is_primary core) 3 (on_proposal core n b).1
unfolding on_proposal
on_proposal-Within core n b = elim (Bool-cases (contains n core.blocks)) [
  | inl e ↦ rw e (SameRole-refl core, λ p. refl, tt)
  | inr e ↦
      rw e
        (record { config = refl; view_num = refl }, λ p. rw p refl, prepares (is_primary core) n b)
]
  where
    prepares :
        (p : Bool) (n : ℕ) (b : Block)
        → Within p 3 (if p then [] else ReplicaCoreAction.prepare n b.digest ∷ [])
    prepares true n b = tt
    prepares false n b = (omega arith, tt)

module _ (prim : Primitives) {core core' : ReplicaCore} {actions : Actions} where
  pub proposal-Within :
      (n : ℕ) (b : Block)
      → handle prim core (ReplicaCoreEvent.proposal n b) ≡ done (core', actions)
      → SameRole core core'
        × (is_primary core ≡ true → actions ≡ [])
        × Within (is_primary core) 3 actions
  unfolding handle
  proposal-Within n b h =
      let (same, all) = done_pair h in
      let (role, quiet, within) = on_proposal-Within core n b in
      (rw (← same) role, rw (← all) quiet, rw (← all) within)

  pub prepare_quorum-Within :
      (n : ℕ) (q : Quorum Sig)
      → handle prim core (ReplicaCoreEvent.prepare_quorum n q) ≡ done (core', actions)
      → SameRole core core' × (actions ≡ ReplicaCoreAction.commit n ∷ [])
  unfolding handle
  prepare_quorum-Within n q h =
      let (block, found, h2) = >>=-eq-done (unwrap (lookup n core.blocks)) _ h in
      let (u, fresh, h3) = >>=-eq-done (assert (not (is_some block.prepare_quorum))) _ h2 in
      let (same, one) = done_pair h3 in
      (rw (← same) (record { config = refl; view_num = refl }), sym one)

  pub commit_quorum-Within :
      (n : ℕ) (q : Quorum Sig)
      → handle prim core (ReplicaCoreEvent.commit_quorum n q) ≡ done (core', actions)
      → SameRole core core' × Within (is_primary core) 1 actions
  unfolding handle
  commit_quorum-Within n q h =
      let (block, found, h2) = >>=-eq-done (unwrap (lookup n core.blocks)) _ h in
      let (u, fresh, h3) = >>=-eq-done (assert (not (is_some block.commit_quorum))) _ h2 in
      let block' : Block = record block { commit_quorum = some q } in
      let core1 : ReplicaCore = record core { blocks = insert n block' core.blocks } in
      let (f, finalizes, h4) = >>=-eq-done (finalize_all core1) _ h3 in
      let (s, proposes, h5) = >>=-eq-done (propose_all f.0) _ h4 in
      let role1 : SameRole core core1 = record { config = refl; view_num = refl } in
      let (role2, final) = finalize_all-Within core1 (is_primary core) finalizes in
      let (role3, more) = propose_all-Within f.0 proposes in
      let role12 = SameRole-trans role1 role2 in
      let more' : Within (is_primary core) 1 s.1 = rw (← SameRole-is_primary role12) more in
      let (same, all) = done_pair h5 in
      (rw (← same) (SameRole-trans role12 role3), rw (← all) (All-append _ f.1 s.1 final more'))
