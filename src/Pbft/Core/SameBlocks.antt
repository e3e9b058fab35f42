-- ===== src/Pbft/Core/SameBlocks.antt =====
-- The loops that propose and finalize change neither the configuration nor the blocks.
use bft_kit.Base.{
  ℕ, zero, suc, ◌+◌, ◌≡◌, refl, ◌∙◌, [], length, u32, Bool-cases, Option-cases, inl, inr, unwrap,
  Outcome, done, >>=-eq-done,
}
use bft_kit.Base.Map.{lookup}
use bft_kit.Pool
use bft_kit.Pbft.Core.{
  ReplicaCore, Actions, can_propose, propose_loop, propose_all, is_ready, commit_all, finalize_loop,
  finalize_all,
}
use bft_kit.Pbft.Core.Phases.{done_pair}

-- A core with the same configuration and blocks.
pub record SameBlocks (core core' : ReplicaCore) : Type 0 where
  pub config : core'.config ≡ core.config
  pub blocks : core'.blocks ≡ core.blocks

pub SameBlocks-trans : {a b c : ReplicaCore} → SameBlocks a b → SameBlocks b c → SameBlocks a c
SameBlocks-trans s t = record { config = t.config ∙ s.config; blocks = t.blocks ∙ s.blocks }

SameBlocks-refl : (core : ReplicaCore) → SameBlocks core core
SameBlocks-refl core = record { config = refl; blocks = refl }

propose_loop-SameBlocks :
    (fuel : ℕ) (core : ReplicaCore) {core' : ReplicaCore} {actions : Actions}
    → propose_loop fuel core ≡ done (core', actions)
    → SameBlocks core core'
unfolding propose_loop
propose_loop-SameBlocks zero core h = absurd (cc)
propose_loop-SameBlocks (suc fuel) core {core'} {actions} h = elim (Bool-cases (can_propose core)) [
  | inr e ↦
      let h' : ◌≡◌ {A = Outcome (ReplicaCore × Actions)} (done (core, [])) (done (core', actions)) =
        rw (e, propose_loop) at h in
      rw (← (done_pair h').0) (SameBlocks-refl core)
  | inl e ↦
      let h' = rw (e, propose_loop) at h in
      let (r, closes, h2) =
        >>=-eq-done (Pool.close_batch core.pool core.config.max_batch_size) _ h' in
      elim (Option-cases r.1) [
        | inl e' ↦
            let h3 : ◌≡◌ {A = Outcome (ReplicaCore × Actions)}
                (done (record core { pool = r.0 }, [])) (done (core', actions)) =
              rw e' at h2 in
            rw (← (done_pair h3).0) (record { config = refl; blocks = refl })
        | inr (commands, e') ↦
            let h3 = rw e' at h2 in
            let core1 : ReplicaCore = record core {
              pool = r.0;
              propose_num = u32 (core.propose_num + 1);
            } in
            let (s, runs, h4) = >>=-eq-done (propose_loop fuel core1) _ h3 in
            let rest = propose_loop-SameBlocks fuel core1 runs in
            rw (← (done_pair h4).0)
              (SameBlocks-trans {b = core1} (record { config = refl; blocks = refl }) rest)
      ]
]

finalize_loop-SameBlocks :
    (fuel : ℕ) (core : ReplicaCore) {core' : ReplicaCore} {actions : Actions}
    → finalize_loop fuel core ≡ done (core', actions)
    → SameBlocks core core'
unfolding finalize_loop
finalize_loop-SameBlocks zero core h = absurd (cc)
finalize_loop-SameBlocks (suc fuel) core {core'} {actions} h =
    elim (Bool-cases (is_ready (lookup (u32 (core.finalize_num + 1)) core.blocks))) [
      | inr e ↦
          let h' : ◌≡◌ {A = Outcome (ReplicaCore × Actions)} (done (core, []))
              (done (core', actions)) =
            rw (e, finalize_loop) at h in
          rw (← (done_pair h').0) (SameBlocks-refl core)
      | inl e ↦
          let h' = rw (e, finalize_loop) at h in
          let (block, found, h2) =
            >>=-eq-done (unwrap (lookup (u32 (core.finalize_num + 1)) core.blocks)) _ h' in
          let (pool, commits, h3) = >>=-eq-done (commit_all core.pool block.commands) _ h2 in
          let core1 : ReplicaCore = record core {
            pool = pool;
            finalize_num = u32 (core.finalize_num + 1);
          } in
          let (s, runs, h4) = >>=-eq-done (finalize_loop fuel core1) _ h3 in
          let rest = finalize_loop-SameBlocks fuel core1 runs in
          rw (← (done_pair h4).0)
            (SameBlocks-trans {b = core1} (record { config = refl; blocks = refl }) rest)
    ]

pub propose_all-SameBlocks :
    (core : ReplicaCore) {core' : ReplicaCore} {actions : Actions}
    → propose_all core ≡ done (core', actions)
    → SameBlocks core core'
unfolding propose_all
propose_all-SameBlocks core h = propose_loop-SameBlocks (suc core.config.max_num_inflight) core h

pub finalize_all-SameBlocks :
    (core : ReplicaCore) {core' : ReplicaCore} {actions : Actions}
    → finalize_all core ≡ done (core', actions)
    → SameBlocks core core'
unfolding finalize_all
finalize_all-SameBlocks core h = finalize_loop-SameBlocks (suc (length core.blocks)) core h
