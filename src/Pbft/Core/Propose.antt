-- ===== src/Pbft/Core/Propose.antt =====
-- The loop of `ReplicaCore::propose`: it ends, and what it proposes.
use bft_kit.Base.{
  ℕ, zero, suc, ◌+◌, ◌-◌, ◌≤◌, ◌<◌, max, min, ◌≡◌, refl, ◌⊎◌, inl, inr, true, false, none, some,
  List, [], ◌∷◌, length, take, u32, u32_mod, wrapping_sub, Bool-cases, done, arith,
}
use bft_kit.Command.{Command}
use bft_kit.Pool
use bft_kit.Pool.{CommandPool}
use bft_kit.Pool.CloseLoop.Invariant.{IsValid}
use bft_kit.Pool.CloseLoop.CloseBatch.{close_batch_lem}
use bft_kit.Pbft.Core.{
  ReplicaCore, ReplicaCoreAction, Actions, is_primary, is_primary_of, can_propose, propose_loop,
  propose_all,
}

-- The core's pool is a valid close loop pool.
pub record HasPool (core : ReplicaCore) : Type 0 where
  pub pool : Pool.CloseLoop.CommandPool
  pub at : core.pool ≡ CommandPool.close_loop pool
  pub valid : IsValid pool

-- The blocks that the primary has proposed and not seen finalized.
abbrev pub in_flight : ReplicaCore → ℕ
in_flight core = wrapping_sub u32_mod core.propose_num core.finalize_num

-- The actions are proposals, with the numbers behind `n` one after another.
abbrev pub ProposesFrom : ℕ → Actions → Type 0
ProposesFrom n [] = Unit
ProposesFrom n (ReplicaCoreAction.propose k commands ∷ actions) =
    (k ≡ u32 (n + 1)) × ProposesFrom k actions
ProposesFrom n (_ ∷ actions) = ⊥

-- The numbers of a core are `u32`.
pub record Fits (core : ReplicaCore) : Type 0 where
  pub propose_fits : core.propose_num < u32_mod
  pub finalize_fits : core.finalize_num < u32_mod
  pub inflight_fits : core.config.max_num_inflight < u32_mod

pub record Proposed (core : ReplicaCore) (actions : Actions) (core' : ReplicaCore) : Type 0 where
  -- Only the pool and `propose_num` change,
  pub only : core' ≡ record core { pool = core'.pool; propose_num = core'.propose_num }
  -- the numbers go on without a gap,
  pub numbered : ProposesFrom core.propose_num actions
  pub last : core'.propose_num ≡ u32 (core.propose_num + length actions)
  -- not above the limit of blocks in flight,
  pub limited : in_flight core' ≤ max (in_flight core) core.config.max_num_inflight
  -- a replica that is not the primary proposes nothing,
  pub by_primary : (is_primary core ≡ true) ⊎ (actions ≡ [])
  -- and the loop stops only at the limit, or with no command pending.
  pub pool_kept : HasPool core'
  pub exhausted :
      (is_primary core' ≡ false)
      ⊎ (core.config.max_num_inflight ≤ in_flight core')
      ⊎ (pool_kept.pool.pending_queue ≡ [])

-- The core with one more proposal.
abbrev next_core : ReplicaCore → CommandPool → ReplicaCore
next_core core pool = record core { pool = pool; propose_num = u32 (core.propose_num + 1) }

stops :
    (core : ReplicaCore)
    → HasPool core
    → Fits core
    → can_propose core ≡ false
    → Proposed core [] core
unfolding can_propose
stops core h fits e = record {
  only = refl;
  numbered = tt;
  last = omega arith;
  limited = omega arith;
  by_primary = inr refl;
  pool_kept = h;
  exhausted = ground arith;
}

runs_dry :
    (core : ReplicaCore) (h : HasPool core)
    → Fits core
    → h.pool.pending_queue ≡ []
    → Proposed core [] (record core { pool = CommandPool.close_loop h.pool })
runs_dry core h fits e = record {
  only = refl;
  numbered = tt;
  last = omega arith;
  limited = omega arith;
  by_primary = inr refl;
  pool_kept = record { pool = h.pool; at = refl; valid = h.valid };
  exhausted = inr (inr e);
}

-- With room for one more block, the next proposal takes the room.
room_taken :
    (core : ReplicaCore) (pool : CommandPool)
    → Fits core
    → can_propose core ≡ true
    → (is_primary core ≡ true)
      × (in_flight core < core.config.max_num_inflight)
      × (in_flight (next_core core pool) ≡ in_flight core + 1)
unfolding can_propose
room_taken core pool fits e =
    let lt : in_flight core < core.config.max_num_inflight = ground arith in
    (ground arith, lt, omega arith)

proposes :
    (core : ReplicaCore) (pool : CommandPool) (commands : List Command) (actions : Actions)
    (core' : ReplicaCore)
    → Fits core
    → can_propose core ≡ true
    → Proposed (next_core core pool) actions core'
    → Proposed core
        (ReplicaCoreAction.propose (u32 (core.propose_num + 1)) commands ∷ actions)
        core'
unfolding is_primary is_primary_of
proposes core pool commands actions core' fits e p =
    let (primary, lt, taken) = room_taken core pool fits e in
    record {
      only = p.only;
      numbered = (refl, p.numbered);
      last = omega (arith, p.last);
      limited = omega (arith, p.limited, taken, lt);
      by_primary = inl (ground arith);
      pool_kept = p.pool_kept;
      exhausted = p.exhausted;
    }

propose_loop_lem :
    (fuel : ℕ) (core : ReplicaCore)
    → HasPool core
    → Fits core
    → core.config.max_num_inflight - in_flight core < fuel
    → (core' : ReplicaCore) × (actions : Actions) × (propose_loop fuel core ≡ done (core', actions))
      × Proposed core actions core'
unfolding propose_loop
propose_loop_lem zero core h fits enough = absurd (omega arith)
propose_loop_lem (suc fuel) core h fits enough = elim (Bool-cases (can_propose core)) [
  | inr e ↦ (core, [], ground (arith, e), stops core h fits e)
  | inl e ↦
      let n : ℕ = core.config.max_batch_size in
      let (pool', how) = close_batch_lem n h.valid in
      elim how [
        | inl (empty, closes, same) ↦
            let closes' : Pool.close_batch core.pool n
                ≡ done (CommandPool.close_loop h.pool, none) =
              rw h.at (unfold Pool.close_batch in rw closes) in
            (
              record core { pool = CommandPool.close_loop h.pool },
              [],
              ground (arith, e, closes'),
              runs_dry core h fits empty,
            )
        | inr (some_pending, closes, closed) ↦
            let batch : List Command =
              take (min n (length h.pool.pending_queue)) h.pool.pending_queue in
            let pool'' : CommandPool = CommandPool.close_loop pool' in
            let closes' : Pool.close_batch core.pool n ≡ done (pool'', some batch) =
              rw h.at (unfold Pool.close_batch in rw closes) in
            let (primary, lt, taken) = room_taken core pool'' fits e in
            let h' : HasPool (next_core core pool'') = record {
              pool = pool';
              at = refl;
              valid = closed.valid;
            } in
            let fits' : Fits (next_core core pool'') = record {
              propose_fits = omega arith;
              finalize_fits = fits.finalize_fits;
              inflight_fits = fits.inflight_fits;
            } in
            let (core', actions, runs, p) =
              propose_loop_lem fuel (next_core core pool'') h' fits'
                (omega (arith, taken, lt, enough)) in
            (
              core',
              ReplicaCoreAction.propose (u32 (core.propose_num + 1)) batch ∷ actions,
              ground (arith, e, closes', runs),
              proposes core pool'' batch actions core' fits e p,
            )
      ]
]

-- `propose` ends, on any core whose pool is valid, and does what `Proposed` says.
pub propose_all_lem :
    (core : ReplicaCore)
    → HasPool core
    → Fits core
    → (core' : ReplicaCore) × (actions : Actions) × (propose_all core ≡ done (core', actions))
      × Proposed core actions core'
unfolding propose_all
propose_all_lem core h fits =
    propose_loop_lem (suc core.config.max_num_inflight) core h fits (omega arith)
