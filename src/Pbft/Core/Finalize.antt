-- ===== src/Pbft/Core/Finalize.antt =====
-- The loop of the `CommitQuorum` event: it ends, and what it finalizes.
use bft_kit.Base.{
  ℕ, zero, suc, ◌+◌, ◌≤◌, ◌<◌, ◌≡◌, refl, inl, inr, true, false, Option, none, some, List, [], ◌∷◌,
  length, ltb, ◌==◌, if◌then◌else◌, is_some, u32, u32_mod, Bool-cases, done, arith,
}
use bft_kit.Base.Map.{Map, lookup}
use bft_kit.Command.{Command}
use bft_kit.Pool
use bft_kit.Pool.{CommandPool}
use bft_kit.Pool.CloseLoop.Invariant.{IsValid}
use bft_kit.Pool.CloseLoop.Commit.{commit_lem}
use bft_kit.Pbft.Core.{
  Block, ReplicaCore, ReplicaCoreAction, Actions, is_ready, commit_all, finalize_loop, finalize_all,
}
use bft_kit.Pbft.Core.Propose.{HasPool}

-- To commit the commands of a block keeps the pool valid.
commit_all_lem :
    (pool : Pool.CloseLoop.CommandPool) (commands : List Command)
    → IsValid pool
    → (pool' : Pool.CloseLoop.CommandPool) × (commit_all (CommandPool.close_loop pool) commands
        ≡ done (CommandPool.close_loop pool'))
      × IsValid pool'
unfolding commit_all Pool.commit
commit_all_lem pool [] v = (pool, refl, v)
commit_all_lem pool (c ∷ cs) v =
    let (pool', e, _, v', _) = commit_lem c v in
    let (pool'', e', v'') = commit_all_lem pool' cs v' in (pool'', rw e e', v'')

-- The number of blocks above a number.
pub above {ℓ} : {V : Type ℓ} → ℕ → Map V → ℕ
above n [] = 0
above n ((k, v) ∷ m) = (if ltb n k then 1 else 0) + above n m

pub above-le-length {ℓ} : {V : Type ℓ} (n : ℕ) (m : Map V) → above n m ≤ length m
unfolding above
above-le-length n [] = omega arith
above-le-length n ((k, v) ∷ m) = ground (arith, above-le-length n m)

above-suc-le {ℓ} : {V : Type ℓ} (n : ℕ) (m : Map V) → above (n + 1) m ≤ above n m
unfolding above
above-suc-le n [] = omega arith
above-suc-le n ((k, v) ∷ m) = ground (arith, above-suc-le n m)

-- To go past a block leaves fewer above.
above-suc {ℓ} :
    {V : Type ℓ} (n : ℕ) (m : Map V) {v : V}
    → lookup (n + 1) m ≡ some v
    → above (n + 1) m < above n m
unfolding above lookup
above-suc n [] h = absurd (cc)
above-suc n ((k, w) ∷ m) {v} h = elim (Bool-cases (k == n + 1)) [
  | inl e ↦ ground (arith, above-suc-le n m)
  | inr e ↦ let h' : lookup (n + 1) m ≡ some v = ground arith in ground (arith, above-suc n m h')
]

-- The actions finalize the numbers behind `n`, one after another.
abbrev pub FinalizesFrom : ℕ → Actions → Type 0
FinalizesFrom n [] = Unit
FinalizesFrom n (ReplicaCoreAction.finalize k ∷ actions) = (k ≡ n + 1) × FinalizesFrom k actions
FinalizesFrom n (_ ∷ actions) = ⊥

-- The block is there, and has both quorums.
abbrev pub Ready : Option Block → Type 0
Ready none = ⊥
Ready (some block) = (is_some block.prepare_quorum ≡ true) × (is_some block.commit_quorum ≡ true)

is_ready-Ready : (o : Option Block) → is_ready o ≡ true → Ready o
is_ready-Ready none h = absurd (cc)
is_ready-Ready (some block) h = (ground arith, ground arith)

not_Ready : (o : Option Block) → is_ready o ≡ false → ¬ Ready o
not_Ready none h r = r
not_Ready (some block) h (prepared, committed) = ground arith

pub record Finalized (core : ReplicaCore) (actions : Actions) (core' : ReplicaCore) : Type 0 where
  -- Only the pool and `finalize_num` change,
  pub only : core' ≡ record core { pool = core'.pool; finalize_num = core'.finalize_num }
  -- the numbers go on without a gap,
  pub numbered : FinalizesFrom core.finalize_num actions
  pub last : core'.finalize_num ≡ core.finalize_num + length actions
  -- each block that is finalized has both quorums,
  pub ready :
      (n : ℕ) → core.finalize_num < n → n ≤ core'.finalize_num → Ready (lookup n core.blocks)
  -- and the next one has not.
  pub exhausted : ¬ Ready (lookup (core'.finalize_num + 1) core.blocks)
  pub pool_kept : HasPool core'

abbrev next_core : ReplicaCore → CommandPool → ReplicaCore
next_core core pool = record core { pool = pool; finalize_num = core.finalize_num + 1 }

finalizes :
    (core : ReplicaCore) (pool : CommandPool) (actions : Actions) (core' : ReplicaCore)
    → is_ready (lookup (core.finalize_num + 1) core.blocks) ≡ true
    → Finalized (next_core core pool) actions core'
    → Finalized core (ReplicaCoreAction.finalize (core.finalize_num + 1) ∷ actions) core'
finalizes core pool actions core' e f = record {
  only = f.only;
  numbered = (refl, f.numbered);
  last = omega (arith, f.last);
  ready = λ n lt le. elim (Bool-cases (n == core.finalize_num + 1)) [
    | inl same ↦
        let same' : n ≡ core.finalize_num + 1 = ground arith in
        rw same' (is_ready-Ready (lookup (core.finalize_num + 1) core.blocks) e)
    | inr other ↦ f.ready n (ground arith) le
  ];
  exhausted = f.exhausted;
  pool_kept = f.pool_kept;
}

get_of_ready :
    (o : Option Block) → is_ready o ≡ true → (b : Block) × (o ≡ some b) × (is_ready (some b) ≡ true)
get_of_ready none h = absurd (cc)
get_of_ready (some b) h = (b, refl, h)

-- One round of the loop, and the end of it.
round :
    (fuel : ℕ) (core : ReplicaCore) (block : Block) (pool : CommandPool) {core' : ReplicaCore}
    {actions : Actions}
    → lookup (u32 (core.finalize_num + 1)) core.blocks ≡ some block
    → is_ready (some block) ≡ true
    → commit_all core.pool block.commands ≡ done pool
    → finalize_loop fuel (record core { pool = pool; finalize_num = u32 (core.finalize_num + 1) })
      ≡ done (core', actions)
    → finalize_loop (suc fuel) core
      ≡ done (core', ReplicaCoreAction.finalize (u32 (core.finalize_num + 1)) ∷ actions)
unfolding finalize_loop
round fuel core block pool found ready commits runs =
    rw (found, finalize_loop) (rw (ready, found, commits, runs) refl)

round_none :
    (fuel : ℕ) (core : ReplicaCore)
    → is_ready (lookup (u32 (core.finalize_num + 1)) core.blocks) ≡ false
    → finalize_loop (suc fuel) core ≡ done (core, [])
unfolding finalize_loop
round_none fuel core e = ground arith

finalize_loop_lem :
    (fuel : ℕ) (core : ReplicaCore)
    → HasPool core
    → core.finalize_num + above core.finalize_num core.blocks + 1 < u32_mod
    → above core.finalize_num core.blocks < fuel
    → (core' : ReplicaCore) × (actions : Actions) × (finalize_loop fuel core
        ≡ done (core', actions))
      × Finalized core actions core'
finalize_loop_lem zero core h fits enough = absurd (omega arith)
finalize_loop_lem (suc fuel) core h fits enough =
    let n : ℕ = core.finalize_num in
    let next : u32 (n + 1) ≡ n + 1 = omega arith in
    elim (Bool-cases (is_ready (lookup (n + 1) core.blocks))) [
      | inr e ↦ (
        core,
        [],
        round_none fuel core (rw next e),
        record {
          only = refl;
          numbered = tt;
          last = omega arith;
          ready = λ k lt le. absurd (omega arith);
          exhausted = not_Ready (lookup (n + 1) core.blocks) e;
          pool_kept = h;
        },
      )
      | inl e ↦
          let (block, found, ready) = get_of_ready (lookup (n + 1) core.blocks) e in
          let (pool, commits, valid) = commit_all_lem h.pool block.commands h.valid in
          let pool' : CommandPool = CommandPool.close_loop pool in
          let commits' : commit_all core.pool block.commands ≡ done pool' = rw h.at commits in
          let fewer = above-suc n core.blocks found in
          let (core', actions, runs, f) =
            finalize_loop_lem fuel (next_core core pool')
              (record { pool = pool; at = refl; valid = valid }) (omega (arith, fewer))
              (omega (arith, fewer)) in
          (
            core',
            ReplicaCoreAction.finalize (n + 1) ∷ actions,
            rw (← next) (round fuel core block pool' (rw next found) ready commits' (rw next runs)),
            finalizes core pool' actions core' e f,
          )
    ]

-- The loop ends, on any core whose pool is valid and whose block numbers do not run out, and does
-- what `Finalized` says.
pub finalize_all_lem :
    (core : ReplicaCore)
    → HasPool core
    → core.finalize_num + length core.blocks + 1 < u32_mod
    → (core' : ReplicaCore) × (actions : Actions) × (finalize_all core ≡ done (core', actions))
      × Finalized core actions core'
unfolding finalize_all
finalize_all_lem core h fits =
    let few = above-le-length core.finalize_num core.blocks in
    finalize_loop_lem (suc (length core.blocks)) core h (omega (arith, few)) (omega (arith, few))
