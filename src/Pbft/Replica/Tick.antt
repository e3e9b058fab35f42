-- ===== src/Pbft/Replica/Tick.antt =====
-- `Replica::tick` of `src/pbft/mod.rs`.
use bft_kit.Base.{
  ℕ, zero, suc, ◌+◌, ◌-◌, List, [], ◌∷◌, u32, Outcome, done, unwrap, ◌>>=◌, if◌then◌else◌,
}
use bft_kit.Replica.{ReplicaAction, AbstractReplica}
use bft_kit.Pbft.Replica.Drain.{receive, request}
use bft_kit.Base.Map.{lookup}
use bft_kit.Crypto.{Primitives}
use bft_kit.Pbft.Core.{is_primary, is_committed}
use bft_kit.Pbft.Replica.{Replica, ToReplica, Sending, Sent, signed_pre_prepare}

-- The numbers `first..=last`, where there are `count` of them.
numbers : ℕ → ℕ → List ℕ
numbers zero first = []
numbers (suc count) first = first ∷ numbers count (first + 1)

abbrev range_inclusive : ℕ → ℕ → List ℕ
range_inclusive first last = numbers (last + 1 - first) first

module _ (prim : Primitives) where
  remind : Replica → List ℕ → Outcome (List Sending)
  unfolding signed_pre_prepare
  remind r [] = done []
  remind r (block_num ∷ block_nums) =
      let rest = remind r block_nums in
      if is_committed r.core block_num then rest else do
        block ← unwrap (lookup block_num r.core.blocks)
        sent ← rest
        done (
            ReplicaAction.send_to_all_replicas (
              ToReplica.pre_prepare (signed_pre_prepare prim r block_num block.digest)
                block.commands)
            ∷ sent)

  unfoldable pub tick : Replica → Outcome Sent
  unfolding numbers remind
  tick r =
      let ticked2_scratch_num = r.ticked_scratch_num in
      let r' = record r { ticked_scratch_num = r.core.propose_num } in
      if is_primary r'.core
      then (do
        sent ← remind r' (range_inclusive (u32 (r'.core.finalize_num + 1)) ticked2_scratch_num)
        done (r', sent))
      else done (r', [])

  -- `impl AbstractReplica for Replica`.
  unfoldable pub pbft_replica : AbstractReplica Replica ToReplica
  unfolding tick
  pbft_replica = record {
    init = λ r. done (r, []);
    request = request prim;
    receive = receive prim;
    tick = tick;
  }
