-- ===== src/Pool/CloseLoop/Size.antt =====
-- How the operations of the closed loop pool change the number of pending commands.
use bft_kit.Base.{
  ℕ, ◌≤◌, ◌<◌, ◌≡◌, inl, inr, min, Option, none, some, List, length, length-take, length-drop,
  get_elem?, take, ◌==◌, leb, Outcome, done, unwrap, >>=-eq-done, Bool-cases, arith,
}
use bft_kit.Command.{Command}
use bft_kit.Pool.Takes.{Takes}
use bft_kit.Pool.CloseLoop.{
  CommandPool, withdraw, submit, split, close_batch, commit_at, commit, client_pending_index,
}
use bft_kit.Pool.CloseLoop.SwapRemove.{length-swap_remove}

abbrev pub pending : CommandPool → ℕ
pending pool = length pool.pending_queue

commit_at-size :
    (pool : CommandPool) (command : Command) (index : Option ℕ) {pool' : CommandPool}
    → commit_at pool command index ≡ done pool'
    → pending pool' ≤ pending pool
unfolding commit_at withdraw
commit_at-size pool command none {pool'} h =
    let same : pool ≡ pool' = cc in rw (← same) (omega arith)
commit_at-size pool command (some i) {pool'} h =
    let (c, e, h2) = >>=-eq-done (unwrap (get_elem? pool.pending_queue i)) _ h in
    elim (Bool-cases (leb c.seq command.seq)) [
      | inl old ↦
          let h3 : done (withdraw pool command i) ≡ done pool' = rw old at h2 in
          let same : withdraw pool command i ≡ pool' = cc in
          rw (← same) (omega (arith, length-swap_remove pool.pending_queue i))
      | inr new ↦
          let h3 : done pool ≡ done pool' = rw new at h2 in
          let same : pool ≡ pool' = cc in rw (← same) (omega arith)
    ]

pub commit-size :
    (pool : CommandPool) (command : Command) {pool' : CommandPool}
    → commit pool command ≡ done pool'
    → pending pool' ≤ pending pool
unfolding commit
commit-size pool command h =
    commit_at-size _ command (client_pending_index pool command.client_id) h

Takes-done :
    (n : ℕ) {p r : CommandPool × Option (List Command)}
    → ◌≡◌ {A = Outcome (CommandPool × Option (List Command))} (done p) (done r)
    → Takes n (pending p.0) p.1
    → Takes n (pending r.0) r.1
Takes-done n {p} {r} h t = let same : p ≡ r = cc in rw (← same) t

pub close_batch-size :
    (pool : CommandPool) (size : ℕ) {r : CommandPool × Option (List Command)}
    → 0 < size
    → close_batch pool size ≡ done r
    → Takes (pending pool) (pending r.0) r.1
unfolding close_batch split
close_batch-size pool size {r} some_room h = elim (Bool-cases (length pool.pending_queue == 0)) [
  | inl empty ↦ let same : (pool, none) ≡ r = ground arith in rw (← same) (omega arith)
  | inr full ↦
      let nonempty : 0 < length pool.pending_queue = ground arith in
      let n = min size (length pool.pending_queue) in
      let (s, e, h2) =
        >>=-eq-done
          (submit (take n pool.pending_queue) pool.client_pending_offsets pool.submitted_seqs) _
          (rw full at h) in
      Takes-done (pending pool) h2 (
        omega (arith, length-take n pool.pending_queue),
        omega (arith, length-drop n pool.pending_queue),
      )
]
