-- ===== src/Pool/Size.antt =====
-- How the operations of a command pool change the number of pending commands.
use bft_kit.Base.{ℕ, ◌≤◌, ◌<◌, ◌≡◌, Option, List, length, Outcome, done, >>=-eq-done, arith}
use bft_kit.Command.{Command}
use bft_kit.Pool.{CommandPool, close_loop, open_loop, close_batch, commit}
use bft_kit.Pool.OpenLoop
use bft_kit.Pool.CloseLoop
use bft_kit.Pool.CloseLoop.Size
use bft_kit.Pool.OpenLoop.Size as OpenSize
use bft_kit.Pool.Takes.{Takes}

abbrev pub pending : CommandPool → ℕ
pending (close_loop pool) = length pool.pending_queue
pending (open_loop pool) = length pool.pending_buf

pub commit-size :
    (pool : CommandPool) (command : Command) {pool' : CommandPool}
    → commit pool command ≡ done pool'
    → pending pool' ≤ pending pool
unfolding commit OpenLoop.commit
commit-size (close_loop pool) command {pool'} h =
    let (p, e, h2) = >>=-eq-done (CloseLoop.commit pool command) _ h in
    let same : close_loop p ≡ pool' = cc in rw (← same) (Size.commit-size pool command e)
commit-size (open_loop pool) command {pool'} h =
    let same : open_loop (OpenLoop.commit pool command) ≡ pool' = cc in rw (← same) (omega arith)

Takes-done :
    (n : ℕ) {p r : CommandPool × Option (List Command)}
    → ◌≡◌ {A = Outcome (CommandPool × Option (List Command))} (done p) (done r)
    → Takes n (pending p.0) p.1
    → Takes n (pending r.0) r.1
Takes-done n {p} {r} h t = let same : p ≡ r = cc in rw (← same) t

-- `close_batch` leaves the size when it returns nothing, and otherwise returns some command and
-- makes the pool smaller.
pub close_batch-size :
    (pool : CommandPool) (size : ℕ) {r : CommandPool × Option (List Command)}
    → 0 < size
    → close_batch pool size ≡ done r
    → Takes (pending pool) (pending r.0) r.1
unfolding close_batch
close_batch-size (close_loop pool) size room h =
    let (p, e, h2) = >>=-eq-done (CloseLoop.close_batch pool size) _ h in
    Takes-done (pending (close_loop pool)) h2 (Size.close_batch-size pool size room e)
close_batch-size (open_loop pool) size room h =
    let (p, e, h2) = >>=-eq-done (OpenLoop.close_batch pool size) _ h in
    Takes-done (pending (open_loop pool)) h2 (OpenSize.close_batch-size pool size room e)
