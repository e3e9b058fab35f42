-- ===== src/Pool.antt =====
-- `src/command/pool.rs`: the command pool, and its two variants in the children.
pub mod OpenLoop
pub mod CloseLoop
pub mod Takes
pub mod Ends
pub mod Size
pub mod Examples
use bft_kit.Base.{ℕ, Bool, Option, List, Outcome, done, ◌>>=◌}
use bft_kit.Command.{Command}
use OpenLoop
use CloseLoop

pub data CommandPool : Type 0 where
  close_loop : CloseLoop.CommandPool → CommandPool
  open_loop : OpenLoop.CommandPool → CommandPool

unfoldable pub push : CommandPool → Command → Outcome (CommandPool × Bool)
push (close_loop pool) command = do
  (pool', pushed) ← CloseLoop.push pool command
  done (close_loop pool', pushed)
push (open_loop pool) command =
    let (pool', pushed) = OpenLoop.push pool command in done (open_loop pool', pushed)

unfoldable pub close_batch : CommandPool → ℕ → Outcome (CommandPool × Option (List Command))
close_batch (close_loop pool) max_batch_size = do
  (pool', commands) ← CloseLoop.close_batch pool max_batch_size
  done (close_loop pool', commands)
close_batch (open_loop pool) max_batch_size = do
  (pool', commands) ← OpenLoop.close_batch pool max_batch_size
  done (open_loop pool', commands)

unfoldable pub commit : CommandPool → Command → Outcome CommandPool
commit (close_loop pool) command = do pool' ← CloseLoop.commit pool command; done (close_loop pool')
commit (open_loop pool) command = done (open_loop (OpenLoop.commit pool command))

-- `CommandPool::close_loop()` and `CommandPool::open_loop()`.
unfoldable pub new_close_loop : CommandPool
unfolding CloseLoop.new
new_close_loop = close_loop CloseLoop.new

unfoldable pub new_open_loop : CommandPool
unfolding OpenLoop.new
new_open_loop = open_loop OpenLoop.new
