-- ===== src/Pool/Ends.antt =====
-- No operation of a command pool runs on fuel.
use bft_kit.Base.{ℕ, ◌≢◌, out_of_fuel, assert, leb, >>=-ends, done-ends, assert-ends}
use bft_kit.Command.{Command}
use bft_kit.Pool.{CommandPool, close_loop, open_loop, push, close_batch, commit}
use bft_kit.Pool.OpenLoop
use bft_kit.Pool.CloseLoop
use bft_kit.Pool.CloseLoop.Ends

pub push-ends : (pool : CommandPool) (command : Command) → push pool command ≢ out_of_fuel
unfolding push
push-ends (close_loop pool) command =
    >>=-ends (CloseLoop.push pool command) _ (Ends.push-ends pool command) (λ r e. done-ends _)
push-ends (open_loop pool) command = done-ends _

pub close_batch-ends :
    (pool : CommandPool) (max_batch_size : ℕ) → close_batch pool max_batch_size ≢ out_of_fuel
unfolding close_batch OpenLoop.close_batch
close_batch-ends (close_loop pool) size =
    >>=-ends (CloseLoop.close_batch pool size) _ (Ends.close_batch-ends pool size)
      (λ r e. done-ends _)
close_batch-ends (open_loop pool) size =
    >>=-ends (OpenLoop.close_batch pool size) _
      (>>=-ends (assert (leb size OpenLoop.max_len)) _ (assert-ends _) (λ u e. done-ends _))
      (λ r e. done-ends _)

pub commit-ends : (pool : CommandPool) (command : Command) → commit pool command ≢ out_of_fuel
unfolding commit
commit-ends (close_loop pool) command =
    >>=-ends (CloseLoop.commit pool command) _ (Ends.commit-ends pool command) (λ r e. done-ends _)
commit-ends (open_loop pool) command = done-ends _
