-- ===== src/Pool/OpenLoop/Size.antt =====
-- How `close_batch` of the open loop pool changes the number of pending commands.
use bft_kit.Base.{
  ℕ, ◌<◌, ◌≡◌, refl, List, [], ◌∷◌, Option, length, length-drop, leb, done, assert, >>=-eq-done,
  arith,
}
use bft_kit.Command.{Command}
use bft_kit.Pool.Takes.{Takes}
use bft_kit.Pool.OpenLoop.{CommandPool, max_len, newest, drain, close_batch}

drain-size :
    (pool : CommandPool) (size : ℕ) (buf : List Command)
    → 0 < size
    → pool.pending_buf ≡ buf
    → Takes (length buf) (length (drain pool size buf).0.pending_buf) (drain pool size buf).1
unfolding drain newest
drain-size pool size [] room e = rw e (omega arith)
drain-size pool size (c ∷ cs) room e = (omega (arith, length-drop {0}), omega arith)

pub close_batch-size :
    (pool : CommandPool) (size : ℕ) {r : CommandPool × Option (List Command)}
    → 0 < size
    → close_batch pool size ≡ done r
    → Takes (length pool.pending_buf) (length r.0.pending_buf) r.1
unfolding close_batch
close_batch-size pool size {r} room h =
    let (u, fits, h2) = >>=-eq-done (assert (leb size max_len)) _ h in
    let same : drain pool size pool.pending_buf ≡ r = cc in
    rw (← same) (drain-size pool size pool.pending_buf room refl)
