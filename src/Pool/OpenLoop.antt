-- ===== src/Pool/OpenLoop.antt =====
-- `src/command/pool.rs`, `mod open_loop`: the pool that keeps the newest commands.
pub mod Invariant
pub mod Life
pub mod Size
use bft_kit.Base.{
  ℕ, ◌+◌, ◌-◌, max, Bool, true, false, Option, none, some, List, [], ◌∷◌, ◌++◌, length, drop, leb,
  ◌==◌, if◌then◌else◌, usize, Outcome, done, assert, ◌>>=◌, ◌>>◌,
}
use bft_kit.Base.Map.{Map, lookup, insert}
use bft_kit.Command.{Command}

pub record CommandPool : Type 0 where
  -- The front first.
  pub pending_buf : List Command
  pub client_seqs : Map ℕ
  pub num_push : ℕ
  pub num_commit : ℕ

unfoldable pub new : CommandPool
new = record { pending_buf = []; client_seqs = []; num_push = 0; num_commit = 0 }

abbrev pub max_len : ℕ
max_len = 5000

-- `matches!(seqs.get(..), Some(&seq) if seq >= command.seq)`.
abbrev pub is_known : Option ℕ → ℕ → Bool
is_known none seq = false
is_known (some known) seq = leb seq known

-- `unwrap_or_default()` of a sequence number.
abbrev pub or_zero : Option ℕ → ℕ
or_zero none = 0
or_zero (some seq) = seq

-- The branch of `push` that accepts.
accept : CommandPool → Command → CommandPool
accept pool command = record pool {
  client_seqs = insert command.client_id command.seq pool.client_seqs;
  pending_buf =
      (if length pool.pending_buf == max_len then drop 1 pool.pending_buf else pool.pending_buf)
      ++ command ∷ [];
}

unfoldable pub push : CommandPool → Command → CommandPool × Bool
unfolding accept
push pool command =
    let counted = record pool { num_push = usize (pool.num_push + 1) } in
    if is_known (lookup command.client_id pool.client_seqs) command.seq
    then (counted, false)
    else (accept counted command, true)

-- The commands that `close_batch` returns, of a buffer that is not empty.
newest : ℕ → List Command → List Command
newest max_batch_size buf = drop (max (length buf) max_batch_size - max_batch_size) buf

drain : CommandPool → ℕ → List Command → CommandPool × Option (List Command)
drain pool max_batch_size [] = (pool, none)
drain pool max_batch_size (command ∷ commands) =
    (record pool { pending_buf = [] }, some (newest max_batch_size (command ∷ commands)))

unfoldable pub close_batch : CommandPool → ℕ → Outcome (CommandPool × Option (List Command))
unfolding newest drain
close_batch pool max_batch_size = do
  assert (leb max_batch_size max_len)
  done (drain pool max_batch_size pool.pending_buf)

unfoldable pub commit : CommandPool → Command → CommandPool
commit pool command = record pool {
  num_commit = usize (pool.num_commit + 1);
  client_seqs =
      insert command.client_id
        (max (or_zero (lookup command.client_id pool.client_seqs)) command.seq) pool.client_seqs;
}
