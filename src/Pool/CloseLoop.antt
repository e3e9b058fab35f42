-- ===== src/Pool/CloseLoop.antt =====
-- `src/command/pool.rs`, `mod close_loop`: the pool that keeps one command for each client. The
-- offsets in `client_pending_offsets` count from the start of the pool's life, so an index into the
-- queue is an offset less `pending_queue_offset`.
pub mod SwapRemove
pub mod Invariant
pub mod Push
pub mod CloseBatch
pub mod Commit
pub mod Life
pub mod Ends
pub mod Size
use bft_kit.Base.{
  ℕ, zero, suc, ◌+◌, ◌-◌, min, max, Bool, true, false, Option, none, some, List, [], ◌∷◌, ◌++◌,
  length, get_elem?, set, take, drop, ltb, leb, ◌==◌, if◌then◌else◌, usize, usize_mod, wrapping_sub,
  Outcome, done, assert, unwrap, ◌>>=◌, ◌>>◌,
}
use bft_kit.Base.Map.{Map, lookup, insert, remove}
use bft_kit.Command.{Command}

pub record CommandPool : Type 0 where
  pub pending_queue : List Command
  pub pending_queue_offset : ℕ
  pub client_pending_offsets : Map ℕ
  pub submitted_seqs : Map ℕ

unfoldable pub new : CommandPool
new = record {
  pending_queue = [];
  pending_queue_offset = 0;
  client_pending_offsets = [];
  submitted_seqs = [];
}

-- The index that an offset stands for.
abbrev pub index_of : ℕ → Option ℕ → Option ℕ
index_of queue_offset none = none
index_of queue_offset (some offset) = some (wrapping_sub usize_mod offset queue_offset)

unfoldable pub client_pending_index : CommandPool → ℕ → Option ℕ
client_pending_index pool client_id =
    index_of pool.pending_queue_offset (lookup client_id pool.client_pending_offsets)

-- `seqs.get(..) < Some(&seq)`: `None` is the least.
abbrev pub is_fresh : Option ℕ → ℕ → Bool
is_fresh none seq = true
is_fresh (some known) seq = ltb known seq

-- `unwrap_or_default()` of a sequence number.
abbrev pub or_zero : Option ℕ → ℕ
or_zero none = 0
or_zero (some seq) = seq

push_at : CommandPool → Command → Option ℕ → Outcome (CommandPool × Bool)
push_at pool command (some pending_index) = do
  pending_command ← unwrap (get_elem? pool.pending_queue pending_index)
  assert (pending_command.client_id == command.client_id)
  if ltb pending_command.seq command.seq
      then done (record pool { pending_queue = set pool.pending_queue pending_index command }, true)
      else done (pool, false)
push_at pool command none = done (
  record pool {
    client_pending_offsets =
        insert command.client_id (usize (pool.pending_queue_offset + length pool.pending_queue))
          pool.client_pending_offsets;
    pending_queue = pool.pending_queue ++ command ∷ [];
  },
  true,
)

unfoldable pub push : CommandPool → Command → Outcome (CommandPool × Bool)
unfolding push_at client_pending_index
push pool command =
    if is_fresh (lookup command.client_id pool.submitted_seqs) command.seq
    then push_at pool command (client_pending_index pool command.client_id)
    else done (pool, false)

-- The loop of `close_batch` over the commands of the batch.
submit : List Command → Map ℕ → Map ℕ → Outcome (Map ℕ × Map ℕ)
submit [] offsets seqs = done (offsets, seqs)
submit (command ∷ commands) offsets seqs = do
  assert (is_fresh (lookup command.client_id seqs) command.seq)
  submit commands (remove command.client_id offsets) (insert command.client_id command.seq seqs)

split : CommandPool → ℕ → Outcome (CommandPool × Option (List Command))
unfolding submit
split pool batch_size = do
  let commands = take batch_size pool.pending_queue
  (offsets, seqs) ← submit commands pool.client_pending_offsets pool.submitted_seqs
  done (
    record {
      pending_queue = drop batch_size pool.pending_queue;
      pending_queue_offset = usize (pool.pending_queue_offset + batch_size);
      client_pending_offsets = offsets;
      submitted_seqs = seqs;
    },
    some commands,
  )

unfoldable pub close_batch : CommandPool → ℕ → Outcome (CommandPool × Option (List Command))
unfolding split
close_batch pool max_batch_size =
    if length pool.pending_queue == 0
    then done (pool, none)
    else split pool (min max_batch_size (length pool.pending_queue))

-- `Vec::pop` without its result, and the last element.
unfoldable pub drop_last {ℓ} : {A : Type ℓ} → List A → List A
drop_last [] = []
drop_last (x ∷ []) = []
drop_last (x ∷ x' ∷ xs) = x ∷ drop_last (x' ∷ xs)

unfoldable pub last? {ℓ} : {A : Type ℓ} → List A → Option A
last? [] = none
last? (x ∷ []) = some x
last? (x ∷ x' ∷ xs) = last? (x' ∷ xs)

-- `Vec::swap_remove` at an index in range: the last element takes the place of the removed one.
unfoldable pub swap_remove {ℓ} : {A : Type ℓ} → List A → ℕ → List A
unfolding drop_last last?
swap_remove xs i = elim (last? xs) [ none ↦ [] | some x ↦ drop_last (set xs i x) ]

-- The offset of the element that `swap_remove` moved, if there is one.
moved : CommandPool → ℕ → Option Command → Map ℕ → Map ℕ
moved pool pending_index none offsets = offsets
moved pool pending_index (some swapped) offsets =
    insert swapped.client_id (usize (pool.pending_queue_offset + pending_index)) offsets

pub withdraw : CommandPool → Command → ℕ → CommandPool
unfolding swap_remove moved
withdraw pool command pending_index =
    let queue = swap_remove pool.pending_queue pending_index in
    record pool {
      pending_queue = queue;
      client_pending_offsets =
          moved pool pending_index (get_elem? queue pending_index)
            (remove command.client_id pool.client_pending_offsets);
    }

commit_at : CommandPool → Command → Option ℕ → Outcome CommandPool
unfolding withdraw
commit_at pool command none = done pool
commit_at pool command (some pending_index) = do
  pending_command ← unwrap (get_elem? pool.pending_queue pending_index)
  if leb pending_command.seq command.seq
      then done (withdraw pool command pending_index)
      else done pool

unfoldable pub commit : CommandPool → Command → Outcome CommandPool
unfolding commit_at client_pending_index
commit pool command =
    commit_at
      (record pool {
        submitted_seqs =
            insert command.client_id
              (max (or_zero (lookup command.client_id pool.submitted_seqs)) command.seq)
              pool.submitted_seqs;
      })
      command (client_pending_index pool command.client_id)
