-- ===== src/Pool/Examples.antt =====
-- The command pools run on a few commands.
use mathlib.Core.List.{Sublist}
use bft_kit.Base.{
  ℕ, ◌+◌, ◌≤◌, ◌<◌, ◌≡◌, refl, ◌⊎◌, Bool, true, false, Option, none, some, List, [], ◌∷◌, ◌++◌,
  length, usize_mod, done, arith,
}
use bft_kit.Base.Map.{lookup, insert}
use bft_kit.Command.{Command}
use bft_kit.Pool.CloseLoop
use bft_kit.Pool.OpenLoop
use bft_kit.Pool.CloseLoop.Invariant.{IsValid, new-IsValid}
use bft_kit.Pool.CloseLoop.Push.{Covers, Pushed, push_lem, push-push}
use bft_kit.Pool.CloseLoop.CloseBatch.{Closed, close_batch_lem}
use bft_kit.Pool.CloseLoop.Commit.{Committed, commit_lem}
use bft_kit.Pool.OpenLoop.Invariant.{History, IsIncreasing}
use bft_kit.Pool.OpenLoop.Life.{IsNewest, run_keeps_order, close_batch-IsNewest}

abbrev pub command : ℕ → ℕ → Command
command client_id seq = record { client_id = client_id; seq = seq; op = seq ∷ [] }

-- The pool after one, two and three pushes.
abbrev pub pushed_1 : CloseLoop.CommandPool
pushed_1 = record {
  pending_queue = command 1 5 ∷ [];
  pending_queue_offset = 0;
  client_pending_offsets = (1, 0) ∷ [];
  submitted_seqs = [];
}

abbrev pushed_2 : CloseLoop.CommandPool
pushed_2 = record pushed_1 {
  pending_queue = command 1 5 ∷ command 2 3 ∷ [];
  client_pending_offsets = (1, 0) ∷ (2, 1) ∷ [];
}

abbrev pub pushed_3 : CloseLoop.CommandPool
pushed_3 = record pushed_1 {
  pending_queue = command 1 5 ∷ command 2 3 ∷ command 3 8 ∷ [];
  client_pending_offsets = (1, 0) ∷ (2, 1) ∷ (3, 2) ∷ [];
}

push-IsValid :
    {pool : CloseLoop.CommandPool} (c : Command) (pool' : CloseLoop.CommandPool) (pushed : Bool)
    → IsValid pool
    → length pool.pending_queue + 1 < usize_mod
    → CloseLoop.push pool c ≡ done (pool', pushed)
    → IsValid pool'
push-IsValid {pool} c pool' pushed v room e =
    let (r, e', how, v') = push_lem v c room in let same : r.0 ≡ pool' = cc in rw (← same) v'

pub pushed_3-IsValid : IsValid pushed_3
unfolding CloseLoop.new CloseLoop.push lookup insert
pushed_3-IsValid =
    push-IsValid {pool = pushed_2} (command 3 8) pushed_3 true
      (push-IsValid {pool = pushed_1} (command 2 3) pushed_2 true
        (push-IsValid {pool = CloseLoop.new} (command 1 5) pushed_1 true new-IsValid (omega arith)
          refl)
        (omega arith) refl)
      (omega arith) refl

push_lem_example :
    (r : CloseLoop.CommandPool × Bool) × (CloseLoop.push pushed_3 (command 2 4) ≡ done r)
    × Pushed pushed_3 (command 2 4) r
    × IsValid r.0
push_lem_example = push_lem pushed_3-IsValid (command 2 4) (omega arith)

push-push_example :
    (r : CloseLoop.CommandPool × Bool) × (CloseLoop.push pushed_3 (command 2 4) ≡ done r)
    × IsValid r.0
    × (CloseLoop.push r.0 (command 2 4) ≡ done (r.0, false))
push-push_example = push-push (command 2 4) pushed_3-IsValid (omega arith)

close_batch_lem_example :
    (pool' : CloseLoop.CommandPool) × ((pushed_3.pending_queue ≡ [])
        × (CloseLoop.close_batch pushed_3 2 ≡ done (pushed_3, none))
        × (pool' ≡ pushed_3)
      ⊎ (0 < 3)
        × (CloseLoop.close_batch pushed_3 2 ≡ done (pool', some (command 1 5 ∷ command 2 3 ∷ [])))
        × Closed pushed_3 (command 1 5 ∷ command 2 3 ∷ []) pool')
close_batch_lem_example = close_batch_lem 2 pushed_3-IsValid

commit_lem_example :
    (r : CloseLoop.CommandPool) × (CloseLoop.commit pushed_3 (command 2 3) ≡ done r)
    × Committed pushed_3 (command 2 3) r
    × IsValid r
    × Covers r (command 2 3)
commit_lem_example = commit_lem (command 2 3) pushed_3-IsValid

abbrev close_loop_calls : List CloseLoop.Life.Call
close_loop_calls =
    CloseLoop.Life.Call.pushes (command 1 5)
    ∷ CloseLoop.Life.Call.pushes (command 2 3)
    ∷ CloseLoop.Life.Call.commits (command 1 5)
    ∷ CloseLoop.Life.Call.closes 4
    ∷ []

run_never_panics_example :
    (pool : CloseLoop.CommandPool) × (CloseLoop.Life.run CloseLoop.new close_loop_calls ≡ done pool)
    × CloseLoop.Life.OnePerClient pool.pending_queue
run_never_panics_example = CloseLoop.Life.run_never_panics close_loop_calls (omega arith)

abbrev open_loop_calls : List OpenLoop.Life.Call
open_loop_calls =
    OpenLoop.Life.Call.pushes (command 1 5)
    ∷ OpenLoop.Life.Call.pushes (command 1 6)
    ∷ OpenLoop.Life.Call.closes 1
    ∷ OpenLoop.Life.Call.commits (command 1 6)
    ∷ []

run_keeps_order_example :
    (h : History) × (OpenLoop.Life.run OpenLoop.Life.start open_loop_calls ≡ done h)
    × (length h.pool.pending_buf ≤ OpenLoop.max_len)
    × Sublist (h.returned ++ h.pool.pending_buf) h.accepted
    × IsIncreasing h.accepted
run_keeps_order_example = run_keeps_order open_loop_calls (tt, (tt, (omega arith, (tt, tt))))

abbrev open_pool : OpenLoop.CommandPool
open_pool = record {
  pending_buf = command 1 5 ∷ command 2 1 ∷ command 1 6 ∷ [];
  client_seqs = (1, 6) ∷ (2, 1) ∷ [];
  num_push = 3;
  num_commit = 0;
}

close_batch-IsNewest_example :
    (batch : Option (List Command)) × (OpenLoop.close_batch open_pool 2
      ≡ done (record open_pool { pending_buf = [] }, batch))
    × IsNewest 2 open_pool.pending_buf batch
close_batch-IsNewest_example = close_batch-IsNewest open_pool 2 (omega arith)
