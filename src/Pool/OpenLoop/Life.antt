-- ===== src/Pool/OpenLoop/Life.antt =====
-- The life of an open loop pool: any calls, in any order.
use mathlib.Core.List.{Sublist, append-nil}
use mathlib.Core.List.Sublist
use bft_kit.Base.{
  ℕ, ◌-◌, max, min, ◌≤◌, ◌≡◌, refl, true, Option, none, some, List, [], ◌∷◌, ◌++◌, length,
  length-drop, take, drop, take-append-drop, is_some, not, ap, All, leb, ◌==◌, Outcome, done, ◌>>=◌,
  arith,
}
use bft_kit.Command.{Command}
use bft_kit.Pool.OpenLoop.{CommandPool, new, max_len, newest, drain, close_batch}
use bft_kit.Pool.OpenLoop.Invariant.{
  History, IsIncreasing, IsValid, note_push, note_push-IsValid, note_commit, note_commit-IsValid,
  drop-sublist,
}

pub data Call : Type 0 where
  pushes : Command → Call
  closes : ℕ → Call
  commits : Command → Call

abbrev pub or_nil : Option (List Command) → List Command
or_nil none = []
or_nil (some commands) = commands

abbrev noted : History → CommandPool × Option (List Command) → History
noted h (pool, batch) = record h { pool = pool; returned = h.returned ++ or_nil batch }

note_close : History → ℕ → Outcome History
note_close h n = do r ← close_batch h.pool n; done (noted h r)

step : History → Call → Outcome History
unfolding note_close
step h (pushes c) = done (note_push h c)
step h (closes n) = note_close h n
step h (commits c) = done (note_commit h c)

pub run : History → List Call → Outcome History
unfolding step
run h [] = done h
run h (call ∷ calls) = do h' ← step h call; run h' calls

abbrev pub start : History
start = record { pool = new; accepted = []; returned = [] }

-- `close_batch` is not asked for more than it asserts.
abbrev pub IsModest : Call → Type 0
IsModest (closes n) = n ≤ max_len
IsModest (pushes c) = Unit
IsModest (commits c) = Unit

start-IsValid : IsValid start
unfolding new
start-IsValid = record {
  bounded = omega arith;
  ordered = Sublist.refl [];
  known = tt;
  increasing = tt;
}

drain-IsValid :
    (h : History) (n : ℕ) (buf : List Command)
    → h.pool.pending_buf ≡ buf
    → IsValid h
    → IsValid (noted h (drain h.pool n buf))
unfolding drain newest
drain-IsValid h n [] e v = record {
  bounded = v.bounded;
  ordered = rw append-nil v.ordered;
  known = v.known;
  increasing = v.increasing;
}
drain-IsValid h n (c ∷ buf) e v =
    let all : List Command = c ∷ buf in
    record {
      bounded = omega arith;
      ordered = rw append-nil (
          Sublist.trans
            (Sublist.append (Sublist.refl h.returned) (drop-sublist (max (length all) n - n) all))
            (rw e at v.ordered));
      known = v.known;
      increasing = v.increasing;
    }

step-IsValid :
    (h : History) (call : Call)
    → IsValid h
    → IsModest call
    → (h' : History) × (step h call ≡ done h') × IsValid h'
unfolding step close_batch
step-IsValid h (pushes c) v m = (note_push h c, refl, note_push-IsValid h c v)
step-IsValid h (commits c) v m = (note_commit h c, refl, note_commit-IsValid h c v)
step-IsValid h (closes n) v m =
    let fits : leb n max_len ≡ true = ground arith in
    (
      noted h (drain h.pool n h.pool.pending_buf),
      rw fits,
      drain-IsValid h n h.pool.pending_buf refl v,
    )

run-IsValid :
    (h : History) (calls : List Call)
    → IsValid h
    → All IsModest calls
    → (h' : History) × (run h calls ≡ done h') × IsValid h'
unfolding run
run-IsValid h [] v m = (h, refl, v)
run-IsValid h (call ∷ calls) v m =
    let (h', e, v') = step-IsValid h call v m.0 in
    let (h'', e', v'') = run-IsValid h' calls v' m.1 in (h'', rw e e', v'')

-- Whatever is called, in whatever order, as long as no batch above `max_len` is asked for: no call
-- panics, at most `max_len` commands are pending, each client's accepted commands have increasing
-- sequence numbers, and the commands returned and then those pending are among the accepted ones,
-- in the order of acceptance and each once.
pub run_keeps_order :
    (calls : List Call)
    → All IsModest calls
    → (h : History) × (run start calls ≡ done h)
      × (length h.pool.pending_buf ≤ max_len)
      × Sublist (h.returned ++ h.pool.pending_buf) h.accepted
      × IsIncreasing h.accepted
run_keeps_order calls m =
    let (h, e, v) = run-IsValid start calls start-IsValid m in
    (h, e, v.bounded, v.ordered, v.increasing)

-- What a batch is to the buffer that it was taken from.
pub record IsNewest (max_batch_size : ℕ) (buf : List Command) (batch : Option (List Command))
    : Type 0 where
  pub skipped : List Command
  pub in_order : skipped ++ or_nil batch ≡ buf
  pub size : length (or_nil batch) ≡ min max_batch_size (length buf)
  pub something : is_some batch ≡ not (length buf == 0)

drain_lem :
    (pool : CommandPool) (n : ℕ) (buf : List Command)
    → pool.pending_buf ≡ buf
    → (batch : Option (List Command)) × (drain pool n buf
        ≡ (record pool { pending_buf = [] }, batch))
      × IsNewest n buf batch
unfolding drain newest
drain_lem pool n [] e = (
  none,
  (λ i. (record pool { pending_buf = e i }, none)),
  record { skipped = []; in_order = refl; size = omega arith; something = refl },
)
drain_lem pool n (c ∷ buf) e =
    let all : List Command = c ∷ buf in
    let skip : ℕ = max (length all) n - n in
    (
      some (drop skip all),
      refl,
      record {
        skipped = take skip all;
        in_order = take-append-drop skip all;
        size = omega (arith, length-drop skip all);
        something = ground arith;
      },
    )

-- Up to `max_len`, `close_batch` empties the buffer. It returns nothing if nothing was pending, and
-- otherwise the newest commands in their order, `max_batch_size` of them or all if they are fewer.
pub close_batch-IsNewest :
    (pool : CommandPool) (max_batch_size : ℕ)
    → max_batch_size ≤ max_len
    → (batch : Option (List Command)) × (close_batch pool max_batch_size
        ≡ done (record pool { pending_buf = [] }, batch))
      × IsNewest max_batch_size pool.pending_buf batch
unfolding close_batch
close_batch-IsNewest pool n le =
    let fits : leb n max_len ≡ true = ground arith in
    let (batch, e, newest) = drain_lem pool n pool.pending_buf refl in
    (batch, rw fits (ap done e), newest)
