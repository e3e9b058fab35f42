-- ===== src/Pool/CloseLoop/Life.antt =====
-- The life of a close loop pool: any calls, in any order.
use bft_kit.Base.{
  ℕ, ◌+◌, ◌≤◌, ◌<◌, min, ◌≡◌, ◌≢◌, refl, suc, All, ap, Bool, some, List, [], ◌∷◌, length,
  length-append, length-set, get_elem?, take, inl, inr, usize_mod, Outcome, done, ◌>>=◌, arith,
}
use bft_kit.Base.Lists.Indexing.{All-of-get}
use bft_kit.Command.{Command}
use bft_kit.Pool.CloseLoop.{CommandPool, new, withdraw, push, close_batch, commit}
use bft_kit.Pool.CloseLoop.SwapRemove.{length-swap_remove}
use bft_kit.Pool.CloseLoop.Invariant.{IsValid, new-IsValid, one_per_client}
use bft_kit.Pool.CloseLoop.Push.{Pushed, refused, took_place, took_last, push_lem}
use bft_kit.Pool.CloseLoop.CloseBatch.{close_batch_lem}
use bft_kit.Pool.CloseLoop.Commit.{Committed, nothing_else, withdrew, commit_lem}

pub data Call : Type 0 where
  pushes : Command → Call
  closes : ℕ → Call
  commits : Command → Call

step : CommandPool → Call → Outcome CommandPool
step pool (pushes c) = do (pool', _) ← push pool c; done pool'
step pool (closes n) = do (pool', _) ← close_batch pool n; done pool'
step pool (commits c) = commit pool c

pub run : CommandPool → List Call → Outcome CommandPool
unfolding step
run pool [] = done pool
run pool (call ∷ calls) = do pool' ← step pool call; run pool' calls

Pushed-length :
    {pool : CommandPool} {c : Command} {r : CommandPool × Bool}
    → Pushed pool c r
    → length r.0.pending_queue ≤ length pool.pending_queue + 1
Pushed-length (refused covers e) = rw e (omega arith)
Pushed-length {pool} {c} (took_place i d at owner lt e) =
    rw e (omega (arith, length-set pool.pending_queue i c))
Pushed-length {pool} {c} (took_last missing e) =
    rw e (omega (arith, length-append pool.pending_queue (c ∷ [])))

Committed-length :
    {pool : CommandPool} {c : Command} {r : CommandPool}
    → Committed pool c r
    → length r.pending_queue ≤ length pool.pending_queue + 1
unfolding withdraw
Committed-length (nothing_else h e) = rw e (omega arith)
Committed-length {pool} (withdrew i d at owner le e) =
    rw e (omega (arith, length-swap_remove pool.pending_queue i))

step-IsValid :
    (pool : CommandPool) (call : Call)
    → IsValid pool
    → length pool.pending_queue + 1 < usize_mod
    → (pool' : CommandPool) × (step pool call ≡ done pool')
      × IsValid pool'
      × (length pool'.pending_queue ≤ length pool.pending_queue + 1)
unfolding step
step-IsValid pool (pushes c) v room =
    let (r, e, how, v') = push_lem v c room in (r.0, rw e, v', Pushed-length how)
step-IsValid pool (commits c) v room =
    let (r, e, how, v', _) = commit_lem c v in (r, e, v', Committed-length how)
step-IsValid pool (closes n) v room =
    let (pool', how) = close_batch_lem n v in
    elim how [
      | inl (empty, e, same) ↦ (pool, rw e, v, omega arith)
      | inr (some_pending, e, closed) ↦
          let batch : List Command = take (min n (length pool.pending_queue)) pool.pending_queue in
          (
            pool',
            rw e,
            closed.valid,
            omega (arith, length-append batch pool'.pending_queue, ap length closed.in_order),
          )
    ]

run-IsValid :
    (pool : CommandPool) (calls : List Call)
    → IsValid pool
    → length pool.pending_queue + length calls < usize_mod
    → (pool' : CommandPool) × (run pool calls ≡ done pool') × IsValid pool'
unfolding run
run-IsValid pool [] v room = (pool, refl, v)
run-IsValid pool (call ∷ calls) v room =
    let (pool', e, v', le) = step-IsValid pool call v (omega arith) in
    let (pool'', e', v'') = run-IsValid pool' calls v' (omega arith) in (pool'', rw e e', v'')

-- No two commands are of one client.
abbrev pub OnePerClient : List Command → Type 0
OnePerClient [] = Unit
OnePerClient (c ∷ cs) = All (λ d. c.client_id ≢ d.client_id) cs × OnePerClient cs

OnePerClient-get :
    (cs : List Command)
    → ((i j : ℕ) (c d : Command)
        → get_elem? cs i ≡ some c
        → get_elem? cs j ≡ some d
        → c.client_id ≡ d.client_id
        → i ≡ j)
    → OnePerClient cs
OnePerClient-get [] h = tt
OnePerClient-get (c ∷ cs) h = (
  All-of-get _ cs (λ i d at same. absurd (omega (arith, h 0 (suc i) c d refl at same))),
  OnePerClient-get cs (λ i j a b at at' same. omega (arith, h (suc i) (suc j) a b at at' same)),
)

-- Fewer than 2^64 calls on a new pool, in any order: none panics, and no two pending commands are
-- of one client.
pub run_never_panics :
    (calls : List Call)
    → length calls < usize_mod
    → (pool : CommandPool) × (run new calls ≡ done pool) × OnePerClient pool.pending_queue
unfolding new
run_never_panics calls few =
    let (pool, e, v) = run-IsValid new calls new-IsValid (omega arith) in
    (pool, e, OnePerClient-get pool.pending_queue (one_per_client v))
