-- ===== src/Pool/CloseLoop/Ends.antt =====
-- No operation of the closed loop pool runs on fuel.
use bft_kit.Base.{
  ℕ, ◌≢◌, Option, none, some, List, [], ◌∷◌, out_of_fuel, assert, unwrap, get_elem?, length, take,
  ltb, leb, ◌==◌, >>=-ends, done-ends, unwrap-ends, assert-ends, if-ends,
}
use bft_kit.Base.Map.{Map, lookup, insert, remove}
use bft_kit.Command.{Command}
use bft_kit.Pool.CloseLoop.{
  CommandPool, is_fresh, push_at, push, submit, split, close_batch, commit_at, commit,
}

push_at-ends :
    (pool : CommandPool) (command : Command) (index : Option ℕ)
    → push_at pool command index ≢ out_of_fuel
unfolding push_at
push_at-ends pool command none = done-ends _
push_at-ends pool command (some i) =
    >>=-ends (unwrap (get_elem? pool.pending_queue i)) _ (unwrap-ends _) λ c e.
      >>=-ends (assert (c.client_id == command.client_id)) _ (assert-ends _)
        λ u e2. if-ends (ltb c.seq command.seq) _ _ (done-ends _) (done-ends _)

pub push-ends : (pool : CommandPool) (command : Command) → push pool command ≢ out_of_fuel
unfolding push
push-ends pool command =
    if-ends (is_fresh (lookup command.client_id pool.submitted_seqs) command.seq) _ _
      (push_at-ends pool command _) (done-ends _)

submit-ends :
    (commands : List Command) (offsets seqs : Map ℕ) → submit commands offsets seqs ≢ out_of_fuel
unfolding submit
submit-ends [] offsets seqs = done-ends _
submit-ends (c ∷ commands) offsets seqs =
    >>=-ends (assert (is_fresh (lookup c.client_id seqs) c.seq)) _ (assert-ends _)
      λ u e. submit-ends commands (remove c.client_id offsets) (insert c.client_id c.seq seqs)

split-ends : (pool : CommandPool) (batch_size : ℕ) → split pool batch_size ≢ out_of_fuel
unfolding split
split-ends pool batch_size =
    >>=-ends
      (submit (take batch_size pool.pending_queue) pool.client_pending_offsets pool.submitted_seqs)
      _ (submit-ends _ _ _) (λ r e. done-ends _)

pub close_batch-ends :
    (pool : CommandPool) (max_batch_size : ℕ) → close_batch pool max_batch_size ≢ out_of_fuel
unfolding close_batch
close_batch-ends pool max_batch_size =
    if-ends (length pool.pending_queue == 0) _ _ (done-ends _) (split-ends pool _)

commit_at-ends :
    (pool : CommandPool) (command : Command) (index : Option ℕ)
    → commit_at pool command index ≢ out_of_fuel
unfolding commit_at
commit_at-ends pool command none = done-ends _
commit_at-ends pool command (some i) =
    >>=-ends (unwrap (get_elem? pool.pending_queue i)) _ (unwrap-ends _)
      λ c e. if-ends (leb c.seq command.seq) _ _ (done-ends _) (done-ends _)

pub commit-ends : (pool : CommandPool) (command : Command) → commit pool command ≢ out_of_fuel
unfolding commit
commit-ends pool command = search (commit_at-ends)
