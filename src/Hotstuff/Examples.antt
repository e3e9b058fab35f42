-- ===== src/Hotstuff/Examples.antt =====
-- The core of HotStuff over a slab that is a list.
use bft_kit.Base.{
  ℕ, ◌+◌, ◌≤◌, ◌≡◌, refl, false, List, [], ◌∷◌, ◌++◌, length, get_elem?, Outcome, done, panic,
  out_of_fuel, arith,
}
use bft_kit.Base.Lists.Indexing.{get-snoc, get_of_ge}
use bft_kit.Base.Map.{lookup, insert}
use bft_kit.Pool
use bft_kit.Pool.CloseLoop
use bft_kit.Crypto.Threshold.{Sig}
use bft_kit.Hotstuff.Slab.{Slab, IsSlab}
use bft_kit.Hotstuff.Core.{
  ReplicaCoreConfig, ReplicaCore, ReplicaCoreEvent, finalize, Actions, new, handle, on_commit,
}
use bft_kit.Hotstuff.Core.Ancestors.{Ranked, new-Ranked}
use bft_kit.Hotstuff.Core.Stored.{handle-Ranked}
use bft_kit.Hotstuff.Core.Finalized.{Finalizes, on_commit-Finalizes}
use bft_kit.Hotstuff.Core.Votes.{Voting, handle-Voting, run, run_votes}

abbrev pub list_slab : Slab
list_slab = record {
  Of = λ A. List A;
  empty = λ A. [];
  vacant_key = λ A s. length s;
  insert = λ A s a. (s ++ a ∷ [], length s);
  get = λ A s k. get_elem? s k;
}

pub list_slab-IsSlab : IsSlab list_slab
list_slab-IsSlab = record {
  get-empty = λ A k. refl;
  get-insert = λ A s a k. ground (arith, get-snoc s k a);
  insert-vacant_key = λ A s a. refl;
  get-vacant_key = λ A s. get_of_ge s (length s) (omega arith);
}

abbrev replica_config : ReplicaCoreConfig
replica_config = record {
  spec = record { num_faulty = 1; num_replica = 4 };
  id = 1;
  open_loop = false;
  max_batch_size = 1;
}

abbrev start : ReplicaCore list_slab
start = new list_slab replica_config

-- A first block on top of the genesis node.
abbrev first_block : ReplicaCoreEvent
first_block = ReplicaCoreEvent.proposal 11 (record {
  parent = 0;
  commands = record { client_id = 2; seq = 1; op = [] } ∷ [];
  justify = record { node = 0; sig = Sig.vec [] };
  height = 1;
})

abbrev core_of : Outcome (ReplicaCore list_slab × Actions) → ReplicaCore list_slab
core_of (done (core, actions)) = core
core_of panic = start
core_of out_of_fuel = start

abbrev actions_of : Outcome (ReplicaCore list_slab × Actions) → Actions
actions_of (done (core, actions)) = actions
actions_of panic = []
actions_of out_of_fuel = []

abbrev after : Outcome (ReplicaCore list_slab × Actions)
after = handle list_slab start first_block

after_done : after ≡ done (core_of after, actions_of after)
unfolding handle new lookup insert Pool.close_batch Pool.new_close_loop CloseLoop.close_batch
after_done = refl

handle-Voting_example : Voting list_slab start (core_of after) (actions_of after)
handle-Voting_example = handle-Voting list_slab start first_block after_done

abbrev after_run : Outcome (ReplicaCore list_slab × List ℕ)
after_run = run list_slab start (first_block ∷ [])

run_done : after_run ≡ done (core_of after, 1 ∷ [])
unfolding run handle new lookup insert Pool.close_batch Pool.new_close_loop CloseLoop.close_batch
run_done = refl

run_votes_example : 1 + start.vote_height ≤ (core_of after).vote_height
run_votes_example = run_votes list_slab start (first_block ∷ []) run_done

handle-Ranked_example : Ranked list_slab (core_of after)
handle-Ranked_example =
    handle-Ranked list_slab list_slab-IsSlab start first_block
      (new-Ranked list_slab list_slab-IsSlab replica_config) after_done

abbrev committed : Outcome (ReplicaCore list_slab × Actions)
committed = on_commit list_slab 2 (core_of after) 1

committed_done : committed ≡ done (core_of committed, actions_of committed)
unfolding on_commit handle new lookup insert Pool.close_batch Pool.new_close_loop Pool.commit
    CloseLoop.close_batch CloseLoop.commit
committed_done = refl

committed_actions : actions_of committed ≡ finalize 1 ∷ []
unfolding on_commit handle new lookup insert Pool.close_batch Pool.new_close_loop Pool.commit
    CloseLoop.close_batch CloseLoop.commit
committed_actions = refl

on_commit-Finalizes_example :
    Finalizes list_slab (core_of after) 1 (core_of committed) (actions_of committed)
on_commit-Finalizes_example = on_commit-Finalizes list_slab (core_of after) 2 1 committed_done
