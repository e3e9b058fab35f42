-- ===== src/Hotstuff/Core/Finalized.antt =====
-- What a commit of the core of HotStuff finalizes.
use bft_kit.Base.{
  ℕ, zero, suc, ◌≤◌, ◌<◌, ◌≡◌, refl, sym, ◌∙◌, ap, List, [], ◌∷◌, ◌++◌, ltb, done, >>=-eq-done,
  Bool-cases, inl, inr, arith,
}
use mathlib.Core.List.{append_assoc, append-nil}
use bft_kit.Command.{Command}
use bft_kit.Pool
use bft_kit.Pool.{CommandPool}
use bft_kit.Pbft.Core.Phases.{done_pair}
use bft_kit.Hotstuff.Slab.{Slab}
use bft_kit.Hotstuff.Core.{NodeData, ReplicaCore, finalize, Actions, commit_all, node_at, on_commit}
use bft_kit.Hotstuff.Core.Quiet.{done_eq}

-- A node that a commit finalizes.
pub record Committed : Type 0 where
  pub key : ℕ
  pub block : NodeData

abbrev pub last_key : ℕ → List Committed → ℕ
last_key root [] = root
last_key root (c ∷ cs) = last_key c.key cs

abbrev pub commands_of : List Committed → List Command
commands_of [] = []
commands_of (c ∷ cs) = c.block.commands ++ commands_of cs

abbrev pub finalizes : List Committed → Actions
finalizes [] = []
finalizes (c ∷ cs) = finalize c.key ∷ finalizes cs

last_key-snoc :
    (root : ℕ) (cs : List Committed) (c : Committed) → last_key root (cs ++ c ∷ []) ≡ c.key
last_key-snoc root [] c = refl
last_key-snoc root (d ∷ cs) c = last_key-snoc d.key cs c

commands_of-snoc :
    (cs : List Committed) (c : Committed)
    → commands_of (cs ++ c ∷ []) ≡ commands_of cs ++ c.block.commands
commands_of-snoc [] c = rw append-nil
commands_of-snoc (d ∷ cs) c =
    ap (λ l. d.block.commands ++ l) (commands_of-snoc cs c)
    ∙ sym (append_assoc d.block.commands (commands_of cs) c.block.commands)

finalizes-snoc :
    (cs : List Committed) (c : Committed)
    → finalizes (cs ++ c ∷ []) ≡ finalizes cs ++ finalize c.key ∷ []
finalizes-snoc [] c = refl
finalizes-snoc (d ∷ cs) c = ap (λ l. finalize d.key ∷ l) (finalizes-snoc cs c)

commit_all-nil : (pool : CommandPool) → commit_all pool [] ≡ done pool
unfolding commit_all
commit_all-nil pool = refl

commit_all-append :
    (xs ys : List Command) (pool : CommandPool) {mid last : CommandPool}
    → commit_all pool xs ≡ done mid
    → commit_all mid ys ≡ done last
    → commit_all pool (xs ++ ys) ≡ done last
unfolding commit_all
commit_all-append [] ys pool h k = rw (done_eq h) k
commit_all-append (x ∷ xs) ys pool h k =
    let (pool', e, h2) = >>=-eq-done (Pool.commit pool x) _ h in
    rw e (commit_all-append xs ys pool' h2 k)

module _ (slab : Slab) (core : ReplicaCore slab) where
  -- Each node is in the core, above the height, and a child of the one before it.
  abbrev pub IsPath : ℕ → ℕ → List Committed → Type 0
  IsPath low root [] = Unit
  IsPath low root (c ∷ cs) =
      (node_at slab core c.key ≡ done c.block)
      × (c.block.parent ≡ root)
      × (low < c.block.height)
      × IsPath low c.key cs

  IsPath-snoc :
      (low root : ℕ) (cs : List Committed) (c : Committed)
      → node_at slab core c.key ≡ done c.block
      → c.block.parent ≡ last_key root cs
      → low < c.block.height
      → IsPath low root cs
      → IsPath low root (cs ++ c ∷ [])
  IsPath-snoc low root [] c at parent above path = (at, parent, above, tt)
  IsPath-snoc low root (d ∷ cs) c at parent above (at', parent', above', path) =
      (at', parent', above', IsPath-snoc low d.key cs c at parent above path)

  -- The path that a commit finalizes, down from a node that is not above the executed one.
  pub record Finalizes (key : ℕ) (core' : ReplicaCore slab) (actions : Actions) : Type 0 where
    pub executed : NodeData
    pub root : ℕ
    pub root_block : NodeData
    pub path : List Committed
    pub executed_at : node_at slab core core.block_execute ≡ done executed
    pub root_at : node_at slab core root ≡ done root_block
    pub below : root_block.height ≤ executed.height
    pub is_path : IsPath executed.height root path
    pub ends : last_key root path ≡ key
    pub in_order : actions ≡ finalizes path
    pub committed : commit_all core.pool (commands_of path) ≡ done core'.pool

  -- One more node behind the path to its parent.
  Finalizes-extend :
      (key : ℕ) (block executed : NodeData) (mid : ReplicaCore slab) (actions : Actions)
      (pool : CommandPool)
      → node_at slab core key ≡ done block
      → node_at slab core core.block_execute ≡ done executed
      → executed.height < block.height
      → commit_all mid.pool block.commands ≡ done pool
      → Finalizes block.parent mid actions
      → Finalizes key (record mid { pool = pool }) (actions ++ finalize key ∷ [])
  Finalizes-extend key block executed mid actions pool at exec above commits f =
      let this : Committed = record { key = key; block = block } in
      let same : f.executed ≡ executed = done_eq (sym f.executed_at ∙ exec) in
      let higher : f.executed.height < block.height = rw same above in
      record {
        executed = f.executed;
        root = f.root;
        root_block = f.root_block;
        path = f.path ++ this ∷ [];
        executed_at = f.executed_at;
        root_at = f.root_at;
        below = f.below;
        is_path = IsPath-snoc f.executed.height f.root f.path this at (sym f.ends) higher f.is_path;
        ends = last_key-snoc f.root f.path this;
        in_order = ap (λ l. l ++ finalize key ∷ []) f.in_order ∙ sym (finalizes-snoc f.path this);
        committed =
            rw (commands_of-snoc f.path this)
              (commit_all-append (commands_of f.path) block.commands core.pool f.committed commits);
      }

  Finalizes-done :
      {key : ℕ} {b c : ReplicaCore slab} {xs ys : Actions}
      → b ≡ c
      → xs ≡ ys
      → Finalizes key b xs
      → Finalizes key c ys
  Finalizes-done same acts f = rw (← same, ← acts) f

  -- When `on_commit` of a node returns, it has finalized, parents first and without a gap, the path
  -- to the node from an ancestor that is not higher than the node executed last, all nodes of which
  -- are higher; and it has told the pool of all their commands in that order.
  pub on_commit-Finalizes :
      (fuel key : ℕ) {core' : ReplicaCore slab} {actions : Actions}
      → on_commit slab fuel core key ≡ done (core', actions)
      → Finalizes key core' actions
  unfolding on_commit
  on_commit-Finalizes zero key h = absurd (cc)
  on_commit-Finalizes (suc fuel) key {core'} {actions} h =
      let (executed, e, h2) = >>=-eq-done (node_at slab core core.block_execute) _ h in
      let (block, e2, h3) = >>=-eq-done (node_at slab core key) _ h2 in
      elim (Bool-cases (ltb executed.height block.height)) [
        | inr old ↦
            let (same, acts) = done_pair (rw old at h3) in
            Finalizes-done same acts (record {
              executed = executed;
              root = key;
              root_block = block;
              path = [];
              executed_at = e;
              root_at = e2;
              below = ground arith;
              is_path = tt;
              ends = refl;
              in_order = refl;
              committed = commit_all-nil core.pool;
            })
        | inl new ↦
            let (r, walks, h4) =
              >>=-eq-done (on_commit slab fuel core block.parent) _ (rw new at h3) in
            let (pool, commits, h5) = >>=-eq-done (commit_all r.0.pool block.commands) _ h4 in
            let core1 : ReplicaCore slab = record r.0 { pool = pool } in
            let acts1 : Actions = r.1 ++ finalize key ∷ [] in
            let (same, acts) = done_pair {a = core1} {b = acts1} h5 in
            Finalizes-done {b = core1} {xs = acts1} same acts (
              Finalizes-extend key block executed r.0 r.1 pool e2 e (ground arith) commits
                (on_commit-Finalizes fuel block.parent walks))
      ]
