-- ===== src/Pool/CloseLoop/Push.antt =====
-- `close_loop::CommandPool::push` on a valid pool.
use bft_kit.Base.{
  ℕ, ◌+◌, ◌≤◌, ◌<◌, ◌≡◌, refl, inl, inr, none, some, Bool, true, false, [], ◌∷◌, ◌++◌, length,
  length-append, length-set, get_elem?, set, usize, usize_mod, ltb, ◌==◌, Bool-cases, Option-cases,
  done, arith,
}
use bft_kit.Base.Lists.Indexing.{get-lt-length, get-set, get-snoc}
use bft_kit.Base.Map.{lookup, insert, lookup-insert}
use bft_kit.Command.{Command}
use bft_kit.Pool.CloseLoop.{CommandPool, client_pending_index, is_fresh, push_at, push}
use bft_kit.Pool.CloseLoop.Invariant.{
  IsValid, Pending, index_found, index_missing, index_of_Pending,
}

-- The pool after a newer command has replaced its client's pending one.
abbrev replaced : CommandPool → ℕ → Command → CommandPool
replaced pool i command = record pool { pending_queue = set pool.pending_queue i command }

-- The pool after a command of a client with none pending has joined the queue.
abbrev joined : CommandPool → Command → CommandPool
joined pool command = record pool {
  client_pending_offsets =
      insert command.client_id (usize (pool.pending_queue_offset + length pool.pending_queue))
        pool.client_pending_offsets;
  pending_queue = pool.pending_queue ++ command ∷ [];
}

module _ {pool : CommandPool} (v : IsValid pool) (command : Command) where
  module _ (i : ℕ) {c : Command} (at : get_elem? pool.pending_queue i ≡ some c)
      (owner : c.client_id ≡ command.client_id)
      (newer : is_fresh (lookup command.client_id pool.submitted_seqs) command.seq ≡ true) where
    replaced-IsValid : IsValid (replaced pool i command)
    replaced-IsValid =
        let room = get-lt-length pool.pending_queue i at in
        record {
          in_memory = omega (arith, v.in_memory, length-set pool.pending_queue i command);
          offset_fits = v.offset_fits;
          indexed = λ j d h.
              ground (
                arith,
                get-set pool.pending_queue i j command room,
                v.indexed j d,
                v.indexed i c at,
              );
          sound = λ k o h.
              let (p, e) = v.sound k o h in
              elim (Bool-cases (i == p.index)) [
                | inl same ↦ (
                  record {
                    index = p.index;
                    command = command;
                    at = ground (arith, get-set pool.pending_queue i p.index command room);
                    owner = ground (arith, p.at, p.owner);
                  },
                  e,
                )
                | inr other ↦ (
                  record {
                    index = p.index;
                    command = p.command;
                    at = ground (arith, p.at, get-set pool.pending_queue i p.index command room);
                    owner = p.owner;
                  },
                  e,
                )
              ];
          fresh = λ j d h. ground (arith, get-set pool.pending_queue i j command room, v.fresh j d);
        }

  module _ (missing : lookup command.client_id pool.client_pending_offsets ≡ none)
      (newer : is_fresh (lookup command.client_id pool.submitted_seqs) command.seq ≡ true)
      (room : length pool.pending_queue + 1 < usize_mod) where
    joined-IsValid : IsValid (joined pool command)
    joined-IsValid =
        let queue = pool.pending_queue in
        let offsets = pool.client_pending_offsets in
        let offset : ℕ = usize (pool.pending_queue_offset + length queue) in
        record {
          in_memory = omega (arith, length-append queue (command ∷ []));
          offset_fits = v.offset_fits;
          indexed = λ j d h. ground (
            arith,
            get-snoc queue j command,
            v.indexed j d,
            lookup-insert command.client_id d.client_id offset offsets,
          );
          sound = λ k o h. elim (Bool-cases (command.client_id == k)) [
            | inl same ↦ (
              record {
                index = length queue;
                command = command;
                at = ground (arith, get-snoc queue (length queue) command);
                owner = ground arith;
              },
              ground (arith, lookup-insert command.client_id k offset offsets),
            )
            | inr other ↦
                let old : lookup k offsets ≡ some o =
                  ground (arith, lookup-insert command.client_id k offset offsets) in
                let (p, e) = v.sound k o old in
                (
                  record {
                    index = p.index;
                    command = p.command;
                    at = ground (
                      arith,
                      p.at,
                      get-lt-length queue p.index p.at,
                      get-snoc queue p.index command,
                    );
                    owner = p.owner;
                  },
                  e,
                )
          ];
          fresh = λ j d h. ground (arith, get-snoc queue j command, v.fresh j d);
        }

-- The pool has the command, or a newer one of its client: submitted, committed or pending.
pub data Covers (pool : CommandPool) (command : Command) : Type 0 where
  submitted :
      is_fresh (lookup command.client_id pool.submitted_seqs) command.seq ≡ false
      → Covers pool command
  pending : (p : Pending pool command.client_id) → command.seq ≤ p.command.seq → Covers pool command

-- What `push` may come to.
pub data Pushed (pool : CommandPool) (command : Command) (r : CommandPool × Bool) : Type 0 where
  refused : Covers pool command → r ≡ (pool, false) → Pushed pool command r
  took_place :
      (i : ℕ) (c : Command)
      → get_elem? pool.pending_queue i ≡ some c
      → c.client_id ≡ command.client_id
      → c.seq < command.seq
      → r ≡ (replaced pool i command, true)
      → Pushed pool command r
  took_last :
      lookup command.client_id pool.client_pending_offsets ≡ none
      → r ≡ (joined pool command, true)
      → Pushed pool command r

module _ {pool : CommandPool} (v : IsValid pool) (command : Command)
    (room : length pool.pending_queue + 1 < usize_mod) where
  push_at_pending :
      (i : ℕ)
      → client_pending_index pool command.client_id ≡ some i
      → is_fresh (lookup command.client_id pool.submitted_seqs) command.seq ≡ true
      → (r : CommandPool × Bool) × (push_at pool command (some i) ≡ done r)
        × Pushed pool command r
        × IsValid r.0
  unfolding push_at
  push_at_pending i found newer =
      let (c, at, owner) = index_found v command.client_id found in
      elim (Bool-cases (ltb c.seq command.seq)) [
        | inl lt ↦ (
          (replaced pool i command, true),
          ground (arith, at),
          took_place i c at owner (ground arith) refl,
          replaced-IsValid v command i at owner newer,
        )
        | inr ge ↦
            let p : Pending pool command.client_id = record {
              index = i;
              command = c;
              at = at;
              owner = owner;
            } in
            ((pool, false), ground (arith, at), refused (pending p (ground arith)) refl, v)
      ]

  -- On a valid pool `push` does not panic, does one of the three, and leaves a valid pool.
  pub push_lem :
      (r : CommandPool × Bool) × (push pool command ≡ done r) × Pushed pool command r × IsValid r.0
  unfolding push push_at
  push_lem =
      elim (Bool-cases (is_fresh (lookup command.client_id pool.submitted_seqs) command.seq)) [
        | inr old ↦ ((pool, false), rw old, refused (submitted old) refl, v)
        | inl newer ↦ elim (Option-cases (client_pending_index pool command.client_id)) [
          | inl e ↦
              let missing = index_missing v command.client_id e in
              (
                (joined pool command, true),
                rw newer (rw e),
                took_last missing refl,
                joined-IsValid v command missing newer room,
              )
          | inr (i, e) ↦
              let (r, runs, how, valid) = push_at_pending i e newer in
              (r, rw newer (rw e runs), how, valid)
        ]
      ]

Pushed-Covers :
    {pool : CommandPool} {command : Command} {r : CommandPool × Bool}
    → Pushed pool command r
    → Covers r.0 command
Pushed-Covers (refused covers e) = rw e covers
Pushed-Covers {pool} {command} (took_place i c at owner lt e) =
    let room = get-lt-length pool.pending_queue i at in
    rw e (
      pending
        (record {
          index = i;
          command = command;
          at = ground (arith, get-set pool.pending_queue i i command room);
          owner = refl;
        })
        (omega arith))
Pushed-Covers {pool} {command} (took_last missing e) =
    let queue = pool.pending_queue in
    rw e (
      pending
        (record {
          index = length queue;
          command = command;
          at = ground (arith, get-snoc queue (length queue) command);
          owner = refl;
        })
        (omega arith))

pub push_of_Covers :
    {pool : CommandPool} (command : Command)
    → IsValid pool
    → Covers pool command
    → push pool command ≡ done (pool, false)
unfolding push
push_of_Covers command v (submitted old) = rw old
push_of_Covers {pool} command v (pending p le) =
    let found = index_of_Pending v p in
    elim (Bool-cases (is_fresh (lookup command.client_id pool.submitted_seqs) command.seq)) [
      | inr old ↦ rw old
      | inl newer ↦ unfold push_at in ground (arith, found, p.at, p.owner)
    ]

-- On a valid pool with room, `push` does not panic and leaves a valid pool, and to push the same
-- command once more returns false and changes nothing.
pub push-push :
    {pool : CommandPool} (command : Command)
    → IsValid pool
    → length pool.pending_queue + 1 < usize_mod
    → (r : CommandPool × Bool) × (push pool command ≡ done r)
      × IsValid r.0
      × (push r.0 command ≡ done (r.0, false))
push-push command v room =
    let (r, runs, how, valid) = push_lem v command room in
    (r, runs, valid, push_of_Covers command valid (Pushed-Covers how))
