-- ===== src/Pool/CloseLoop/Commit.antt =====
-- `close_loop::CommandPool::commit` on a valid pool.
use bft_kit.Base.{
  ℕ, suc, ◌+◌, ◌-◌, ◌≤◌, ◌<◌, max, ◌≡◌, ◌≢◌, refl, sym, ◌∙◌, ap, ◌⊎◌, inl, inr, some, true, length,
  get_elem?, usize, ltb, leb, ◌==◌, Bool-cases, Option-cases, done, arith,
}
use bft_kit.Base.Lists.Indexing.{get-lt-length}
use bft_kit.Base.Map.{Map, lookup, insert, remove, lookup-insert, lookup-remove}
use bft_kit.Command.{Command}
use bft_kit.Pool.CloseLoop.{
  CommandPool, client_pending_index, is_fresh, or_zero, swap_remove, moved, withdraw, commit_at,
  commit,
}
use bft_kit.Pool.CloseLoop.SwapRemove.{last?-get, get-swap_remove, length-swap_remove}
use bft_kit.Pool.CloseLoop.Invariant.{IsValid, Pending, one_per_client, index_found, index_missing}
use bft_kit.Pool.CloseLoop.Push.{Covers, submitted}

-- The pool with the committed sequence number recorded.
abbrev recorded : CommandPool → Command → CommandPool
recorded pool command = record pool {
  submitted_seqs =
      insert command.client_id
        (max (or_zero (lookup command.client_id pool.submitted_seqs)) command.seq)
        pool.submitted_seqs;
}

recorded-Covers : (pool : CommandPool) (command : Command) → Covers (recorded pool command) command
recorded-Covers pool command =
    let seq : ℕ = max (or_zero (lookup command.client_id pool.submitted_seqs)) command.seq in
    submitted
      (ground (arith, lookup-insert command.client_id command.client_id seq pool.submitted_seqs))

recorded-fresh :
    {pool : CommandPool} (command : Command) (i : ℕ) (d : Command)
    → IsValid pool
    → get_elem? pool.pending_queue i ≡ some d
    → (d.client_id ≢ command.client_id) ⊎ (command.seq < d.seq)
    → is_fresh (lookup d.client_id (recorded pool command).submitted_seqs) d.seq ≡ true
recorded-fresh {pool} command i d v at h =
    let seq : ℕ = max (or_zero (lookup command.client_id pool.submitted_seqs)) command.seq in
    ground
      (arith, v.fresh i d at, lookup-insert command.client_id d.client_id seq pool.submitted_seqs)

withdraw-Covers :
    (pool : CommandPool) (command : Command) (i : ℕ)
    → Covers (withdraw (recorded pool command) command i) command
unfolding withdraw
withdraw-Covers pool command i =
    let seq : ℕ = max (or_zero (lookup command.client_id pool.submitted_seqs)) command.seq in
    submitted
      (ground (arith, lookup-insert command.client_id command.client_id seq pool.submitted_seqs))

module _ {pool : CommandPool} (v : IsValid pool) (command : Command) where
  -- The command's client has nothing pending, or something newer.
  recorded-IsValid :
      ((i : ℕ) (d : Command)
        → get_elem? pool.pending_queue i ≡ some d
        → (d.client_id ≢ command.client_id) ⊎ (command.seq < d.seq))
      → IsValid (recorded pool command)
  recorded-IsValid newer = record {
    in_memory = v.in_memory;
    offset_fits = v.offset_fits;
    indexed = v.indexed;
    sound = λ k o h.
        let (p, e) = v.sound k o h in
        (record { index = p.index; command = p.command; at = p.at; owner = p.owner }, e);
    fresh = λ i d h. recorded-fresh command i d v h (newer i d h);
  }

  module _ (i : ℕ) {c : Command} (at : get_elem? pool.pending_queue i ≡ some c)
      (owner : c.client_id ≡ command.client_id) where
    -- What `withdraw` leaves at an index is the last command or stood there before, and it is of
    -- another client.
    left :
        (j : ℕ) (d : Command)
        → get_elem? (swap_remove pool.pending_queue i) j ≡ some d
        → (suc j < length pool.pending_queue)
          × ((i ≡ j) × (get_elem? pool.pending_queue (length pool.pending_queue - 1) ≡ some d)
              ⊎ (i ≢ j) × (get_elem? pool.pending_queue j ≡ some d))
    left j d h =
        let room = get-lt-length pool.pending_queue i at in
        let law = get-swap_remove pool.pending_queue i j room in
        let final = last?-get pool.pending_queue in
        elim (Bool-cases (ltb (suc j) (length pool.pending_queue))) [
          | inr e ↦ absurd (ground arith)
          | inl e ↦ elim (Bool-cases (i == j)) [
            | inl same ↦ (ground arith, inl (ground arith, ground arith))
            | inr other ↦ (ground arith, inr (ground arith, ground arith))
          ]
        ]

    left_other :
        (j : ℕ) (d : Command)
        → get_elem? (swap_remove pool.pending_queue i) j ≡ some d
        → d.client_id ≢ command.client_id
    left_other j d h e =
        let (lt, origin) = left j d h in
        elim origin [
          | inl (same, from) ↦ omega (
            arith,
            one_per_client v (length pool.pending_queue - 1) i d c from at (e ∙ sym owner),
          )
          | inr (other, from) ↦ other (sym (one_per_client v j i d c from at (e ∙ sym owner)))
        ]

    abbrev offsets_left : Map ℕ
    offsets_left =
        moved pool i (get_elem? (swap_remove pool.pending_queue i) i)
          (remove command.client_id pool.client_pending_offsets)

    -- Where the last command moved, it is the one that was last.
    moved_from :
        (l : Command)
        → get_elem? (swap_remove pool.pending_queue i) i ≡ some l
        → (get_elem? pool.pending_queue (length pool.pending_queue - 1) ≡ some l)
          × (suc i < length pool.pending_queue)
    moved_from l h =
        let (lt, origin) = left i l h in
        elim origin [ inl (same, from) ↦ (from, lt) | inr (other, from) ↦ absurd (other refl) ]

    withdrawn-indexed :
        (j : ℕ) (d : Command)
        → get_elem? (swap_remove pool.pending_queue i) j ≡ some d
        → lookup d.client_id offsets_left ≡ some (usize (pool.pending_queue_offset + j))
    unfolding moved
    withdrawn-indexed j d h =
        let k : ℕ = command.client_id in
        let offsets = pool.client_pending_offsets in
        let offset : ℕ = usize (pool.pending_queue_offset + i) in
        let (lt, origin) = left j d h in
        let apart = left_other j d h in
        elim origin [
          | inl (same, from) ↦
              let here : get_elem? (swap_remove pool.pending_queue i) i ≡ some d =
                ap (get_elem? (swap_remove pool.pending_queue i)) same ∙ h in
              rw here
                (ground (arith, lookup-insert d.client_id d.client_id offset (remove k offsets)))
          | inr (other, from) ↦
              let kept = lookup-remove k d.client_id offsets in
              let was = v.indexed j d from in
              elim (Option-cases (get_elem? (swap_remove pool.pending_queue i) i)) [
                | inl e ↦ rw e (ground arith)
                | inr (l, e) ↦
                    let (final, more) = moved_from l e in
                    let differ : l.client_id ≢ d.client_id = (λ same. omega (
                      arith,
                      one_per_client v (length pool.pending_queue - 1) j l d final from same,
                    )) in
                    rw e (
                      ground (
                        arith,
                        differ,
                        lookup-insert l.client_id d.client_id offset (remove k offsets),
                      ))
              ]
        ]

    -- An offset that `withdraw` leaves is the moved command's, or an old one of another command.
    offset_origin :
        (k o : ℕ)
        → lookup k offsets_left ≡ some o
        → ((l : Command) × (get_elem? (swap_remove pool.pending_queue i) i ≡ some l)
            × (l.client_id ≡ k)
            × (o ≡ usize (pool.pending_queue_offset + i)))
          ⊎ ((k ≢ command.client_id)
              × (lookup k pool.client_pending_offsets ≡ some o)
              × ((l : Command)
                  → get_elem? (swap_remove pool.pending_queue i) i ≡ some l
                  → l.client_id ≢ k))
    unfolding moved
    offset_origin k o h =
        let offsets = pool.client_pending_offsets in
        let offset : ℕ = usize (pool.pending_queue_offset + i) in
        let kept = lookup-remove command.client_id k offsets in
        elim (Option-cases (get_elem? (swap_remove pool.pending_queue i) i)) [
          | inl e ↦
              let h' : lookup k (remove command.client_id offsets) ≡ some o = rw e at h in
              inr (ground arith, ground arith, λ l f. cc)
          | inr (l, e) ↦
              let h' : lookup k (insert l.client_id offset (remove command.client_id offsets))
                  ≡ some o =
                rw e at h in
              let law = lookup-insert l.client_id k offset (remove command.client_id offsets) in
              elim (Bool-cases (l.client_id == k)) [
                | inl same ↦ inl (l, e, ground arith, ground arith)
                | inr other ↦
                    inr (
                      ground arith,
                      ground arith,
                      λ l' f. let g : l' ≡ l = cc in rw g (ground arith),
                    )
              ]
        ]

    withdrawn_sound :
        (k o : ℕ)
        → lookup k offsets_left ≡ some o
        → (p : Pending (withdraw pool command i) k) × (o
            ≡ usize (pool.pending_queue_offset + p.index))
    unfolding withdraw
    withdrawn_sound k o h = elim (offset_origin k o h) [
      | inl (l, here, mine, e) ↦ (record { index = i; command = l; at = here; owner = mine }, e)
      | inr (apart, old, not_moved) ↦
          let (p, e) = v.sound k o old in
          let law =
            get-swap_remove pool.pending_queue i p.index (get-lt-length pool.pending_queue i at) in
          let final = last?-get pool.pending_queue in
          let room = get-lt-length pool.pending_queue p.index p.at in
          let other : i ≢ p.index = (λ same.
            let at' = ap (get_elem? pool.pending_queue) same ∙ p.at in
            let e' : c ≡ p.command = cc in
            apart (sym p.owner ∙ ap (λ x. x.client_id) (sym e') ∙ owner)) in
          let inner : suc p.index < length pool.pending_queue =
            elim (Bool-cases (ltb (suc p.index) (length pool.pending_queue))) [
              | inl lt ↦ ground arith
              | inr ge ↦
                  let at_end : length pool.pending_queue - 1 ≡ p.index = ground arith in
                  let final' = final ∙ ap (get_elem? pool.pending_queue) at_end ∙ p.at in
                  let room' = get-lt-length pool.pending_queue i at in
                  let here = get-swap_remove pool.pending_queue i i room' in
                  absurd (not_moved p.command (ground arith) p.owner)
            ] in
          (
            record {
              index = p.index;
              command = p.command;
              at = ground (arith, law, inner, other, p.at);
              owner = p.owner;
            },
            e,
          )
    ]

    withdrawn-IsValid : IsValid (withdraw (recorded pool command) command i)
    unfolding withdraw
    withdrawn-IsValid = record {
      in_memory = omega (arith, v.in_memory, length-swap_remove pool.pending_queue i);
      offset_fits = v.offset_fits;
      indexed = withdrawn-indexed;
      sound = λ k o h.
          let (p, e) = withdrawn_sound k o h in
          (record { index = p.index; command = p.command; at = p.at; owner = p.owner }, e);
      fresh = λ j d h. elim (left j d h).1 [
        | inl (same, from) ↦
            recorded-fresh command (length pool.pending_queue - 1) d v from (inl (left_other j d h))
        | inr (other, from) ↦ recorded-fresh command j d v from (inl (left_other j d h))
      ];
    }

-- What `commit` may come to, beside recording the sequence number.
pub data Committed (pool : CommandPool) (command : Command) (r : CommandPool) : Type 0 where
  -- The client has nothing pending, or something newer.
  nothing_else :
      ((i : ℕ) (d : Command)
        → get_elem? pool.pending_queue i ≡ some d
        → (d.client_id ≢ command.client_id) ⊎ (command.seq < d.seq))
      → r ≡ recorded pool command
      → Committed pool command r
  withdrew :
      (i : ℕ) (d : Command)
      → get_elem? pool.pending_queue i ≡ some d
      → d.client_id ≡ command.client_id
      → d.seq ≤ command.seq
      → r ≡ withdraw (recorded pool command) command i
      → Committed pool command r

-- On a valid pool `commit` does not panic, does one of the two, and leaves a valid pool that covers
-- the command.
pub commit_lem :
    {pool : CommandPool} (command : Command)
    → IsValid pool
    → (r : CommandPool) × (commit pool command ≡ done r)
      × Committed pool command r
      × IsValid r
      × Covers r command
unfolding commit commit_at
commit_lem {pool} command v = elim (Option-cases (client_pending_index pool command.client_id)) [
  | inl e ↦
      let missing = index_missing v command.client_id e in
      let newer : ((i : ℕ) (d : Command)
          → get_elem? pool.pending_queue i ≡ some d
          → (d.client_id ≢ command.client_id) ⊎ (command.seq < d.seq)) =
        (λ i d h. inl (λ same. ground (arith, v.indexed i d h, missing))) in
      (
        recorded pool command,
        rw e,
        nothing_else newer refl,
        recorded-IsValid v command newer,
        recorded-Covers pool command,
      )
  | inr (i, e) ↦
      let (c, at, owner) = index_found v command.client_id e in
      elim (Bool-cases (leb c.seq command.seq)) [
        | inl le ↦ (
          withdraw (recorded pool command) command i,
          rw e (ground (arith, at)),
          withdrew i c at owner (ground arith) refl,
          withdrawn-IsValid v command i at owner,
          withdraw-Covers pool command i,
        )
        | inr gt ↦
            let newer : ((j : ℕ) (d : Command)
                → get_elem? pool.pending_queue j ≡ some d
                → (d.client_id ≢ command.client_id) ⊎ (command.seq < d.seq)) =
              (λ j d h. elim (Bool-cases (d.client_id == command.client_id)) [
                | inl same ↦
                    let mine : d.client_id ≡ command.client_id = ground arith in
                    let ij = one_per_client v j i d c h at (mine ∙ sym owner) in
                    let at' = ap (get_elem? pool.pending_queue) ij ∙ at in
                    let dc : d ≡ c = cc in inr (rw dc (ground arith))
                | inr other ↦ inl (ground arith)
              ]) in
            (
              recorded pool command,
              rw e (ground (arith, at)),
              nothing_else newer refl,
              recorded-IsValid v command newer,
              recorded-Covers pool command,
            )
      ]
]
