-- ===== src/Pool/CloseLoop/CloseBatch.antt =====
-- `close_loop::CommandPool::close_batch` on a valid pool.
use bft_kit.Base.{
  ℕ, zero, suc, ◌+◌, ◌-◌, ◌≤◌, ◌<◌, min, ◌≡◌, refl, sym, ◌∙◌, ◌⊎◌, inl, inr, none, some, Bool, true,
  false, ◌||◌, List, [], ◌∷◌, ◌++◌, length, length-take, length-drop, get_elem?, take, drop,
  take-append-drop, usize, ltb, ◌==◌, if◌then◌else◌, Bool-cases, done, arith,
}
use bft_kit.Base.Lists.Indexing.{get-lt-length, get-take, get-drop}
use bft_kit.Base.Map.{Map, lookup, insert, remove, lookup-insert, lookup-remove}
use bft_kit.Command.{Command}
use bft_kit.Pool.CloseLoop.{CommandPool, is_fresh, submit, split, close_batch}
use bft_kit.Pool.CloseLoop.Invariant.{IsValid, Pending, one_per_client}
use bft_kit.Pool.CloseLoop.Push.{Covers, submitted}

-- A client has a command in the list.
has : ℕ → List Command → Bool
has k [] = false
has k (c ∷ cs) = c.client_id == k || has k cs

has-get :
    (cs : List Command) (i : ℕ) {c : Command} → get_elem? cs i ≡ some c → has c.client_id cs ≡ true
unfolding has
has-get [] i h = cc
has-get (d ∷ cs) zero h = ground arith
has-get (d ∷ cs) (suc i) {c} h = ground (arith, has-get cs i h)

get_of_has :
    (k : ℕ) (cs : List Command)
    → has k cs ≡ true
    → (i : ℕ) × (c : Command) × (get_elem? cs i ≡ some c) × (c.client_id ≡ k)
unfolding has
get_of_has k [] h = absurd (cc)
get_of_has k (c ∷ cs) h = elim (Bool-cases (c.client_id == k)) [
  | inl e ↦ (0, c, refl, ground arith)
  | inr e ↦ let (i, d, at, owner) = get_of_has k cs (ground arith) in (suc i, d, at, owner)
]

abbrev IsDistinct : List Command → Type 0
IsDistinct cs =
    (i j : ℕ) (c d : Command)
    → get_elem? cs i ≡ some c
    → get_elem? cs j ≡ some d
    → c.client_id ≡ d.client_id
    → i ≡ j

abbrev AllFresh : Map ℕ → List Command → Type 0
AllFresh seqs cs =
    (i : ℕ) (c : Command)
    → get_elem? cs i ≡ some c
    → is_fresh (lookup c.client_id seqs) c.seq ≡ true

record Submitted (cs : List Command) (offsets seqs offsets' seqs' : Map ℕ) : Type 0 where
  runs : submit cs offsets seqs ≡ done (offsets', seqs')
  cleared : (k : ℕ) → lookup k offsets' ≡ (if has k cs then none else lookup k offsets)
  kept : (k : ℕ) → has k cs ≡ false → lookup k seqs' ≡ lookup k seqs
  recorded : (i : ℕ) (c : Command) → get_elem? cs i ≡ some c → lookup c.client_id seqs' ≡ some c.seq

not-has_head : (c : Command) (cs : List Command) → IsDistinct (c ∷ cs) → has c.client_id cs ≡ false
not-has_head c cs distinct = elim (Bool-cases (has c.client_id cs)) [
  | inr e ↦ e
  | inl e ↦
      let (i, d, at, owner) = get_of_has c.client_id cs e in
      absurd (omega (arith, distinct 0 (suc i) c d refl at (sym owner)))
]

-- The assertion of the loop holds, and the loop does what the comments on the fields say.
submit_lem :
    (cs : List Command) (offsets seqs : Map ℕ)
    → IsDistinct cs
    → AllFresh seqs cs
    → (offsets' : Map ℕ) × (seqs' : Map ℕ) × Submitted cs offsets seqs offsets' seqs'
unfolding submit has
submit_lem [] offsets seqs distinct fresh = (
  offsets,
  seqs,
  record { runs = refl; cleared = λ k. refl; kept = λ k h. refl; recorded = λ i c h. cc },
)
submit_lem (c ∷ cs) offsets seqs distinct fresh =
    let alone = not-has_head c cs distinct in
    let rest_fresh : AllFresh (insert c.client_id c.seq seqs) cs = (λ i d h. ground (
      arith,
      has-get cs i h,
      fresh (suc i) d h,
      alone,
      distinct 0 (suc i) c d refl h,
      lookup-insert c.client_id d.client_id c.seq seqs,
    )) in
    let (offsets', seqs', s) =
      submit_lem cs (remove c.client_id offsets) (insert c.client_id c.seq seqs)
        (λ i j d e hi hj same. omega (arith, distinct (suc i) (suc j) d e hi hj same)) rest_fresh in
    (
      offsets',
      seqs',
      record {
        runs = rw (fresh 0 c refl) s.runs;
        cleared = λ k. ground (arith, s.cleared k, lookup-remove c.client_id k offsets);
        kept = λ k h. ground (arith, s.kept k, lookup-insert c.client_id k c.seq seqs);
        recorded = elim [
          | zero ↦ λ d h.
              ground
                (arith, s.kept c.client_id alone, lookup-insert c.client_id c.client_id c.seq seqs)
          | suc i ↦ λ d h. s.recorded i d h
        ];
      },
    )

-- The pool after `close_batch`, and what the batch is to it.
pub record Closed (pool : CommandPool) (batch : List Command) (pool' : CommandPool) : Type 0 where
  pub valid : IsValid pool'
  -- The batch is the front of the queue, and the pool keeps the rest in order.
  pub in_order : batch ++ pool'.pending_queue ≡ pool.pending_queue
  -- Every command of the batch is submitted.
  pub covers : (i : ℕ) (c : Command) → get_elem? batch i ≡ some c → Covers pool' c

module _ {pool : CommandPool} (v : IsValid pool) (n : ℕ) (le : n ≤ length pool.pending_queue) where
  get-batch :
      (i : ℕ) (c : Command)
      → get_elem? (take n pool.pending_queue) i ≡ some c
      → (get_elem? pool.pending_queue i ≡ some c) × (i < n)
  get-batch i c h =
      let lt : i < n =
        omega (
          arith,
          get-lt-length (take n pool.pending_queue) i h,
          length-take n pool.pending_queue,
        ) in
      (sym (get-take n pool.pending_queue i lt) ∙ h, lt)

  take-IsDistinct : IsDistinct (take n pool.pending_queue)
  take-IsDistinct i j c d hi hj same =
      one_per_client v i j c d (get-batch i c hi).0 (get-batch j d hj).0 same

  batch-fresh : AllFresh pool.submitted_seqs (take n pool.pending_queue)
  batch-fresh i c h = v.fresh i c (get-batch i c h).0

  -- A client with a command in the rest has none in the batch.
  rest-not-has :
      (i : ℕ) (c : Command)
      → get_elem? pool.pending_queue (n + i) ≡ some c
      → has c.client_id (take n pool.pending_queue) ≡ false
  rest-not-has i c h = elim (Bool-cases (has c.client_id (take n pool.pending_queue))) [
    | inr e ↦ e
    | inl e ↦
        let (j, d, at, owner) = get_of_has c.client_id (take n pool.pending_queue) e in
        let (at', lt) = get-batch j d at in
        absurd (omega (arith, one_per_client v j (n + i) d c at' h owner))
  ]

  -- A client's command in the queue that is not in the batch is in the rest.
  in_rest : (k : ℕ) (p : Pending pool k) → has k (take n pool.pending_queue) ≡ false → n ≤ p.index
  in_rest k p h = elim (Bool-cases (ltb p.index n)) [
    | inr ge ↦ ground arith
    | inl lt ↦
        let at : get_elem? (take n pool.pending_queue) p.index ≡ some p.command =
          get-take n pool.pending_queue p.index (ground arith) ∙ p.at in
        let found = has-get (take n pool.pending_queue) p.index at in
        absurd (ground (arith, found, p.owner))
  ]

  split_lem :
      (pool' : CommandPool) × (split pool n ≡ done (pool', some (take n pool.pending_queue)))
      × Closed pool (take n pool.pending_queue) pool'
  unfolding split
  split_lem =
      let queue = pool.pending_queue in
      let base : ℕ = pool.pending_queue_offset in
      let (offsets, seqs, s) =
        submit_lem (take n queue) pool.client_pending_offsets pool.submitted_seqs take-IsDistinct
          batch-fresh in
      let pool' : CommandPool = record {
        pending_queue = drop n queue;
        pending_queue_offset = usize (base + n);
        client_pending_offsets = offsets;
        submitted_seqs = seqs;
      } in
      let valid : IsValid pool' = record {
        in_memory = omega (arith, v.in_memory, length-drop n queue);
        offset_fits = omega arith;
        indexed = λ i c h.
            let at = sym (get-drop n queue i) ∙ h in
            let e : usize (usize (base + n) + i) ≡ usize (base + (n + i)) = omega arith in
            rw e
              (ground (arith, s.cleared c.client_id, rest-not-has i c at, v.indexed (n + i) c at));
        sound = λ k o h.
            let out : has k (take n queue) ≡ false = ground (arith, s.cleared k) in
            let (p, e) = v.sound k o (ground (arith, s.cleared k)) in
            let ge = in_rest k p out in
            let back : n + (p.index - n) ≡ p.index = omega arith in
            (
              record {
                index = p.index - n;
                command = p.command;
                at = get-drop n queue (p.index - n) ∙ (rw back p.at);
                owner = p.owner;
              },
              omega arith,
            );
        fresh = λ i c h.
            let at = sym (get-drop n queue i) ∙ h in
            rw (s.kept c.client_id (rest-not-has i c at)) (v.fresh (n + i) c at);
      } in
      (
        pool',
        rw s.runs,
        record {
          valid = valid;
          in_order = take-append-drop n queue;
          covers = λ i c h. submitted (ground (arith, s.recorded i c h));
        },
      )

-- On a valid pool `close_batch` does not panic. It returns nothing exactly when nothing is pending,
-- and otherwise the first `max_batch_size` pending commands, or all if they are fewer.
pub close_batch_lem :
    {pool : CommandPool} (max_batch_size : ℕ)
    → IsValid pool
    → (pool' : CommandPool) × ((pool.pending_queue ≡ [])
          × (close_batch pool max_batch_size ≡ done (pool, none))
          × (pool' ≡ pool)
        ⊎ (0 < length pool.pending_queue)
          × (close_batch pool max_batch_size
              ≡ done (
                pool',
                some (take (min max_batch_size (length pool.pending_queue)) pool.pending_queue),
              ))
          × Closed pool
              (take (min max_batch_size (length pool.pending_queue)) pool.pending_queue)
              pool')
unfolding close_batch
close_batch_lem {pool} max_batch_size v = elim (Bool-cases (length pool.pending_queue == 0)) [
  | inl e ↦ (pool, inl (nil_of_length pool.pending_queue (ground arith), rw e, refl))
  | inr e ↦
      let (pool', runs, closed) =
        split_lem v (min max_batch_size (length pool.pending_queue)) (omega arith) in
      (pool', inr (ground arith, rw e runs, closed))
]
  where
    nil_of_length : (cs : List Command) → length cs ≡ 0 → cs ≡ []
    nil_of_length [] h = refl
    nil_of_length (c ∷ cs) h = absurd (omega arith)
