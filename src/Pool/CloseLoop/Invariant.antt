-- ===== src/Pool/CloseLoop/Invariant.antt =====
-- What holds of a close loop pool between two calls.
use bft_kit.Base.{
  ℕ, ◌+◌, ◌<◌, ◌≡◌, refl, sym, ◌∙◌, ap, Option, none, some, true, length, get_elem?, usize,
  usize_mod, wrapping_sub, arith,
}
use bft_kit.Base.Lists.Indexing.{get-lt-length}
use bft_kit.Base.Map.{lookup}
use bft_kit.Command.{Command}
use bft_kit.Pool.CloseLoop.{CommandPool, new, client_pending_index, index_of, is_fresh}

-- An entry of the queue that stands at an index and belongs to a client.
pub record Pending (pool : CommandPool) (client_id : ℕ) : Type 0 where
  pub index : ℕ
  pub command : Command
  pub at : get_elem? pool.pending_queue index ≡ some command
  pub owner : command.client_id ≡ client_id

pub record IsValid (pool : CommandPool) : Type 0 where
  pub in_memory : length pool.pending_queue < usize_mod
  pub offset_fits : pool.pending_queue_offset < usize_mod
  -- Every pending command is indexed by its client,
  pub indexed :
      (i : ℕ) (c : Command)
      → get_elem? pool.pending_queue i ≡ some c
      → lookup c.client_id pool.client_pending_offsets
        ≡ some (usize (pool.pending_queue_offset + i))
  -- every offset leads to a command of its client,
  pub sound :
      (k o : ℕ)
      → lookup k pool.client_pending_offsets ≡ some o
      → (p : Pending pool k) × (o ≡ usize (pool.pending_queue_offset + p.index))
  -- and a pending command is newer than what was submitted or committed.
  pub fresh :
      (i : ℕ) (c : Command)
      → get_elem? pool.pending_queue i ≡ some c
      → is_fresh (lookup c.client_id pool.submitted_seqs) c.seq ≡ true

pub new-IsValid : IsValid new
unfolding new lookup
new-IsValid = record {
  in_memory = omega arith;
  offset_fits = omega arith;
  indexed = λ i c h. cc;
  sound = λ k o h. absurd (cc);
  fresh = λ i c h. cc;
}

-- An offset gives back its index, whether or not it wrapped.
pub index_round_trip :
    (base i : ℕ)
    → base < usize_mod
    → i < usize_mod
    → wrapping_sub usize_mod (usize (base + i)) base ≡ i
index_round_trip base i h k = omega arith

module _ {pool : CommandPool} (v : IsValid pool) where
  -- No two pending commands are of one client.
  pub one_per_client :
      (i j : ℕ) (c d : Command)
      → get_elem? pool.pending_queue i ≡ some c
      → get_elem? pool.pending_queue j ≡ some d
      → c.client_id ≡ d.client_id
      → i ≡ j
  one_per_client i j c d hi hj e =
      let base : ℕ = pool.pending_queue_offset in
      let same : some (usize (base + i)) ≡ some (usize (base + j)) =
        sym (v.indexed i c hi)
        ∙ ap (λ k. lookup k pool.client_pending_offsets) e
        ∙ v.indexed j d hj in
      let same' : usize (base + i) ≡ usize (base + j) = cc in
      omega (
        arith,
        same',
        v.offset_fits,
        v.in_memory,
        get-lt-length pool.pending_queue i hi,
        get-lt-length pool.pending_queue j hj,
      )

  -- What `client_pending_index` finds is the client's command in the queue,
  pub index_found :
      (k : ℕ) {i : ℕ}
      → client_pending_index pool k ≡ some i
      → (c : Command) × (get_elem? pool.pending_queue i ≡ some c) × (c.client_id ≡ k)
  unfolding client_pending_index
  index_found k {i} h = go (lookup k pool.client_pending_offsets) refl h
    where
      go :
          (o : Option ℕ)
          → lookup k pool.client_pending_offsets ≡ o
          → index_of pool.pending_queue_offset o ≡ some i
          → (c : Command) × (get_elem? pool.pending_queue i ≡ some c) × (c.client_id ≡ k)
      go none e h = absurd (cc)
      go (some o) e h =
          let (p, f) = v.sound k o e in
          let back : p.index ≡ i =
            sym (
              index_round_trip pool.pending_queue_offset p.index v.offset_fits
                (omega (arith, v.in_memory, get-lt-length pool.pending_queue p.index p.at)))
            ∙ ap (λ n. wrapping_sub usize_mod n pool.pending_queue_offset) (sym f)
            ∙ (cc) in
          (p.command, rw (← back) p.at, p.owner)

  -- and if it finds nothing the client has none.
  pub index_missing :
      (k : ℕ) → client_pending_index pool k ≡ none → lookup k pool.client_pending_offsets ≡ none
  unfolding client_pending_index
  index_missing k h = ground arith

  -- The command of a client in the queue is what `client_pending_index` finds.
  pub index_of_Pending : {k : ℕ} (p : Pending pool k) → client_pending_index pool k ≡ some p.index
  unfolding client_pending_index
  index_of_Pending {k} p =
      let at : lookup k pool.client_pending_offsets
          ≡ some (usize (pool.pending_queue_offset + p.index)) =
        ap (λ n. lookup n pool.client_pending_offsets) (sym p.owner)
        ∙ v.indexed p.index p.command p.at in
      rw at (
        ap some (
          index_round_trip pool.pending_queue_offset p.index v.offset_fits
            (omega (arith, v.in_memory, get-lt-length pool.pending_queue p.index p.at))))
