-- ===== src/Pool/OpenLoop/Invariant.antt =====
-- What every call leaves true of an open loop pool, seen against the commands that it accepted and
-- returned so far.
use mathlib.Core.List.{Sublist, append_assoc}
use mathlib.Core.List.Sublist
use bft_kit.Base.{
  ℕ, zero, suc, ◌+◌, max, ◌≤◌, ◌<◌, ◌≡◌, inl, inr, true, false, List, [], ◌∷◌, ◌++◌, length,
  length-append, length-drop, drop, All, All-append, ◌==◌, if◌then◌else◌, Bool-cases, usize, arith,
}
use bft_kit.Base.Lists.Indexing.{All-map}
use bft_kit.Base.Map.{Map, lookup, insert, lookup-insert}
use bft_kit.Command.{Command}
use bft_kit.Pool.OpenLoop.{CommandPool, max_len, is_known, or_zero, accept, push, commit}

-- The pool with the commands that `push` accepted and `close_batch` returned, each in order.
pub record History : Type 0 where
  pub pool : CommandPool
  pub accepted : List Command
  pub returned : List Command

-- The sequence number is submitted, pending or committed.
abbrev pub Knows : Map ℕ → Command → Type 0
Knows seqs c = is_known (lookup c.client_id seqs) c.seq ≡ true

-- Each client's commands have increasing sequence numbers.
abbrev pub IsIncreasing : List Command → Type 0
IsIncreasing [] = Unit
IsIncreasing (c ∷ cs) = All (λ d. c.client_id ≡ d.client_id → c.seq < d.seq) cs × IsIncreasing cs

pub record IsValid (h : History) : Type 0 where
  pub bounded : length h.pool.pending_buf ≤ max_len
  -- What was returned and what is pending is a part of what was accepted, in that order.
  pub ordered : Sublist (h.returned ++ h.pool.pending_buf) h.accepted
  pub known : All (Knows h.pool.client_seqs) h.accepted
  pub increasing : IsIncreasing h.accepted

IsIncreasing-snoc :
    (cs : List Command) (c : Command)
    → IsIncreasing cs
    → All (λ d. d.client_id ≡ c.client_id → d.seq < c.seq) cs
    → IsIncreasing (cs ++ c ∷ [])
IsIncreasing-snoc [] c s h = (tt, tt)
IsIncreasing-snoc (d ∷ cs) c s h =
    (All-append _ cs (c ∷ []) s.0 (h.0, tt), IsIncreasing-snoc cs c s.1 h.1)

-- To raise one client's sequence number keeps what is known.
Knows-insert :
    (seqs : Map ℕ) (k seq : ℕ) (cs : List Command)
    → or_zero (lookup k seqs) ≤ seq
    → All (Knows seqs) cs
    → All (Knows (insert k seq seqs)) cs
Knows-insert seqs k seq cs le known =
    All-map cs (λ c h. ground (arith, lookup-insert k c.client_id seq seqs)) known

pub drop-sublist : (n : ℕ) (cs : List Command) → Sublist (drop n cs) cs
drop-sublist zero cs = Sublist.refl cs
drop-sublist (suc n) [] = Sublist.refl []
drop-sublist (suc n) (c ∷ cs) = Sublist.cons c (drop-sublist n cs)

-- The buffer that `accept` appends to.
abbrev room : List Command → List Command
room buf = if length buf == max_len then drop 1 buf else buf

room-sublist : (buf : List Command) → Sublist (room buf) buf
room-sublist buf = elim (Bool-cases (length buf == max_len)) [
  | inl e ↦ rw e (drop-sublist 1 buf)
  | inr e ↦ rw e (Sublist.refl buf)
]

accept-IsValid :
    (pool : CommandPool) (accepted returned : List Command) (c : Command)
    → IsValid (record { pool = pool; accepted = accepted; returned = returned })
    → is_known (lookup c.client_id pool.client_seqs) c.seq ≡ false
    → IsValid (record { pool = accept pool c; accepted = accepted ++ c ∷ []; returned = returned })
unfolding accept
accept-IsValid pool accepted returned c v fresh =
    let buf = pool.pending_buf in
    let seqs = pool.client_seqs in
    record {
      bounded = ground (arith, v.bounded, length-append (room buf) (c ∷ []), length-drop 1 buf);
      ordered = rw (← append_assoc) (
          Sublist.append
            (Sublist.trans (Sublist.append (Sublist.refl returned) (room-sublist buf)) v.ordered)
            (Sublist.refl (c ∷ [])));
      known =
          All-append _ accepted (c ∷ [])
            (Knows-insert seqs c.client_id c.seq accepted (ground arith) v.known)
            (ground (arith, lookup-insert c.client_id c.client_id c.seq seqs), tt);
      increasing =
          IsIncreasing-snoc accepted c v.increasing
            (All-map accepted (λ d h same. ground (arith, h, fresh)) v.known);
    }

-- `push`, with the command noted if it is accepted.
pub note_push : History → Command → History
note_push h c =
    let (pool, pushed) = push h.pool c in
    record h { pool = pool; accepted = if pushed then h.accepted ++ c ∷ [] else h.accepted }

pub note_push-IsValid : (h : History) (c : Command) → IsValid h → IsValid (note_push h c)
unfolding note_push push
note_push-IsValid h c v =
    elim (Bool-cases (is_known (lookup c.client_id h.pool.client_seqs) c.seq)) [
      | inl e ↦ rw e (record {
        bounded = v.bounded;
        ordered = v.ordered;
        known = v.known;
        increasing = v.increasing;
      })
      | inr e ↦ rw e (
          accept-IsValid (record h.pool { num_push = usize (h.pool.num_push + 1) }) h.accepted
            h.returned c
            (record {
              bounded = v.bounded;
              ordered = v.ordered;
              known = v.known;
              increasing = v.increasing;
            })
            e)
    ]

pub note_commit : History → Command → History
note_commit h c = record h { pool = commit h.pool c }

pub note_commit-IsValid : (h : History) (c : Command) → IsValid h → IsValid (note_commit h c)
unfolding note_commit commit
note_commit-IsValid h c v = record {
  bounded = v.bounded;
  ordered = v.ordered;
  known =
      Knows-insert h.pool.client_seqs c.client_id
        (max (or_zero (lookup c.client_id h.pool.client_seqs)) c.seq) h.accepted (omega arith)
        v.known;
  increasing = v.increasing;
}
