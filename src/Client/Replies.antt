-- ===== src/Client/Replies.antt =====
-- What a client accepts, and how many commands it has in flight.
use bft_kit.Base.Entries.{insert-All, drop-All}
use bft_kit.Base.{
  All, drop, ℕ, ◌+◌, ◌≤◌, ◌<◌, ◌≡◌, refl, Option, some, List, [], ◌∷◌, length, length-drop, drop,
  ◌==◌, if◌then◌else◌, u16_mod, u32, Bool-cases, Option-cases, inl, inr, arith,
}
use bft_kit.Base.Map.{Map, lookup, insert, length-insert-le, IsSortedFrom}
use bft_kit.Client.Backed.{Backed-counted}
use bft_kit.Client.{
  ClientConfig, close_loop, open_loop, SeqScratch, Client, make_room, start, matching, count_reply,
}
use bft_kit.Client.Counted.{ScratchFits, ClientFits, Counted, unknown, count_none, scratch-Counted}

-- When `num_faulty + 1` is a u16, a client for whose commands no result is recorded of more than
-- `num_faulty` replicas does nothing on a reply to a command that is not in flight, and records any
-- other. With the reply recorded, it accepts the result exactly when `num_faulty + 1` different
-- replicas have sent it and it may be what was expected, and then has the command in flight no more
-- and takes the view of the reply; it goes on waiting exactly when fewer have sent it; and it ends
-- with an error when it is not what was expected. What is recorded stays of that kind.
pub count_reply_lem :
    (num_faulty : ℕ) (client : Client) (seq replica_id : ℕ) (result : List ℕ) (view_num : ℕ)
    → ClientFits num_faulty client
    → num_faulty + 1 < u16_mod
    → Counted num_faulty client seq replica_id result view_num
        (count_reply num_faulty client seq replica_id result view_num)
count_reply_lem num_faulty client seq replica_id result view_num fits few =
    elim (Option-cases (lookup seq client.seq_scratch)) [
      | inl e ↦
          rw (count_none num_faulty few client seq replica_id result view_num fits e) (unknown e)
      | inr (scratch, e) ↦
          scratch-Counted num_faulty few client seq replica_id result view_num fits scratch e
    ]

-- How many commands may be in flight.
abbrev pub InFlight : ClientConfig → Map SeqScratch → Type 0
InFlight close_loop seq_scratch = length seq_scratch ≤ 1
InFlight (open_loop num_max_inflight) seq_scratch =
    (1 ≤ num_max_inflight) × (length seq_scratch ≤ num_max_inflight)

-- There is room for one more.
abbrev HasRoom : ClientConfig → Map SeqScratch → Type 0
HasRoom close_loop room = length room ≡ 0
HasRoom (open_loop num_max_inflight) room = length room + 1 ≤ num_max_inflight

make_room-HasRoom :
    (config : ClientConfig) (seq_scratch : Map SeqScratch) {room : Map SeqScratch}
    → InFlight config seq_scratch
    → make_room config seq_scratch ≡ some room
    → HasRoom config room
unfolding make_room
make_room-HasRoom close_loop [] {room} fits h = let same : [] ≡ room = cc in rw (← same) refl
make_room-HasRoom close_loop (x ∷ xs) fits h = absurd (cc)
make_room-HasRoom (open_loop n) seq_scratch {room} fits h =
    let same : (if length seq_scratch == n then drop 1 seq_scratch else seq_scratch) ≡ room = cc in
    rw (← same) (ground (arith, length-drop 1 seq_scratch, fits.0, fits.1))

insert-InFlight :
    (config : ClientConfig) (room : Map SeqScratch) (seq : ℕ) (scratch : SeqScratch)
    (before : Map SeqScratch)
    → InFlight config before
    → HasRoom config room
    → InFlight config (insert seq scratch room)
insert-InFlight close_loop room seq scratch before fits h =
    omega (arith, h, length-insert-le seq scratch room)
insert-InFlight (open_loop n) room seq scratch before fits h =
    (fits.0, omega (arith, h, length-insert-le seq scratch room))

make_room-All :
    (P : ℕ × SeqScratch → Type 0) (config : ClientConfig) (seq_scratch : Map SeqScratch)
    {room : Map SeqScratch}
    → All P seq_scratch
    → make_room config seq_scratch ≡ some room
    → All P room
unfolding make_room
make_room-All P close_loop [] {room} all h = let same : [] ≡ room = cc in rw (← same) tt
make_room-All P close_loop (x ∷ xs) all h = absurd (cc)
make_room-All P (open_loop n) seq_scratch {room} all h =
    let same : (if length seq_scratch == n then drop 1 seq_scratch else seq_scratch) ≡ room = cc in
    rw (← same) (elim (Bool-cases (length seq_scratch == n)) [
      | inl full ↦ rw full (drop-All P 1 seq_scratch all)
      | inr fits ↦ rw fits all
    ])

new-ScratchFits :
    (num_faulty : ℕ) (scratch : SeqScratch) → scratch.results ≡ [] → ScratchFits num_faulty scratch
unfolding matching
new-ScratchFits num_faulty scratch none_yet =
    let sorted : IsSortedFrom 0 scratch.results = rw none_yet tt in
    record {
      sorted = sorted;
      open_still = λ r b.
          let le = Backed-counted (num_faulty + 1) scratch.results r sorted b in
          let nothing : length (matching r scratch.results) ≡ 0 = rw none_yet refl in
          absurd (omega (arith, le, nothing));
    }

-- To start one more command keeps the bound on the commands in flight: one for a client of a closed
-- loop, `num_max_inflight` for a client of an open loop, where that is positive.
pub start_lem :
    (config : ClientConfig) (client : Client) (expected_result : Option (List ℕ)) {client' : Client}
    → InFlight config client.seq_scratch
    → start config client expected_result ≡ some client'
    → InFlight config client'.seq_scratch
unfolding start
start_lem config client expected {client'} fits h =
    elim (Option-cases (make_room config client.seq_scratch)) [
      | inl e ↦ let h' = rw (e, start) at h in absurd (cc)
      | inr (room, e) ↦
          let next : Client = record client {
            seq = u32 (client.seq + 1);
            seq_scratch =
                insert (u32 (client.seq + 1)) (record { results = []; expected_result = expected })
                  room;
          } in
          let h' : some next ≡ some client' = rw (e, start) at h in
          let same : next ≡ client' = cc in
          rw (← same) (
            insert-InFlight config room (u32 (client.seq + 1)) _ client.seq_scratch fits
              (make_room-HasRoom config client.seq_scratch fits e))
    ]

-- To start a command keeps also what `count_reply_lem` wants of the results that are recorded.
pub start-ClientFits :
    (num_faulty : ℕ) (config : ClientConfig) (client : Client) (expected_result : Option (List ℕ))
    {client' : Client}
    → ClientFits num_faulty client
    → start config client expected_result ≡ some client'
    → ClientFits num_faulty client'
unfolding start
start-ClientFits num_faulty config client expected {client'} fits h =
    elim (Option-cases (make_room config client.seq_scratch)) [
      | inl e ↦ let h' = rw (e, start) at h in absurd (cc)
      | inr (room, e) ↦
          let scratch : SeqScratch = record { results = []; expected_result = expected } in
          let next : Client = record client {
            seq = u32 (client.seq + 1);
            seq_scratch = insert (u32 (client.seq + 1)) scratch room;
          } in
          let h' : some next ≡ some client' = rw (e, start) at h in
          let same : next ≡ client' = cc in
          rw (← same) (
            insert-All (λ entry. ScratchFits num_faulty entry.1) (u32 (client.seq + 1)) scratch room
              (new-ScratchFits num_faulty scratch refl)
              (make_room-All (λ entry. ScratchFits num_faulty entry.1) config client.seq_scratch
                fits e))
    ]
