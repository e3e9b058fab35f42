-- ===== src/Client/Examples.antt =====
-- A client with one faulty replica among four, and a command that one replica has answered.
use bft_kit.Base.{ℕ, ◌≤◌, ◌≡◌, refl, true, List, length, none, some, [], ◌∷◌, arith}
use bft_kit.Base.Map.{lookup, insert, remove}
use bft_kit.Client.{open_loop, SeqScratch, Client, start, matching, count_reply}
use bft_kit.Client.Backed.{Backed-counted}
use bft_kit.Client.Counted.{ScratchFits, ClientFits, Counted}
use bft_kit.Client.Replies.{InFlight, count_reply_lem, start_lem}

abbrev answered_once : SeqScratch
answered_once = record { results = (2, 7 ∷ []) ∷ []; expected_result = none }

abbrev client : Client
client = record { id = 5; seq = 1; seq_scratch = (1, answered_once) ∷ []; view_num = 0 }

one_matches : (r : List ℕ) → length (matching r answered_once.results) ≤ 1
unfolding matching
one_matches r = ground arith

once-Fits : ScratchFits 1 answered_once
once-Fits = record {
  sorted = (omega arith, tt);
  open_still = λ r b.
      let le = Backed-counted 2 answered_once.results r (omega arith, tt) b in
      absurd (omega (arith, le, one_matches r));
}

client-ClientFits : ClientFits 1 client
client-ClientFits = (once-Fits, tt)

accepted :
    count_reply 1 client 1 0 (7 ∷ []) 3
    ≡ some (record client { view_num = 3; seq_scratch = [] }, true)
unfolding count_reply lookup insert remove
accepted = refl

count_reply_lem_example : Counted 1 client 1 0 (7 ∷ []) 3 (count_reply 1 client 1 0 (7 ∷ []) 3)
count_reply_lem_example = count_reply_lem 1 client 1 0 (7 ∷ []) 3 client-ClientFits (omega arith)

abbrev started : Client
started = record client {
  seq = 2;
  seq_scratch = (2, record { results = []; expected_result = none }) ∷ [];
}

started_run : start (open_loop 1) client none ≡ some started
unfolding start insert
started_run = refl

start_lem_example : InFlight (open_loop 1) started.seq_scratch
start_lem_example = start_lem (open_loop 1) client none (omega arith, omega arith) started_run
