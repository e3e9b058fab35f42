-- ===== src/Client/Counted.antt =====
-- What a reply comes to for a client: the results that are recorded, as in the loops of
-- `src/pbft/transport.rs` and `src/hotstuff/transport.rs`.
use bft_kit.Base.Entries.{insert-All, remove-All, lookup-All}
use bft_kit.Base.{
  All, ℕ, ◌+◌, ◌≤◌, ◌<◌, ◌≡◌, refl, sym, ◌∙◌, Bool, true, false, Option, none, some, List, length,
  leb, ◌==◌, u16, u16_mod, Bool-cases, inl, inr, arith,
}
use bft_kit.Base.Map.{Map, lookup, insert, remove, IsSortedFrom, insert-IsSortedFrom}
use bft_kit.Client.Backed.{
  Backed, is_same-eq, is_same_self, Backed-counted, counted-Backed, matching-insert,
  matching-insert_other,
}
use bft_kit.Client.{SeqScratch, Client, is_same, matching, is_expected, commit, count_reply}

-- Of the results that are recorded for a command each is of another replica, and none is of more than
-- `num_faulty`.
pub record ScratchFits (num_faulty : ℕ) (scratch : SeqScratch) : Type 0 where
  pub sorted : IsSortedFrom 0 scratch.results
  pub open_still : (result : List ℕ) → Backed (num_faulty + 1) scratch.results result → ⊥

abbrev pub ClientFits : ℕ → Client → Type 0
ClientFits num_faulty client = All (λ entry. ScratchFits num_faulty entry.1) client.seq_scratch

abbrev pub recorded : SeqScratch → ℕ → List ℕ → Map (List ℕ)
recorded scratch replica_id result = insert replica_id result scratch.results

-- The result may be the one that is expected.
abbrev pub MayBe : Option (List ℕ) → List ℕ → Type 0
MayBe none result = Unit
MayBe (some expected) result = result ≡ expected

-- What a reply comes to.
pub data Counted (num_faulty : ℕ) (client : Client) (seq replica_id : ℕ) (result : List ℕ)
    (view_num : ℕ) : Option (Client × Bool) → Type 0 where
  -- The command is not in flight: nothing happens.
  unknown :
      lookup seq client.seq_scratch ≡ none
      → Counted num_faulty client seq replica_id result view_num (some (client, false))
  -- With the reply recorded, fewer than `num_faulty + 1` replicas have sent this result: it waits
  -- for more.
  waits :
      (scratch : SeqScratch)
      → lookup seq client.seq_scratch ≡ some scratch
      → (Backed (num_faulty + 1) (recorded scratch replica_id result) result → ⊥)
      → (client' : Client)
      → client' ≡ record client {
        seq_scratch =
            insert seq
              (record scratch { results = recorded scratch replica_id result })
              client.seq_scratch;
      }
      → ClientFits num_faulty client'
      → Counted num_faulty client seq replica_id result view_num (some (client', false))
  -- `num_faulty + 1` replicas have sent this result, which may be expected: it is in flight no more.
  accepts :
      (scratch : SeqScratch)
      → lookup seq client.seq_scratch ≡ some scratch
      → Backed (num_faulty + 1) (recorded scratch replica_id result) result
      → MayBe scratch.expected_result result
      → (client' : Client)
      → client' ≡ record client { view_num = view_num; seq_scratch = remove seq client.seq_scratch }
      → ClientFits num_faulty client'
      → Counted num_faulty client seq replica_id result view_num (some (client', true))
  -- So they have, and it is not the result that was expected.
  differs :
      (scratch : SeqScratch)
      → lookup seq client.seq_scratch ≡ some scratch
      → Backed (num_faulty + 1) (recorded scratch replica_id result) result
      → (MayBe scratch.expected_result result → ⊥)
      → Counted num_faulty client seq replica_id result view_num none

is_expected-MayBe :
    (expected : Option (List ℕ)) (result : List ℕ)
    → is_expected expected result ≡ true
    → MayBe expected result
unfolding is_expected
is_expected-MayBe none result h = tt
is_expected-MayBe (some e) result h = is_same-eq result e h

MayBe-is_expected :
    (expected : Option (List ℕ)) (result : List ℕ)
    → is_expected expected result ≡ false
    → MayBe expected result
    → ⊥
unfolding is_expected
MayBe-is_expected none result h m = cc
MayBe-is_expected (some e) result h m =
    let same : is_same result e ≡ true = rw m (is_same_self e) in
    let bad : true ≡ false = sym same ∙ h in cc

module _ (num_faulty : ℕ) (few : num_faulty + 1 < u16_mod) (client : Client) (seq replica_id : ℕ)
    (result : List ℕ) (view_num : ℕ) (fits : ClientFits num_faulty client) where
  pub count_none :
      lookup seq client.seq_scratch ≡ none
      → count_reply num_faulty client seq replica_id result view_num ≡ some (client, false)
  unfolding count_reply
  count_none e = ground arith

  module _ (scratch : SeqScratch) (e : lookup seq client.seq_scratch ≡ some scratch) where
    abbrev counted : Map (List ℕ)
    counted = recorded scratch replica_id result

    abbrev noted : Client
    noted = record client {
      seq_scratch = insert seq (record scratch { results = counted }) client.seq_scratch;
    }

    abbrev finished : Client
    finished = record client { view_num = view_num; seq_scratch = remove seq client.seq_scratch }

    count_more :
        (u16 (length (matching result counted)) == u16 (num_faulty + 1)) ≡ false
        → count_reply num_faulty client seq replica_id result view_num ≡ some (noted, false)
    unfolding count_reply
    count_more more = ground arith

    count_enough :
        (u16 (length (matching result counted)) == u16 (num_faulty + 1)) ≡ true
        → count_reply num_faulty client seq replica_id result view_num
          ≡ commit finished (is_expected scratch.expected_result result)
    unfolding count_reply
    count_enough enough = ground arith

    scratch-Fits : ScratchFits num_faulty scratch
    scratch-Fits =
        lookup-All (λ entry. ScratchFits num_faulty entry.1) seq client.seq_scratch e fits

    counted-IsSorted : IsSortedFrom 0 counted
    counted-IsSorted =
        insert-IsSortedFrom 0 replica_id result scratch.results (omega arith) scratch-Fits.sorted

    -- No result had enough replicas before.
    few_before : (r : List ℕ) → length (matching r scratch.results) ≤ num_faulty
    few_before r = elim (Bool-cases (leb (num_faulty + 1) (length (matching r scratch.results)))) [
      | inl many ↦
          let f = scratch-Fits in
          absurd (
            f.open_still r
              (counted-Backed (num_faulty + 1) scratch.results r f.sorted (ground arith)))
      | inr less ↦ ground arith
    ]

    few_after :
        (u16 (length (matching result counted)) == u16 (num_faulty + 1)) ≡ false
        → (r : List ℕ) → length (matching r counted) ≤ num_faulty
    few_after more r = elim (Bool-cases (is_same result r)) [
      | inl same ↦
          let same' = is_same-eq result r same in
          let le = matching-insert replica_id result result scratch.results in
          let here : length (matching result counted) ≤ num_faulty =
            ground (arith, few_before result, le, few) in
          rw (← same') here
      | inr other ↦
          omega
            (arith, few_before r, matching-insert_other replica_id result r scratch.results other)
    ]

    noted-ClientFits :
        (u16 (length (matching result counted)) == u16 (num_faulty + 1)) ≡ false
        → ClientFits num_faulty noted
    noted-ClientFits more =
        insert-All (λ entry. ScratchFits num_faulty entry.1) seq
          (record scratch { results = counted }) client.seq_scratch
          (record {
            sorted = counted-IsSorted;
            open_still = λ r b.
                let le = Backed-counted (num_faulty + 1) counted r counted-IsSorted b in
                absurd (omega (arith, le, few_after more r));
          })
          fits

    finished-ClientFits : ClientFits num_faulty finished
    finished-ClientFits =
        remove-All (λ entry. ScratchFits num_faulty entry.1) seq client.seq_scratch fits

    pub scratch-Counted :
        Counted num_faulty client seq replica_id result view_num
          (count_reply num_faulty client seq replica_id result view_num)
    scratch-Counted =
        elim (Bool-cases (u16 (length (matching result counted)) == u16 (num_faulty + 1))) [
          | inr more ↦ rw (count_more more) (
              waits scratch e
                (λ b.
                  let le = Backed-counted (num_faulty + 1) counted result counted-IsSorted b in
                  absurd (omega (arith, le, few_after more result)))
                noted refl (noted-ClientFits more))
          | inl enough ↦
              let le = matching-insert replica_id result result scratch.results in
              let many : num_faulty + 1 ≤ length (matching result counted) = ground (arith, few) in
              let b = counted-Backed (num_faulty + 1) counted result counted-IsSorted many in
              rw (count_enough enough)
                (elim (Bool-cases (is_expected scratch.expected_result result)) [
                  | inr wrong ↦
                      rw wrong (
                        differs scratch e b
                          (MayBe-is_expected scratch.expected_result result wrong))
                  | inl right ↦ rw right (
                      accepts scratch e b (is_expected-MayBe scratch.expected_result result right)
                        finished refl finished-ClientFits)
                ])
        ]
