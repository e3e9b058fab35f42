-- ===== src/Pbft/Replica/WellFormed.antt =====
-- What holds of a replica between two messages: its blocks are as `CoreFits` says, and the votes that
-- it counts are of different replicas.
use bft_kit.Base.{
  ℕ, ◌+◌, ◌≤◌, ◌≡◌, true, ◌&&◌, some, List, [], ◌∷◌, length, ◌==◌, leb, u16, Bool-cases,
  Option-cases, inl, inr, done, >>=-eq-done, arith,
}
use bft_kit.Base.Map.{lookup, insert, lookup-insert, IsSortedFrom, insert-IsSortedFrom}
use bft_kit.Crypto.{Primitives, Digest, Sig, replica_config}
use bft_kit.Pbft.Message.{Vote}
use bft_kit.Pbft.Core.{
  quorum_size, Quorum, ReplicaCoreConfig, ReplicaCoreEvent, new_core, is_prepared,
}
use bft_kit.Pbft.Core.Certificates.{CoreFits, EventFits, handle-Fits}
use bft_kit.Pbft.Replica.{
  BlockScratch, Replica, scratch_of, put_scratch, new, feed, check_prepare_quorum,
  check_commit_quorum,
}
use bft_kit.Pbft.Replica.Inversion.{
  Fed, Checked, waits, fires, feed-inv, check_prepare_quorum-inv, check_commit_quorum-inv,
}
use bft_kit.Pbft.Replica.Receive.{extend_matching}

pub record ScratchFits (s : BlockScratch) : Type 0 where
  pub prepares : IsSortedFrom 0 s.prepare_quorum
  pub commits : IsSortedFrom 0 s.commit_quorum

pub record IsWellFormed (prim : Primitives) (r : Replica) : Type 0 where
  pub core_fits : CoreFits prim r.core
  pub scratches_fit :
      (n : ℕ) (s : BlockScratch) → lookup n r.block_scratches ≡ some s → ScratchFits s

module _ (prim : Primitives) where
  pub new-WellFormed :
      (config : ReplicaCoreConfig) {r : Replica} → new prim config ≡ done r → IsWellFormed prim r
  unfolding new new_core lookup
  new-WellFormed config {r} h =
      let (keys, e, same) =
        >>=-eq-done (replica_config prim config.id config.spec.num_replica) _ h in
      let start : Replica = record {
        core = new_core config;
        core_actions = [];
        crypto_config = keys;
        block_scratches = [];
        ticked_scratch_num = 0;
      } in
      let same' : start ≡ r = cc in
      rw (← same') (record {
        core_fits = λ n block found. absurd (cc);
        scratches_fit = λ n s found. absurd (cc);
      })

  pub put_scratch-WellFormed :
      (r : Replica) (k : ℕ) (s : BlockScratch)
      → ScratchFits s
      → IsWellFormed prim r
      → IsWellFormed prim (put_scratch r k s)
  unfolding put_scratch
  put_scratch-WellFormed r k s fits w = record {
    core_fits = w.core_fits;
    scratches_fit = λ n t found. elim (Bool-cases (k == n)) [
      | inl e ↦
          let same : some s ≡ some t = ground (arith, lookup-insert k n s r.block_scratches) in
          let same' : s ≡ t = cc in rw (← same') fits
      | inr e ↦ w.scratches_fit n t (ground (arith, lookup-insert k n s r.block_scratches))
    ];
  }

  pub scratch_of-Fits : (r : Replica) (k : ℕ) → IsWellFormed prim r → ScratchFits (scratch_of r k)
  unfolding scratch_of
  scratch_of-Fits r k w = elim (Option-cases (lookup k r.block_scratches)) [
    | inl e ↦ rw e (record { prepares = tt; commits = tt })
    | inr (s, e) ↦ rw e (w.scratches_fit k s e)
  ]

  Fed-WellFormed :
      {r : Replica} {event : ReplicaCoreEvent} {r' : Replica}
      → EventFits prim r.core.config.spec event
      → Fed prim r event r'
      → IsWellFormed prim r
      → IsWellFormed prim r'
  Fed-WellFormed {r} {event} e f w = rw f.result (record {
    core_fits = (handle-Fits prim r.core event e f.handled w.core_fits).0;
    scratches_fit = w.scratches_fit;
  })

  pub feed-WellFormed :
      (r : Replica) (event : ReplicaCoreEvent) {r' : Replica}
      → EventFits prim r.core.config.spec event
      → feed prim r event ≡ done r'
      → IsWellFormed prim r
      → IsWellFormed prim r'
  feed-WellFormed r event e h w = Fed-WellFormed e (feed-inv prim r event h) w

  pub check_prepare_quorum-WellFormed :
      (r : Replica) (k : ℕ) (s : BlockScratch) {r' : Replica}
      → ScratchFits s
      → check_prepare_quorum prim r k s ≡ done r'
      → IsWellFormed prim r
      → IsWellFormed prim r'
  unfolding put_scratch
  check_prepare_quorum-WellFormed r k s {r'} fits h w = go (check_prepare_quorum-inv prim r k s h)
    where
      taken : BlockScratch
      taken = record s { prepare_quorum = [] }

      size :
          leb (quorum_size r.core.config.spec) (u16 (u16 (length s.prepare_quorum) + 1)) ≡ true
          → quorum_size r.core.config.spec ≤ length s.prepare_quorum + 1
      size e = ground arith

      go :
          Checked prim r k
            (leb (quorum_size r.core.config.spec) (u16 (u16 (length s.prepare_quorum) + 1)))
            s
            taken
            (ReplicaCoreEvent.prepare_quorum k s.prepare_quorum)
            r'
          → IsWellFormed prim r'
      go (waits e same) = rw same (put_scratch-WellFormed r k s fits w)
      go (fires e f) =
          Fed-WellFormed (fits.prepares, size e) f
            (put_scratch-WellFormed r k taken (record { prepares = tt; commits = fits.commits }) w)

  pub check_commit_quorum-WellFormed :
      (r : Replica) (k : ℕ) (s : BlockScratch) {r' : Replica}
      → ScratchFits s
      → check_commit_quorum prim r k s ≡ done r'
      → IsWellFormed prim r
      → IsWellFormed prim r'
  unfolding put_scratch
  check_commit_quorum-WellFormed r k s {r'} fits h w = go (check_commit_quorum-inv prim r k s h)
    where
      taken : BlockScratch
      taken = record s { commit_quorum = [] }

      size :
          (is_prepared r.core k
              && leb (quorum_size r.core.config.spec) (u16 (length s.commit_quorum)))
            ≡ true
          → quorum_size r.core.config.spec ≤ length s.commit_quorum + 0
      size e = ground arith

      go :
          Checked prim r k
            (is_prepared r.core k
              && leb (quorum_size r.core.config.spec) (u16 (length s.commit_quorum)))
            s
            taken
            (ReplicaCoreEvent.commit_quorum k s.commit_quorum)
            r'
          → IsWellFormed prim r'
      go (waits e same) = rw same (put_scratch-WellFormed r k s fits w)
      go (fires e f) =
          Fed-WellFormed (fits.commits, size e) f
            (put_scratch-WellFormed r k taken (record { prepares = fits.prepares; commits = tt }) w)

  pub extend_matching-IsSorted :
      (digest : Digest) (quorum : Quorum Sig) (votes : List Vote)
      → IsSortedFrom 0 quorum
      → IsSortedFrom 0 (extend_matching digest quorum votes)
  unfolding extend_matching
  extend_matching-IsSorted digest quorum [] s = s
  extend_matching-IsSorted digest quorum (vote ∷ votes) s =
      elim (Bool-cases (vote.digest == digest)) [
        | inl e ↦ rw e (
            extend_matching-IsSorted digest (insert vote.replica_id vote.sig quorum) votes
              (insert-IsSortedFrom 0 vote.replica_id vote.sig quorum (omega arith) s))
        | inr e ↦ rw e (extend_matching-IsSorted digest quorum votes s)
      ]
