-- ===== src/Pbft/Replica/Inversion.antt =====
-- What a step of the replica around the core comes to, when it returns.
use bft_kit.Base.{
  ℕ, ◌+◌, ◌≡◌, Bool, true, false, ◌&&◌, [], ◌++◌, length, leb, u16, Bool-cases, inl, inr, done,
  >>=-eq-done,
}
use bft_kit.Crypto.{Primitives}
use bft_kit.Pbft.Core.{quorum_size, ReplicaCore, ReplicaCoreEvent, Actions, is_prepared, handle}
use bft_kit.Pbft.Replica.{
  BlockScratch, Replica, put_scratch, feed, check_prepare_quorum, check_commit_quorum,
}

-- The core has handled an event, and its actions stand behind those that were there.
pub record Fed (prim : Primitives) (r : Replica) (event : ReplicaCoreEvent) (r' : Replica)
    : Type 0 where
  pub core' : ReplicaCore
  pub actions : Actions
  pub handled : handle prim r.core event ≡ done (core', actions)
  pub result : r' ≡ record r { core = core'; core_actions = r.core_actions ++ actions }

-- A check of a quorum writes the scratch back, or takes the quorum out of it for an event.
pub data Checked (prim : Primitives) (r : Replica) (k : ℕ) (test : Bool) (s taken : BlockScratch)
    (event : ReplicaCoreEvent) (r' : Replica) : Type 0 where
  waits : test ≡ false → r' ≡ put_scratch r k s → Checked prim r k test s taken event r'
  fires :
      test ≡ true
      → Fed prim (put_scratch r k taken) event r'
      → Checked prim r k test s taken event r'

module _ (prim : Primitives) where
  pub feed-inv :
      (r : Replica) (event : ReplicaCoreEvent) {r' : Replica}
      → feed prim r event ≡ done r'
      → Fed prim r event r'
  unfolding feed
  feed-inv r event h =
      let (s, e, h2) = >>=-eq-done (handle prim r.core event) _ h in
      record { core' = s.0; actions = s.1; handled = e; result = cc }

  abbrev pub enough_prepares : Replica → BlockScratch → Bool
  enough_prepares r s =
      leb (quorum_size r.core.config.spec) (u16 (u16 (length s.prepare_quorum) + 1))

  pub check_prepare_quorum-inv :
      (r : Replica) (k : ℕ) (s : BlockScratch) {r' : Replica}
      → check_prepare_quorum prim r k s ≡ done r'
      → Checked prim r k
          (enough_prepares r s)
          s
          (record s { prepare_quorum = [] })
          (ReplicaCoreEvent.prepare_quorum k s.prepare_quorum)
          r'
  unfolding check_prepare_quorum
  check_prepare_quorum-inv r k s {r'} h = elim (Bool-cases (enough_prepares r s)) [
    | inr e ↦ let h' : done (put_scratch r k s) ≡ done r' = rw e at h in waits e (cc)
    | inl e ↦ fires e (feed-inv _ _ (rw e at h))
  ]

  abbrev pub enough_commits : Replica → ℕ → BlockScratch → Bool
  enough_commits r k s =
      is_prepared r.core k && leb (quorum_size r.core.config.spec) (u16 (length s.commit_quorum))

  pub check_commit_quorum-inv :
      (r : Replica) (k : ℕ) (s : BlockScratch) {r' : Replica}
      → check_commit_quorum prim r k s ≡ done r'
      → Checked prim r k
          (enough_commits r k s)
          s
          (record s { commit_quorum = [] })
          (ReplicaCoreEvent.commit_quorum k s.commit_quorum)
          r'
  unfolding check_commit_quorum
  check_commit_quorum-inv r k s {r'} h = elim (Bool-cases (enough_commits r k s)) [
    | inr e ↦ let h' : done (put_scratch r k s) ≡ done r' = rw e at h in waits e (cc)
    | inl e ↦ fires e (feed-inv _ _ (rw e at h))
  ]
