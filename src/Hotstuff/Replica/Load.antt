-- ===== src/Hotstuff/Replica/Load.antt =====
-- What an action of the core leaves to do for `effect_core_actions` of HotStuff.
use bft_kit.Base.{
  ℕ, ◌+◌, ◌*◌, ◌≤◌, ◌<◌, ◌≡◌, refl, ap, not, Option, none, some, [], ◌++◌, length, length-append,
  ltb, ok, err, done, assert, unwrap, >>=-eq-done, Bool-cases, inl, inr, arith,
}
use bft_kit.Base.Map.{lookup, insert, remove, contains}
use bft_kit.Crypto.{Primitives, Digest, digest}
use bft_kit.Crypto.Threshold.{Schemes, Signers, PublicCommitments, PartialSig, PartialSigs, Added}
use bft_kit.Hotstuff.Message.{VoteGeneric, block_bytes}
use bft_kit.Hotstuff.Slab.{Slab, IsSlab}
use bft_kit.Hotstuff.Core.{NodeData, ReplicaCore, ReplicaCoreEvent, Actions, handle}
use bft_kit.Hotstuff.Core.Ancestors.{Ranked}
use bft_kit.Hotstuff.Core.Stored.{handle-Ranked}
use bft_kit.Hotstuff.Core.Quiet.{votes_of, votes_of-append, done_eq}
use bft_kit.Hotstuff.Core.Calm.{proposals_of, proposals_of-append}
use bft_kit.Hotstuff.Core.Measure.{work, Works, proposed-Works, quorum_cert-Works}
use bft_kit.Hotstuff.Replica.{
  Replica, QuorumCertScratch, Sent, find_nonce, remove_nonce, feed, digest_at, signer_index,
  is_primary, refill_nonces, certify, handle_vote_generic,
}
use bft_kit.Hotstuff.Replica.Effects.{
  take_signers, own_commitments, message_block, num_signer, on_propose, deliver, top_up, on_signed,
  sign_vote, on_vote,
}

-- A proposal is voted for, so it weighs more than a vote.
abbrev pub weight : Actions → ℕ
weight actions = 2 * proposals_of actions + length (votes_of actions)

pub weight-append : (xs ys : Actions) → weight (xs ++ ys) ≡ weight xs + weight ys
weight-append xs ys = omega (
  arith,
  proposals_of-append xs ys,
  ap length (votes_of-append xs ys),
  length-append (votes_of xs) (votes_of ys),
)

module _ (slab : Slab) where
  abbrev pub load : Replica slab → ℕ
  load r = 3 * work slab r.core + weight r.core_actions

  -- The load grows by no more than this, and the core is configured as before.
  pub record Loads (r r' : Replica slab) (most : ℕ) : Type 0 where
    pub config : r'.core.config ≡ r.core.config
    pub load_le : load r' ≤ load r + most
    pub ranked : Ranked slab r.core → Ranked slab r'.core

module _ (slab : Slab) (laws : IsSlab slab) where
  -- The core and its actions stay.
  idle :
      (r r' : Replica slab)
      → r'.core ≡ r.core
      → r'.core_actions ≡ r.core_actions
      → Loads slab r r' 0
  idle r r' c a = record {
    config = rw c refl;
    load_le = rw (c, a) (omega arith);
    ranked = λ k. rw c k;
  }

  feed-Loads :
      (r : Replica slab) (event : ReplicaCoreEvent) (most : ℕ) {r' : Replica slab}
      → ((s : ReplicaCore slab × Actions)
          → handle slab r.core event ≡ done s
          → Works slab r.core s.0 s.1 most)
      → feed slab r event ≡ done r'
      → Loads slab r r' most
  unfolding feed
  feed-Loads r event most works h =
      let (s, e, h2) = >>=-eq-done (handle slab r.core event) _ h in
      let w = works s e in
      rw (← done_eq h2) (record {
        config = w.config;
        load_le = omega (arith, w.less, w.votes, weight-append r.core_actions s.1);
        ranked = λ k. handle-Ranked slab laws r.core event k e;
      })

  module _ (schemes : Schemes) where
    certify-Loads :
        (r : Replica slab) (m : VoteGeneric) (scratch : QuorumCertScratch) (added : Added)
        {r' : Replica slab}
        → 0 < r.core.config.max_batch_size
        → certify slab schemes r m scratch added ≡ done r'
        → Loads slab r r' 0
    unfolding certify
    certify-Loads r m scratch (sigs, err) room h = absurd (cc)
    certify-Loads r m scratch (sigs, ok none) room h = rw (← done_eq h) (idle r _ refl refl)
    certify-Loads r m scratch (sigs, ok (some sig)) room h =
        let (u, stored, h2) = >>=-eq-done (assert (contains m.node r.core.node_index)) _ h in
        let f =
          feed-Loads (record r { quorum_cert_scratches = remove m.node r.quorum_cert_scratches }) _
            0 (λ s e. quorum_cert-Works slab r.core _ room e) h2 in
        record { config = f.config; load_le = f.load_le; ranked = f.ranked }

    deliver-Loads :
        (prim : Primitives) (r : Replica slab) (m : VoteGeneric) {s : Sent slab}
        → 0 < r.core.config.max_batch_size
        → deliver slab prim schemes r m ≡ done s
        → Loads slab r s.0 0
    unfolding deliver handle_vote_generic
    deliver-Loads prim r m room h = elim (Bool-cases (is_primary slab r)) [
      | inr backup ↦ rw (← done_eq (rw backup at h)) (idle r r refl refl)
      | inl primary ↦
          let (r', votes, h2) =
            >>=-eq-done (handle_vote_generic slab schemes r m) _ (rw primary at h) in
          let (scratch, e, h3) =
            >>=-eq-done (unwrap (lookup m.node r.quorum_cert_scratches)) _ votes in
          rw (← done_eq h2) (certify-Loads r m scratch _ room h3)
    ]

    top_up-core :
        (prim : Primitives) (r : Replica slab)
        → ((top_up slab prim schemes r).0.core ≡ r.core)
          × ((top_up slab prim schemes r).0.core_actions ≡ r.core_actions)
    unfolding top_up refill_nonces
    top_up-core prim r =
        elim (Bool-cases (ltb (length r.nonces) r.crypto_config.refill_threshold)) [
          | inr enough ↦ rw enough (refl, refl)
          | inl few ↦ rw few (elim (Bool-cases (is_primary slab r)) [
            | inl primary ↦ rw primary (refl, refl)
            | inr backup ↦ rw backup (refl, refl)
          ])
        ]

    on_signed-Loads :
        (prim : Primitives) (r : Replica slab) (node : Digest) (share : Option ℕ) {s : Sent slab}
        → 0 < r.core.config.max_batch_size
        → on_signed slab prim schemes r node share ≡ done s
        → Loads slab r s.0 0
    unfolding on_signed
    on_signed-Loads prim r node none room h = rw (← done_eq h) (idle r r refl refl)
    on_signed-Loads prim r node (some share) room h =
        let m : VoteGeneric = record {
          node = node;
          partial_sig = PartialSig.givre share;
          signer_index = signer_index slab r;
        } in
        let (d, delivers, h2) = >>=-eq-done (deliver slab prim schemes r m) _ h in
        let f = deliver-Loads prim r m room delivers in
        let (core, acts) = top_up-core prim d.0 in
        rw (← done_eq h2) (record {
          config = rw core f.config;
          load_le = rw (core, acts) f.load_le;
          ranked = rw core f.ranked;
        })

    sign_vote-Loads :
        (prim : Primitives) (r : Replica slab) (node : Digest) (signers : Signers)
        (own : Option PublicCommitments) {s : Sent slab}
        → 0 < r.core.config.max_batch_size
        → sign_vote slab prim schemes r node signers own ≡ done s
        → Loads slab r s.0 0
    unfolding sign_vote
    sign_vote-Loads prim r node signers none room h = rw (← done_eq h) (idle r r refl refl)
    sign_vote-Loads prim r node signers (some c) room h =
        let (x, finds, h2) = >>=-eq-done (unwrap (find_nonce c r.nonces)) _ h in
        let f =
          on_signed-Loads prim (record r { nonces = remove_nonce c r.nonces }) node
            (schemes.givre_sign r.crypto_config.key_share x node signers) room h2 in
        record { config = f.config; load_le = f.load_le; ranked = f.ranked }

    pub on_vote-Loads :
        (prim : Primitives) (r : Replica slab) (key : ℕ) {s : Sent slab}
        → 0 < r.core.config.max_batch_size
        → on_vote slab prim schemes r key ≡ done s
        → Loads slab r s.0 0
    unfolding on_vote
    on_vote-Loads prim r key room h =
        let (node, e, h2) = >>=-eq-done (digest_at slab r key) _ h in
        let (signers, e2, h3) = >>=-eq-done (unwrap (lookup node r.block_signers)) _ h2 in
        let f =
          sign_vote-Loads prim (record r { block_signers = remove node r.block_signers }) node
            signers (own_commitments (signer_index slab r) signers) room h3 in
        record { config = f.config; load_le = f.load_le; ranked = f.ranked }

    pub on_propose-Loads :
        (prim : Primitives) (r : Replica slab) (node : NodeData) {s : Sent slab}
        → 0 < r.core.config.max_batch_size
        → on_propose slab prim schemes r node ≡ done s
        → Loads slab r s.0 1
    unfolding on_propose
    on_propose-Loads prim r node room h =
        let n = num_signer slab prim schemes r in
        let (block, described, h1) = >>=-eq-done (message_block slab prim schemes r node) _ h in
        let d = digest prim (block_bytes block) in
        let (pool, signers) = take_signers n r.public_commitments_pool in
        let (u, many, h2) = >>=-eq-done (assert (not (ltb (length signers) n))) _ h1 in
        let (u', new, h3) = >>=-eq-done (assert (not (contains d r.block_signers))) _ h2 in
        let r1 : Replica slab = record r {
          public_commitments_pool = pool;
          quorum_cert_scratches =
              insert d (record { partial_sigs = PartialSigs.givre []; signers = signers })
                r.quorum_cert_scratches;
          block_signers = insert d signers r.block_signers;
        } in
        let (r', fed, h4) = >>=-eq-done (feed slab r1 (ReplicaCoreEvent.proposed d block)) _ h3 in
        let f =
          feed-Loads r1 (ReplicaCoreEvent.proposed d block) 1
            (λ s e. proposed-Works slab r.core d block room e) fed in
        rw (← done_eq h4) (record { config = f.config; load_le = f.load_le; ranked = f.ranked })
