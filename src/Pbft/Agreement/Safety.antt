-- ===== src/Pbft/Agreement/Safety.antt =====
-- Replicas of PBFT agree on the blocks that they commit.
use bft_kit.Base.{
  ℕ, ◌+◌, ◌*◌, ◌≤◌, ◌<◌, ◌≡◌, refl, sym, ◌∙◌, Bool, false, some, List, [], length, get_elem?, inl,
  inr, u16_mod, done, >>=-eq-done, arith,
}
use bft_kit.Base.Map.{lookup, IsSortedFrom}
use bft_kit.Base.Counting.{count, quorums_meet}
use bft_kit.Crypto.{Primitives, Digest, Sig, ReplicaConfig, block_digest, replica_config}
use bft_kit.Crypto.Keys.{public_keys-same}
use bft_kit.Pbft.Core.{Spec, quorum_size, ReplicaCoreConfig, Block, Quorum, new_core}
use bft_kit.Pbft.Core.Certificates.{HasCertificate, IsCertificate}
use bft_kit.Pbft.Core.Grows.{HasDigest, HasDigest-unique}
use bft_kit.Pbft.Core.Signed.{AreSigned, MaybeSigned}
use bft_kit.Pbft.Replica.{Replica, ToReplica, new}
use bft_kit.Pbft.Replica.Tick.{pbft_replica}
use bft_kit.Pbft.Replica.WellFormed.{new-WellFormed}
use bft_kit.Pbft.Replica.Signed.{no_entry}
use bft_kit.Network.{System}
use bft_kit.Network.Runs.{Run, Reach}
use bft_kit.Pbft.Agreement.{Holds, Injects, SignedAt, Member}
use bft_kit.Pbft.Agreement.Steps.{IsSafe, Reach-Safe}

module _ (prim : Primitives) (spec : Spec) (crypto : ReplicaConfig)
    (has_keys : replica_config prim 0 spec.num_replica ≡ done crypto) where
  -- New replicas, each under its own identifier, and no message.
  pub record Starts (first : System Replica ToReplica) : Type 0 where
    pub made :
        (j : ℕ) (r : Replica)
        → get_elem? first.replicas j ≡ some r
        → (config : ReplicaCoreConfig) × (config.id ≡ j)
          × (config.spec ≡ spec)
          × (new prim config ≡ done r)
    pub quiet : first.events ≡ []

  module _ (faulty : ℕ → Bool) where
    new-Member :
        (replicas : List Replica) (config : ReplicaCoreConfig) {r : Replica}
        → config.spec ≡ spec
        → new prim config ≡ done r
        → Member prim crypto.public_keys faulty spec replicas config.id r
    unfolding new new_core lookup
    new-Member replicas config {r} same h =
        let formed = new-WellFormed prim config h in
        let (keys, e, made) =
          >>=-eq-done (replica_config prim config.id config.spec.num_replica) _ h in
        let start : Replica = record {
          core = new_core config;
          core_actions = [];
          crypto_config = keys;
          block_scratches = [];
          ticked_scratch_num = 0;
        } in
        let same' : start ≡ r = cc in
        let e' : replica_config prim config.id spec.num_replica ≡ done keys = rw same at e in
        let (below, all, equal) = public_keys-same prim 0 config.id spec.num_replica has_keys e' in
        rw (← same') (record {
          view_is = refl;
          below = rw (← equal) (omega (arith, below, all));
          id_is = refl;
          spec_is = same;
          keys_are = equal;
          formed = rw same' formed;
          signed = record {
            core_signed = λ n block at. absurd (no_entry n at);
            scratches = λ n s at. absurd (no_entry n at);
            actions_fit = tt;
          };
        })

    Starts-Safe :
        (first : System Replica ToReplica)
        → Starts first
        → IsSafe prim crypto.public_keys faulty spec (record { system = first; history = [] })
    Starts-Safe first s = record {
      members = λ j r at.
          let (config, is, same, made) = s.made j r at in
          rw (← is) (new-Member first.replicas config same made);
      events = rw s.quiet tt;
      history = tt;
    }

    -- A replica with a commit certificate for a block.
    pub record Commits (run : Run Replica ToReplica) (j n : ℕ) : Type 0 where
      pub replica : Replica
      pub at : get_elem? run.system.replicas j ≡ some replica
      pub block : Block
      pub found : lookup n replica.core.blocks ≡ some block
      pub quorum : Quorum Sig
      pub certified : block.commit_quorum ≡ some quorum

    module _ (run : Run Replica ToReplica)
        (safe : IsSafe prim crypto.public_keys faulty spec run) where
      -- What the certificate is: votes of different replicas, enough of them, all signed.
      record Certificate (j n : ℕ) (d : Digest) (q : Quorum Sig) : Type 0 where
        sorted : IsSortedFrom 0 q
        large : quorum_size spec ≤ length q + 0
        below : (i : ℕ) (s : Sig) → lookup i q ≡ some s → i < spec.num_replica
        signers :
            (i : ℕ) (s : Sig)
            → lookup i q ≡ some s
            → faulty i ≡ false
            → Holds run.system.replicas n d i

      certificate : (j n : ℕ) (c : Commits run j n) → Certificate j n c.block.digest c.quorum
      certificate j n c =
          let m = safe.members j c.replica c.at in
          let fits : HasCertificate c.replica.core.config.spec 0 c.block.commit_quorum =
            (m.formed.core_fits n c.block c.found).committed in
          let fits' : IsCertificate spec 0 c.quorum = rw (c.certified, m.spec_is) at fits in
          let signed : MaybeSigned (SignedAt prim crypto.public_keys faulty run.system.replicas j) n
              c.block.digest c.block.commit_quorum =
            (m.signed.core_signed n c.block c.found).committed in
          let signed' : AreSigned (SignedAt prim crypto.public_keys faulty run.system.replicas j) n
              c.block.digest c.quorum =
            rw c.certified at signed in
          let (first, all, same) = public_keys-same prim 0 0 spec.num_replica has_keys has_keys in
          let has : HasDigest c.replica.core n c.block.digest = record {
            block = c.block;
            at = c.found;
            digest = refl;
          } in
          record {
            sorted = fits'.0;
            large = fits'.1;
            below = λ i s at. elim (signed' i s at) [
              | inl own ↦ omega (arith, own, m.below, all)
              | inr owned ↦ elim owned [
                | inl bad ↦ omega (arith, bad.1, all)
                | inr h ↦ omega (arith, (safe.members i h.replica h.at).below, all)
              ]
            ];
            signers = λ i s at good. elim (signed' i s at) [
              | inl own ↦ rw own (record { replica = c.replica; at = c.at; has = has })
              | inr owned ↦ elim owned [
                | inl bad ↦ absurd (let wrong = sym good ∙ bad.0 in cc)
                | inr h ↦ h
              ]
            ];
          }

      Holds-unique :
          (n i : ℕ) (d e : Digest)
          → Holds run.system.replicas n d i
          → Holds run.system.replicas n e i
          → d ≡ e
      Holds-unique n i d e h k =
          let same : some h.replica ≡ some k.replica = sym h.at ∙ k.at in
          let same' : h.replica ≡ k.replica = cc in
          HasDigest-unique k.replica.core n d e (rw same' at h.has) k.has

    -- In any run of PBFT replicas, new at the start, in which messages are lost, repeated and
    -- reordered, and forged where they are not signed by replicas that are not faulty: with at most
    -- `num_faulty` faulty ones among more than three times as many, two replicas that have commit
    -- certificates for a block of one number have the same digest for it, and commands of that
    -- digest.
    pub agreement :
        (first : System Replica ToReplica) (run : Run Replica ToReplica) (i j n : ℕ)
        → Starts first
        → Reach (pbft_replica prim) (Injects prim crypto.public_keys faulty) first run
        → spec.num_replica < u16_mod
        → 3 * spec.num_faulty < spec.num_replica
        → count faulty spec.num_replica ≤ spec.num_faulty
        → (a : Commits run i n) (b : Commits run j n)
        → (a.block.digest ≡ b.block.digest)
          × (block_digest prim a.block.commands ≡ block_digest prim b.block.commands)
    agreement first run i j n starts reach fits_u16 most few a b =
        let safe =
          Reach-Safe prim crypto.public_keys faulty spec reach (Starts-Safe first starts) in
        let p = certificate run safe i n a in
        let q = certificate run safe j n b in
        let (k, s, t, in_a, in_b, good) =
          quorums_meet spec.num_replica spec.num_faulty a.quorum b.quorum faulty p.sorted q.sorted
            p.below q.below (ground (arith, p.large)) (ground (arith, q.large)) most few in
        let same =
          Holds-unique run safe n k a.block.digest b.block.digest (p.signers k s in_a good)
            (q.signers k t in_b good) in
        let fa = (safe.members i a.replica a.at).formed.core_fits n a.block a.found in
        let fb = (safe.members j b.replica b.at).formed.core_fits n b.block b.found in
        (same, sym fa.digest ∙ same ∙ fb.digest)
