-- ===== src/Hotstuff/Replica/Rejects.antt =====
-- What `Replica::receive` of HotStuff takes from a message, and which votes stop the replica.
use bft_kit.Base.{
  ℕ, ◌≤◌, ◌≡◌, refl, sym, ◌⊎◌, inl, inr, true, false, none, some, List, length, get_elem?, ◌==◌, ok,
  err, done, panic, >>=-eq-done, Bool-cases, arith,
}
use bft_kit.Base.Map.{Map, lookup, insert, contains}
use bft_kit.Crypto
use bft_kit.Crypto.{Primitives, Digest, digest}
use bft_kit.Crypto.Threshold.{
  Schemes, PublicCommitments, PartialSig, PartialSigs, Added, verify_digest, givre_master_key,
}
use bft_kit.Crypto.Threshold.Shares.{add_partial-missing}
use bft_kit.Hotstuff.Message
use bft_kit.Hotstuff.Message.{Generic, VoteGeneric, block_bytes}
use bft_kit.Hotstuff.Slab.{Slab}
use bft_kit.Hotstuff.Core.Quiet.{done_eq}
use bft_kit.Hotstuff.Replica.{Replica, ToReplica, QuorumCertScratch, certify, handle_vote_generic}
use bft_kit.Hotstuff.Replica.Receive.{Flow, return, knows, accepts_justify, on_generic, dispatch}
use bft_kit.Hotstuff.Replica.Effects.{receive}

module _ (slab : Slab) (prim : Primitives) (schemes : Schemes)
    (order : Map Crypto.Sig → List (ℕ × Crypto.Sig)) where
  -- The certificate of a block is one that the replica has, or it verifies.
  abbrev pub Justified : Replica slab → Message.Block → Type 0
  Justified r block =
      (contains block.justify.node r.core.quorum_cert_index ≡ true)
      ⊎ (verify_digest prim schemes order block.justify.node block.justify.sig
            (givre_master_key schemes r.crypto_config.key_share)
          ≡ done true)

  accepts_justify-Justified :
      (r : Replica slab) (block : Message.Block)
      → accepts_justify slab prim schemes order r block ≡ done true
      → Justified r block
  unfolding accepts_justify
  accepts_justify-Justified r block h =
      elim (Bool-cases (contains block.justify.node r.core.quorum_cert_index)) [
        | inl there ↦ inl there
        | inr missing ↦ inr (rw missing at h)
      ]

  -- A block that is handed on or kept is new, has the digest that the message names, and carries a
  -- certificate that the replica has or that verifies. Else nothing of the replica changes.
  pub dispatch-generic :
      (r : Replica slab) (generic : Generic) (block : Message.Block) {flow : Flow slab}
      → dispatch slab prim schemes order r (ToReplica.generic generic block) ≡ done flow
      → (flow ≡ return r)
        ⊎ ((knows slab r generic.block ≡ false)
            × (digest prim (block_bytes block) ≡ generic.block)
            × Justified r block)
  unfolding dispatch on_generic
  dispatch-generic r generic block {flow} h = elim (Bool-cases (knows slab r generic.block)) [
    | inl old ↦ let same : return r ≡ flow = done_eq (rw old at h) in inl (sym same)
    | inr new ↦
        let h1 = rw new at h in
        elim (Bool-cases (digest prim (block_bytes block) == generic.block)) [
          | inr wrong ↦ let same : return r ≡ flow = done_eq (rw wrong at h1) in inl (sym same)
          | inl right ↦
              let (accepted, checks, h2) =
                >>=-eq-done (accepts_justify slab prim schemes order r block) _ (rw right at h1) in
              elim (Bool-cases accepted) [
                | inr forged ↦
                    let same : return r ≡ flow = done_eq (rw forged at h2) in inl (sym same)
                | inl good ↦
                    inr (new, ground arith, accepts_justify-Justified r block (rw good at checks))
              ]
        ]
  ]

  -- A vote that the code does not expect.
  pub data Crashes (r : Replica slab) (vote : VoteGeneric) : Type 0 where
    -- It is for a block whose shares the replica does not count, as at every replica but the leader.
    uncounted : lookup vote.node r.quorum_cert_scratches ≡ none → Crashes r vote
    -- It makes up the number of shares, but a signer has sent none, since some share is of another.
    foreign :
        (scratch : QuorumCertScratch) (shares : Map ℕ) (share i signer : ℕ)
        (commitments : PublicCommitments)
        → lookup vote.node r.quorum_cert_scratches ≡ some scratch
        → scratch.partial_sigs ≡ PartialSigs.givre shares
        → vote.partial_sig ≡ PartialSig.givre share
        → schemes.givre_min_signers r.crypto_config.key_share
          ≤ length (insert vote.signer_index share shares)
        → get_elem? scratch.signers i ≡ some (signer, commitments)
        → lookup signer (insert vote.signer_index share shares) ≡ none
        → Crashes r vote

  certify-err :
      (r : Replica slab) (vote : VoteGeneric) (scratch : QuorumCertScratch) (added : Added)
      → added.1 ≡ err
      → certify slab schemes r vote scratch added ≡ panic
  unfolding certify
  certify-err r vote scratch (sigs, err) e = refl
  certify-err r vote scratch (sigs, ok none) e = absurd (cc)
  certify-err r vote scratch (sigs, ok (some sig)) e = absurd (cc)

  handle_vote_generic-panic :
      (r : Replica slab) (vote : VoteGeneric)
      → Crashes r vote
      → handle_vote_generic slab schemes r vote ≡ panic
  unfolding handle_vote_generic
  handle_vote_generic-panic r vote (uncounted e) = rw e refl
  handle_vote_generic-panic r vote
        (foreign scratch shares share i signer c e sigs sig enough at lacks) =
      rw e (
        certify-err r vote scratch _ (
          rw (sigs, sig)
            (add_partial-missing schemes shares vote.signer_index share
              (record {
                key_share = r.crypto_config.key_share;
                signers = scratch.signers;
                digest = vote.node;
              })
              enough i signer c at lacks)))

  -- Such a vote, which any peer can send, makes `receive` panic.
  pub receive-panic :
      (fuel : ℕ) (r : Replica slab) (vote : VoteGeneric)
      → Crashes r vote
      → receive slab prim schemes order fuel r (ToReplica.vote_generic vote) ≡ panic
  unfolding receive dispatch
  receive-panic fuel r vote c = rw (handle_vote_generic-panic r vote c) refl
