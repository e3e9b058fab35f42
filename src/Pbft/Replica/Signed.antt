-- ===== src/Pbft/Replica/Signed.antt =====
-- The votes that a PBFT replica collects are for the digest of the block that it collects them for.
pub mod Received
pub mod Steps
pub mod Answers
pub mod Sends
use bft_kit.Base.{
  ℕ, ◌≡◌, refl, sym, ◌∙◌, Option, none, some, List, [], ◌∷◌, ◌++◌, ◌==◌, All, All-append,
  Bool-cases, Option-cases, inl, inr, done, arith,
}
use bft_kit.Base.Map.{Map, lookup, insert, lookup-insert, remove, lookup-remove}
use bft_kit.Crypto.{Primitives, Digest, Sig, ReplicaConfig}
use bft_kit.Pbft.Message.{Vote}
use bft_kit.Pbft.Core.{Block, Quorum, ReplicaCore, ReplicaCoreEvent, ReplicaCoreAction, Actions}
use bft_kit.Pbft.Core.Phases.{SameRole}
use bft_kit.Pbft.Core.Grows.{
  HasDigest, HasDigest-unique, Grows, Grows-refl, Grows-trans, ActionsFit, ActionsFit-Grows,
  ActionsFit-append,
}
use bft_kit.Pbft.Core.Signed.{AreSigned, MaybeSigned, CoreSigned, EventSigned, Signs, handle-Signs}
use bft_kit.Pbft.Replica.{
  BlockScratch, Replica, scratch_of, put_scratch, check_prepare_quorum, check_commit_quorum,
}
use bft_kit.Pbft.Replica.Receive.{extend_matching}
use bft_kit.Pbft.Replica.Inversion.{
  Fed, Checked, waits, fires, feed-inv, check_prepare_quorum-inv, check_commit_quorum-inv,
}

-- The replica with this identifier and these keys, in this view.
pub record IsAt (view id : ℕ) (crypto : ReplicaConfig) (r : Replica) : Type 0 where
  pub view_is : r.core.view_num ≡ view
  pub id_is : r.core.config.id ≡ id
  pub crypto_is : r.crypto_config ≡ crypto

pub no_entry : {V : Type 0} (k : ℕ) {v : V} → lookup k [] ≡ some v → ⊥
unfolding lookup
no_entry k h = cc

module _ (Signed : ℕ → Digest → ℕ → Sig → Type 0) where
  abbrev pub VotesSigned : ℕ → List Vote → Type 0
  VotesSigned n votes = All (λ v. Signed n v.digest v.replica_id v.sig) votes

  -- The votes are counted once there is a block, and only those for its digest.
  pub record ScratchSigned (core : ReplicaCore) (n : ℕ) (s : BlockScratch) : Type 0 where
    pub prepare_votes : VotesSigned n s.prepare_votes
    pub commit_votes : VotesSigned n s.commit_votes
    pub prepares : (d : Digest) → HasDigest core n d → AreSigned Signed n d s.prepare_quorum
    pub commits : (d : Digest) → HasDigest core n d → AreSigned Signed n d s.commit_quorum
    pub no_prepares : lookup n core.blocks ≡ none → s.prepare_quorum ≡ []
    pub no_commits : lookup n core.blocks ≡ none → s.commit_quorum ≡ []

  pub AreSigned-nil : (n : ℕ) (d : Digest) (q : Quorum Sig) → q ≡ [] → AreSigned Signed n d q
  AreSigned-nil n d q e i s at = absurd (no_entry i (rw e at at))

  pub AreSigned-insert :
      (n : ℕ) (d : Digest) (q : Quorum Sig) (i : ℕ) (s : Sig)
      → Signed n d i s
      → AreSigned Signed n d q
      → AreSigned Signed n d (insert i s q)
  AreSigned-insert n d q i s one all j t at = elim (Bool-cases (i == j)) [
    | inl e ↦
        let e' : i ≡ j = ground arith in
        let same : some s ≡ some t = ground (arith, at, lookup-insert i j s q) in
        let same' : s ≡ t = cc in rw (← e', ← same') one
    | inr e ↦ all j t (ground (arith, at, lookup-insert i j s q))
  ]

  pub AreSigned-same :
      (n : ℕ) (d e : Digest) (q : Quorum Sig)
      → d ≡ e
      → AreSigned Signed n d q
      → AreSigned Signed n e q
  AreSigned-same n d e q same all i s at = rw (← same) (all i s at)

  pub extend_matching-Signed :
      (n : ℕ) (d : Digest) (q : Quorum Sig) (votes : List Vote)
      → VotesSigned n votes
      → AreSigned Signed n d q
      → AreSigned Signed n d (extend_matching d q votes)
  unfolding extend_matching
  extend_matching-Signed n d q [] all signed = signed
  extend_matching-Signed n d q (vote ∷ votes) (one, all) signed =
      elim (Bool-cases (vote.digest == d)) [
        | inl e ↦
            let e' : vote.digest ≡ d = ground arith in
            rw e (
              extend_matching-Signed n d (insert vote.replica_id vote.sig q) votes all
                (AreSigned-insert n d q vote.replica_id vote.sig (rw e' at one) signed))
        | inr e ↦ rw e (extend_matching-Signed n d q votes all signed)
      ]

  ScratchSigned-Grows :
      {core core' : ReplicaCore} (n : ℕ) (s : BlockScratch)
      → Grows core core'
      → ScratchSigned core n s
      → ScratchSigned core' n s
  ScratchSigned-Grows {core} {core'} n s g f = record {
    prepare_votes = f.prepare_votes;
    commit_votes = f.commit_votes;
    prepares = λ d h. before (f.prepares) f.no_prepares d h;
    commits = λ d h. before (f.commits) f.no_commits d h;
    no_prepares = λ e. f.no_prepares (absent e);
    no_commits = λ e. f.no_commits (absent e);
  }
    where
      absent : lookup n core'.blocks ≡ none → lookup n core.blocks ≡ none
      absent e = elim (Option-cases (lookup n core.blocks)) [
        | inl e' ↦ e'
        | inr (b, e') ↦
            let h = g.kept n b.digest (record { block = b; at = e'; digest = refl }) in
            absurd (let bad = sym e ∙ h.at in cc)
      ]

      before :
          {q : Quorum Sig}
          → ((d : Digest) → HasDigest core n d → AreSigned Signed n d q)
          → (lookup n core.blocks ≡ none → q ≡ [])
          → (d : Digest) → HasDigest core' n d
          → AreSigned Signed n d q
      before {q} all empty d h = elim (Option-cases (lookup n core.blocks)) [
        | inl e ↦ AreSigned-nil n d q (empty e)
        | inr (b, e) ↦
            let old : HasDigest core n b.digest = record { block = b; at = e; digest = refl } in
            let same = HasDigest-unique core' n b.digest d (g.kept n b.digest old) h in
            rw (← same) (all b.digest old)
      ]

  pub record IsSigned (r : Replica) : Type 0 where
    pub core_signed : CoreSigned Signed r.core
    pub scratches :
        (n : ℕ) (s : BlockScratch) → lookup n r.block_scratches ≡ some s → ScratchSigned r.core n s
    pub actions_fit : ActionsFit r.core r.core_actions

  -- What a step of the replica does.
  pub record Goes (r r' : Replica) : Type 0 where
    pub grows : Grows r.core r'.core
    pub crypto : r'.crypto_config ≡ r.crypto_config
    pub signed : IsSigned r'

  pub Goes-trans : {a b c : Replica} → Goes a b → Goes b c → Goes a c
  Goes-trans s t = record {
    grows = Grows-trans s.grows t.grows;
    crypto = t.crypto ∙ s.crypto;
    signed = t.signed;
  }

  pub scratch_of-Signed :
      (r : Replica) (n : ℕ) → IsSigned r → ScratchSigned r.core n (scratch_of r n)
  unfolding scratch_of
  scratch_of-Signed r n f = elim (Option-cases (lookup n r.block_scratches)) [
    | inl e ↦ rw e (record {
      prepare_votes = tt;
      commit_votes = tt;
      prepares = λ d h. AreSigned-nil n d [] refl;
      commits = λ d h. AreSigned-nil n d [] refl;
      no_prepares = λ z. refl;
      no_commits = λ z. refl;
    })
    | inr (s, e) ↦ rw e (f.scratches n s e)
  ]

  pub put_scratch-Goes :
      (r : Replica) (n : ℕ) (s : BlockScratch)
      → ScratchSigned r.core n s
      → IsSigned r
      → Goes r (put_scratch r n s)
  unfolding put_scratch
  put_scratch-Goes r n s one f = record {
    grows = Grows-refl r.core;
    crypto = refl;
    signed = record {
      core_signed = f.core_signed;
      scratches = λ k t at. elim (Bool-cases (n == k)) [
        | inl e ↦
            let e' : n ≡ k = ground arith in
            let same : some s ≡ some t =
              ground (arith, at, lookup-insert n k s r.block_scratches) in
            let same' : s ≡ t = cc in rw (← e', ← same') one
        | inr e ↦ f.scratches k t (ground (arith, at, lookup-insert n k s r.block_scratches))
      ];
      actions_fit = f.actions_fit;
    };
  }

  pub Fed-Goes :
      (prim : Primitives) {r : Replica} {event : ReplicaCoreEvent} {r' : Replica}
      → EventSigned Signed r.core event
      → Fed prim r event r'
      → IsSigned r
      → Goes r r'
  Fed-Goes prim {r} {event} e f w =
      let s = handle-Signs Signed prim r.core event e f.handled w.core_signed in
      rw f.result (record {
        grows = s.grows;
        crypto = refl;
        signed = record {
          core_signed = s.core_signed;
          scratches = λ n t at. ScratchSigned-Grows n t s.grows (w.scratches n t at);
          actions_fit =
              ActionsFit-append f.core' r.core_actions f.actions
                (ActionsFit-Grows r.core_actions s.grows w.actions_fit) s.actions_fit;
        };
      })

  pub check_prepare_quorum-Goes :
      (prim : Primitives) (r : Replica) (n : ℕ) (s : BlockScratch) {r' : Replica}
      → ScratchSigned r.core n s
      → check_prepare_quorum prim r n s ≡ done r'
      → IsSigned r
      → Goes r r'
  unfolding put_scratch
  check_prepare_quorum-Goes prim r n s {r'} one h w = elim (check_prepare_quorum-inv prim r n s h) [
    | waits e same ↦ rw same (put_scratch-Goes r n s one w)
    | fires e f ↦
        let kept : ScratchSigned r.core n (record s { prepare_quorum = [] }) = record {
          prepare_votes = one.prepare_votes;
          commit_votes = one.commit_votes;
          prepares = λ d z. AreSigned-nil n d [] refl;
          commits = one.commits;
          no_prepares = λ z. refl;
          no_commits = one.no_commits;
        } in
        let g = put_scratch-Goes r n (record s { prepare_quorum = [] }) kept w in
        Goes-trans g (Fed-Goes prim one.prepares f g.signed)
  ]

  pub check_commit_quorum-Goes :
      (prim : Primitives) (r : Replica) (n : ℕ) (s : BlockScratch) {r' : Replica}
      → ScratchSigned r.core n s
      → check_commit_quorum prim r n s ≡ done r'
      → IsSigned r
      → Goes r r'
  unfolding put_scratch
  check_commit_quorum-Goes prim r n s {r'} one h w = elim (check_commit_quorum-inv prim r n s h) [
    | waits e same ↦ rw same (put_scratch-Goes r n s one w)
    | fires e f ↦
        let kept : ScratchSigned r.core n (record s { commit_quorum = [] }) = record {
          prepare_votes = one.prepare_votes;
          commit_votes = one.commit_votes;
          prepares = one.prepares;
          commits = λ d z. AreSigned-nil n d [] refl;
          no_prepares = one.no_prepares;
          no_commits = λ z. refl;
        } in
        let g = put_scratch-Goes r n (record s { commit_quorum = [] }) kept w in
        Goes-trans g (Fed-Goes prim one.commits f g.signed)
  ]

module _ (P Q : ℕ → Digest → ℕ → Sig → Type 0)
    (weaker : (n : ℕ) (d : Digest) (i : ℕ) (s : Sig) → P n d i s → Q n d i s) where
  maybe_weaker :
      (n : ℕ) (d : Digest) (q : Option (Quorum Sig)) → MaybeSigned P n d q → MaybeSigned Q n d q
  maybe_weaker n d none f = tt
  maybe_weaker n d (some q) f = λ i s at. weaker n d i s (f i s at)

  votes_weaker : (n : ℕ) (votes : List Vote) → VotesSigned P n votes → VotesSigned Q n votes
  votes_weaker n [] f = tt
  votes_weaker n (v ∷ votes) (f, fs) =
      (weaker n v.digest v.replica_id v.sig f, votes_weaker n votes fs)

  -- What is signed stays so where more counts as signed.
  pub IsSigned-weaker : (r : Replica) → IsSigned P r → IsSigned Q r
  IsSigned-weaker r f = record {
    core_signed = λ n block at.
        let b = f.core_signed n block at in
        record {
          prepared = maybe_weaker n block.digest block.prepare_quorum b.prepared;
          committed = maybe_weaker n block.digest block.commit_quorum b.committed;
        };
    scratches = λ n s at.
        let b = f.scratches n s at in
        record {
          prepare_votes = votes_weaker n s.prepare_votes b.prepare_votes;
          commit_votes = votes_weaker n s.commit_votes b.commit_votes;
          prepares = λ d h i t at'. weaker n d i t (b.prepares d h i t at');
          commits = λ d h i t at'. weaker n d i t (b.commits d h i t at');
          no_prepares = b.no_prepares;
          no_commits = b.no_commits;
        };
    actions_fit = f.actions_fit;
  }
