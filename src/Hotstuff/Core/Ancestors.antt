-- ===== src/Hotstuff/Core/Ancestors.antt =====
-- The walk from a node to its ancestors ends: a node is stored after its parent.
use bft_kit.Base.{
  ℕ, zero, suc, ◌+◌, ◌<◌, ◌≡◌, refl, ◌∙◌, ap, ◌⊎◌, inl, inr, Bool, true, false, not, none, some, [],
  ◌∷◌, length, leb, ◌==◌, if◌then◌else◌, done, assert, unwrap, >>=-eq-done, Bool-cases,
  Option-cases, arith,
}
use bft_kit.Base.Map.{Map, lookup, insert, contains, lookup-insert}
use bft_kit.Crypto.{Digest}
use bft_kit.Hotstuff.Message
use bft_kit.Hotstuff.Slab.{Slab, IsSlab}
use bft_kit.Hotstuff.Core.{
  ReplicaCoreConfig, Node, QuorumCert, ReplicaCore, node_at, new, ingest_cert, ingest, extends,
  fuel_of,
}
use bft_kit.Hotstuff.Core.Quiet.{done_eq}
use bft_kit.Pbft.Core.Phases.{done_pair}

length-insert_fresh :
    {V : Type 0} (k : ℕ) (v : V) (m : Map V)
    → lookup k m ≡ none
    → length (insert k v m) ≡ length m + 1
unfolding lookup insert
length-insert_fresh k v [] h = refl
length-insert_fresh k v ((j, w) ∷ m) h = ground (arith, length-insert_fresh k v m)

module _ (slab : Slab) where
  -- The parent of a node is a node. It stands before it, or the node is the first, with height 0.
  pub record HasParent (core : ReplicaCore slab) (rank : ℕ → ℕ) (key : ℕ) (node : Node)
      : Type 0 where
    pub below : rank key < length core.node_index
    pub parent : Node
    pub at : slab.get Node core.nodes node.content.parent ≡ some parent
    pub order : (node.content.height ≡ 0) ⊎ (rank node.content.parent < rank key)

  pub record Ranked (core : ReplicaCore slab) : Type 0 where
    pub rank : ℕ → ℕ
    pub indexed :
        (digest key : ℕ)
        → lookup digest core.node_index ≡ some key
        → (node : Node) × (slab.get Node core.nodes key ≡ some node)
    pub has_parent :
        (key : ℕ) (node : Node)
        → slab.get Node core.nodes key ≡ some node
        → HasParent core rank key node

  extends_ends :
      (fuel : ℕ) (core : ReplicaCore slab) (r : Ranked core) (a b : ℕ) (na nb : Node)
      → slab.get Node core.nodes a ≡ some na
      → slab.get Node core.nodes b ≡ some nb
      → r.rank a < fuel
      → (answer : Bool) × (extends slab fuel core a b ≡ done answer)
  unfolding extends node_at
  extends_ends zero core r a b na nb at bt lt = absurd (omega arith)
  extends_ends (suc fuel) core r a b na nb at bt lt = elim (Bool-cases (a == b)) [
    | inl same ↦ (true, ground arith)
    | inr other ↦ elim (Bool-cases (leb na.content.height nb.content.height)) [
      | inl low ↦ (false, ground arith)
      | inr high ↦
          let p = r.has_parent a na at in
          let lower : r.rank na.content.parent < fuel = ground (arith, p.order) in
          let (answer, runs) =
            extends_ends fuel core r na.content.parent b p.parent nb p.at bt lower in
          (answer, ground (arith, runs))
    ]
  ]

  -- On a core whose nodes are stored after their parents, `extends` comes to an answer for any two
  -- nodes of the core: the number of nodes is enough fuel for the walk.
  pub extends_enough :
      (core : ReplicaCore slab) (a b : ℕ) (na nb : Node)
      → Ranked core
      → slab.get Node core.nodes a ≡ some na
      → slab.get Node core.nodes b ≡ some nb
      → (answer : Bool) × (extends slab (fuel_of slab core) core a b ≡ done answer)
  extends_enough core a b na nb r at bt =
      extends_ends (fuel_of slab core) core r a b na nb at bt
        (omega (arith, (r.has_parent a na at).below))

  module _ (laws : IsSlab slab) where
    module _ (core : ReplicaCore slab) (digest : ℕ) (node : Node) where
      abbrev key : ℕ
      key = (slab.insert Node core.nodes node).1

      abbrev stored : ReplicaCore slab
      stored = record core {
        nodes = (slab.insert Node core.nodes node).0;
        node_index = insert digest key core.node_index;
      }

      key_vacant : slab.get Node core.nodes key ≡ none
      key_vacant =
          ap (λ k. slab.get Node core.nodes k) (laws.insert-vacant_key Node core.nodes node)
          ∙ laws.get-vacant_key Node core.nodes

      other_key : (k : ℕ) (n : Node) → slab.get Node core.nodes k ≡ some n → (key == k) ≡ false
      other_key k n at = elim (Bool-cases (key == k)) [
        | inl same ↦
            let same' : key ≡ k = ground arith in
            let none_there : slab.get Node core.nodes k ≡ none = rw same' at key_vacant in
            absurd (cc)
        | inr other ↦ other
      ]

      get_old :
          (k : ℕ) (n : Node)
          → slab.get Node core.nodes k ≡ some n
          → slab.get Node stored.nodes k ≡ some n
      get_old k n at =
          let other = other_key k n at in ground (arith, laws.get-insert Node core.nodes node k)

      abbrev rank_after : (ℕ → ℕ) → ℕ → ℕ
      rank_after rank k = if key == k then length core.node_index else rank k

      rank_after_old :
          (rank : ℕ → ℕ) (k : ℕ) (n : Node)
          → slab.get Node core.nodes k ≡ some n
          → rank_after rank k ≡ rank k
      rank_after_old rank k n at = let other = other_key k n at in ground arith

      lookup_stored :
          (r : Ranked core) (d k : ℕ)
          → lookup d stored.node_index ≡ some k
          → (n : Node) × (slab.get Node stored.nodes k ≡ some n)
      lookup_stored r d k found = elim (Bool-cases (digest == d)) [
        | inl same ↦
            let here : some key ≡ some k =
              ground (arith, lookup-insert digest d key core.node_index) in
            let here' : key ≡ k = cc in
            (node, ground (arith, here', laws.get-insert Node core.nodes node k))
        | inr other ↦
            let before : lookup d core.node_index ≡ some k =
              ground (arith, lookup-insert digest d key core.node_index) in
            let (n, at) = r.indexed d k before in (n, get_old k n at)
      ]

      stored-HasParent :
          (r : Ranked core) (parent_digest : ℕ)
          → lookup parent_digest core.node_index ≡ some node.content.parent
          → lookup digest core.node_index ≡ none
          → (k : ℕ) (n : Node) → slab.get Node stored.nodes k ≡ some n
          → HasParent stored (rank_after r.rank) k n
      stored-HasParent r parent_digest known fresh k n at =
          let longer = length-insert_fresh digest key core.node_index fresh in
          elim (Bool-cases (key == k)) [
            | inl same ↦
                let here : some node ≡ some n =
                  ground (arith, laws.get-insert Node core.nodes node k) in
                let here' : node ≡ n = cc in
                let (parent, found) = r.indexed parent_digest node.content.parent known in
                let p = r.has_parent node.content.parent parent found in
                let old = rank_after_old r.rank node.content.parent parent found in
                rw (← here') (record {
                  below = ground (arith, longer);
                  parent = parent;
                  at = get_old node.content.parent parent found;
                  order = inr (ground (arith, old, p.below));
                })
            | inr other ↦
                let before : slab.get Node core.nodes k ≡ some n =
                  ground (arith, laws.get-insert Node core.nodes node k) in
                let p = r.has_parent k n before in
                let old = rank_after_old r.rank n.content.parent p.parent p.at in
                let old' = rank_after_old r.rank k n before in
                record {
                  below = ground (arith, longer, p.below);
                  parent = p.parent;
                  at = get_old n.content.parent p.parent p.at;
                  order = ground (arith, p.order, old, old');
                }
          ]

      stored-Ranked :
          (parent_digest : ℕ)
          → Ranked core
          → lookup parent_digest core.node_index ≡ some node.content.parent
          → lookup digest core.node_index ≡ none
          → Ranked stored
      stored-Ranked parent_digest r known fresh = record {
        rank = rank_after r.rank;
        indexed = λ d k found. lookup_stored r d k found;
        has_parent = λ k n at. stored-HasParent r parent_digest known fresh k n at;
      }

    -- The genesis node, alone in a slab.
    module _ (genesis : Node) (height_zero : genesis.content.height ≡ 0)
        (own_parent : genesis.content.parent ≡ slab.vacant_key Node (slab.empty Node)) where
      abbrev alone : slab.Of Node
      alone = (slab.insert Node (slab.empty Node) genesis).0

      get-alone :
          (k : ℕ)
          → slab.get Node alone k
            ≡ (if slab.vacant_key Node (slab.empty Node) == k then some genesis else none)
      get-alone k = ground (
        arith,
        laws.get-insert Node (slab.empty Node) genesis k,
        laws.insert-vacant_key Node (slab.empty Node) genesis,
        laws.get-empty Node k,
      )

      get_genesis : slab.get Node alone genesis.content.parent ≡ some genesis
      get_genesis = ground (arith, own_parent, get-alone genesis.content.parent)

      only_genesis : (k : ℕ) (n : Node) → slab.get Node alone k ≡ some n → genesis ≡ n
      only_genesis k n at = elim (Bool-cases (slab.vacant_key Node (slab.empty Node) == k)) [
        | inl same ↦ let here : some genesis ≡ some n = ground (arith, get-alone k) in cc
        | inr other ↦ absurd (ground (arith, get-alone k))
      ]

      alone-Ranked :
          (core : ReplicaCore slab)
          → core.nodes ≡ alone
          → core.node_index ≡ (0, slab.vacant_key Node (slab.empty Node)) ∷ []
          → Ranked core
      unfolding lookup
      alone-Ranked core nodes index = record {
        rank = λ k. 0;
        indexed = λ d k found. elim (Bool-cases (0 == d)) [
          | inl same ↦
              let found' = rw index at found in
              let here : slab.vacant_key Node (slab.empty Node) ≡ k = ground arith in
              (genesis, rw nodes (rw (← here, ← own_parent) get_genesis))
          | inr other ↦ let found' = rw index at found in absurd (ground arith)
        ];
        has_parent = λ k n at.
            let same = only_genesis k n (rw nodes at at) in
            rw (← same) (record {
              below = rw index (omega arith);
              parent = genesis;
              at = rw nodes get_genesis;
              order = inl height_zero;
            });
      }

    -- The nodes of a new core stand after their parents.
    pub new-Ranked : (config : ReplicaCoreConfig) → Ranked (new slab config)
    unfolding new
    new-Ranked config =
        alone-Ranked
          (record {
            digest = 0;
            content = record {
              parent = slab.vacant_key Node (slab.empty Node);
              commands = [];
              justify = slab.vacant_key QuorumCert (slab.empty QuorumCert);
              height = 0;
            };
          })
          refl refl (new slab config) refl refl

    pub moved-Ranked :
        {core core' : ReplicaCore slab}
        → core'.nodes ≡ core.nodes
        → core'.node_index ≡ core.node_index
        → Ranked core
        → Ranked core'
    moved-Ranked nodes index r = record {
      rank = r.rank;
      indexed = λ d k found. rw nodes (r.indexed d k (rw index at found));
      has_parent = λ k n at.
          let p = r.has_parent k n (rw nodes at at) in
          record {
            below = rw index p.below;
            parent = p.parent;
            at = rw nodes p.at;
            order = p.order;
          };
    }

    ingest_cert_nodes :
        (core : ReplicaCore slab) (cert : Message.QuorumCert) (r : ReplicaCore slab × ℕ)
        → ingest_cert slab core cert ≡ done r
        → (r.0.nodes ≡ core.nodes) × (r.0.node_index ≡ core.node_index)
    unfolding ingest_cert
    ingest_cert_nodes core cert r h =
        elim (Option-cases (lookup cert.node core.quorum_cert_index)) [
          | inr (k, e) ↦ let same : (core, k) ≡ r = ground arith in rw (← same) (refl, refl)
          | inl e ↦
              let (node, e2, h2) =
                >>=-eq-done (unwrap (lookup cert.node core.node_index)) _
                  (rw (e, ingest_cert) at h) in
              let same = done_eq h2 in rw (← same) (refl, refl)
        ]

    -- To store a block keeps the nodes of the core after their parents.
    pub ingest-Ranked :
        (core : ReplicaCore slab) (block_digest : Digest) (block : Message.Block)
        {core' : ReplicaCore slab} {key : ℕ}
        → Ranked core
        → ingest slab core block_digest block ≡ done (core', key)
        → Ranked core'
    unfolding ingest
    ingest-Ranked core block_digest block r h =
        let (c, certs, h2) = >>=-eq-done (ingest_cert slab core block.justify) _ h in
        let (parent, e, h3) = >>=-eq-done (unwrap (lookup block.parent c.0.node_index)) _ h2 in
        let (u, fresh, h4) =
          >>=-eq-done (assert (not (contains block_digest c.0.node_index))) _ h3 in
        let (nodes, index) = ingest_cert_nodes core block.justify c certs in
        let node : Node = record {
          digest = block_digest;
          content = record {
            parent = parent;
            commands = block.commands;
            justify = c.1;
            height = block.height;
          };
        } in
        let kept = moved-Ranked nodes index r in
        rw (← (done_pair h4).0)
          (stored-Ranked c.0 block_digest node block.parent kept (ground arith) (ground arith))
