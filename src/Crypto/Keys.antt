-- ===== src/Crypto/Keys.antt =====
-- The keys that `ReplicaConfig::new` hands to each replica fit one another.
use bft_kit.Base.{
  ℕ, zero, suc, ◌+◌, ◌<◌, ◌≡◌, refl, ◌∙◌, ap, true, some, List, [], ◌∷◌, length, get_elem?, done,
  >>=-eq-done, unwrap, arith,
}
use bft_kit.Base.Lists.Indexing.{get-lt-length}
use bft_kit.Crypto.{
  Primitives, IsSound, SecretKey, PublicKey, ReplicaConfig, sign, verify, public_key,
  replica_secret_key, replica_secret_keys, public_keys_of, replica_config,
}

module _ (prim : Primitives) where
  -- A signature verifies under its signer's public key.
  verify-sign :
      IsSound prim
      → (m : List ℕ) (k : SecretKey) → verify prim m (public_key prim k) (sign prim m k) ≡ true
  unfolding verify sign public_key
  verify-sign sound m (SecretKey.secp256k1 k) = sound.secp_sound _ k
  verify-sign sound m (SecretKey.ed25519 k) = sound.ed_sound m k

  get-public_keys_of :
      (keys : List SecretKey) (i : ℕ) {k : SecretKey}
      → get_elem? keys i ≡ some k
      → get_elem? (public_keys_of prim keys) i ≡ some (public_key prim k)
  unfolding public_keys_of
  get-public_keys_of [] i h = cc
  get-public_keys_of (k ∷ keys) zero h = ground arith
  get-public_keys_of (k ∷ keys) (suc i) h = get-public_keys_of keys i h

  length-public_keys_of : (keys : List SecretKey) → length (public_keys_of prim keys) ≡ length keys
  unfolding public_keys_of
  length-public_keys_of [] = refl
  length-public_keys_of (k ∷ keys) = ap suc (length-public_keys_of keys)

  length-secret_keys :
      (n i : ℕ) {keys : List SecretKey} → replica_secret_keys prim n i ≡ done keys → length keys ≡ n
  unfolding replica_secret_keys
  length-secret_keys zero i h = ground arith
  length-secret_keys (suc n) i h =
      let (k, e, h') = >>=-eq-done (replica_secret_key prim i) _ h in
      let (ks, e', h'') = >>=-eq-done (replica_secret_keys prim n (i + 1)) _ h' in
      ground (arith, length-secret_keys n (i + 1) e')

  -- Two replicas of one system: what the first signs, the second verifies under the key that it
  -- holds for the first. Each holds a key for every replica, and its own identifier is among them.
  pub replica_config_fits :
      (i j n : ℕ) {a b : ReplicaConfig} (m : List ℕ)
      → IsSound prim
      → replica_config prim i n ≡ done a
      → replica_config prim j n ≡ done b
      → (i < n)
        × (length b.public_keys ≡ n)
        × ((k : PublicKey) × (get_elem? b.public_keys i ≡ some k)
            × (verify prim m k (sign prim m a.secret_key) ≡ true))
  unfolding replica_config
  replica_config_fits i j n {a} {b} m sound ea eb =
      let (keys, e, ea') = >>=-eq-done (replica_secret_keys prim n 0) _ ea in
      let (keys', e', eb') = >>=-eq-done (replica_secret_keys prim n 0) _ eb in
      let same : keys ≡ keys' = cc in
      let (key, f, ea'') = >>=-eq-done (unwrap (get_elem? keys i)) _ ea' in
      let (key', f', eb'') = >>=-eq-done (unwrap (get_elem? keys' j)) _ eb' in
      let at : get_elem? keys i ≡ some key = ground arith in
      let pa : a.secret_key ≡ key = cc in
      let pb : b.public_keys ≡ public_keys_of prim keys = cc in
      (
        omega (arith, get-lt-length keys i at, length-secret_keys n 0 e),
        ap length pb ∙ length-public_keys_of keys ∙ length-secret_keys n 0 e,
        (
          public_key prim key,
          ap (λ l. get_elem? l i) pb ∙ get-public_keys_of keys i at,
          rw pa (verify-sign sound m key),
        ),
      )

  -- All replicas of a system hold the same keys, one for each of them.
  pub public_keys-same :
      (i j n : ℕ) {a b : ReplicaConfig}
      → replica_config prim i n ≡ done a
      → replica_config prim j n ≡ done b
      → (j < n) × (length b.public_keys ≡ n) × (b.public_keys ≡ a.public_keys)
  unfolding replica_config
  public_keys-same i j n {a} {b} ea eb =
      let (keys, e, ea') = >>=-eq-done (replica_secret_keys prim n 0) _ ea in
      let (keys', e', eb') = >>=-eq-done (replica_secret_keys prim n 0) _ eb in
      let same : keys ≡ keys' = cc in
      let (key, f, ea'') = >>=-eq-done (unwrap (get_elem? keys i)) _ ea' in
      let (key', f', eb'') = >>=-eq-done (unwrap (get_elem? keys' j)) _ eb' in
      let at : get_elem? keys' j ≡ some key' = ground arith in
      let pa : a.public_keys ≡ public_keys_of prim keys = cc in
      let pb : b.public_keys ≡ public_keys_of prim keys' = cc in
      (
        omega (arith, get-lt-length keys' j at, length-secret_keys n 0 e'),
        ap length pb ∙ length-public_keys_of keys' ∙ length-secret_keys n 0 e',
        cc,
      )
