-- ===== src/Daemon/KeyRotation/Grace.antt =====
-- How long keys count.
use apfsds_rs.Base.{
  ℕ, ◌+◌, ◌≤◌, ◌<◌, ◌≡◌, refl, ap, true, List, [], ◌∷◌, Option, none, some, arith, All,
}
use apfsds_rs.Crypto.Ed25519.{
  Dalek, IsDalek, from_secret, secret_key, verify_with_pk, verify_with_pk-secret_key,
  verify_with_pk-sign_own,
}
use apfsds_rs.Crypto.Ed25519
use apfsds_rs.Daemon.KeyRotation.{KeyEntry, KeyManager, is_ok, sign, verify, rotate, cleanup}

module _ (p : Dalek) where
  -- Cleanups at these times.
  unfoldable pub cleanup_all : KeyManager p.SigningKey → List ℕ → KeyManager p.SigningKey
  cleanup_all m [] = m
  cleanup_all m (t ∷ ts) = cleanup_all (cleanup p m t) ts

  cleanup_early :
      (m : KeyManager p.SigningKey) (prev : KeyEntry p.SigningKey) (e t : ℕ)
      → m.previous ≡ some prev
      → prev.expires_at ≡ some e
      → t < e
      → cleanup p m t ≡ m
  unfolding cleanup
  cleanup_early m prev e t has expires early =
      ap (λ (o : Option (KeyEntry p.SigningKey)). record m { previous = o })
        (rw (has, expires) (ground arith))

  cleanup_all-early :
      (m : KeyManager p.SigningKey) (prev : KeyEntry p.SigningKey) (e : ℕ) (ts : List ℕ)
      → m.previous ≡ some prev
      → prev.expires_at ≡ some e
      → All (λ t. t < e) ts
      → cleanup_all m ts ≡ m
  unfolding cleanup_all
  cleanup_all-early m prev e [] has expires h = refl
  cleanup_all-early m prev e (t ∷ ts) has expires (early, h) =
      rw (cleanup_early m prev e t has expires early) (cleanup_all-early m prev e ts has expires h)

  module _ (law : IsDalek p) (m : KeyManager p.SigningKey) (generated : p.SigningKey)
      (now later : ℕ) where
    abbrev rotated : KeyManager p.SigningKey
    rotated = (rotate p m generated now later).0

    new_signature :
        (message : List ℕ) (t : ℕ)
        → verify p rotated message (Ed25519.sign p generated message) t ≡ true
    unfolding rotate verify
    new_signature message t = rw (verify_with_pk-sign_own p law generated message)

    old_signature :
        (message : List ℕ) (t : ℕ)
        → t < now + m.config.grace_period
        → verify p rotated message (sign p m message) t ≡ true
    unfolding rotate verify sign
    old_signature message t early =
        ground (arith, verify_with_pk-secret_key p law m.current.keypair message)

    -- After a rotation, through any cleanups before the grace period is over, what the old key
    -- signed verifies until then, and what the new key signs verifies at any time.
    pub verify-rotate :
        (message : List ℕ) (ts : List ℕ) (t u : ℕ)
        → All (λ t. t < now + m.config.grace_period) ts
        → t < now + m.config.grace_period
        → (verify p (cleanup_all (rotate p m generated now later).0 ts) message (sign p m message) t
            ≡ true)
          × (verify p
                (cleanup_all (rotate p m generated now later).0 ts)
                message
                (Ed25519.sign p generated message)
                u
              ≡ true)
    verify-rotate message ts t u h early =
        let same : cleanup_all rotated ts ≡ rotated =
          unfold rotate in
          cleanup_all-early rotated
            (record {
              keypair = from_secret p (secret_key p m.current.keypair);
              created_at = m.current.created_at;
              expires_at = some (now + m.config.grace_period);
            })
            (now + m.config.grace_period) ts refl refl h in
        rw same (old_signature message t early, new_signature message u)

  -- Once the grace period is over, with or without a cleanup, exactly the signatures of the new
  -- key verify, and after a cleanup no old key is left.
  pub verify-rotate_late :
      (m : KeyManager p.SigningKey) (generated : p.SigningKey) (now later : ℕ)
      (message signature : List ℕ) (t : ℕ)
      → now + m.config.grace_period ≤ t
      → let m' = (rotate p m generated now later).0 in
        let valid = is_ok (verify_with_pk p (Ed25519.public_key p generated) message signature) in
        (verify p m' message signature t ≡ valid)
        × (verify p (cleanup p m' t) message signature t ≡ valid)
        × ((cleanup p m' t).previous ≡ none)
  unfolding rotate verify cleanup
  verify-rotate_late m generated now later message signature t late =
      let valid = is_ok (verify_with_pk p (Ed25519.public_key p generated) message signature) in
      ground arith
