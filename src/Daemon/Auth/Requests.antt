-- ===== src/Daemon/Auth/Requests.antt =====
-- Which authentication requests `verify` accepts.
use apfsds_rs.Base.{
  ℕ, ◌+◌, ◌^◌, ◌≤◌, ◌<◌, ◌≡◌, ◌⊎◌, inl, ◌↔◌, refl, false, List, ◌++◌, Result, ok, err, ◌>>◌, arith,
  length,
}
use apfsds_rs.Base.Maps.{DashMap, bytes_eq}
use apfsds_rs.Base.Words.{IsU64, to_le_bytes}
use apfsds_rs.Crypto.Hmac.Binding.{verify_iff}
use apfsds_rs.Crypto.Hmac.{verify_with_timestamp}
use apfsds_rs.Crypto.Keys.{MlDsa}
use apfsds_rs.Crypto.Replay.{contains, check_and_insert}
use apfsds_rs.Protocol.Auth.{AuthRequest}
use apfsds_rs.Protocol.Validation.Accepts.{Near}
use apfsds_rs.Daemon.Auth.{Authenticator, AuthError, invalid_hmac, map_err, extract_user_id, verify}

then_ok :
    {E : Type 0} (f : E → AuthError) (r : Result E (Unit {0})) (s : Result AuthError ℕ) (user : ℕ)
    → ((map_err f r >> s) ≡ ok user) ↔ ((r ≡ ok tt) × (s ≡ ok user))
then_ok f (ok tt) s user = (λ e. (refl, e), λ h. h.1)
then_ok f (err x) s user = (λ e. absurd (cc), λ h. absurd (cc))

module _ (m : MlDsa) (d : DashMap (List ℕ) ℕ) (mac : List ℕ → List ℕ → List ℕ) where
  -- The request's time is near the clock, or exactly 2 ^ 63 ms ahead of it.
  abbrev pub Timely : ℕ → ℕ → Type 0
  Timely now timestamp = Near now timestamp ⊎ (timestamp ≡ now + 2 ^ 63)

  verify_form :
      (a : Authenticator m.KeyPair d.Map) (auth : AuthRequest) (now t user : ℕ)
      → a.max_drift_ms ≡ 30000
      → 30000 ≤ now
      → now < 2 ^ 63
      → IsU64 auth.timestamp
      → ((verify m d mac a auth now t).1 ≡ ok user) ↔ (
          Timely now auth.timestamp
          × (contains d a.nonce_cache auth.nonce t ≡ false)
          × (verify_with_timestamp mac a.hmac auth.hmac_base auth.timestamp auth.hmac_signature
              ≡ ok tt)
          × (extract_user_id auth.hmac_base ≡ ok user))
  unfolding verify contains check_and_insert
  verify_form a auth now t user drift lo hi h = ground (
    arith,
    then_ok (λ _. invalid_hmac)
        (verify_with_timestamp mac a.hmac auth.hmac_base auth.timestamp auth.hmac_signature)
        (extract_user_id auth.hmac_base) user,
  )

  -- A call leaves the settings as they are.
  pub verify_keeps :
      (a : Authenticator m.KeyPair d.Map) (auth : AuthRequest) (now t : ℕ)
      → let a' = (verify m d mac a auth now t).0 in
        (a'.max_drift_ms ≡ a.max_drift_ms) × (a'.hmac ≡ a.hmac)
  unfolding verify
  verify_keeps a auth now t = ground arith

  -- A request is accepted, as the user that its HMAC base names, exactly when its timestamp is
  -- within 30 seconds of the clock (or exactly 2 ^ 63 ms ahead), its nonce is not in the cache,
  -- and its signature is the MAC of the base and the timestamp. The authenticator allows a drift
  -- of 30 seconds, the clock stands past 30 seconds and below 2 ^ 63, digests have 32 bytes.
  pub verify-accepts :
      (digest : (k b : List ℕ) → length (mac k b) ≡ 32) (a : Authenticator m.KeyPair d.Map)
      (auth : AuthRequest) (now t user : ℕ)
      → a.max_drift_ms ≡ 30000
      → 30000 ≤ now
      → now < 2 ^ 63
      → IsU64 auth.timestamp
      → length auth.hmac_signature ≡ 32
      → ((verify m d mac a auth now t).1 ≡ ok user) ↔ (
          Timely now auth.timestamp
          × (contains d a.nonce_cache auth.nonce t ≡ false)
          × (auth.hmac_signature
              ≡ mac a.hmac.secret (auth.hmac_base ++ to_le_bytes 8 auth.timestamp))
          × (extract_user_id auth.hmac_base ≡ ok user))
  verify-accepts digest a auth now t user drift lo hi h len = ground (
    arith,
    verify_form a auth now t user drift lo hi h,
    verify_iff mac digest a.hmac auth.hmac_base auth.hmac_signature auth.timestamp len,
  )

  -- The nonce is under no signature: once a request was accepted, the same request under any nonce
  -- that the cache does not hold is accepted again, as the same user, for as long as its timestamp
  -- is near the clock.
  pub verify-accepts_renamed :
      (a : Authenticator m.KeyPair d.Map) (auth : AuthRequest) (now t user : ℕ) (other : List ℕ)
      (later t' : ℕ)
      → a.max_drift_ms ≡ 30000
      → 30000 ≤ now
      → now < 2 ^ 63
      → 30000 ≤ later
      → later < 2 ^ 63
      → IsU64 auth.timestamp
      → (verify m d mac a auth now t).1 ≡ ok user
      → Near later auth.timestamp
      → contains d ((verify m d mac a auth now t).0.nonce_cache) other t' ≡ false
      → (verify m d mac (verify m d mac a auth now t).0 (record auth { nonce = other }) later t').1
        ≡ ok user
  verify-accepts_renamed a auth now t user other later t' drift lo hi lo' hi' h e near fresh =
      let a' : Authenticator m.KeyPair d.Map = (verify m d mac a auth now t).0 in
      let (timely, unseen, tag, named) = (verify_form a auth now t user drift lo hi h).0 e in
      let (same_drift, same_key) = verify_keeps a auth now t in
      (verify_form a' (record auth { nonce = other }) later t' user (ground arith) lo' hi' h).1
        (inl near, fresh, rw same_key tag, named)
