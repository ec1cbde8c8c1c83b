-- ===== src/Daemon/Auth/Replays.antt =====
-- An accepted request is not accepted a second time.
use apfsds_rs.Base.{
  ℕ, ◌+◌, ◌*◌, ◌^◌, ◌≤◌, ◌<◌, ◌≡◌, ◌⊎◌, inl, inr, refl, ◌∙◌, true, List, [], ◌∷◌, ok, err, arith,
  All, ltb, Bool-cases,
}
use apfsds_rs.Base.Maps.{DashMap, bytes_eq}
use apfsds_rs.Base.Words.{i64_sub}
use apfsds_rs.Crypto.Keys.{MlDsa}
use apfsds_rs.Crypto.Replay.{check_and_insert}
use apfsds_rs.Crypto.Replay.Window.{check, clean, HeldAt, apply, apply-HeldAt, accepted-HeldAt}
use apfsds_rs.Protocol.Auth.{AuthRequest}
use apfsds_rs.Daemon.Auth.{
  Authenticator, invalid_timestamp, nonce_reused, from_secs, verify, cleanup,
}
use apfsds_rs.Daemon.Auth.Requests.{verify_keeps}

-- What may happen to an authenticator: a request at a wall time and a monotonic time, a cleanup.
pub data Call : Type 0 where
  request : AuthRequest → ℕ → ℕ → Call
  tidy : ℕ → Call

abbrev pub time_of : Call → ℕ
time_of (request auth now t) = t
time_of (tidy t) = t

module _ (m : MlDsa) (d : DashMap (List ℕ) ℕ) (mac : List ℕ → List ℕ → List ℕ) where
  unfoldable pub call : Authenticator m.KeyPair d.Map → Call → Authenticator m.KeyPair d.Map
  call a (request auth now t) = (verify m d mac a auth now t).0
  call a (tidy t) = cleanup m d a t

  unfoldable pub call_all :
      Authenticator m.KeyPair d.Map → List Call → Authenticator m.KeyPair d.Map
  call_all a [] = a
  call_all a (c ∷ cs) = call_all (call a c) cs

  -- A nonce that the cache holds up to `t`, and the settings of `new`.
  record Holds (a : Authenticator m.KeyPair d.Map) (nonce : List ℕ) (t : ℕ) : Type 0 where
    held : HeldAt d a.nonce_cache nonce t
    drift : a.max_drift_ms ≡ 30000

  verify_cache :
      (a : Authenticator m.KeyPair d.Map) (auth : AuthRequest) (now t : ℕ)
      → ((verify m d mac a auth now t).0.nonce_cache ≡ a.nonce_cache)
        ⊎ ((verify m d mac a auth now t).0.nonce_cache
            ≡ (check_and_insert d a.nonce_cache auth.nonce t).0)
  unfolding verify
  verify_cache a auth now t = ground arith

  call-Holds :
      (a : Authenticator m.KeyPair d.Map) (nonce : List ℕ) (t : ℕ) (c : Call)
      → time_of c ≤ t
      → Holds a nonce t
      → Holds (call a c) nonce t
  unfolding call cleanup apply
  call-Holds a nonce t (request auth now u) le h = record {
    held = elim (verify_cache a auth now u) [
      | inl same ↦ rw same h.held
      | inr checked ↦
          rw checked (apply-HeldAt d a.nonce_cache nonce t (check auth.nonce u) le h.held)
    ];
    drift = (verify_keeps m d mac a auth now u).0 ∙ h.drift;
  }
  call-Holds a nonce t (tidy u) le h = record {
    held = apply-HeldAt d a.nonce_cache nonce t (clean u) le h.held;
    drift = h.drift;
  }

  call_all-Holds :
      (a : Authenticator m.KeyPair d.Map) (nonce : List ℕ) (t : ℕ) (cs : List Call)
      → All (λ c. time_of c ≤ t) cs
      → Holds a nonce t
      → Holds (call_all a cs) nonce t
  unfolding call_all
  call_all-Holds a nonce t [] le h = h
  call_all-Holds a nonce t (c ∷ cs) (l, le) h =
      call_all-Holds (call a c) nonce t cs le (call-Holds a nonce t c l h)

  held_refused :
      (a : Authenticator m.KeyPair d.Map) (auth : AuthRequest) (now t : ℕ)
      → Holds a auth.nonce t
      → ((verify m d mac a auth now t).1 ≡ err nonce_reused)
        ⊎ ((verify m d mac a auth now t).1 ≡ err (invalid_timestamp (i64_sub now auth.timestamp)))
  unfolding verify check_and_insert
  held_refused a auth now t h = let (x, g, lt) = h.held in ground arith

  late_refused :
      (a : Authenticator m.KeyPair d.Map) (auth : AuthRequest) (now t : ℕ)
      → a.max_drift_ms ≡ 30000
      → now < 2 ^ 63
      → auth.timestamp + 30000 < now
      → (verify m d mac a auth now t).1 ≡ err (invalid_timestamp (i64_sub now auth.timestamp))
  unfolding verify
  late_refused a auth now t drift hi late = ground arith

  accepted :
      (a : Authenticator m.KeyPair d.Map) (auth : AuthRequest) (now t user : ℕ)
      → a.max_drift_ms ≡ 30000
      → a.nonce_cache.ttl ≡ from_secs 120
      → now < 2 ^ 63
      → auth.timestamp < 2 ^ 63
      → (verify m d mac a auth now t).1 ≡ ok user
      → (auth.timestamp ≤ now + 30000)
        × ((check_and_insert d a.nonce_cache auth.nonce t).1 ≡ true)
        × ((verify m d mac a auth now t).0.nonce_cache
            ≡ (check_and_insert d a.nonce_cache auth.nonce t).0)
  unfolding verify
  accepted a auth now t user drift ttl hn hs e = ground arith

  call_drift :
      (a : Authenticator m.KeyPair d.Map) (c : Call) → (call a c).max_drift_ms ≡ a.max_drift_ms
  unfolding call cleanup
  call_drift a (request auth now t) = (verify_keeps m d mac a auth now t).0
  call_drift a (tidy t) = refl

  call_all_drift :
      (a : Authenticator m.KeyPair d.Map) (cs : List Call)
      → (call_all a cs).max_drift_ms ≡ a.max_drift_ms
  unfolding call_all
  call_all_drift a [] = refl
  call_all_drift a (c ∷ cs) = call_all_drift (call a c) cs ∙ call_drift a c

  -- A request that was accepted is refused whenever it comes again, whatever requests and cleanups
  -- lie between: its nonce is still held, or its timestamp is out of range by then. The
  -- authenticator has the settings of `new`, all times are below 2 ^ 63, and the wall clock has
  -- advanced at least as far as the monotonic clock.
  pub verify-refuses_replay :
      (a : Authenticator m.KeyPair d.Map) (auth : AuthRequest) (now t later t' user : ℕ)
      (cs : List Call)
      → a.max_drift_ms ≡ 30000
      → a.nonce_cache.ttl ≡ from_secs 120
      → now < 2 ^ 63
      → later < 2 ^ 63
      → auth.timestamp < 2 ^ 63
      → All (λ c. time_of c ≤ t') cs
      → t' + now * 10 ^ 6 ≤ t + later * 10 ^ 6
      → (verify m d mac a auth now t).1 ≡ ok user
      → let a' = call_all (verify m d mac a auth now t).0 cs in
        ((verify m d mac a' auth later t').1 ≡ err nonce_reused)
        ⊎ ((verify m d mac a' auth later t').1
            ≡ err (invalid_timestamp (i64_sub later auth.timestamp)))
  verify-refuses_replay a auth now t later t' user cs drift ttl hn hl hs le clocks e =
      let first : Authenticator m.KeyPair d.Map = (verify m d mac a auth now t).0 in
      let (near, fresh, cache) = accepted a auth now t user drift ttl hn hs e in
      let drift1 : first.max_drift_ms ≡ 30000 = (verify_keeps m d mac a auth now t).0 ∙ drift in
      elim (Bool-cases (ltb t' (t + from_secs 120))) [
        | inl early ↦ held_refused (call_all first cs) auth later t' (
            call_all-Holds first auth.nonce t' cs le (record {
              held =
                  rw cache (accepted-HeldAt d a.nonce_cache auth.nonce t t' fresh (ground arith));
              drift = drift1;
            }))
        | inr late ↦ inr (
            late_refused (call_all first cs) auth later t' (call_all_drift first cs ∙ drift1) hl
              (ground arith))
      ]
