-- ===== src/Daemon/Handler/Token/Requests.antt =====
-- Who gets a token, and what every other request gets.
use apfsds_rs.Base.{
  ℕ, ◌+◌, ◌*◌, ◌^◌, ◌≤◌, max, ◌≡◌, ◌⊎◌, inl, inr, refl, ap, sym, ◌∙◌, false, not, List, ◌++◌, none,
  some, Result, ok, err, ok_injective, >>=_ok, ensure, length, length-append, take, drop,
  take-append, drop-append, arith, ltb,
}
use apfsds_rs.Base.Rkyv.{RoundTrips}
use apfsds_rs.Crypto.Aes.{Aes256GcmCipher, encrypt, decrypt, Opens, decrypt-encrypt}
use apfsds_rs.Crypto.Exchange.{Agrees, from_secret, public_key, diffie_hellman}
use apfsds_rs.Crypto.Hmac.{verify_with_timestamp}
use apfsds_rs.Protocol.Auth.{AuthRequest, AuthResponse}
use apfsds_rs.Daemon.ExitNode.{rkyv_from_bytes}
use apfsds_rs.Daemon.Config.{SecurityConfig}
use apfsds_rs.Daemon.Handler.{HttpResponse, fixed, Metrics}
use apfsds_rs.Daemon.Handler.Token.{
  Server, Failure, body_too_short, decryption_failed, invalid_auth_request, token_response,
  hmac_verification_failed, or_failure, server_secret, authenticator, cipher_for, token_payload,
  issue, token_result, octets, rest_of_200_ms, handle_retrieve_token,
}

module _ (p : Server) (config : SecurityConfig) where
  -- What a client makes of its secret, to talk to the server.
  abbrev pub client_cipher : List ℕ → Aes256GcmCipher
  client_cipher secret = record {
    key =
        diffie_hellman p.dh (from_secret p.dh secret)
          (public_key p.dh (from_secret p.dh (server_secret p config)));
  }

  abbrev cipher_of : List ℕ → Aes256GcmCipher
  cipher_of key = record { key = key }

  same_cipher :
      (secret : List ℕ)
      → Agrees p.dh
      → client_cipher secret ≡ cipher_for p config (public_key p.dh (from_secret p.dh secret))
  unfolding cipher_for diffie_hellman from_secret public_key
  same_cipher secret agrees = ap cipher_of (agrees secret (server_secret p config))

  abbrev pub response_of : List ℕ → AuthRequest → ℕ → AuthResponse
  response_of token_bytes a now = record {
    token = token_bytes;
    valid_until = (token_payload p config a now).valid_until;
    warning = none;
  }

  abbrev pub IsSigned : AuthRequest → Type 0
  IsSigned a =
      verify_with_timestamp p.mac (authenticator p config) a.hmac_base a.timestamp a.hmac_signature
      ≡ ok tt

  issue_form :
      (c : Aes256GcmCipher) (a : AuthRequest) (now : ℕ) (nonce tb rb sealed : List ℕ)
      → IsSigned a
      → p.tokens.to_bytes (token_payload p config a now) ≡ ok tb
      → p.responses.to_bytes (response_of tb a now) ≡ ok rb
      → encrypt p.aes c nonce rb ≡ ok sealed
      → issue p config c a now nonce ≡ ok sealed
  unfolding issue
  issue_form c a now nonce tb rb sealed signed t r e = rw (signed, t, r, e) refl

  token_result_form :
      (pk wire plain : List ℕ) (a : AuthRequest) (now : ℕ) (nonce : List ℕ)
      → length pk ≡ 32
      → decrypt p.aes (cipher_for p config pk) wire ≡ ok plain
      → rkyv_from_bytes p.requests plain ≡ ok a
      → token_result p config (some (pk ++ wire)) now nonce
        ≡ issue p config (cipher_for p config pk) a now nonce
  unfolding token_result
  token_result_form pk wire plain a now nonce size opened read =
      let long : ltb (length (pk ++ wire)) 32 ≡ false = ground (arith, length-append pk wire) in
      rw (long, take-append 32 pk wire (sym size), drop-append 32 pk wire (sym size), opened, read)
        refl

  -- A client that knows the server's public key sends its own, 32 bytes long, with its request,
  -- encrypted under the secret they share. Where the request's HMAC verifies, and the token and the
  -- response serialise, the server answers with a text that the client opens under the same secret,
  -- and that holds a token for the user and the nonce of the request.
  pub token_result-request :
      (secret : List ℕ) (a : AuthRequest) (now : ℕ) (n₁ n₂ plain wire tb rb sealed : List ℕ)
      → Agrees p.dh
      → Opens p.aes
      → RoundTrips p.requests
      → RoundTrips p.responses
      → RoundTrips p.tokens
      → length (public_key p.dh (from_secret p.dh secret)) ≡ 32
      → length n₁ ≡ 12
      → length n₂ ≡ 12
      → IsSigned a
      → p.requests.to_bytes a ≡ ok plain
      → encrypt p.aes (client_cipher secret) n₁ plain ≡ ok wire
      → p.tokens.to_bytes (token_payload p config a now) ≡ ok tb
      → p.responses.to_bytes (response_of tb a now) ≡ ok rb
      → encrypt p.aes (client_cipher secret) n₂ rb ≡ ok sealed
      → (token_result p config (some (public_key p.dh (from_secret p.dh secret) ++ wire)) now n₂
          ≡ ok sealed)
        × (decrypt p.aes (client_cipher secret) sealed ≡ ok rb)
        × (rkyv_from_bytes p.responses rb ≡ ok (response_of tb a now))
        × (rkyv_from_bytes p.tokens tb ≡ ok (token_payload p config a now))
  token_result-request secret a now n₁ n₂ plain wire tb rb sealed agrees opens back_a back_r back_t
        size s₁ s₂ signed written sent t r answered =
      let pk : List ℕ = public_key p.dh (from_secret p.dh secret) in
      let same : client_cipher secret ≡ cipher_for p config pk = same_cipher secret agrees in
      (
        token_result_form pk wire plain a now n₂ size
              (ap (λ (c : Aes256GcmCipher). decrypt p.aes c wire) (sym same)
                ∙ (decrypt-encrypt p.aes (client_cipher secret) n₁ plain wire opens s₁ sent).0)
              (back_a a plain written)
            ∙ issue_form (cipher_for p config pk) a now n₂ tb rb sealed signed t r
                (ap (λ (c : Aes256GcmCipher). encrypt p.aes c n₂ rb) (sym same) ∙ answered),
        (decrypt-encrypt p.aes (client_cipher secret) n₂ rb sealed opens s₂ answered).0,
        back_r (response_of tb a now) rb r,
        back_t (token_payload p config a now) tb t,
      )

  -- A request that opens under the secret shared with its first 32 bytes, and whose HMAC verifies.
  abbrev pub IsGenuine : List ℕ → Type 0
  IsGenuine bytes =
      (plain : List ℕ) × (a : AuthRequest) × (32 ≤ length bytes)
      × (decrypt p.aes (cipher_for p config (take 32 bytes)) (drop 32 bytes) ≡ ok plain)
      × (rkyv_from_bytes p.requests plain ≡ ok a)
      × IsSigned a

  or_failure_ok :
      {E A : Type 0} (f : Failure) (m : Result E A) (a : A) → or_failure f m ≡ ok a → m ≡ ok a
  or_failure_ok f (ok x) a e = ap ok (ok_injective x a e)
  or_failure_ok f (err x) a e = absurd (cc)

  ensure_long : (n : ℕ) (u : Unit {0}) → ensure (not (ltb n 32)) body_too_short ≡ ok u → 32 ≤ n
  ensure_long n u e = ground arith

  token_result-IsGenuine :
      (bytes sealed nonce : List ℕ) (now : ℕ)
      → token_result p config (some bytes) now nonce ≡ ok sealed
      → IsGenuine bytes
  unfolding token_result issue
  token_result-IsGenuine bytes sealed nonce now e =
      let (u, long, r₁) = >>=_ok (ensure (not (ltb (length bytes) 32)) body_too_short) _ sealed e in
      let (plain, opened, r₂) =
        >>=_ok
          (or_failure decryption_failed
            (decrypt p.aes (cipher_for p config (take 32 bytes)) (drop 32 bytes)))
          _ sealed r₁ in
      let (a, read, r₃) =
        >>=_ok (or_failure invalid_auth_request (rkyv_from_bytes p.requests plain)) _ sealed r₂ in
      let (v, signed, r₄) =
        >>=_ok
          (or_failure hmac_verification_failed (
            verify_with_timestamp p.mac (authenticator p config) a.hmac_base a.timestamp
              a.hmac_signature))
          _ sealed r₃ in
      (
        plain,
        a,
        ensure_long (length bytes) u long,
        or_failure_ok decryption_failed _ plain opened,
        or_failure_ok invalid_auth_request _ a read,
        or_failure_ok hmac_verification_failed _ v signed,
      )

  -- Every request, whatever it holds, is answered after the same time, 200 ms or what the work took
  -- if that was longer. It either is genuine, or gets the one answer 401 that tells no reason; no
  -- other answer with an error exists.
  pub handle_retrieve_token-IsGenuine :
      (m : Metrics) (bytes nonce : List ℕ) (now elapsed : ℕ)
      → let r : Metrics × HttpResponse × ℕ =
          handle_retrieve_token p config m (some bytes) now nonce elapsed in
        (elapsed + r.2 ≡ max elapsed (200 * 10 ^ 6))
        × ((IsGenuine bytes × (r.1.status ≡ 200) × (r.0.auth_failures ≡ m.auth_failures))
            ⊎ ((r.1 ≡ octets p config 401 (fixed "Unauthorized"))
                × (r.0.auth_failures ≡ m.auth_failures + 1)
                × (r.0.auth_successes ≡ m.auth_successes)))
  unfolding handle_retrieve_token rest_of_200_ms token_response
  handle_retrieve_token-IsGenuine m bytes nonce now elapsed =
      (ground arith, by_result (token_result p config (some bytes) now nonce) refl)
    where
      by_result :
          (t : Result Failure (List ℕ))
          → token_result p config (some bytes) now nonce ≡ t
          → let r : Metrics × HttpResponse = token_response p config m t in
            (IsGenuine bytes × (r.1.status ≡ 200) × (r.0.auth_failures ≡ m.auth_failures))
            ⊎ ((r.1 ≡ octets p config 401 (fixed "Unauthorized"))
                × (r.0.auth_failures ≡ m.auth_failures + 1)
                × (r.0.auth_successes ≡ m.auth_successes))
      by_result (ok sealed) e = inl (token_result-IsGenuine bytes sealed nonce now e, refl, refl)
      by_result (err f) e = inr (refl, refl, refl)
