-- ===== src/Daemon/Handler/Token.antt =====
-- daemon/src/handler.rs: `handle_retrieve_token`.
pub mod Requests
use apfsds_rs.Base.{
  ℕ, ◌+◌, ◌-◌, ◌*◌, ◌%◌, ◌^◌, Bool, true, false, not, List, [], ◌∷◌, Option, none, some, Result, ok,
  err, ◌>>=◌, ◌>>◌, ok_or, and_then, ensure, length, take, drop, replicate, ltb, ◌==◌,
  if◌then◌else◌,
}
use apfsds_rs.Base.Rkyv.{Rkyv}
use apfsds_rs.Base.Text.{is_utf8, split}
use apfsds_rs.Crypto.Aes.{AesGcm, Aes256GcmCipher, encrypt, decrypt}
use apfsds_rs.Crypto.Exchange.{Dh, from_secret, diffie_hellman}
use apfsds_rs.Crypto.Hmac.{HmacAuthenticator, verify_with_timestamp}
use apfsds_rs.Protocol.Auth.{AuthRequest, AuthResponse, TokenPayload}
use apfsds_rs.Daemon.Auth.{user_of}
use apfsds_rs.Daemon.ExitNode.{rkyv_from_bytes}
use apfsds_rs.Daemon.Config.{SecurityConfig}
use apfsds_rs.Daemon.Handler.{Content, HttpResponse, fixed, data_of, Metrics}

-- The texts of the failures.
pub data Failure : Type 0 where
  failed_to_read_body body_too_short decryption_failed invalid_auth_request : Failure
  hmac_verification_failed token_serialization_failed response_serialization_failed : Failure
  response_encryption_failed : Failure

abbrev pub or_failure : {E A : Type 0} → Failure → Result E A → Result Failure A
or_failure f (ok a) = ok a
or_failure f (err e) = err f

abbrev pub unwrap_or {ℓ} : {A : Type ℓ} → A → Option A → A
unwrap_or d none = d
unwrap_or d (some a) = a

-- `<[u8; 32]>::try_from(v).ok()`.
abbrev pub as_key : List ℕ → Option (List ℕ)
as_key bytes = if length bytes == 32 then some bytes else none

-- A setting in hexadecimal, or the default.
abbrev pub key_or : (List ℕ → Option (List ℕ)) → List ℕ → Option (List ℕ) → List ℕ
key_or hex default_ setting =
    unwrap_or default_ (and_then setting λ s. and_then (hex s) λ v. as_key v)

-- The user in front of the first `:`; user 0 where none can be read.
abbrev pub user_or_zero : List ℕ → ℕ
user_or_zero hmac_base =
    unwrap_or 0 (if is_utf8 hmac_base then user_of (split 58 hmac_base) else none)

-- The packages.
pub record Server : Type 1 where
  pub aes : AesGcm
  pub dh : Dh
  pub mac : List ℕ → List ℕ → List ℕ
  pub hex : List ℕ → Option (List ℕ)
  pub requests : Rkyv AuthRequest
  pub tokens : Rkyv TokenPayload
  pub responses : Rkyv AuthResponse

module _ (p : Server) (config : SecurityConfig) where
  abbrev pub server_secret : List ℕ
  server_secret = key_or p.hex (replicate 32 42) config.server_sk

  abbrev pub authenticator : HmacAuthenticator
  authenticator = record { secret = key_or p.hex (replicate 32 43) config.hmac_secret }

  unfoldable pub cipher_for : List ℕ → Aes256GcmCipher
  cipher_for client_pk = record {
    key = diffie_hellman p.dh (from_secret p.dh server_secret) client_pk;
  }

  unfoldable pub token_payload : AuthRequest → ℕ → TokenPayload
  token_payload auth_req now = record {
    user_id = user_or_zero auth_req.hmac_base;
    nonce = auth_req.nonce;
    issued_at = now;
    valid_until = (now + config.token_ttl * 1000) % 2 ^ 64;
  }

  -- From the decrypted request on.
  unfoldable pub issue : Aes256GcmCipher → AuthRequest → ℕ → List ℕ → Result Failure (List ℕ)
  unfolding token_payload
  issue cipher auth_req now nonce = do
    or_failure hmac_verification_failed (
        verify_with_timestamp p.mac authenticator auth_req.hmac_base auth_req.timestamp
          auth_req.hmac_signature)
    let payload : TokenPayload = token_payload auth_req now
    token_bytes ← or_failure token_serialization_failed (p.tokens.to_bytes payload)
    let response : AuthResponse = record {
      token = token_bytes;
      valid_until = payload.valid_until;
      warning = none;
    }
    response_bytes ← or_failure response_serialization_failed (p.responses.to_bytes response)
    or_failure response_encryption_failed (encrypt p.aes cipher nonce response_bytes)

  -- The block that computes `result`; `body` is `none` where it cannot be read.
  unfoldable pub token_result : Option (List ℕ) → ℕ → List ℕ → Result Failure (List ℕ)
  unfolding issue cipher_for
  token_result body now nonce = do
    bytes ← ok_or body failed_to_read_body
    ensure (not (ltb (length bytes) 32)) body_too_short
    let cipher = cipher_for (take 32 bytes)
    decrypted ← or_failure decryption_failed (decrypt p.aes cipher (drop 32 bytes))
    auth_req ← or_failure invalid_auth_request (rkyv_from_bytes p.requests decrypted)
    issue cipher auth_req now nonce

  -- What is awaited until 200 ms have passed, in nanoseconds.
  unfoldable pub rest_of_200_ms : ℕ → ℕ
  rest_of_200_ms elapsed =
      let target = 200 * 10 ^ 6 in if ltb elapsed target then target - elapsed else 0

  abbrev pub octets : ℕ → Content → HttpResponse
  octets status content = record {
    status = status;
    headers = ("Content-Type", "application/octet-stream") ∷ [];
    content = content;
  }

  unfoldable pub token_response : Metrics → Result Failure (List ℕ) → Metrics × HttpResponse
  token_response m (ok bytes) =
      (record m { auth_successes = m.auth_successes + 1 }, octets 200 (data_of bytes))
  token_response m (err f) =
      (record m { auth_failures = m.auth_failures + 1 }, octets 401 (fixed "Unauthorized"))

  -- `elapsed` is what the clock shows once `result` is there; the last part is the sleep.
  unfoldable pub handle_retrieve_token :
      Metrics → Option (List ℕ) → ℕ → List ℕ → ℕ → Metrics × HttpResponse × ℕ
  unfolding token_result rest_of_200_ms token_response
  handle_retrieve_token m body now nonce elapsed =
      let answer : Metrics × HttpResponse = token_response m (token_result body now nonce) in
      (answer.0, answer.1, rest_of_200_ms elapsed)
