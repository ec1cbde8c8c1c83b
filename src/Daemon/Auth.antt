-- ===== src/Daemon/Auth.antt =====
-- daemon/src/auth.rs. The packages (`hmac`, `ml-dsa`, `base64`, `rkyv`, `dashmap`) are arguments, and
-- so are the clocks: `now` is the wall clock in milliseconds, `t` the monotonic clock of the
-- caches in nanoseconds. An `i64` is its bit pattern.
pub mod Requests
pub mod Replays
pub mod Tokens
use apfsds_rs.Base.{
  ℕ, ◌+◌, ◌-◌, ◌*◌, ◌%◌, ◌^◌, ◌≡◌, Bool, true, false, not, List, [], ◌∷◌, ◌++◌, Option, none, some,
  Result, ok, err, ◌>>=◌, ◌>>◌, ok_or, and_then, length, take, drop, ltb, ensure, if◌then◌else◌,
}
use apfsds_rs.Base.Maps.{DashMap, bytes_eq}
use apfsds_rs.Base.Text.{is_utf8, split, parse_u64}
use apfsds_rs.Base.Words.{i64_sub, i64_abs, i64_gt}
use apfsds_rs.Crypto.Hmac.{HmacAuthenticator, verify_with_timestamp}
use apfsds_rs.Crypto.Keys.{MlDsa, KeyError, from_secret, sign, verify_with_pk}
use apfsds_rs.Crypto.Keys
use apfsds_rs.Crypto.Replay.{ReplayCache, check_and_insert}
use apfsds_rs.Crypto.Replay
use apfsds_rs.Protocol.Auth.{AuthRequest, TokenPayload}

abbrev pub mldsa65_signature_size : ℕ
mldsa65_signature_size = 3293

-- The text of an error: that of a key error, or the one of `rkyv`.
pub data CryptoText : Type 0 where
  key_says : KeyError → CryptoText
  rkyv_says : List ℕ → CryptoText

pub data AuthError : Type 0 where
  invalid_timestamp : ℕ → AuthError
  nonce_reused invalid_hmac token_expired token_already_used invalid_signature : AuthError
  crypto_error : CryptoText → AuthError

pub record Authenticator (KeyPair Map : Type 0) : Type 0 where
  pub keypair : KeyPair
  pub hmac : HmacAuthenticator
  pub nonce_cache : ReplayCache Map
  pub token_cache : ReplayCache Map
  pub max_drift_ms : ℕ
  pub token_ttl_ms : ℕ

-- `base64` with the standard alphabet, and what rkyv generates for `TokenPayload`.
pub record Wire : Type 1 where
  pub base64_encode : List ℕ → List ℕ
  pub base64_decode : List ℕ → Option (List ℕ)
  pub Archived : Type 0
  pub to_bytes : TokenPayload → Result (List ℕ) (List ℕ)
  pub access : List ℕ → Result (List ℕ) Archived
  pub user_id : Archived → ℕ
  pub nonce : Archived → List ℕ
  pub valid_until : Archived → ℕ

abbrev pub map_err : {E A : Type 0} → (E → AuthError) → Result E A → Result AuthError A
map_err f (ok a) = ok a
map_err f (err e) = err (f e)

-- `Duration::from_secs`.
abbrev pub from_secs : ℕ → ℕ
from_secs secs = secs * 10 ^ 9

-- The parts of "user_id:timestamp:random".
abbrev pub user_of : List (List ℕ) → Option ℕ
user_of [] = none
user_of (part ∷ parts) = parse_u64 part

unfoldable pub extract_user_id : List ℕ → Result AuthError ℕ
extract_user_id hmac_base =
    if is_utf8 hmac_base
    then ok_or (user_of (split 58 hmac_base)) invalid_hmac
    else err invalid_hmac

module _ (m : MlDsa) (d : DashMap (List ℕ) ℕ) where
  unfoldable pub new : List ℕ → List ℕ → ℕ → Result AuthError (Authenticator m.KeyPair d.Map)
  new server_sk hmac_secret token_ttl_secs =
      map_err (λ e. crypto_error (key_says e)) (from_secret m server_sk) >>= λ keypair. ok (record {
        keypair = keypair;
        hmac = record { secret = hmac_secret };
        nonce_cache = Replay.new d (from_secs 120);
        token_cache = Replay.new d (from_secs ((token_ttl_secs + 60) % 2 ^ 64));
        max_drift_ms = 30000;
        token_ttl_ms = token_ttl_secs * 1000 % 2 ^ 64;
      })

  unfoldable pub public_key : Authenticator m.KeyPair d.Map → List ℕ
  public_key a = Keys.public_key m a.keypair

  -- `verify`, with the HMAC's `mac`.
  unfoldable pub verify :
      (List ℕ → List ℕ → List ℕ)
      → Authenticator m.KeyPair d.Map
      → AuthRequest
      → ℕ
      → ℕ
      → Authenticator m.KeyPair d.Map × Result AuthError ℕ
  verify mac a auth now t =
      let drift = i64_sub now auth.timestamp in
      let checked = check_and_insert d a.nonce_cache auth.nonce t in
      let a' : Authenticator m.KeyPair d.Map = record a { nonce_cache = checked.0 } in
      if i64_gt (i64_abs drift) a.max_drift_ms
      then (a, err (invalid_timestamp drift))
      else (if not checked.1 then (a', err nonce_reused) else (
        a',
        map_err (λ _. invalid_hmac)
              (verify_with_timestamp mac a.hmac auth.hmac_base auth.timestamp auth.hmac_signature)
            >> extract_user_id auth.hmac_base,
      ))

  -- `none` is the panic where the payload does not serialise.
  unfoldable pub generate_token :
      Wire → Authenticator m.KeyPair d.Map → ℕ → List ℕ → ℕ → Option (List ℕ)
  generate_token w a user_id nonce now =
      let payload : TokenPayload = record {
        user_id = user_id;
        nonce = nonce;
        issued_at = now;
        valid_until = (now + a.token_ttl_ms) % 2 ^ 64;
      } in
      elim (w.to_bytes payload) [
        | err e ↦ none
        | ok bytes ↦ some (w.base64_encode (bytes ++ sign m a.keypair bytes))
      ]

  -- What follows the signature check.
  unfoldable pub consume_token :
      (w : Wire)
      → Authenticator m.KeyPair d.Map
      → w.Archived
      → ℕ
      → ℕ
      → Authenticator m.KeyPair d.Map × Result AuthError ℕ
  consume_token w a archived now t =
      let checked = check_and_insert d a.token_cache (take 16 (w.nonce archived)) t in
      let a' : Authenticator m.KeyPair d.Map = record a { token_cache = checked.0 } in
      if ltb (w.valid_until archived) now
      then (a, err token_expired)
      else (if not checked.1 then (a', err token_already_used) else (a', ok (w.user_id archived)))

  -- The archived payload, if the token is signed.
  unfoldable pub open_token :
      (w : Wire) → Authenticator m.KeyPair d.Map → List ℕ → Result AuthError w.Archived
  open_token w a token = do
    decoded ← ok_or (w.base64_decode token) invalid_signature
    ensure (not (ltb (length decoded) mldsa65_signature_size)) invalid_signature
    let middle = length decoded - mldsa65_signature_size
    let payload_bytes = take middle decoded
    let signature = drop middle decoded
    map_err (λ _. invalid_signature) (verify_with_pk m (public_key a) payload_bytes signature)
    map_err (λ e. crypto_error (rkyv_says e)) (w.access payload_bytes)

  unfoldable pub verify_and_consume_token :
      Wire
      → Authenticator m.KeyPair d.Map
      → List ℕ
      → ℕ
      → ℕ
      → Authenticator m.KeyPair d.Map × Result AuthError ℕ
  verify_and_consume_token w a token now t = elim (open_token w a token) [
    | err e ↦ (a, err e)
    | ok archived ↦ consume_token w a archived now t
  ]

  unfoldable pub cleanup : Authenticator m.KeyPair d.Map → ℕ → Authenticator m.KeyPair d.Map
  cleanup a t = record a {
    nonce_cache = Replay.cleanup d a.nonce_cache t;
    token_cache = Replay.cleanup d a.token_cache t;
  }
