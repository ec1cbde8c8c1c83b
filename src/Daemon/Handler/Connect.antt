-- ===== src/Daemon/Handler/Connect.antt =====
-- daemon/src/handler.rs: `handle_connect` up to the session, and `handle_request`.
pub mod Refused
use apfsds_rs.Base.{
  ℕ, String, ◌+◌, Bool, true, false, not, ◌&&◌, List, [], ◌∷◌, Option, none, some, Result, ok, err,
  and_then, take, drop, replicate, leb, ◌==◌, if◌then◌else◌,
}
use apfsds_rs.Base.Maps.{DashMap, bytes_eq}
use apfsds_rs.Crypto.Keys.{MlDsa}
use apfsds_rs.Daemon.Auth.{Wire, Authenticator, AuthError, verify_and_consume_token}
use apfsds_rs.Daemon.Auth
use apfsds_rs.Daemon.Config.{SecurityConfig}
use apfsds_rs.Daemon.Handler.{HttpResponse, fixed}
use apfsds_rs.Daemon.Handler.Token.{key_or}

abbrev pub to_ascii_lowercase : List ℕ → List ℕ
to_ascii_lowercase [] = []
to_ascii_lowercase (b ∷ bytes) =
    (if leb 65 b && leb b 90 then b + 32 else b) ∷ to_ascii_lowercase bytes

-- "websocket" and "Bearer ".
abbrev pub websocket : List ℕ
websocket = 119 ∷ 101 ∷ 98 ∷ 115 ∷ 111 ∷ 99 ∷ 107 ∷ 101 ∷ 116 ∷ []

abbrev pub bearer : List ℕ
bearer = 66 ∷ 101 ∷ 97 ∷ 114 ∷ 101 ∷ 114 ∷ 32 ∷ []

-- The two headers, as `to_str` gives them.
abbrev pub is_upgrade : Option (List ℕ) → Bool
is_upgrade none = false
is_upgrade (some value) = bytes_eq.beq (to_ascii_lowercase value) websocket

abbrev pub bearer_token : Option (List ℕ) → Option (List ℕ)
bearer_token none = none
bearer_token (some header) =
    if bytes_eq.beq (take 7 header) bearer then some (drop 7 header) else none

abbrev pub plain : ℕ → String → HttpResponse
plain status body = record { status = status; headers = []; content = fixed body }

abbrev pub switching : String → HttpResponse
switching accept = record {
  status = 101;
  headers =
      ("Upgrade", "websocket") ∷ ("Connection", "Upgrade") ∷ ("Sec-WebSocket-Accept", accept) ∷ [];
  content = fixed "";
}

-- The answer, with the user whose session starts where there is one; or an error.
pub data Connected : Type 0 where
  answered : HttpResponse → Connected
  started : ℕ → HttpResponse → Connected
  missing_server_secret_key : Connected
  no_authenticator : AuthError → Connected

module _ (m : MlDsa) (d : DashMap (List ℕ) ℕ) (w : Wire) (hex : List ℕ → Option (List ℕ)) where
  abbrev pub of_token : Result AuthError ℕ → Connected
  of_token (ok user_id) = started user_id (switching "auth-mock")
  of_token (err e) = answered (plain 401 "Unauthorized: Invalid token")

  -- Each request has an authenticator of its own.
  abbrev pub with_authenticator :
      Result AuthError (Authenticator m.KeyPair d.Map) → List ℕ → ℕ → ℕ → Connected
  with_authenticator (err e) token now t = no_authenticator e
  with_authenticator (ok a) token now t =
      of_token ((verify_and_consume_token m d w a token now t).1)

  abbrev pub with_server_sk : SecurityConfig → Option (List ℕ) → List ℕ → ℕ → ℕ → Connected
  with_server_sk config none token now t = missing_server_secret_key
  with_server_sk config (some server_sk) token now t =
      with_authenticator
        (Auth.new m d server_sk (key_or hex (replicate 32 43) config.hmac_secret) config.token_ttl)
        token now t

  abbrev pub with_token : SecurityConfig → Option (List ℕ) → ℕ → ℕ → Connected
  with_token config none now t =
      answered (plain 401 "Unauthorized: Missing or invalid Authorization header")
  with_token config (some token) now t =
      with_server_sk config (and_then config.server_sk hex) token now t

  -- `upgrade` and `authorization` are the headers; the clocks are those of the authenticator.
  unfoldable pub handle_connect :
      SecurityConfig → Option (List ℕ) → Option (List ℕ) → ℕ → ℕ → Connected
  unfolding verify_and_consume_token
  handle_connect config upgrade authorization now t =
      if is_upgrade upgrade
      then with_token config (bearer_token authorization) now t
      else answered (plain 400 "Expected WebSocket upgrade")

  -- What `handle_request` makes of it.
  unfoldable pub respond : Connected → HttpResponse
  respond (answered r) = r
  respond (started user_id r) = r
  respond missing_server_secret_key = plain 500 "Internal Server Error"
  respond (no_authenticator e) = plain 500 "Internal Server Error"
