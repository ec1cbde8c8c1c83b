-- ===== src/Daemon/Handler/Connect/Refused.antt =====
-- No client gets a session.
use apfsds_rs.Base.{
  ◌⊎◌, if◌then◌else◌, ap, ℕ, ◌≡◌, refl, Bool, true, false, List, Option, none, some, Result, ok,
  err, and_then, inl, inr, replicate,
}
use apfsds_rs.Base.Maps.{DashMap, bytes_eq}
use apfsds_rs.Crypto.Keys.{MlDsa}
use apfsds_rs.Daemon.Auth.{Wire, Authenticator, AuthError, verify_and_consume_token}
use apfsds_rs.Daemon.Auth
use apfsds_rs.Daemon.Config.{SecurityConfig}
use apfsds_rs.Daemon.Auth.Tokens.{verify_and_consume_token-refuses}
use apfsds_rs.Daemon.Handler.Token.{key_or}
use apfsds_rs.Daemon.Handler.Connect.{
  Connected, answered, missing_server_secret_key, no_authenticator, plain, is_upgrade, bearer_token,
  of_token, with_authenticator, with_server_sk, with_token, handle_connect, respond,
}

module _ (m : MlDsa) (d : DashMap (List ℕ) ℕ) (w : Wire) (hex : List ℕ → Option (List ℕ)) where
  -- The authenticator of a request, for the secret key of the settings.
  abbrev pub new_for : SecurityConfig → List ℕ → Result AuthError (Authenticator m.KeyPair d.Map)
  new_for config server_sk =
      Auth.new m d server_sk (key_or hex (replicate 32 43) config.hmac_secret) config.token_ttl

  -- The answer to a token, where an authenticator is made or is not.
  abbrev pub RefusedBy : Result AuthError (Authenticator m.KeyPair d.Map) → Connected → Type 0
  RefusedBy made c =
      ((e : AuthError) × (made ≡ err e)
        × (c ≡ no_authenticator e)
        × (respond m d w hex c ≡ plain 500 "Internal Server Error"))
      ⊎ ((a : Authenticator m.KeyPair d.Map) × (made ≡ ok a)
          × (c ≡ answered (plain 401 "Unauthorized: Invalid token")))

  -- The answer to a token, where there is a secret key or is none.
  abbrev pub RefusedToken : SecurityConfig → Connected → Type 0
  RefusedToken config c =
      ((and_then config.server_sk hex ≡ none)
        × (c ≡ missing_server_secret_key)
        × (respond m d w hex c ≡ plain 500 "Internal Server Error"))
      ⊎ ((server_sk : List ℕ) × (and_then config.server_sk hex ≡ some server_sk)
          × RefusedBy (new_for config server_sk) c)

  -- The answer to a request with an upgrade, with a token or without one.
  abbrev pub RefusedUpgrade : SecurityConfig → Option (List ℕ) → Connected → Type 0
  RefusedUpgrade config found c =
      ((found ≡ none)
        × (c ≡ answered (plain 401 "Unauthorized: Missing or invalid Authorization header")))
      ⊎ ((token : List ℕ) × (found ≡ some token) × RefusedToken config c)

  -- The answer to a request.
  abbrev pub Refused : SecurityConfig → Option (List ℕ) → Option (List ℕ) → Connected → Type 0
  Refused config upgrade authorization c =
      ((is_upgrade upgrade ≡ false) × (c ≡ answered (plain 400 "Expected WebSocket upgrade")))
      ⊎ ((is_upgrade upgrade ≡ true) × RefusedUpgrade config (bearer_token authorization) c)

  no_token_accepted :
      (made : Result AuthError (Authenticator m.KeyPair d.Map)) (token : List ℕ) (now t : ℕ)
      → RefusedBy made (with_authenticator m d w hex made token now t)
  unfolding respond
  no_token_accepted (err e) token now t = inl (e, refl, refl, refl)
  no_token_accepted (ok a) token now t = inr (
    a,
    refl,
    ap (λ (x : Authenticator m.KeyPair d.Map × Result AuthError ℕ). of_token m d w hex (x.1))
        (verify_and_consume_token-refuses m d w a token now t),
  )

  no_server_sk_accepted :
      (config : SecurityConfig) (token : List ℕ) (now t : ℕ)
      → RefusedToken config
          (with_server_sk m d w hex config (and_then config.server_sk hex) token now t)
  unfolding respond
  no_server_sk_accepted config token now t = by_key (and_then config.server_sk hex)
    where
      by_key :
          (o : Option (List ℕ))
          → (let c : Connected = with_server_sk m d w hex config o token now t in
              ((o ≡ none)
                × (c ≡ missing_server_secret_key)
                × (respond m d w hex c ≡ plain 500 "Internal Server Error"))
              ⊎ ((server_sk : List ℕ) × (o ≡ some server_sk)
                  × RefusedBy (new_for config server_sk) c))
      by_key none = inl (refl, refl, refl)
      by_key (some server_sk) =
          inr (server_sk, refl, no_token_accepted (new_for config server_sk) token now t)

  no_header_accepted :
      (config : SecurityConfig) (found : Option (List ℕ)) (now t : ℕ)
      → RefusedUpgrade config found (with_token m d w hex config found now t)
  no_header_accepted config none now t = inl (refl, refl)
  no_header_accepted config (some token) now t =
      inr (token, refl, no_server_sk_accepted config token now t)

  -- `/connect` never starts a session, whatever the headers are, a token of `generate_token` among
  -- them. Without the upgrade header the answer is 400 "Expected WebSocket upgrade"; with it, and
  -- without a bearer token, 401 "Unauthorized: Missing or invalid Authorization header"; with a
  -- token, 500 where there is no secret key in the settings that decodes or no authenticator can be
  -- made from it, and 401 "Unauthorized: Invalid token" in each other case.
  pub handle_connect-Refused :
      (config : SecurityConfig) (upgrade authorization : Option (List ℕ)) (now t : ℕ)
      → Refused config upgrade authorization
          (handle_connect m d w hex config upgrade authorization now t)
  unfolding handle_connect
  handle_connect-Refused config upgrade authorization now t = by_upgrade (is_upgrade upgrade)
    where
      by_upgrade :
          (b : Bool)
          → (let c : Connected =
                if b
                then with_token m d w hex config (bearer_token authorization) now t
                else answered (plain 400 "Expected WebSocket upgrade") in
              ((b ≡ false) × (c ≡ answered (plain 400 "Expected WebSocket upgrade")))
              ⊎ ((b ≡ true) × RefusedUpgrade config (bearer_token authorization) c))
      by_upgrade true = inr (refl, no_header_accepted config (bearer_token authorization) now t)
      by_upgrade false = inl (refl, refl)
