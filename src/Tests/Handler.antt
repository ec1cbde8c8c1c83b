-- ===== src/Tests/Handler.antt =====
-- The handler at concrete requests.
use apfsds_rs.Base.{
  ℕ, ◌+◌, ◌*◌, ◌^◌, max, ◌≡◌, sym, ◌⊎◌, refl, true, List, [], ◌∷◌, ◌++◌, Option, none, some, ok,
  err, replicate,
}
use apfsds_rs.Base.Maps.{bytes_eq, nat_eq}
use apfsds_rs.Crypto.Aes.{AesGcm, encrypt, decrypt}
use apfsds_rs.Crypto.Exchange.{Dh, from_secret, public_key}
use apfsds_rs.Protocol.Frame.{ProxyFrame, no_flags}
use apfsds_rs.Daemon.Billing.{record_usage}
use apfsds_rs.Daemon.ExitForwarder.{forward}
use apfsds_rs.Transport.ExitPool
use apfsds_rs.Transport.ExitPool.{
  GroupPool, Reply, delivered, forward_in, send, serving, try_clients,
}
use apfsds_rs.Transport.WebSocket.{binary, Incoming, close}
use apfsds_rs.Obfuscation.XorMask.{portable}
use apfsds_rs.Base.Text.{is_utf8, split, parse_u64, digits}
use apfsds_rs.Crypto.Hmac.{verify_with_timestamp, constant_time_compare}
use apfsds_rs.Daemon.ExitNode.{rkyv_from_bytes}
use apfsds_rs.Client.Wss.{pad_and_mask}
use apfsds_rs.Daemon.Config.{SecurityConfig, default_security}
use apfsds_rs.Daemon.Handler.{HttpResponse, fixed, Metrics, endpoint, connect, decoy, handle_health}
use apfsds_rs.Daemon.Handler.Token.{
  Server, token_payload, token_result, octets, handle_retrieve_token,
}
use apfsds_rs.Daemon.Handler.Token.Requests.{
  client_cipher, response_of, IsGenuine, token_result-request, handle_retrieve_token-IsGenuine,
}
use apfsds_rs.Daemon.Handler.Connect.{bearer, websocket, handle_connect}
use apfsds_rs.Daemon.Handler.Connect.Refused.{Refused, handle_connect-Refused}
use apfsds_rs.Daemon.Handler.Session.{Served, on_frame, rx_loop}
use apfsds_rs.Daemon.Handler.Session.Billed.{Bills, rx_loop-Bills}
use apfsds_rs.Tests.{frame_rkyv, write_frame, low_draws}
use apfsds_rs.Tests.Records.{
  write_request, request_rkyv, request_rkyv-RoundTrips, token_rkyv, token_rkyv-RoundTrips,
  response_rkyv, response_rkyv-RoundTrips,
}
use apfsds_rs.Tests.Client.{control}
use apfsds_rs.Tests.Daemon.{toy, map, mac, archive, hello}

-- Texts under their key and nonce; a public key is 32 bytes, and a shared secret the longer secret.
abbrev toy_aes : AesGcm
toy_aes = record {
  seal_text = λ key nonce text. some text;
  open_sealed = λ key nonce sealed. some sealed;
}

abbrev toy_dh : Dh
toy_dh = record { public_of = λ secret. replicate 32 6; shared = λ a b. replicate 32 8 }

abbrev packages : Server
packages = record {
  aes = toy_aes;
  dh = toy_dh;
  mac = mac;
  hex = λ text. none;
  requests = request_rkyv;
  tokens = token_rkyv;
  responses = response_rkyv;
}

abbrev config : SecurityConfig
config = record default_security { server_sk = some [] }

-- The nonces, of 12 bytes, and the server's answer to `hello`.
abbrev n₁ : List ℕ
n₁ = replicate 12 1

abbrev n₂ : List ℕ
n₂ = replicate 12 2

abbrev token_bytes : List ℕ
token_bytes = 42 ∷ 1000500 ∷ 1060500 ∷ 1 ∷ 2 ∷ []

abbrev response_bytes : List ℕ
response_bytes = 1060500 ∷ token_bytes

abbrev wire : List ℕ
wire = n₁ ++ write_request hello

token_result-request_example :
    (token_result packages config (some (replicate 32 6 ++ wire)) 1000500 n₂
      ≡ ok (n₂ ++ response_bytes))
    × (decrypt toy_aes (client_cipher packages config (9 ∷ [])) (n₂ ++ response_bytes)
        ≡ ok response_bytes)
    × (rkyv_from_bytes response_rkyv response_bytes
        ≡ ok (response_of packages config token_bytes hello 1000500))
    × (rkyv_from_bytes token_rkyv token_bytes ≡ ok (token_payload packages config hello 1000500))
unfolding encrypt from_secret public_key token_payload verify_with_timestamp constant_time_compare
    is_utf8 split parse_u64 digits
token_result-request_example =
    token_result-request packages config (9 ∷ []) hello 1000500 n₁ n₂ (write_request hello) wire
      token_bytes response_bytes (n₂ ++ response_bytes) (λ a b. refl)
      (λ key nonce text sealed e. sym e) request_rkyv-RoundTrips response_rkyv-RoundTrips
      token_rkyv-RoundTrips refl refl refl refl refl refl refl refl refl

abbrev metrics : Metrics
metrics = record {
  frames_sent = 0;
  frames_received = 0;
  auth_successes = 3;
  auth_failures = 5;
  active_connections = 0;
}

handle_retrieve_token-IsGenuine_example :
    let r : Metrics × HttpResponse × ℕ =
      handle_retrieve_token packages config metrics
        (some (replicate 32 6 ++ wire))
        1000500
        n₂
        70000000 in
    (70000000 + r.2 ≡ max 70000000 (200 * 10 ^ 6))
    × ((IsGenuine packages config (replicate 32 6 ++ wire)
          × (r.1.status ≡ 200)
          × (r.0.auth_failures ≡ 5))
        ⊎ ((r.1 ≡ octets packages config 401 (fixed "Unauthorized"))
            × (r.0.auth_failures ≡ 5 + 1)
            × (r.0.auth_successes ≡ 3)))
handle_retrieve_token-IsGenuine_example =
    handle_retrieve_token-IsGenuine packages config metrics (replicate 32 6 ++ wire) n₂ 1000500
      70000000

-- The texts of a setting stand for themselves.
abbrev text_of : List ℕ → Option (List ℕ)
text_of text = some text

handle_connect-Refused_example :
    Refused toy map archive text_of config (some websocket) (some (bearer ++ (42 ∷ 1 ∷ []))) (
      handle_connect toy map archive text_of config
        (some websocket)
        (some (bearer ++ (42 ∷ 1 ∷ [])))
        1000500
        5000000000)
handle_connect-Refused_example =
    handle_connect-Refused toy map archive text_of config (some websocket)
      (some (bearer ++ (42 ∷ 1 ∷ []))) 1000500 5000000000

-- A frame with two bytes for the first exit node, as a client sends it, and then a close.
abbrev frame : ProxyFrame
frame = record {
  conn_id = 7;
  rip = replicate 16 0;
  rport = 443;
  payload = 1 ∷ 2 ∷ [];
  uuid = replicate 16 9;
  timestamp = 1000000;
  checksum = 2;
  flags = no_flags;
}

abbrev as_incoming : Option (List ℕ) → Incoming
as_incoming none = err []
as_incoming (some bytes) = ok (binary bytes)

abbrev incoming : List (ℕ × Incoming)
incoming =
    (1000, as_incoming (pad_and_mask portable low_draws 7 1000 (write_frame frame)))
    ∷ (1001, ok close)
    ∷ []

abbrev served : Served
served = record {
  pool =
      (0, record { clients = record { base_url = []; healthy = true } ∷ []; next_index = 0 }) ∷ [];
  usage = (5, 40) ∷ [];
  frames_received = 0;
  queries = [];
  forwarded = [];
}

abbrev replies : ProxyFrame → ℕ → Reply
replies f i = delivered

rx_loop-Bills_example :
    (s' : Served) × (rx_loop frame_rkyv control portable replies 2 5 7 served incoming ≡ some s')
    × Bills 5 served s'
rx_loop-Bills_example = rx_loop-Bills frame_rkyv control portable replies 2 5 7 served incoming

billed : (on_frame frame_rkyv control portable replies 2 5 7 served frame).0.usage ≡ (5, 42) ∷ []
unfolding on_frame record_usage forward ExitPool.forward forward_in send serving try_clients
billed = refl

endpoint_values :
    (endpoint "/connect" ≡ connect)
    × (endpoint "/index.html" ≡ decoy)
    × (handle_health.status ≡ 200)
unfolding endpoint handle_health
endpoint_values = (refl, refl, refl)
