-- ===== src/Tests/WssClient.antt =====
-- The WebSocket client at concrete headers and messages.
use apfsds_rs.Base.{
  ℕ, String, text_eq, text_append, ◌≡◌, refl, true, false, List, [], ◌∷◌, Option, none, some,
  and_then, Result, ok, err, ◌==◌, ==_refl, All, if◌then◌else◌,
}
use apfsds_rs.Transport.WebSocket.{binary, pong, close}
use apfsds_rs.Transport.WssClient.{
  HeaderMap, Request, WssClientConfig, WssClientError, default_config, connection_closed,
  browser_headers, build_request, Sends, receive_binary,
}
use apfsds_rs.Transport.WssClient.Headers.{
  last_put, last_valid, sent_headers, token_headers, build_request-get,
}
use apfsds_rs.Transport.WssClient.Receive.{Aside, asked, said, before, receive_binary-asides}

-- The names are told apart by a number, the first three of them.
abbrev number : String → ℕ
number name =
    if text_eq name "authorization"
    then 0
    else if text_eq name "host"
    then 1
    else if text_eq name "user-agent"
    then 2
    else 3

abbrev headers : HeaderMap
headers = record {
  Name = ℕ;
  Map = ℕ → Option String;
  same = λ n m. n == m;
  named = number;
  parse_name = λ name. some (number name);
  is_value = λ value. true;
  get = λ n h. h n;
  insert = λ n v h m. if n == m then some v else h m;
  get-insert = λ n m v h. refl;
}

abbrev config : WssClientConfig
config = record default_config {
  url = "wss://a.io/ws";
  token = some "t";
  cookies = ("a", "1") ∷ ("b", "2") ∷ [];
  headers = ("user-agent", "curl") ∷ [];
}

abbrev upgrade : Request (headers.Map)
upgrade = record { headers = λ n. none; host = some "a.io"; scheme = some "wss" }

abbrev into : String → Result (List ℕ) (Request (headers.Map))
into url = ok upgrade

build_request-get_example :
    (into (config.url) ≡ err []
      → build_request headers into config ≡ some (err (WssClientError.invalid_url [])))
    × (into (config.url) ≡ ok upgrade
        → (q : Request (headers.Map)) × (build_request headers into config ≡ some (ok q))
          × ((n : ℕ)
              → headers.get n q.headers
                ≡ last_valid headers n (config.headers) (
                    last_put headers n (token_headers headers config) (
                      last_valid headers n
                        (config.browser_profile.plugin_headers)
                        (last_put headers n (sent_headers headers config upgrade) none))))
          × ((token : String)
              → config.token ≡ some token
              → All (λ pair. number (pair.0) == 0 ≡ false) (config.headers)
              → headers.get 0 q.headers ≡ some (text_append "Bearer " token)))
unfolding browser_headers
build_request-get_example =
    build_request-get headers into config upgrade [] (λ n. ==_refl n)
      (
        refl,
        (refl, (refl, (refl, (refl, (refl, (refl, (refl, (refl, (refl, (refl, (refl, tt))))))))))),
      )
      (refl, tt)

-- A custom header replaces the profile's.
user_agent :
    and_then
      (build_request headers into config)
      (λ r. elim r as (λ _. Option String) [ err e ↦ none | ok q ↦ headers.get 2 q.headers ])
    ≡ some "curl"
unfolding build_request
user_agent = refl

abbrev takes : Sends
takes m = ok tt

abbrev asides : List Aside
asides = asked (1 ∷ []) ∷ said (2 ∷ []) ∷ asked (3 ∷ []) ∷ []

received :
    (receive_binary takes (before asides (ok (binary (4 ∷ [])) ∷ ok close ∷ []))
      ≡ (ok (4 ∷ []), ok close ∷ [], pong (1 ∷ []) ∷ pong (3 ∷ []) ∷ []))
    × (receive_binary takes (before asides (ok close ∷ ok close ∷ []))
        ≡ (err connection_closed, ok close ∷ [], pong (1 ∷ []) ∷ pong (3 ∷ []) ∷ []))
    × (receive_binary takes (before asides [])
        ≡ (err connection_closed, [], pong (1 ∷ []) ∷ pong (3 ∷ []) ∷ []))
received = receive_binary-asides takes asides (4 ∷ []) (ok close ∷ []) (λ b. refl)
