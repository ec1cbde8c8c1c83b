-- ===== src/Transport/WssClient.antt =====
-- crates/transport/src/wss_client.rs. The packages `http` and `tokio-tungstenite` are arguments: the
-- table of headers, the request that a URL becomes, and what the socket takes and delivers. What
-- is drawn is an argument.
pub mod Headers
pub mod Receive
use apfsds_rs.Base.{
  ℕ, String, text_eq, text_append, ◌≡◌, Bool, true, false, List, [], ◌∷◌, ◌++◌, map, Option, none,
  some, and_then, Result, ok, err, ◌>>=◌, ◌>>◌, if◌then◌else◌,
}
use apfsds_rs.Transport.WebSocket.{Message, binary, text, ping, pong, close, Incoming}

abbrev pub chrome_ua : String
chrome_ua =
    "Mozilla/5.0 (Windows NT 10.0; Win64; x64) AppleWebKit/537.36 (KHTML, like Gecko) Chrome/120.0.0.0 Safari/537.36"

pub record BrowserProfile : Type 0 where
  pub user_agent : String
  pub accept_language : String
  pub accept_encoding : String
  pub sec_fetch_site : String
  pub sec_fetch_mode : String
  pub sec_fetch_dest : String
  pub plugin_headers : List (String × String)

abbrev pub chrome_120_windows : BrowserProfile
chrome_120_windows = record {
  user_agent = chrome_ua;
  accept_language = "en-US,en;q=0.9";
  accept_encoding = "gzip, deflate, br";
  sec_fetch_site = "cross-site";
  sec_fetch_mode = "websocket";
  sec_fetch_dest = "empty";
  plugin_headers = [];
}

abbrev pub chrome_120_with_adblock : BrowserProfile
chrome_120_with_adblock = record chrome_120_windows {
  plugin_headers = ("X-Client-Data", "CIW2yQEIprbJAQjBtskBCKmdygEIlaHKAQiVocoBGI6jygE=") ∷ [];
}

abbrev pub chrome_120_macos : BrowserProfile
chrome_120_macos = record {
  user_agent =
      "Mozilla/5.0 (Macintosh; Intel Mac OS X 10_15_7) AppleWebKit/537.36 (KHTML, like Gecko) Chrome/120.0.0.0 Safari/537.36";
  accept_language = "en-US,en;q=0.9";
  accept_encoding = "gzip, deflate, br";
  sec_fetch_site = "cross-site";
  sec_fetch_mode = "websocket";
  sec_fetch_dest = "empty";
  plugin_headers = [];
}

pub data WssClientError : Type 0 where
  connection_failed handshake_failed send_failed receive_failed : List ℕ → WssClientError
  invalid_url : List ℕ → WssClientError
  connection_closed : WssClientError

pub record WssClientConfig : Type 0 where
  pub url : String
  pub token : Option String
  pub browser_profile : BrowserProfile
  pub cookies : List (String × String)
  pub origin : Option String
  pub referer : Option String
  pub headers : List (String × String)
  pub compression : Bool
  pub timeout_secs : ℕ

abbrev pub default_config : WssClientConfig
default_config = record {
  url = "";
  token = none;
  browser_profile = chrome_120_windows;
  cookies = [];
  origin = none;
  referer = none;
  headers = [];
  compression = true;
  timeout_secs = 30;
}

-- `http::HeaderMap`. A name of the code's own stands for its header; `insert` replaces.
pub record HeaderMap : Type 1 where
  pub Name : Type 0
  pub Map : Type 0
  pub same : Name → Name → Bool
  pub named : String → Name
  pub parse_name : String → Option Name
  pub is_value : String → Bool
  pub get : Name → Map → Option String
  pub insert : Name → String → Map → Map
  pub get-insert :
      (n m : Name) (v : String) (h : Map)
      → get m (insert n v h) ≡ (if same n m then some v else get m h)

pub record Request (Map : Type 0) : Type 0 where
  pub headers : Map
  pub host : Option String
  pub scheme : Option String

abbrev pub or_text : Option String → String → String
or_text none t = t
or_text (some s) t = s

abbrev pub origin_of : Option String → Option String → String → String
origin_of (some origin) scheme host = origin
origin_of none scheme host =
    text_append (if text_eq (or_text scheme "wss") "wss" then "https" else "http")
      (text_append "://" host)

-- "k=v" for each cookie, with "; " between.
abbrev pub cookie_text : List (String × String) → String
cookie_text [] = ""
cookie_text ((k, v) ∷ []) = text_append k (text_append "=" v)
cookie_text ((k, v) ∷ (c ∷ cookies)) =
    text_append k (text_append "=" (text_append v (text_append "; " (cookie_text (c ∷ cookies)))))

abbrev pub cookie_header : List (String × String) → List (String × String)
cookie_header [] = []
cookie_header (c ∷ cookies) = ("cookie", cookie_text (c ∷ cookies)) ∷ []

abbrev pub optional_header : String → Option String → List (String × String)
optional_header name none = []
optional_header name (some value) = (name, value) ∷ []

-- The headers up to the referer, in their order.
unfoldable pub browser_headers : WssClientConfig → String → String → List (String × String)
browser_headers c host origin =
    ("host", host)
      ∷ ("pragma", "no-cache")
      ∷ ("cache-control", "no-cache")
      ∷ ("user-agent", c.browser_profile.user_agent)
      ∷ ("origin", origin)
      ∷ ("accept-encoding", c.browser_profile.accept_encoding)
      ∷ ("accept-language", c.browser_profile.accept_language)
      ∷ cookie_header c.cookies
    ++ (("Sec-WebSocket-Extensions", "permessage-deflate; client_max_window_bits")
        ∷ ("Sec-Fetch-Site", c.browser_profile.sec_fetch_site)
        ∷ ("Sec-Fetch-Mode", c.browser_profile.sec_fetch_mode)
        ∷ ("Sec-Fetch-Dest", c.browser_profile.sec_fetch_dest)
        ∷ optional_header "referer" c.referer)

module _ (h : HeaderMap) where
  -- Each header in turn; a text that is no value is a panic.
  unfoldable pub put_all : List (String × String) → h.Map → Option h.Map
  put_all [] m = some m
  put_all ((name, value) ∷ entries) m =
      let later : Option h.Map = put_all entries (h.insert (h.named name) value m) in
      if h.is_value value then later else none

  -- A pair that does not parse is passed over.
  abbrev pub parsed : String × String → Option (h.Name × String)
  parsed (name, value) =
      and_then (h.parse_name name) λ n. if h.is_value value then some (n, value) else none

  abbrev pub put_parsed : Option (h.Name × String) → h.Map → h.Map
  put_parsed none m = m
  put_parsed (some (n, value)) m = h.insert n value m

  unfoldable pub put_valid : List (String × String) → h.Map → h.Map
  put_valid [] m = m
  put_valid (pair ∷ pairs) m = put_valid pairs (put_parsed (parsed pair) m)

  abbrev pub bearer : Option String → Option String
  bearer none = none
  bearer (some token) = some (text_append "Bearer " token)

  -- `none` is a panic.
  abbrev pub with_headers : WssClientConfig → Request h.Map → Option h.Map
  with_headers c r =
      let host : String = or_text r.host "localhost" in
      and_then (put_all (browser_headers c host (origin_of c.origin r.scheme host)) r.headers) λ m.
        and_then
          (put_all (optional_header "authorization" (bearer c.token))
            (put_valid c.browser_profile.plugin_headers m))
          λ authorized. some (put_valid c.headers authorized)

  unfoldable pub build_request :
      (String → Result (List ℕ) (Request h.Map))
      → WssClientConfig
      → Option (Result WssClientError (Request h.Map))
  unfolding put_all put_valid browser_headers
  build_request into_client_request c = elim (into_client_request c.url) [
    | err e ↦ some (err (invalid_url e))
    | ok r ↦ and_then (with_headers c r) λ m. some (ok (record r { headers = m }))
  ]

-- What the socket takes.
abbrev pub Sends : Type 0
Sends = Message → Result (List ℕ) (Unit {0})

abbrev pub sent : Result (List ℕ) (Unit {0}) → Result WssClientError (Unit {0})
sent (ok u) = ok u
sent (err e) = err (send_failed e)

unfoldable pub send_binary : Sends → List ℕ → Result WssClientError (Unit {0})
send_binary sends bytes = sent (sends (binary bytes))

unfoldable pub send_text : Sends → List ℕ → Result WssClientError (Unit {0})
send_text sends bytes = sent (sends (text bytes))

unfoldable pub send_ping : Sends → List ℕ → Result WssClientError (Unit {0})
send_ping sends bytes = sent (sends (ping bytes))

-- "ping", then two paddings that are drawn.
unfoldable pub send_initial_frames : Sends → List ℕ → List ℕ → Result WssClientError (Unit {0})
unfolding send_binary send_text
send_initial_frames sends first second =
    send_text sends (112 ∷ 105 ∷ 110 ∷ 103 ∷ [])
    >> send_binary sends first
    >> send_binary sends second

unfoldable pub receive : List Incoming → Result WssClientError Message × List Incoming
receive [] = (err connection_closed, [])
receive (ok m ∷ rest) = (ok m, rest)
receive (err e ∷ rest) = (err (receive_failed e), rest)

-- The loop; with the answer, what is not delivered yet and the pongs that were sent.
unfoldable pub receive_binary :
    Sends → List Incoming → Result WssClientError (List ℕ) × List Incoming × List Message
receive_binary sends [] = (err connection_closed, [], [])
receive_binary sends (err e ∷ rest) = (err (receive_failed e), rest, [])
receive_binary sends (ok (binary bytes) ∷ rest) = (ok bytes, rest, [])
receive_binary sends (ok (ping bytes) ∷ rest) =
    let later : Result WssClientError (List ℕ) × List Incoming × List Message =
      receive_binary sends rest in
    elim (sends (pong bytes)) [
      | err e ↦ (err (send_failed e), rest, [])
      | ok u ↦ (later.0, later.1, pong bytes ∷ later.2)
    ]
receive_binary sends (ok close ∷ rest) = (err connection_closed, rest, [])
receive_binary sends (ok (text bytes) ∷ rest) = receive_binary sends rest
receive_binary sends (ok (pong bytes) ∷ rest) = receive_binary sends rest
