-- ===== src/Daemon/Handler/Decoy.antt =====
-- daemon/src/handler.rs: `handle_decoy` and `handle_reverse_proxy`. The package `reqwest` is an
-- argument; the name of a header is in lower case.
use apfsds_rs.Base.{
  ℕ, String, text_eq, text_append, List, [], ◌∷◌, Option, none, some, if◌then◌else◌,
}
use apfsds_rs.Daemon.Config.{SecurityConfig}
use apfsds_rs.Daemon.Handler.{HttpResponse, fixed, data_of}
use apfsds_rs.Daemon.Handler.Connect.{plain}

-- The value of a header is `none` where `to_str` fails; the body is `none` where it cannot be read.
pub record ProxiedRequest : Type 0 where
  pub method : String
  pub path : String
  pub headers : List (String × Option String)
  pub body : Option (List ℕ)

pub record UpstreamRequest : Type 0 where
  pub method : String
  pub url : String
  pub headers : List (String × String)
  pub body : Option (List ℕ)

pub record UpstreamResponse : Type 0 where
  pub status : ℕ
  pub headers : List (String × String)
  pub body : Option (List ℕ)

abbrev pub copied_headers : List (String × Option String) → List (String × String)
copied_headers [] = []
copied_headers ((name, none) ∷ headers) = copied_headers headers
copied_headers ((name, some value) ∷ headers) =
    let rest = copied_headers headers in if text_eq name "host" then rest else (name, value) ∷ rest

abbrev non_empty : List ℕ → Option (List ℕ)
non_empty [] = none
non_empty (b ∷ bytes) = some (b ∷ bytes)

abbrev of_client : Option UpstreamResponse → HttpResponse
of_client none = plain 502 "Bad Gateway"
of_client (some r) = elim r.body [
  | none ↦ plain 502 "Bad Gateway"
  | some bytes ↦ record { status = r.status; headers = r.headers; content = data_of bytes }
]

-- `client` is `none` where it cannot be built; it answers `none` where a request fails.
unfoldable pub handle_reverse_proxy :
    Option (UpstreamRequest → Option UpstreamResponse) → ProxiedRequest → String → HttpResponse
handle_reverse_proxy none req target = plain 502 "Bad Gateway"
handle_reverse_proxy (some send) req target = elim req.body [
  | none ↦ plain 400 "Bad Request"
  | some bytes ↦ of_client (
      send (record {
        method = req.method;
        url = text_append (text_append "https://" target) req.path;
        headers = copied_headers req.headers;
        body = non_empty bytes;
      }))
]

abbrev pub page : String
page =
    "<!DOCTYPE html>\n<html>\n<head><title>Welcome</title></head>\n<body>\n<h1>Welcome to our website</h1>\n<p>This is a normal website. Nothing to see here.</p>\n</body>\n</html>"

unfoldable pub handle_decoy :
    SecurityConfig
    → Option (UpstreamRequest → Option UpstreamResponse)
    → ProxiedRequest
    → HttpResponse
unfolding handle_reverse_proxy
handle_decoy config client req =
    if config.enable_reverse_proxy
    then handle_reverse_proxy client req config.fallback_target
    else record { status = 200; headers = ("Content-Type", "text/html") ∷ []; content = fixed page }
