-- ===== src/Daemon/Handler.antt =====
-- daemon/src/handler.rs: the front of the server. Requests are given by what the code reads of them;
-- the packages are arguments, and so are the clocks and what is drawn.
pub mod Token
pub mod Connect
pub mod Session
pub mod Register
pub mod Decoy
use apfsds_rs.Base.{
  ℕ, String, text_eq, Bool, true, false, List, [], ◌∷◌, Option, none, some, if◌then◌else◌,
}

pub data Content : Type 0 where
  fixed : String → Content
  data_of : List ℕ → Content

pub record HttpResponse : Type 0 where
  pub status : ℕ
  pub headers : List (String × String)
  pub content : Content

-- The counters of `METRICS`.
pub record Metrics : Type 0 where
  pub frames_sent : ℕ
  pub frames_received : ℕ
  pub auth_successes : ℕ
  pub auth_failures : ℕ
  pub active_connections : ℕ

pub data Endpoint : Type 0 where
  retrieve_token connect exit_node_register health ready decoy : Endpoint

-- The `match` on the path.
unfoldable pub endpoint : String → Endpoint
endpoint path =
    if text_eq path "/retrieve-token"
    then retrieve_token
    else if text_eq path "/connect"
    then connect
    else if text_eq path "/exit-node/register"
    then exit_node_register
    else if text_eq path "/health"
    then health
    else if text_eq path "/ready"
    then ready
    else decoy

abbrev json : String → HttpResponse
json body = record {
  status = 200;
  headers = ("Content-Type", "application/json") ∷ [];
  content = fixed body;
}

unfoldable pub handle_health : HttpResponse
handle_health = json "{\"status\":\"healthy\"}"

unfoldable pub handle_ready : HttpResponse
handle_ready = json "{\"status\":\"ready\"}"
