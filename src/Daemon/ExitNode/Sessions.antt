-- ===== src/Daemon/ExitNode/Sessions.antt =====
-- daemon/src/exit_node.rs: the requests of a handler, and the session of the reverse mode. A web
-- socket is the list of what it delivers, and a function that answers a `send`.
use apfsds_rs.Base.{
  ℕ, String, text_eq, Bool, false, ◌||◌, List, [], ◌∷◌, Option, none, some, Result, ok, err, ltb,
  ◌==◌, if◌then◌else◌,
}
use apfsds_rs.Base.Maps.{DashMap, bytes_eq, nat_eq}
use apfsds_rs.Base.Rkyv.{Rkyv}
use apfsds_rs.Protocol.Frame.{GroupInfo, ControlMessage, group_list, group_select}
use apfsds_rs.Protocol.Packet.{PlainPacket}
use apfsds_rs.Transport.WebSocket.{Message, binary, text, ping, pong, close}
use apfsds_rs.Daemon.ExitNode.{
  RouteEntry, Etherparse, Service, register_stream, handle_forward, rkyv_from_bytes,
}

pub data Method : Type 0 where
  get post other_method : Method

-- The body is `none` where it cannot be read to its end; it starts at an address.
pub record Request : Type 0 where
  pub method : Method
  pub path : String
  pub body : Option (ℕ × List ℕ)

pub data Body : Type 0 where
  full : String → Body
  streaming : ℕ → Body

pub record Response : Type 0 where
  pub status : ℕ
  pub content : Body

pub data ConnectError : Type 0 where
  web_socket : List ℕ → ConnectError
  no_groups closed_by_handler closed_before_groups not_serialised : ConnectError

-- `min_by_key(|g| g.load)`: the first of the least.
abbrev pub least_loaded : GroupInfo → List GroupInfo → GroupInfo
least_loaded best [] = best
least_loaded best (g ∷ groups) = least_loaded (if ltb g.load best.load then g else best) groups

abbrev pub auto_select : List GroupInfo → Option ℕ
auto_select [] = none
auto_select (g ∷ groups) = some ((least_loaded g groups).group_id)

abbrev pub has_group : ℕ → List GroupInfo → Bool
has_group id [] = false
has_group id (g ∷ groups) = g.group_id == id || has_group id groups

unfoldable pub select : Option ℕ → List GroupInfo → Option ℕ
select none groups = auto_select groups
select (some id) groups = if has_group id groups then some id else auto_select groups

-- A message is a list of groups, or it is passed over.
abbrev pub groups_of : Result (List ℕ) ControlMessage → Option (List GroupInfo)
groups_of (ok (group_list groups)) = some groups
groups_of _ = none

abbrev pub or_no_groups : Option ℕ → Result ConnectError ℕ
or_no_groups none = err no_groups
or_no_groups (some id) = ok id

-- The loop that waits for the groups: the group chosen, and what the socket has not delivered yet.
unfoldable pub await_groups :
    Rkyv ControlMessage
    → Option ℕ
    → List (Result (List ℕ) Message)
    → Result ConnectError ℕ × List (Result (List ℕ) Message)
unfolding select
await_groups k preferred [] = (err closed_before_groups, [])
await_groups k preferred (err e ∷ rest) = (err (web_socket e), rest)
await_groups k preferred (ok (binary bytes) ∷ rest) = elim (groups_of (rkyv_from_bytes k bytes)) [
  | none ↦ await_groups k preferred rest
  | some groups ↦ (or_no_groups (select preferred groups), rest)
]
await_groups k preferred (ok close ∷ rest) = (err closed_by_handler, rest)
await_groups k preferred (ok (text t) ∷ rest) = await_groups k preferred rest
await_groups k preferred (ok (ping t) ∷ rest) = await_groups k preferred rest
await_groups k preferred (ok (pong t) ∷ rest) = await_groups k preferred rest

module _ (routes : DashMap (List ℕ) RouteEntry) (streams : DashMap ℕ ℕ) (parse : Etherparse)
    (packets : Rkyv PlainPacket) (write_all : List ℕ → Result (List ℕ) (Unit {0})) where
  unfoldable pub forward_bytes :
      Service routes streams → Result (List ℕ) PlainPacket → Service routes streams
  forward_bytes s (ok packet) = (handle_forward routes streams parse write_all s packet).0
  forward_bytes s (err e) = s

  -- `from_bytes` is `rkyv::from_bytes` of a slice at an address.
  unfoldable pub post_forward :
      (ℕ → List ℕ → Option PlainPacket)
      → Service routes streams
      → Option (ℕ × List ℕ)
      → Service routes streams × Option Response
  unfolding forward_bytes
  post_forward from_bytes s none = (s, none)
  post_forward from_bytes s (some (address, body)) = elim (from_bytes address body) [
    | some packet ↦ (forward_bytes s (ok packet), some (record { status = 200; content = full "" }))
    | none ↦ (s, some (record { status = 400; content = full "Invalid Data" }))
  ]

  get_stream : Service routes streams → Service routes streams × Option Response
  get_stream s =
      let registered : Service routes streams × ℕ = register_stream routes streams s 1 in
      (registered.0, some (record { status = 200; content = streaming registered.1 }))

  abbrev otherwise : Service routes streams → Service routes streams × Option Response
  otherwise s = (s, some (record { status = 404; content = full "Not Found" }))

  -- No response where the body breaks off.
  unfoldable pub handle_http_request :
      (ℕ → List ℕ → Option PlainPacket)
      → Service routes streams
      → Request
      → Service routes streams × Option Response
  unfolding post_forward get_stream
  handle_http_request from_bytes s req = elim req.method [
    | post ↦ if text_eq req.path "/forward" then post_forward from_bytes s req.body else otherwise s
    | get ↦ if text_eq req.path "/stream" then get_stream s else otherwise s
    | other_method ↦ otherwise s
  ]

  module _ (send : Message → Result (List ℕ) (Unit {0})) where
    -- The loop behind the selection: the state, and the messages that are sent.
    unfoldable pub serve :
        Service routes streams
        → List (Result (List ℕ) Message)
        → Service routes streams × List Message
    unfolding forward_bytes
    serve s [] = (s, [])
    serve s (err e ∷ rest) = (s, [])
    serve s (ok (binary bytes) ∷ rest) =
        serve (forward_bytes s (rkyv_from_bytes packets bytes)) rest
    serve s (ok (ping data_) ∷ rest) =
        let served : Service routes streams × List Message = serve s rest in
        elim (send (pong data_)) [ ok _ ↦ (served.0, pong data_ ∷ served.1) | err e ↦ (s, []) ]
    serve s (ok close ∷ rest) = (s, [])
    serve s (ok (text t) ∷ rest) = serve s rest
    serve s (ok (pong t) ∷ rest) = serve s rest

    abbrev pub join :
        Service routes streams
        → Result (List ℕ) (List ℕ)
        → List (Result (List ℕ) Message)
        → Service routes streams × Result ConnectError (List Message)
    join s (err e) rest = (s, err not_serialised)
    join s (ok bytes) rest =
        let served : Service routes streams × List Message = serve s rest in
        elim (send (binary bytes)) [
          | ok _ ↦ (served.0, ok (binary bytes ∷ served.1))
          | err e ↦ (s, err (web_socket e))
        ]

    -- `connected` is what `connect_async` gives: the messages to come.
    unfoldable pub connect_to_handler :
        Rkyv ControlMessage
        → Option ℕ
        → Service routes streams
        → Result (List ℕ) (List (Result (List ℕ) Message))
        → Service routes streams × Result ConnectError (List Message)
    unfolding await_groups serve
    connect_to_handler k preferred s (err e) = (s, err (web_socket e))
    connect_to_handler k preferred s (ok incoming) =
        let awaited : Result ConnectError ℕ × List (Result (List ℕ) Message) =
          await_groups k preferred incoming in
        elim (awaited.0) [
          | err e ↦ (s, err e)
          | ok group_id ↦ join s (k.to_bytes (group_select group_id)) (awaited.1)
        ]
