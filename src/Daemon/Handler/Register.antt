-- ===== src/Daemon/Handler/Register.antt =====
-- daemon/src/handler.rs: `handle_exit_node_register`, the handler's side of the reverse mode.
pub mod Agreement
use apfsds_rs.Base.{
  ℕ, ◌%◌, ◌^◌, Bool, true, false, List, [], ◌∷◌, Option, none, some, and_then, Result, ok, err,
  length, if◌then◌else◌,
}
use apfsds_rs.Base.Maps.{DashMap, assoc_get, assoc_insert, bytes_eq, nat_eq, is_some}
use apfsds_rs.Base.Rkyv.{Rkyv}
use apfsds_rs.Base.Text.{split}
use apfsds_rs.Protocol.Frame.{GroupInfo, ControlMessage, group_list, group_select}
use apfsds_rs.Transport.WebSocket.{Message, binary, text, ping, pong, close, Incoming}
use apfsds_rs.Daemon.ExitNode.{rkyv_from_bytes}
use apfsds_rs.Daemon.ExitNodePool.{
  ExitNodeConnection, ExitNodePool, register, unregister, get, get_group_nodes,
}
use apfsds_rs.Daemon.Handler.{HttpResponse}
use apfsds_rs.Daemon.Handler.Connect.{is_upgrade, plain, switching}
use apfsds_rs.Daemon.Handler.Token.{unwrap_or}

-- The first two parts of each pair; a later pair replaces an earlier one of its name.
abbrev pub pair_of : List (List ℕ) → Option (List ℕ × List ℕ)
pair_of [] = none
pair_of (key ∷ []) = none
pair_of (key ∷ (value ∷ parts)) = some (key, value)

abbrev pub params_of : List (List ℕ × List ℕ) → List (List ℕ) → List (List ℕ × List ℕ)
params_of acc [] = acc
params_of acc (pair ∷ pairs) = elim (pair_of (split 61 pair)) [
  | none ↦ params_of acc pairs
  | some (key, value) ↦ params_of (assoc_insert key value acc) pairs
]

-- "name" and "unknown".
abbrev name_key : List ℕ
name_key = 110 ∷ 97 ∷ 109 ∷ 101 ∷ []

abbrev unknown : List ℕ
unknown = 117 ∷ 110 ∷ 107 ∷ 110 ∷ 111 ∷ 119 ∷ 110 ∷ []

unfoldable pub node_name : Option (List ℕ) → List ℕ
node_name query =
    unwrap_or unknown (assoc_get name_key (params_of [] (split 38 (unwrap_or [] query))))

-- The answer, and whether a session starts.
unfoldable pub handle_exit_node_register : Option (List ℕ) → HttpResponse × Bool
handle_exit_node_register upgrade =
    if is_upgrade upgrade
    then (switching "exit-node-register", true)
    else (plain 400 "Expected WebSocket upgrade", false)

-- A message selects a group, or it is passed over.
abbrev pub selected_in : Result (List ℕ) ControlMessage → Option ℕ
selected_in (ok (group_select group_id)) = some group_id
selected_in _ = none

unfoldable pub await_selection : Rkyv ControlMessage → List Incoming → Option ℕ × List Incoming
await_selection k [] = (none, [])
await_selection k (err e ∷ rest) = (none, rest)
await_selection k (ok (binary bytes) ∷ rest) = elim (selected_in (rkyv_from_bytes k bytes)) [
  | none ↦ await_selection k rest
  | some group_id ↦ (some group_id, rest)
]
await_selection k (ok close ∷ rest) = (none, rest)
await_selection k (ok (text t) ∷ rest) = await_selection k rest
await_selection k (ok (ping t) ∷ rest) = await_selection k rest
await_selection k (ok (pong t) ∷ rest) = await_selection k rest

module _ (d : DashMap ℕ ExitNodeConnection) (iter : d.Map → List (ℕ × ExitNodeConnection)) where
  -- "Default", "Premium" and "Asia", with the nodes that are connected.
  unfoldable pub available_groups : ExitNodePool d.Map → List GroupInfo
  available_groups p =
      let nodes : ℕ → ℕ = λ group_id. length (get_group_nodes d iter p group_id) % 2 ^ 32 in
      record {
        group_id = 0;
        name = 68 ∷ 101 ∷ 102 ∷ 97 ∷ 117 ∷ 108 ∷ 116 ∷ [];
        node_count = nodes 0;
        load = 50;
      }
      ∷ record {
        group_id = 1;
        name = 80 ∷ 114 ∷ 101 ∷ 109 ∷ 105 ∷ 117 ∷ 109 ∷ [];
        node_count = nodes 1;
        load = 30;
      }
      ∷ record { group_id = 2; name = 65 ∷ 115 ∷ 105 ∷ 97 ∷ []; node_count = nodes 2; load = 60 }
      ∷ []

  module _ (k : Rkyv ControlMessage) (send : Message → Result (List ℕ) (Unit {0})) where
    abbrev pub joined :
        ExitNodePool d.Map
        → List ℕ
        → ℕ
        → Option ℕ × List Incoming
        → ExitNodePool d.Map × Option (ℕ × List Incoming)
    joined p name sender (none, rest) = (p, none)
    joined p name sender (some group_id, rest) =
        let q : ExitNodePool d.Map × ℕ = register d iter p name group_id sender in
        (q.0, some (q.1, rest))

    -- Up to the registration: the node's id and what its socket has not delivered yet, or the end of
    -- the session. `p` is the pool when the groups are listed, `later` when the node is registered.
    unfoldable pub join :
        ExitNodePool d.Map
        → ExitNodePool d.Map
        → List ℕ
        → ℕ
        → List Incoming
        → ExitNodePool d.Map × Option (ℕ × List Incoming)
    unfolding await_selection
    join p later name sender incoming = elim (k.to_bytes (group_list (available_groups p))) [
      | err e ↦ (later, none)
      | ok bytes ↦ elim (send (binary bytes)) [
        | err e ↦ (later, none)
        | ok _ ↦ joined later name sender (await_selection k incoming)
      ]
    ]

  -- The loop behind it: the answers to pings that the node's channel gets. What a node sends in
  -- binary messages is dropped.
  unfoldable pub attend : ExitNodePool d.Map → ℕ → List Incoming → List (ℕ × Message)
  attend p node_id [] = []
  attend p node_id (err e ∷ rest) = []
  attend p node_id (ok (binary bytes) ∷ rest) = attend p node_id rest
  attend p node_id (ok (ping t) ∷ rest) = elim (get d iter p node_id) [
    | none ↦ attend p node_id rest
    | some conn ↦ (conn.sender, pong t) ∷ attend p node_id rest
  ]
  attend p node_id (ok close ∷ rest) = []
  attend p node_id (ok (text t) ∷ rest) = attend p node_id rest
  attend p node_id (ok (pong t) ∷ rest) = attend p node_id rest

  -- The cleanup.
  unfoldable pub leave : ExitNodePool d.Map → ℕ → ExitNodePool d.Map
  leave p node_id = unregister d iter p node_id
