-- ===== src/Transport/Pool.antt =====
-- crates/transport/src/pool.rs. A client is what `WssClient::connect` and `send_initial_frames` give;
-- what they answer for a slot is an argument, and so is an operation on a client.
pub mod Slots
pub mod Filled
use apfsds_rs.Base.{
  ℕ, String, zero, suc, ◌+◌, ◌-◌, ◌%◌, ◌^◌, Bool, true, false, List, [], ◌∷◌, Option, none, some,
  and_then, Result, ok, err, length, set, replicate, ◌==◌, if◌then◌else◌,
}
use apfsds_rs.Base.Maps.{is_some}

pub record ConnectionPoolConfig : Type 0 where
  pub pool_size : ℕ
  pub endpoints : List String
  pub token : Option String
  pub auto_reconnect : Bool

abbrev pub default_pool : ConnectionPoolConfig
default_pool = record { pool_size = 6; endpoints = []; token = none; auto_reconnect = true }

pub record ConnectionPool (Client : Type 0) : Type 0 where
  pub config : ConnectionPoolConfig
  pub connections : List (Option Client)
  pub robin_counter : ℕ
  pub closed : Bool

pub data PoolError (E : Type 0) : Type 0 where
  pool_exhausted pool_closed no_endpoints : PoolError E
  connection_failed : E → PoolError E

pub record PoolStats : Type 0 where
  pub pool_size : ℕ
  pub active_connections : ℕ
  pub total_requests : ℕ

-- An index out of range is a panic.
abbrev pub at_index : {A : Type 0} → List A → ℕ → Option A
at_index [] i = none
at_index (x ∷ xs) zero = some x
at_index (x ∷ xs) (suc i) = at_index xs i

module _ {Client : Type 0} where
  unfoldable pub new : ConnectionPoolConfig → ConnectionPool Client
  new config = record {
    config = config;
    connections = replicate config.pool_size none;
    robin_counter = 0;
    closed = false;
  }

  -- The counter wraps; a remainder by zero is a panic.
  unfoldable pub get_slot : ConnectionPool Client → Option (ConnectionPool Client × ℕ)
  get_slot p =
      if p.config.pool_size == 0
      then none
      else some (
        record p { robin_counter = (p.robin_counter + 1) % 2 ^ 64 },
        p.robin_counter % p.config.pool_size,
      )

  unfoldable pub close : ConnectionPool Client → ConnectionPool Client
  close p = record p { connections = replicate (length p.connections) none; closed = true }

  abbrev pub active : List (Option Client) → ℕ
  active [] = 0
  active (c ∷ connections) = let rest = active connections in if is_some c then rest + 1 else rest

  unfoldable pub stats : ConnectionPool Client → PoolStats
  stats p = record {
    pool_size = p.config.pool_size;
    active_connections = active p.connections;
    total_requests = p.robin_counter;
  }

module _ {Client E : Type 0} where
  -- The loop over the slots from `i` on, `left` of them; `none` is a panic.
  unfoldable pub connect_slots :
      (String → ℕ → Result E Client)
      → List String
      → ℕ
      → ℕ
      → List (Option Client)
      → Option (List (Option Client) × Result (PoolError E) (Unit {0}))
  connect_slots connect endpoints i zero connections = some (connections, ok tt)
  connect_slots connect endpoints i (suc left) connections =
      and_then (at_index endpoints (i % length endpoints)) λ endpoint. elim (connect endpoint i) [
        | err e ↦ some (connections, err (connection_failed e))
        | ok client ↦ connect_slots connect endpoints (i + 1) left (set connections i (some client))
      ]

  unfoldable pub connect_all :
      (String → ℕ → Result E Client)
      → ConnectionPool Client
      → Option (ConnectionPool Client × Result (PoolError E) (Unit {0}))
  unfolding connect_slots
  connect_all connect p = elim p.config.endpoints [
    | [] ↦ some (p, err no_endpoints)
    | first ∷ others ↦
        and_then (connect_slots connect (first ∷ others) 0 p.config.pool_size p.connections)
          λ r. some (record p { connections = r.0 }, r.1)
  ]

  abbrev pub on_answer :
      {T : Type 0}
      → ConnectionPool Client
      → ℕ
      → Result E (Client × T)
      → ConnectionPool Client × Result (PoolError E) T
  on_answer p slot (ok (client, value)) =
      (record p { connections = set p.connections slot (some client) }, ok value)
  on_answer p slot (err e) =
      (record p { connections = set p.connections slot none }, err (connection_failed e))

  abbrev pub on_slot :
      {T : Type 0}
      → (Client → Result E (Client × T))
      → ConnectionPool Client
      → ℕ
      → Option Client
      → ConnectionPool Client × Result (PoolError E) T
  on_slot f p slot none = (p, err pool_exhausted)
  on_slot f p slot (some client) = on_answer p slot (f client)

  -- `f` gives the client as the operation leaves it, with its value, or fails.
  unfoldable pub with_connection :
      {T : Type 0}
      → (Client → Result E (Client × T))
      → ConnectionPool Client
      → Option (ConnectionPool Client × Result (PoolError E) T)
  unfolding get_slot
  with_connection f p =
      if p.closed
      then some (p, err pool_closed)
      else and_then (get_slot p)
          λ r. and_then (at_index (r.0.connections) (r.1)) λ slot. some (on_slot f (r.0) (r.1) slot)
