-- ===== src/Transport/Pool/Filled.antt =====
-- `connect_all` fills all slots of the pool.
use apfsds_rs.Base.{
  ℕ, String, zero, suc, ◌+◌, ◌%◌, ◌≤◌, ◌<◌, ◌≡◌, refl, ◌∙◌, List, [], ◌∷◌, Option, none, some,
  and_then, Result, ok, err, arith, length, set, replicate, length-replicate,
}
use native.Mathlib.Nat.{mod-lt}
use apfsds_rs.Transport.Pool.{
  ConnectionPoolConfig, ConnectionPool, PoolError, connection_failed, no_endpoints, at_index, new,
  connect_slots, connect_all, active, stats,
}
use apfsds_rs.Transport.Pool.Slots.{
  at_index-below, length-set, active-set_next, active-replicate, at_index-set_other,
  at_index-replicate,
}

module _ {Client E : Type 0} where
  connect_slots-active :
      (connect : String → ℕ → Result E Client) (endpoints : List String) (left i : ℕ)
      (cs : List (Option Client))
      → 0 < length endpoints
      → i + left ≡ length cs
      → ((j : ℕ) → i ≤ j → j < length cs → at_index cs j ≡ some none)
      → (r : List (Option Client) × Result (PoolError E) (Unit {0})) × (connect_slots connect
            endpoints i left cs
          ≡ some r)
        × (length r.0 ≡ length cs)
        × (r.1 ≡ ok tt → active r.0 ≡ active cs + left)
  unfolding connect_slots
  connect_slots-active connect endpoints zero i cs some_endpoint size empty =
      ((cs, ok tt), refl, refl, λ e. omega arith)
  connect_slots-active connect endpoints (suc left) i cs some_endpoint size empty =
      let (endpoint, found) =
        at_index-below endpoints (i % length endpoints) (mod-lt i some_endpoint) in
      rw found (
        by_answer (connect endpoint i) (λ c.
          connect_slots-active connect endpoints left (i + 1) (set cs i (some c)) some_endpoint
            (omega (arith, size, length-set cs i (some c)))
            (λ j low high.
              at_index-set_other cs i j (some c) (omega arith)
              ∙ empty j (omega arith) (omega (arith, high, length-set cs i (some c))))))
    where
      by_answer :
          (a : Result E Client)
          → ((c : Client)
              → (r : List (Option Client) × Result (PoolError E) (Unit {0})) × (connect_slots
                    connect endpoints
                    (i + 1)
                    left
                    (set cs i (some c))
                  ≡ some r)
                × (length r.0 ≡ length (set cs i (some c)))
                × (r.1 ≡ ok tt → active r.0 ≡ active (set cs i (some c)) + left))
          → (r : List (Option Client) × Result (PoolError E) (Unit {0})) × ((elim a
                as (λ _. Option (List (Option Client) × Result (PoolError E) (Unit {0}))) [
                  | err e ↦ some (cs, err (connection_failed e))
                  | ok client ↦
                      connect_slots connect endpoints (i + 1) left (set cs i (some client))
                ])
              ≡ some r)
            × (length r.0 ≡ length cs)
            × (r.1 ≡ ok tt → active r.0 ≡ active cs + suc left)
      by_answer (err e) later = ((cs, err (connection_failed e)), refl, refl, λ is_ok. absurd (cc))
      by_answer (ok c) later =
          let (r, e, len, full) = later c in
          let one : active (set cs i (some c)) ≡ active cs + 1 =
            active-set_next cs i c (empty i (omega arith) (omega arith)) in
          (r, e, len ∙ length-set cs i (some c), λ is_ok. omega (arith, full is_ok, one))

  -- From a new pool with an endpoint, `connect_all` never panics; where it succeeds, all slots of
  -- the pool have a connection.
  pub connect_all-active :
      (connect : String → ℕ → Result E Client) (config : ConnectionPoolConfig)
      → 0 < length config.endpoints
      → (r : ConnectionPool Client × Result (PoolError E) (Unit {0})) × (connect_all connect
            (new config)
          ≡ some r)
        × (length r.0.connections ≡ config.pool_size)
        × (r.1 ≡ ok tt → (stats r.0).active_connections ≡ config.pool_size)
  unfolding connect_all new stats
  connect_all-active connect config some_endpoint = by_endpoints config.endpoints some_endpoint
    where
      start : List (Option Client)
      start = replicate config.pool_size none

      by_endpoints :
          (endpoints : List String)
          → 0 < length endpoints
          → (r : ConnectionPool Client × Result (PoolError E) (Unit {0})) × ((elim endpoints
                as (λ _. Option (ConnectionPool Client × Result (PoolError E) (Unit {0}))) [
                  | [] ↦ some (new config, err no_endpoints)
                  | first ∷ others ↦
                      and_then
                        (connect_slots connect (first ∷ others) 0 config.pool_size start)
                        λ r. some (record (new config) { connections = r.0 }, r.1)
                ])
              ≡ some r)
            × (length r.0.connections ≡ config.pool_size)
            × (r.1 ≡ ok tt → active r.0.connections ≡ config.pool_size)
      by_endpoints [] some_endpoint = absurd (omega arith)
      by_endpoints (first ∷ others) some_endpoint =
          let size : length start ≡ config.pool_size = length-replicate config.pool_size none in
          let (r, e, len, full) =
            connect_slots-active connect (first ∷ others) config.pool_size 0 start some_endpoint
              (omega (arith, size))
              (λ j low high.
                at_index-replicate config.pool_size j none (omega (arith, high, size))) in
          (
            (record (new config) { connections = r.0 }, r.1),
            rw e refl,
            len ∙ size,
            λ is_ok. full is_ok ∙ omega (arith, active-replicate Client config.pool_size),
          )
