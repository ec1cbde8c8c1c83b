-- ===== src/Transport/ExitPool.antt =====
-- crates/transport/src/exit_pool.rs, with `forward` and the health flag of exit_client.rs. What a
-- request to an exit node meets is an argument; texts of errors are left out.
pub mod Attempts
pub mod Rotation
pub mod Health
pub mod Delivered
use apfsds_rs.Base.{
  ℕ, zero, suc, ◌+◌, ◌%◌, ◌^◌, ◌≡◌, Bool, true, false, List, [], ◌∷◌, ◌++◌, Option, none, some,
  Result, ok, err, length, set, ◌==◌, if◌then◌else◌,
}
use apfsds_rs.Base.Maps.{nat_eq, assoc_get, assoc_insert}

pub data ExitClientError : Type 0 where
  connection_failed request_failed serialization_error timeout unhealthy : ExitClientError

pub record ExitClient : Type 0 where
  pub base_url : List ℕ
  pub healthy : Bool

pub record GroupPool : Type 0 where
  pub clients : List ExitClient
  pub next_index : ℕ

-- What sending the packet to a node meets: success, an error status, no answer, or a packet that does
-- not serialise.
pub data Reply : Type 0 where
  delivered refused unreachable unserialized : Reply

-- `ExitClient::forward`; a node that does not answer is marked unhealthy.
unfoldable pub send : ExitClient → Reply → ExitClient × Result ExitClientError (Unit {0})
send c reply =
    if c.healthy
    then (elim reply [
      | delivered ↦ (c, ok tt)
      | refused ↦ (c, err request_failed)
      | unreachable ↦ (record c { healthy = false }, err request_failed)
      | unserialized ↦ (c, err serialization_error)
    ])
    else (c, err unhealthy)

abbrev pub client_at : List ExitClient → ℕ → Option ExitClient
client_at [] i = none
client_at (c ∷ cs) zero = some c
client_at (c ∷ cs) (suc i) = client_at cs i

-- One attempt: the clients after it, and whether the packet was forwarded. The loop asks the flag, and
-- so does `send`.
abbrev pub attempt_with : Option ExitClient → Reply → List ExitClient → ℕ → List ExitClient × Bool
attempt_with none reply cs index = (cs, false)
attempt_with (some c) reply cs index =
    let sent = send c reply in
    if c.healthy
    then (set cs index sent.0, elim sent.1 [ ok u ↦ true | err e ↦ false ])
    else (cs, false)

abbrev pub attempt : (ℕ → Reply) → List ExitClient → ℕ → List ExitClient × Bool
attempt replies cs index = attempt_with (client_at cs index) (replies index) cs index

-- The loop, with the attempts left and made; `some index` is the client that took the packet.
unfoldable pub try_clients : (ℕ → Reply) → ℕ → ℕ → ℕ → List ExitClient → List ExitClient × Option ℕ
try_clients replies start zero attempts cs = (cs, none)
try_clients replies start (suc left) attempts cs =
    let index = (start + attempts) % length cs in
    let tried = attempt replies cs index in
    let rest = try_clients replies start left (attempts + 1) tried.0 in
    if tried.1 then (tried.0, some index) else rest

-- A group that is there: the round-robin over its clients.
unfoldable pub forward_in : (ℕ → Reply) → GroupPool → GroupPool × Result ExitClientError ℕ
forward_in replies g =
    let n = length g.clients in
    let tried = try_clients replies (g.next_index % n) n 0 g.clients in
    if n == 0 then (g, err connection_failed) else (
      record { clients = tried.0; next_index = (g.next_index + 1) % 2 ^ 64 },
      elim tried.1 [ none ↦ err connection_failed | some index ↦ ok index ],
    )

-- The key of the group that serves a request: its own or the default group 0.
unfoldable pub serving : List (ℕ × GroupPool) → ℕ → Option (ℕ × GroupPool)
serving groups group_id = elim (assoc_get group_id groups) [
  | some g ↦ some (group_id, g)
  | none ↦ elim (assoc_get 0 groups) [ none ↦ none | some g ↦ some (0, g) ]
]

unfoldable pub forward :
    (ℕ → Reply) → List (ℕ × GroupPool) → ℕ → List (ℕ × GroupPool) × Result ExitClientError ℕ
forward replies groups group_id = elim (serving groups group_id) [
  | none ↦ (groups, err connection_failed)
  | some (id, g) ↦ let sent = forward_in replies g in (assoc_insert id sent.0 groups, sent.1)
]

-- A node that is added: healthy, at the end of its group.
unfoldable pub add_node : List (ℕ × GroupPool) → List ℕ → ℕ → List (ℕ × GroupPool)
add_node groups url group_id =
    let client : ExitClient = record { base_url = url; healthy = true } in
    elim (assoc_get group_id groups) [
      | none ↦ assoc_insert group_id (record { clients = client ∷ []; next_index = 0 }) groups
      | some g ↦ assoc_insert group_id (record g { clients = g.clients ++ client ∷ [] }) groups
    ]
