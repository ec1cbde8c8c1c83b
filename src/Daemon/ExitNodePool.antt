-- ===== src/Daemon/ExitNodePool.antt =====
-- daemon/src/exit_node_pool.rs: the exit nodes that have connected to the handler. A channel is its
-- number, a name is bytes, a group is the bit pattern of an `i32`.
pub mod Identity
use apfsds_rs.Base.{ℕ, ◌+◌, ◌%◌, ◌^◌, Bool, List, [], ◌∷◌, Option, none, some, ◌==◌, if◌then◌else◌}
use apfsds_rs.Base.Maps.{DashMap, nat_eq}

pub record ExitNodeConnection : Type 0 where
  pub node_id : ℕ
  pub name : List ℕ
  pub group_id : ℕ
  pub sender : ℕ

pub record ExitNodePool (Map : Type 0) : Type 0 where
  pub connections : Map
  pub next_id : ℕ

abbrev pub in_group : ℕ → List (ℕ × ExitNodeConnection) → List ℕ
in_group group_id [] = []
in_group group_id ((id, conn) ∷ entries) =
    let rest = in_group group_id entries in if conn.group_id == group_id then id ∷ rest else rest

abbrev pub first_of : List ℕ → Option ℕ
first_of [] = none
first_of (id ∷ ids) = some id

-- `iter` is the map's, in an order of its own.
module _ (d : DashMap ℕ ExitNodeConnection) (iter : d.Map → List (ℕ × ExitNodeConnection)) where
  unfoldable pub new : ExitNodePool d.Map
  new = record { connections = d.empty; next_id = 1 }

  unfoldable pub register : ExitNodePool d.Map → List ℕ → ℕ → ℕ → ExitNodePool d.Map × ℕ
  register p name group_id sender =
      let conn : ExitNodeConnection = record {
        node_id = p.next_id;
        name = name;
        group_id = group_id;
        sender = sender;
      } in
      (
        record {
          connections = d.insert p.next_id conn p.connections;
          next_id = (p.next_id + 1) % 2 ^ 64;
        },
        p.next_id,
      )

  unfoldable pub unregister : ExitNodePool d.Map → ℕ → ExitNodePool d.Map
  unregister p node_id = record p { connections = d.remove node_id p.connections }

  unfoldable pub get : ExitNodePool d.Map → ℕ → Option ExitNodeConnection
  get p node_id = d.get node_id p.connections

  unfoldable pub get_group_nodes : ExitNodePool d.Map → ℕ → List ℕ
  get_group_nodes p group_id = in_group group_id (iter p.connections)

  unfoldable pub select_by_group : ExitNodePool d.Map → ℕ → Option ℕ
  select_by_group p group_id = first_of (in_group group_id (iter p.connections))

  unfoldable pub count : ExitNodePool d.Map → ℕ
  count p = d.len p.connections
