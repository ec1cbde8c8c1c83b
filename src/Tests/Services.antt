-- ===== src/Tests/Services.antt =====
-- The services of the daemon, the database backup and the connection pool at concrete inputs.
use apfsds_rs.Base.{
  ℕ, zero, suc, ◌+◌, ◌≡◌, ◌≢◌, refl, true, false, List, [], ◌∷◌, ◌++◌, none, some, Result, ok, err,
  arith, length, take, drop, replicate, ◌==◌, if◌then◌else◌,
}
use apfsds_rs.Base.Maps.{DashMap, assoc_map, nat_eq}
use apfsds_rs.Base.Rkyv.{Rkyv}
use apfsds_rs.Protocol.Auth.{ConnMeta}
use apfsds_rs.Protocol.Frame.{GroupInfo, ControlMessage, group_list, group_select}
use apfsds_rs.Transport.Pool.{ConnectionPool, default_pool}
use apfsds_rs.Transport.Pool.Slots.{Degrades}
use apfsds_rs.Transport.Pool.Slots
use apfsds_rs.Transport.WebSocket.{Message}
use apfsds_rs.Storage.ClickHouse.{ClickHouseBackup, ConnectionRecord, default_config}
use apfsds_rs.Storage.ClickHouse.Batches.{Keeps, recorded}
use apfsds_rs.Storage.ClickHouse.Batches
use apfsds_rs.Daemon.Billing.{Usage}
use apfsds_rs.Daemon.Billing.Conservation.{sum_for, used}
use apfsds_rs.Daemon.Billing.Conservation
use apfsds_rs.Daemon.ExitNodePool.{
  ExitNodeConnection, ExitNodePool, new, register, unregister, get, count,
}
use apfsds_rs.Daemon.ExitNodePool.Identity.{Op, register_op, unregister_op, steps, register-Fresh}

abbrev nodes : DashMap ℕ ExitNodeConnection
nodes = assoc_map ℕ ExitNodeConnection

abbrev iter : List (ℕ × ExitNodeConnection) → List (ℕ × ExitNodeConnection)
iter entries = entries

-- Two nodes come, the first goes.
abbrev history : List (Op nodes iter)
history = register_op (1 ∷ []) 0 11 ∷ register_op (2 ∷ []) 2 12 ∷ unregister_op 1 ∷ []

abbrev pool : ExitNodePool (nodes.Map)
pool = steps nodes iter (new nodes iter) history

abbrev registered : ExitNodePool (nodes.Map) × ℕ
registered = register nodes iter pool (3 ∷ []) 1 13

register-Fresh_example :
    (get nodes iter pool (registered.1) ≡ none)
    × (get nodes iter (registered.0) (registered.1)
        ≡ some (record { node_id = registered.1; name = 3 ∷ []; group_id = 1; sender = 13 }))
    × ((id : ℕ) → id ≢ registered.1 → get nodes iter (registered.0) id ≡ get nodes iter pool id)
    × (count nodes iter (registered.0) ≡ count nodes iter pool + 1)
register-Fresh_example = register-Fresh nodes iter history (3 ∷ []) 1 13 (omega arith)

pool_values : (registered.1 ≡ 3) × (count nodes iter pool ≡ 1)
unfolding new register unregister count
pool_values = (refl, refl)

-- The messages about groups: every name behind its length.
abbrev write_groups : List GroupInfo → List ℕ
write_groups [] = []
write_groups (g ∷ groups) =
    g.group_id ∷ g.node_count ∷ g.load ∷ length g.name ∷ g.name ++ write_groups groups

abbrev write_control : ControlMessage → Result (List ℕ) (List ℕ)
write_control (group_list groups) = ok (6 ∷ length groups ∷ write_groups groups)
write_control (group_select group_id) = ok (7 ∷ group_id ∷ [])
write_control _ = err []

abbrev with_group :
    ℕ → ℕ → ℕ → List ℕ → Result (List ℕ) (List GroupInfo) → Result (List ℕ) (List GroupInfo)
with_group id members load name (ok groups) =
    ok (record { group_id = id; name = name; node_count = members; load = load } ∷ groups)
with_group id members load name (err e) = err e

abbrev read_groups : ℕ → List ℕ → Result (List ℕ) (List GroupInfo)
read_groups zero bytes = ok []
read_groups (suc n) (id ∷ members ∷ load ∷ size ∷ bytes) =
    with_group id members load (take size bytes) (read_groups n (drop size bytes))
read_groups (suc n) _ = err []

abbrev as_list : Result (List ℕ) (List GroupInfo) → Result (List ℕ) ControlMessage
as_list (ok groups) = ok (group_list groups)
as_list (err e) = err e

abbrev read_control : List ℕ → Result (List ℕ) ControlMessage
read_control (kind ∷ n ∷ bytes) =
    if kind == 6 then as_list (read_groups n bytes) else ok (group_select n)
read_control _ = err []

abbrev control : Rkyv ControlMessage
control = record {
  Archived = List ℕ;
  to_bytes = write_control;
  access = λ bytes. ok bytes;
  deserialize = read_control;
}

-- The groups that the handler lists when one node, in group 2, is connected.
abbrev listing : List ℕ
listing =
    6 ∷ 3 ∷ 0 ∷ 0 ∷ 50 ∷ 7 ∷ 68 ∷ 101 ∷ 102 ∷ 97 ∷ 117 ∷ 108 ∷ 116 ∷ 1 ∷ 0 ∷ 30 ∷ 7 ∷ 80 ∷ 114 ∷ 101
    ∷ 109 ∷ 105 ∷ 117 ∷ 109 ∷ 2 ∷ 1 ∷ 60 ∷ 4 ∷ 65 ∷ 115 ∷ 105 ∷ 97 ∷ []

abbrev takes : Message → Result (List ℕ) (Unit {0})
takes m = ok tt

-- The last flush fails; the calls are there all the same.
abbrev usage_ops : List Conservation.Op
usage_ops =
    Conservation.record_op 5 100
    ∷ Conservation.record_op 6 1
    ∷ Conservation.flush_op (λ user bytes. true)
    ∷ Conservation.record_op 5 20
    ∷ Conservation.flush_op (λ user bytes. false)
    ∷ Conservation.record_op 5 3
    ∷ []

run-conserves_example :
    let s : Usage × List (ℕ × ℕ) = Conservation.run [] [] usage_ops in
    sum_for 5 (s.1) + sum_for 5 (s.0) ≡ 0 + 0 + 123
run-conserves_example = Conservation.run-conserves [] [] usage_ops (λ user. ground arith) 5

abbrev backup : ClickHouseBackup
backup = record {
  config = record default_config { enabled = true; batch_size = 2 };
  buffer = [];
  raft_buffer = [];
}

abbrev meta : ConnMeta
meta = record {
  client_addr = replicate 12 0 ++ (10 ∷ 0 ∷ 0 ∷ 7 ∷ []);
  nat_entry = (1, 2);
  assigned_pod = 3;
  stream_states = [];
}

abbrev insert : List ConnectionRecord → Result (List ℕ) (Unit {0})
insert records = err []

abbrev backup_ops : List Batches.Op
backup_ops =
    Batches.record_op insert 1 meta 10
    ∷ Batches.record_op insert 2 meta 20
    ∷ Batches.record_op insert 3 meta 30
    ∷ []

run-Keeps_example : Keeps backup (recorded backup_ops) (Batches.run backup backup_ops)
run-Keeps_example = Batches.run-Keeps backup backup_ops refl

-- One client of two fails, and its slot stays empty.
abbrev connections : ConnectionPool ℕ
connections = record {
  config = record default_pool { pool_size = 2 };
  connections = some 1 ∷ some 2 ∷ [];
  robin_counter = 0;
  closed = false;
}

abbrev fails : ℕ → Result ℕ (ℕ × ℕ)
fails client = err client

abbrev serves : ℕ → Result ℕ (ℕ × ℕ)
serves client = ok (client, client)

run-Degrades_example :
    (q : ConnectionPool ℕ) × (Slots.run (fails ∷ serves ∷ serves ∷ []) connections ≡ some q)
    × Degrades connections q
run-Degrades_example =
    Slots.run-Degrades (fails ∷ serves ∷ serves ∷ []) connections (omega arith) refl
