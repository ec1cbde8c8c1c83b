-- ===== src/Storage/ClickHouse.antt =====
-- crates/storage/src/clickhouse_backup.rs. The package `clickhouse` is an argument: its answer to an
-- insert, from `insert` over all `write`s to `end`. The clock is an argument.
pub mod Batches
use apfsds_rs.Base.{
  ℕ, String, ◌+◌, ◌*◌, ◌/◌, ◌%◌, ◌^◌, Bool, true, false, List, [], ◌∷◌, ◌++◌, Option, none, some,
  Result, ok, err, length, get_or, ltb, leb, if◌then◌else◌,
}
use apfsds_rs.Protocol.Auth.{ConnMeta}

pub data ClickHouseError : Type 0 where
  connection_failed query_failed serialization_error : List ℕ → ClickHouseError
  not_enabled : ClickHouseError

pub record ClickHouseConfig : Type 0 where
  pub enabled : Bool
  pub url : String
  pub database : String
  pub table : String
  pub username : Option String
  pub password : Option String
  pub batch_size : ℕ
  -- in nanoseconds
  pub flush_interval : ℕ

abbrev pub default_config : ClickHouseConfig
default_config = record {
  enabled = false;
  url = "http://localhost:8123";
  database = "apfsds";
  table = "connections";
  username = none;
  password = none;
  batch_size = 1000;
  flush_interval = 5 * 10 ^ 9;
}

pub record ConnectionRecord : Type 0 where
  pub conn_id : ℕ
  pub client_addr : List ℕ
  pub local_port : ℕ
  pub remote_port : ℕ
  pub assigned_pod : ℕ
  pub created_at : ℕ

pub record RaftLogRecord : Type 0 where
  pub index : ℕ
  pub term : ℕ
  pub operation : String
  pub payload : String
  pub created_at : ℕ

-- A byte in decimal.
abbrev pub byte_text : ℕ → List ℕ
byte_text n =
    if ltb n 10
    then (48 + n) ∷ []
    else if ltb n 100
    then (48 + n / 10) ∷ (48 + n % 10) ∷ []
    else (48 + n / 100) ∷ (48 + n / 10 % 10) ∷ (48 + n % 10) ∷ []

-- The last four bytes of the address, with dots.
unfoldable pub from_conn_meta : ℕ → ConnMeta → ℕ → ConnectionRecord
from_conn_meta conn_id meta timestamp =
    let octet : ℕ → List ℕ = λ i. byte_text (get_or meta.client_addr i 0) in
    record {
      conn_id = conn_id;
      client_addr = octet 12 ++ (46 ∷ octet 13 ++ (46 ∷ octet 14 ++ (46 ∷ octet 15)));
      local_port = meta.nat_entry.0;
      remote_port = meta.nat_entry.1;
      assigned_pod = meta.assigned_pod;
      created_at = timestamp;
    }

pub record ClickHouseBackup : Type 0 where
  pub config : ClickHouseConfig
  pub buffer : List ConnectionRecord
  pub raft_buffer : List RaftLogRecord

unfoldable pub new : ClickHouseConfig → ClickHouseBackup
new config = record { config = config; buffer = []; raft_buffer = [] }

-- The client exists where the setting says so.
unfoldable pub is_enabled : ClickHouseBackup → Bool
is_enabled b = b.config.enabled

unfoldable pub buffered_count : ClickHouseBackup → ℕ
buffered_count b = length b.buffer

-- A batch, and the answer of `flush`.
abbrev pub Flushed : Type 0 → Type 0
Flushed R = List R × Result ClickHouseError ℕ

abbrev pub insert_answer :
    {R : Type 0} → (List R → Result (List ℕ) (Unit {0})) → List R → Result ClickHouseError ℕ
insert_answer insert [] = ok 0
insert_answer insert (r ∷ records) = elim (insert (r ∷ records)) [
  | ok _ ↦ ok (length (r ∷ records))
  | err e ↦ err (query_failed e)
]

abbrev pub forget_count : Result ClickHouseError ℕ → Result ClickHouseError (Unit {0})
forget_count (ok count) = ok tt
forget_count (err e) = err e

-- The state, the batch that was given to the database, and the answer.
unfoldable pub flush :
    (List ConnectionRecord → Result (List ℕ) (Unit {0}))
    → ClickHouseBackup
    → ClickHouseBackup × Flushed ConnectionRecord
unfolding is_enabled
flush insert b =
    if is_enabled b
    then (record b { buffer = [] }, (b.buffer, insert_answer insert b.buffer))
    else (b, ([], ok 0))

unfoldable pub flush_raft_logs :
    (List RaftLogRecord → Result (List ℕ) (Unit {0}))
    → ClickHouseBackup
    → ClickHouseBackup × Flushed RaftLogRecord
unfolding is_enabled
flush_raft_logs insert b =
    if is_enabled b
    then (record b { raft_buffer = [] }, (b.raft_buffer, insert_answer insert b.raft_buffer))
    else (b, ([], ok 0))

unfoldable pub record_connection :
    (List ConnectionRecord → Result (List ℕ) (Unit {0}))
    → ClickHouseBackup
    → ℕ
    → ConnMeta
    → ℕ
    → ClickHouseBackup × List ConnectionRecord × Result ClickHouseError (Unit {0})
unfolding flush from_conn_meta is_enabled
record_connection insert b conn_id meta now =
    let pushed : ClickHouseBackup = record b {
      buffer = b.buffer ++ (from_conn_meta conn_id meta now ∷ []);
    } in
    let flushed : ClickHouseBackup × Flushed ConnectionRecord = flush insert pushed in
    if is_enabled b
    then if leb b.config.batch_size (length pushed.buffer)
      then (flushed.0, flushed.1.0, forget_count flushed.1.1)
      else (pushed, [], ok tt)
    else (b, [], ok tt)

unfoldable pub archive_raft_log :
    (List RaftLogRecord → Result (List ℕ) (Unit {0}))
    → ClickHouseBackup
    → RaftLogRecord
    → ClickHouseBackup × List RaftLogRecord × Result ClickHouseError (Unit {0})
unfolding flush_raft_logs is_enabled
archive_raft_log insert b entry =
    let pushed : ClickHouseBackup = record b { raft_buffer = b.raft_buffer ++ (entry ∷ []) } in
    let flushed : ClickHouseBackup × Flushed RaftLogRecord = flush_raft_logs insert pushed in
    if is_enabled b
    then if leb b.config.batch_size (length pushed.raft_buffer)
      then (flushed.0, flushed.1.0, forget_count flushed.1.1)
      else (pushed, [], ok tt)
    else (b, [], ok tt)
