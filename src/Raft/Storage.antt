-- ===== src/Raft/Storage.antt =====
-- crates/raft/src/storage.rs and types.rs, over the log of crates/storage/src/wal.rs. The packages
-- `async-raft` and `serde_json` are an argument. Writing to ClickHouse changes no state that is
-- read here, and is left out.
pub mod Recovery
pub mod Ranges
pub mod Torn
use apfsds_rs.Base.{
  ℕ, ◌≡◌, Bool, true, false, not, ◌&&◌, ◌||◌, List, [], ◌∷◌, ◌++◌, Option, none, some, Result, ok,
  err, and_then, ltb, leb, if◌then◌else◌,
}
use apfsds_rs.Storage.Wal.{ByteOrder, File, open_file, read_all}
use apfsds_rs.Storage.Wal

pub data ClientRequest : Type 0 where
  -- conn_id, client_addr, nat_entry, assigned_pod
  upsert : ℕ → List ℕ → ℕ × ℕ → ℕ → ClientRequest
  delete : ℕ → ClientRequest
  cleanup : ℕ → ClientRequest
  noop : ClientRequest

pub data ClientResponse : Type 0 where
  affected : ℕ → ClientResponse
  error : List ℕ → ClientResponse

-- The records of `async-raft` that the code builds field by field.
pub record HardState : Type 0 where
  pub current_term : ℕ
  pub voted_for : Option ℕ

pub record InitialState (Membership : Type 0) : Type 0 where
  pub last_log_term : ℕ
  pub last_log_index : ℕ
  pub last_applied_log : ℕ
  pub hard_state : HardState
  pub membership : Membership

pub record Snapshot (Membership : Type 0) : Type 0 where
  pub term : ℕ
  pub index : ℕ
  pub membership : Membership
  pub content : List ℕ

-- Entries and memberships of `async-raft`, and the JSON that `serde_json` makes of them.
pub record AsyncRaft : Type 1 where
  pub Entry : Type 0
  pub term : Entry → ℕ
  pub index : Entry → ℕ
  pub Membership : Type 0
  pub new_initial : ℕ → Membership
  pub to_vec : Entry → List ℕ
  pub from_slice : List ℕ → Option Entry
  pub to_string : HardState → List ℕ

pub record PersistentStorage (r : AsyncRaft) : Type 0 where
  pub node_id : ℕ
  pub membership : r.Membership
  pub log : List r.Entry
  pub hard_state : HardState
  pub snapshot : Option (Snapshot r.Membership)
  pub wal : File

abbrev pub no_vote : HardState
no_vote = record { current_term = 0; voted_for = none }

-- "__HARDSTATE__:".
abbrev pub marker : List ℕ
marker = 95 ∷ 95 ∷ 72 ∷ 65 ∷ 82 ∷ 68 ∷ 83 ∷ 84 ∷ 65 ∷ 84 ∷ 69 ∷ 95 ∷ 95 ∷ 58 ∷ []

abbrev pub filter : {A : Type 0} → (A → Bool) → List A → List A
filter p [] = []
filter p (a ∷ rest) = let kept = filter p rest in if p a then a ∷ kept else kept

abbrev last : {A : Type 0} → List A → Option A
last [] = none
last (a ∷ []) = some a
last (a ∷ b ∷ rest) = last (b ∷ rest)

abbrev pub prepend : {A : Type 0} → Option A → List A → List A
prepend none rest = rest
prepend (some a) rest = a ∷ rest

module _ (r : AsyncRaft) where
  -- The entries among what the log holds.
  unfoldable pub restored : List (List ℕ) → List r.Entry
  restored [] = []
  restored (bytes ∷ entries) = prepend (r.from_slice bytes) (restored entries)

  -- `if let Ok(entries) = wal.read_all()`.
  abbrev restored_log : Result Wal.IoError (List (List ℕ)) → List r.Entry
  restored_log (ok entries) = restored entries
  restored_log (err e) = []

  unfoldable pub get_membership_config : PersistentStorage r → r.Membership
  get_membership_config s = s.membership

  abbrev last_id : Option r.Entry → ℕ × ℕ
  last_id none = (0, 0)
  last_id (some e) = (r.term e, r.index e)

  unfoldable pub get_initial_state : PersistentStorage r → InitialState r.Membership
  get_initial_state s =
      let (last_log_term, last_log_index) = last_id (last s.log) in
      record {
        last_log_term = last_log_term;
        last_log_index = last_log_index;
        last_applied_log = last_log_index;
        hard_state = s.hard_state;
        membership = s.membership;
      }

  unfoldable pub get_log_entries : PersistentStorage r → ℕ → ℕ → List r.Entry
  get_log_entries s start stop = filter (λ e. leb start (r.index e) && ltb (r.index e) stop) s.log

  -- Nothing is written to the file.
  unfoldable pub delete_logs_from : PersistentStorage r → ℕ → Option ℕ → PersistentStorage r
  delete_logs_from s start none = record s { log = filter (λ e. ltb (r.index e) start) s.log }
  delete_logs_from s start (some stop_idx) = record s {
    log = filter (λ e. ltb (r.index e) start || leb stop_idx (r.index e)) s.log;
  }

  unfoldable pub apply_entry_to_state_machine : ClientRequest → ClientResponse
  apply_entry_to_state_machine (upsert conn_id client_addr nat_entry assigned_pod) = affected 1
  apply_entry_to_state_machine (delete conn_id) = affected 1
  apply_entry_to_state_machine (cleanup before_timestamp) = affected 0
  apply_entry_to_state_machine noop = affected 0

  unfoldable pub do_log_compaction : PersistentStorage r → Snapshot r.Membership
  do_log_compaction s = record { term = 0; index = 0; membership = s.membership; content = [] }

  unfoldable pub get_current_snapshot : PersistentStorage r → Option (Snapshot r.Membership)
  get_current_snapshot s = s.snapshot

  module _ (bo : ByteOrder) (crc32 : List ℕ → ℕ) where
    -- On a file with these bytes; `none` if reading the log does not end.
    unfoldable pub new : ℕ → List ℕ → Option (PersistentStorage r)
    new node_id content = and_then (read_all bo crc32 (open_file content)) λ q. some (record {
      node_id = node_id;
      membership = r.new_initial node_id;
      log = restored_log q.0;
      hard_state = no_vote;
      snapshot = none;
      wal = q.1;
    })

    unfoldable pub save_hard_state : PersistentStorage r → HardState → PersistentStorage r
    save_hard_state s hs = record s {
      hard_state = hs;
      wal = (Wal.append bo crc32 s.wal (marker ++ r.to_string hs)).0;
    }

    unfoldable pub append_entry_to_log : PersistentStorage r → r.Entry → PersistentStorage r
    append_entry_to_log s entry = record s {
      log = s.log ++ entry ∷ [];
      wal = (Wal.append bo crc32 s.wal (r.to_vec entry)).0;
    }

    -- The loop over the batch.
    unfoldable pub append_batch : File → List r.Entry → File
    append_batch f [] = f
    append_batch f (entry ∷ entries) =
        append_batch (Wal.append bo crc32 f (r.to_vec entry)).0 entries

    unfoldable pub replicate_to_log : PersistentStorage r → List r.Entry → PersistentStorage r
    replicate_to_log s entries = record s {
      log = s.log ++ entries;
      wal = append_batch s.wal entries;
    }
