-- ===== src/Tests/Raft.antt =====
-- The storage of the Raft log at concrete inputs.
use apfsds_rs.Base.{
  ℕ, ◌≡◌, refl, List, [], ◌∷◌, ◌++◌, Option, some, none, arith, length, take, ltb, ◌==◌,
  if◌then◌else◌,
}
use apfsds_rs.Storage.Wal.Codec.{frame, frames}
use apfsds_rs.Raft.Storage.{AsyncRaft, HardState, PersistentStorage, no_vote, restored, new}
use apfsds_rs.Raft.Storage.Recovery.{
  IsJson, Op, append_entry, replicate_entries, save_state, delete_logs, written, run, OnRecords,
  new-run, new-run_log,
}
use apfsds_rs.Raft.Storage.Torn.{new_torn}
use apfsds_rs.Tests.{count32, order, order-IsByteOrder, count32-IsCrc32}

abbrev read_pair : List ℕ → Option (ℕ × ℕ)
read_pair (tag ∷ term ∷ index ∷ []) = if tag == 123 then some (term, index) else none
read_pair _ = none

-- Entries that are a term and an index.
abbrev pairs : AsyncRaft
pairs = record {
  Entry = ℕ × ℕ;
  term = λ e. e.0;
  index = λ e. e.1;
  Membership = ℕ;
  new_initial = λ node_id. node_id;
  to_vec = λ e. 123 ∷ e.0 ∷ e.1 ∷ [];
  from_slice = read_pair;
  to_string = λ hs. hs.current_term ∷ [];
}

pairs-IsJson : IsJson pairs
pairs-IsJson = record { back = λ e. refl; no_entry = λ bytes. refl }

-- A node with one entry.
abbrev node : PersistentStorage pairs
node = record {
  node_id = 1;
  membership = 1;
  log = (1, 1) ∷ [];
  hard_state = no_vote;
  snapshot = none;
  wal = record { content = frames order count32 ((123 ∷ 1 ∷ 1 ∷ []) ∷ []); pos = 15 };
}

abbrev vote : HardState
vote = record { current_term = 2; voted_for = some 3 }

abbrev ops : List (Op (ℕ × ℕ))
ops = save_state vote ∷ append_entry (2, 2) ∷ replicate_entries ((2, 3) ∷ (2, 4) ∷ []) ∷ []

abbrev ops_with_delete : List (Op (ℕ × ℕ))
ops_with_delete = append_entry (2, 2) ∷ delete_logs 2 none ∷ append_entry (3, 2) ∷ []

node-OnRecords :
    OnRecords pairs order count32 pairs-IsJson order-IsByteOrder count32-IsCrc32 node
      ((123 ∷ 1 ∷ 1 ∷ []) ∷ [])
node-OnRecords = record { content = refl; at_end = refl; small = (omega arith, tt) }

new-run_example :
    new pairs order count32 1 ((run pairs order count32 node ops_with_delete).wal.content)
    ≡ some (record {
      node_id = 1;
      membership = 1;
      log = restored pairs ((123 ∷ 1 ∷ 1 ∷ []) ∷ []) ++ written pairs ops_with_delete;
      hard_state = no_vote;
      snapshot = none;
      wal = (run pairs order count32 node ops_with_delete).wal;
    })
new-run_example =
    new-run pairs order count32 pairs-IsJson order-IsByteOrder count32-IsCrc32 node
      ((123 ∷ 1 ∷ 1 ∷ []) ∷ []) ops_with_delete 1 node-OnRecords (omega arith, (omega arith, tt))

new-run_log_example :
    (s' : PersistentStorage pairs) × (new pairs order count32 1
        ((run pairs order count32 node ops).wal.content)
      ≡ some s')
    × (s'.log ≡ (run pairs order count32 node ops).log)
unfolding restored
new-run_log_example =
    new-run_log pairs order count32 pairs-IsJson order-IsByteOrder count32-IsCrc32 node
      ((123 ∷ 1 ∷ 1 ∷ []) ∷ []) ops 1 node-OnRecords refl
      (omega arith, (omega arith, (omega arith, (omega arith, tt)))) (refl, (refl, (refl, tt)))

abbrev cut : List ℕ
cut =
    frames order count32 ((123 ∷ 1 ∷ 1 ∷ []) ∷ [])
    ++ take 9 (frame order count32 (123 ∷ 2 ∷ 2 ∷ []))

new_torn_example :
    new pairs order count32 1 cut
    ≡ some (record {
      node_id = 1;
      membership = 1;
      log = if ltb 9 4 then restored pairs ((123 ∷ 1 ∷ 1 ∷ []) ∷ []) else [];
      hard_state = no_vote;
      snapshot = none;
      wal = record { content = cut; pos = length cut };
    })
new_torn_example =
    new_torn pairs order count32 order-IsByteOrder count32-IsCrc32 ((123 ∷ 1 ∷ 1 ∷ []) ∷ [])
      (123 ∷ 2 ∷ 2 ∷ []) 9 1 (omega arith, tt) (omega arith) (omega arith)
