-- ===== src/Storage/Engine.antt =====
-- crates/storage/src/engine.rs. The clock, the map behind the index and `rkyv` are arguments; the
-- static counter of segment ids is a field. Locks make each operation one step.
pub mod Segments
pub mod Storing
pub mod Upsert
use apfsds_rs.Base.{
  ℕ, ◌+◌, ◌*◌, ◌%◌, ◌^◌, ◌≡◌, Bool, true, false, List, [], ◌∷◌, ◌++◌, Option, none, some, Result,
  ok, err, and_then, length, ◌==◌, if◌then◌else◌,
}
use apfsds_rs.Base.Maps.{nat_eq, DashMap}
use apfsds_rs.Base.Rkyv.{Rkyv}
use apfsds_rs.Protocol.Auth.{ConnRecord, ConnMeta}
use apfsds_rs.Storage.Segment.{
  Segment, SegmentPtr, with_size_limit, append, read_at, size, record_count, seal,
}
use apfsds_rs.Storage.BLinkTree

pub data StorageError : Type 0 where
  segment_full not_found : StorageError
  serialization_error : List ℕ → StorageError

pub record StorageConfig : Type 0 where
  pub segment_size_limit : ℕ
  pub compaction_threshold : ℕ
  pub cleanup_interval : ℕ

abbrev pub default_config : StorageConfig
default_config = record {
  segment_size_limit = 10 * 1024 * 1024;
  compaction_threshold = 10;
  cleanup_interval = 300;
}

pub record StorageEngine (Map : Type 0) : Type 0 where
  pub active : Segment
  pub sealed : List Segment
  pub index : Map
  pub txid_counter : ℕ
  pub config : StorageConfig
  pub id_counter : ℕ

pub record StorageStats : Type 0 where
  pub active_segment_size : ℕ
  pub active_record_count : ℕ
  pub sealed_segment_count : ℕ
  pub total_indexed : ℕ

-- `upsert` keeps no earlier `created_at` and no count.
abbrev pub new_record : ℕ → ConnMeta → ℕ → ℕ → ConnRecord
new_record conn_id metadata now txid = record {
  conn_id = conn_id;
  metadata = metadata;
  created_at = now;
  last_active = now;
  access_count = 1;
  txid = txid;
}

unfoldable pub find_sealed : Rkyv ConnRecord → SegmentPtr → List Segment → Option ConnRecord
find_sealed k ptr [] = none
find_sealed k ptr (s ∷ sealed) =
    if ptr.segment_id == s.id then read_at k s ptr.offset else find_sealed k ptr sealed

module _ (k : Rkyv ConnRecord) (d : DashMap ℕ SegmentPtr) where
  unfoldable pub new : ℕ → StorageConfig → StorageEngine d.Map
  unfolding with_size_limit
  new id_counter config =
      let (segment, counter) = with_size_limit id_counter config.segment_size_limit in
      record {
        active = segment;
        sealed = [];
        index = BLinkTree.new d;
        txid_counter = 1;
        config = config;
        id_counter = counter;
      }

  -- The next id, and the engine after `fetch_add(1)`.
  unfoldable pub next_txid : StorageEngine d.Map → ℕ × StorageEngine d.Map
  next_txid e = (e.txid_counter, record e { txid_counter = (e.txid_counter + 1) % 2 ^ 64 })

  -- The rotation only logs when there are many sealed segments.
  unfoldable pub rotate_segment : StorageEngine d.Map → StorageEngine d.Map
  unfolding with_size_limit seal
  rotate_segment e =
      let (fresh, counter) = with_size_limit e.id_counter e.config.segment_size_limit in
      record e { active = fresh; sealed = e.sealed ++ seal e.active ∷ []; id_counter = counter }

  -- An append to the active segment, and the index entry if it was written.
  unfoldable pub try_store : StorageEngine d.Map → ConnRecord → StorageEngine d.Map × Bool
  try_store e r =
      let appended = append k e.active r in
      elim appended.1 [
        | none ↦ (e, false)
        | some offset ↦
            let segment = appended.0 in
            let ptr : SegmentPtr = record { segment_id = segment.id; offset = offset } in
            (record e { active = segment; index = BLinkTree.insert d e.index r.conn_id ptr }, true)
      ]

  unfoldable pub upsert :
      StorageEngine d.Map → ℕ → ConnMeta → ℕ → StorageEngine d.Map × Result StorageError ℕ
  upsert e conn_id metadata now =
      let (txid, e1) = next_txid e in
      let r = new_record conn_id metadata now txid in
      let first = try_store e1 r in
      let second = try_store (rotate_segment e1) r in
      if first.1
      then (first.0, ok txid)
      else (second.0, if second.1 then ok txid else err segment_full)

  unfoldable pub get : StorageEngine d.Map → ℕ → Option ConnRecord
  get e conn_id = and_then (BLinkTree.search d e.index conn_id) λ ptr.
      if ptr.segment_id == e.active.id
      then read_at k e.active ptr.offset
      else find_sealed k ptr e.sealed

  unfoldable pub delete : StorageEngine d.Map → ℕ → StorageEngine d.Map × Option SegmentPtr
  delete e conn_id =
      let (index, old) = BLinkTree.remove d e.index conn_id in (record e { index = index }, old)

  unfoldable pub stats : StorageEngine d.Map → StorageStats
  unfolding size record_count
  stats e = record {
    active_segment_size = size e.active;
    active_record_count = record_count e.active;
    sealed_segment_count = length e.sealed;
    total_indexed = BLinkTree.len d e.index;
  }
