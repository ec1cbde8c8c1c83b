-- ===== src/Storage/BLinkTree.antt =====
-- crates/storage/src/blink_tree.rs: the index from connections to places in segments, a `DashMap`.
use apfsds_rs.Base.{ℕ, Bool, Option, ◌==◌}
use apfsds_rs.Base.Maps.{nat_eq, DashMap}
use apfsds_rs.Storage.Segment.{SegmentPtr}

module _ (d : DashMap ℕ SegmentPtr) where
  abbrev pub new : d.Map
  new = d.empty

  abbrev pub insert : d.Map → ℕ → SegmentPtr → d.Map
  insert index conn_id ptr = d.insert conn_id ptr index

  abbrev pub search : d.Map → ℕ → Option SegmentPtr
  search index conn_id = d.get conn_id index

  abbrev pub remove : d.Map → ℕ → d.Map × Option SegmentPtr
  remove index conn_id = (d.remove conn_id index, d.get conn_id index)

  abbrev pub len : d.Map → ℕ
  len index = d.len index

  abbrev pub is_empty : d.Map → Bool
  is_empty index = d.len index == 0
