-- ===== src/Tests/Storage.antt =====
-- The segments, the engine and the log at concrete inputs.
use apfsds_rs.Base.{
  ℕ, ◌≡◌, refl, false, List, [], ◌∷◌, ◌++◌, some, Result, ok, err, arith, ltb, length, take, ◌==◌,
  if◌then◌else◌,
}
use apfsds_rs.Base.Maps.{nat_eq, DashMap, assoc_map}
use apfsds_rs.Protocol.Auth.{ConnRecord, ConnMeta}
use apfsds_rs.Storage.Segment.{Segment, SegmentPtr, seal, first_above, append, read_at}
use apfsds_rs.Storage.Segment.Reads.{OffsetsInside, Appended, append-Appended}
use apfsds_rs.Storage.Engine.{
  StorageEngine, StorageConfig, new_record, find_sealed, new, next_txid, try_store, rotate_segment,
  upsert, get,
}
use apfsds_rs.Storage.Engine.Segments.{Inv}
use apfsds_rs.Storage.Engine.Upsert.{Upserted, fits_active, upsert_succeeds, upsert-Upserted}
use apfsds_rs.Storage.Wal
use apfsds_rs.Storage.Wal.{ByteOrder, File, IoError, unexpected_eof, open_file, read_all}
use apfsds_rs.Storage.Wal.Codec.{frame, frames}
use apfsds_rs.Storage.Wal.Replay.{read_all-returns, append_all, read_all-append_all}
use apfsds_rs.Storage.Wal.Faults.{read_all_torn}
use apfsds_rs.Storage.Wal.Overwrite.{append-open_file}
use apfsds_rs.Tests.{
  order, order-IsByteOrder, count32-IsCrc32, count32, record_rkyv, record_rkyv-RoundTrips,
  record_rkyv-NotEmpty,
}

abbrev meta : ConnMeta
meta = record {
  client_addr = 1 ∷ 2 ∷ [];
  nat_entry = (1000, 2000);
  assigned_pod = 3;
  stream_states = [];
}

abbrev first : ConnRecord
first = new_record 5 meta 100 1

-- A segment that holds one record.
abbrev segment : Segment
segment = record {
  id = 1;
  bytes = 5 ∷ 1000 ∷ 2000 ∷ 3 ∷ 100 ∷ 100 ∷ 1 ∷ 1 ∷ 1 ∷ 2 ∷ [];
  offsets = 0 ∷ [];
  is_sealed = false;
  size_limit = 40;
}

abbrev second : ConnRecord
second = new_record 6 meta 200 2

abbrev longer : Segment
longer = record segment {
  bytes = (segment.bytes) ++ 6 ∷ 1000 ∷ 2000 ∷ 3 ∷ 200 ∷ 200 ∷ 1 ∷ 2 ∷ 1 ∷ 2 ∷ [];
  offsets = 0 ∷ 10 ∷ [];
}

appended : append record_rkyv segment second ≡ (longer, some 10)
unfolding append
appended = refl

second-Appended : Appended record_rkyv segment longer second 10
second-Appended = append-Appended record_rkyv segment longer second 10 appended

segment-OffsetsInside : OffsetsInside segment
segment-OffsetsInside = (omega arith, tt)

abbrev index : DashMap ℕ SegmentPtr
index = assoc_map ℕ SegmentPtr

abbrev small : StorageConfig
small = record { segment_size_limit = 15; compaction_threshold = 10; cleanup_interval = 300 }

-- One record fills most of a segment, so the second opens another.
abbrev engine : StorageEngine (index.Map)
engine = record {
  active = record segment { size_limit = 15 };
  sealed = [];
  index = (5, record { segment_id = 1; offset = 0 }) ∷ [];
  txid_counter = 2;
  config = small;
  id_counter = 2;
}

engine-Inv : Inv index engine
engine-Inv = record {
  older = tt;
  fresh = omega arith;
  inside = (omega arith, tt);
  known = λ j p h. ground arith;
  within = λ j p h s. ground arith;
}

engine_values :
    (upsert record_rkyv index (new record_rkyv index 1 small) 5 meta 100 ≡ (engine, ok 1))
    × (length ((upsert record_rkyv index engine 6 meta 200).0.sealed) ≡ 1)
    × (get record_rkyv index (upsert record_rkyv index engine 6 meta 200).0 5 ≡ some first)
unfolding upsert new get try_store append next_txid rotate_segment find_sealed read_at first_above
engine_values = (refl, refl, refl)

abbrev archived : List ℕ
archived = 6 ∷ 1000 ∷ 2000 ∷ 3 ∷ 200 ∷ 200 ∷ 1 ∷ 2 ∷ 1 ∷ 2 ∷ []

upsert_succeeds_example :
    ((upsert record_rkyv index engine 6 meta 200).1 ≡ ok (engine.txid_counter))
    × Inv index (upsert record_rkyv index engine 6 meta 200).0
    × ((j : ℕ)
        → get record_rkyv index (upsert record_rkyv index engine 6 meta 200).0 j ≡ (
            if 6 == j
            then some (new_record 6 meta 200 (engine.txid_counter))
            else get record_rkyv index engine j))
    × ((upsert record_rkyv index engine 6 meta 200).0.sealed ≡ (
        if fits_active record_rkyv index engine archived
        then engine.sealed
        else engine.sealed ++ seal (engine.active) ∷ []))
upsert_succeeds_example =
    upsert_succeeds record_rkyv index record_rkyv-RoundTrips record_rkyv-NotEmpty engine-Inv
      (omega arith) 6 meta 200 archived refl (omega arith)

upsert-Upserted_example :
    Upserted record_rkyv index engine 6 meta 200 (upsert record_rkyv index engine 6 meta 200)
upsert-Upserted_example =
    upsert-Upserted record_rkyv index record_rkyv-RoundTrips record_rkyv-NotEmpty engine-Inv
      (omega arith) 6 meta 200

abbrev one : List ℕ
one = 7 ∷ 8 ∷ []

abbrev two : List ℕ
two = 9 ∷ []

abbrev three : List ℕ
three = 4 ∷ 4 ∷ []

-- A log with one entry, at its end.
abbrev log : File
log = record { content = frames order count32 (one ∷ []); pos = 14 }

abbrev grown : File
grown = append_all order count32 log (two ∷ three ∷ [])

read_all-returns_example :
    (r : Result IoError (List (List ℕ)) × File) × (read_all order count32 log ≡ some r)
read_all-returns_example = read_all-returns order count32 log

read_all-append_all_example :
    (read_all order count32 grown ≡ some (ok (one ∷ two ∷ three ∷ []), grown))
    × (read_all order count32 (open_file (grown.content))
        ≡ some (ok (one ∷ two ∷ three ∷ []), grown))
read_all-append_all_example =
    read_all-append_all order count32 order-IsByteOrder count32-IsCrc32 log (one ∷ [])
      (two ∷ three ∷ []) refl refl (omega arith, tt) (omega arith, (omega arith, tt))

abbrev cut : List ℕ
cut = frames order count32 (one ∷ []) ++ take 6 (frame order count32 two)

read_all_torn_example :
    read_all order count32 (open_file cut)
    ≡ some (
      (if ltb 6 4 then ok (one ∷ []) else err unexpected_eof),
      record { content = cut; pos = length cut },
    )
read_all_torn_example =
    read_all_torn order count32 order-IsByteOrder count32-IsCrc32 (one ∷ []) two 6 (omega arith, tt)
      (omega arith) (omega arith)

abbrev overwritten : File
overwritten = (Wal.append order count32 (open_file (frames order count32 (one ∷ two ∷ []))) three).0

append-open_file_example :
    read_all order count32 overwritten
    ≡ some (ok (three ∷ two ∷ []), record overwritten { pos = length (overwritten.content) })
append-open_file_example =
    append-open_file order count32 order-IsByteOrder count32-IsCrc32 one three (two ∷ [])
      (omega arith) refl (omega arith, tt)
