-- ===== src/Raft/Storage/Torn.antt =====
-- A restart after a crash in the middle of an append.
use apfsds_rs.Base.{
  ℕ, ◌<◌, ◌≡◌, List, [], ◌++◌, none, some, All, length, take, ltb, Bool-cases, inl, inr,
  if◌then◌else◌,
}
use apfsds_rs.Storage.Wal.{ByteOrder}
use apfsds_rs.Storage.Wal.Codec.{IsByteOrder, IsCrc32, frame, frames}
use apfsds_rs.Storage.Wal.Replay.{IsEntry}
use apfsds_rs.Storage.Wal.Faults.{read_all_torn}
use apfsds_rs.Raft.Storage.{AsyncRaft, no_vote, restored, new}

module _ (r : AsyncRaft) (bo : ByteOrder) (crc32 : List ℕ → ℕ) (b : IsByteOrder bo)
    (c : IsCrc32 crc32) where
  -- Records have at most 128 MB, and the byte order and the checksum are as documented. Where a
  -- crash left only the first `n` bytes of a last record, a restart restores the entries of the
  -- records before it if `n` is below four, and otherwise starts with an empty log.
  pub new_torn :
      (es : List (List ℕ)) (d : List ℕ) (n node_id : ℕ)
      → All IsEntry es
      → IsEntry d
      → n < length (frame bo crc32 d)
      → let content = frames bo crc32 es ++ take n (frame bo crc32 d) in
        new r bo crc32 node_id content
        ≡ some (record {
          node_id = node_id;
          membership = r.new_initial node_id;
          log = if ltb n 4 then restored r es else [];
          hard_state = no_vote;
          snapshot = none;
          wal = record { content = content; pos = length content };
        })
  unfolding new
  new_torn es d n node_id small_es small hi = elim (Bool-cases (ltb n 4)) [
    | inl short ↦ rw (read_all_torn bo crc32 b c es d n small_es small hi, short)
    | inr long ↦ rw (read_all_torn bo crc32 b c es d n small_es small hi, long)
  ]
