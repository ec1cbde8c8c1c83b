-- ===== src/Storage/Wal/Faults.antt =====
-- What a crash in the middle of an append, and an append without a read, do to the log.
use apfsds_rs.Base.{
  ℕ, ◌+◌, ◌-◌, ◌≤◌, ◌<◌, ◌≡◌, refl, ap, ◌∙◌, List, [], ◌++◌, some, arith, ok, err, All, length,
  length-take, take, ltb, if◌then◌else◌, inl, inr, Bool-cases, take-append_long,
}
use apfsds_rs.Storage.Wal.{
  ByteOrder, File, unexpected_eof, max_entry, finished, failed, read_payload, read_length,
  read_entry, read_all, open_file, read_exact,
}
use apfsds_rs.Storage.Wal.Codec.{
  IsByteOrder, IsCrc32, frame, frames, length-frame, read_exact-append, read_exact_short,
}
use apfsds_rs.Storage.Wal.Replay.{IsEntry, read_all-frames}

module _ (bo : ByteOrder) (crc32 : List ℕ → ℕ) (b : IsByteOrder bo) (c : IsCrc32 crc32) where
  torn_header : (tail : List ℕ) → length tail < 4 → read_entry bo crc32 tail ≡ finished
  unfolding read_entry
  torn_header tail h = rw (read_exact_short 4 tail h, read_entry)

  after_checksum :
      (rest checksum left : List ℕ)
      → read_exact 4 rest ≡ some (checksum, left)
      → read_entry bo crc32 rest ≡ read_length bo crc32 checksum left
  unfolding read_entry
  after_checksum rest checksum left h = rw (h, read_entry)

  no_length :
      (checksum rest : List ℕ)
      → length rest < 8
      → read_length bo crc32 checksum rest ≡ failed unexpected_eof []
  unfolding read_length
  no_length checksum rest h = rw (read_exact_short 8 rest h, read_length)

  after_length :
      (checksum rest len left : List ℕ)
      → read_exact 8 rest ≡ some (len, left)
      → bo.read_u64 len ≤ max_entry
      → read_length bo crc32 checksum rest ≡ read_payload bo crc32 checksum (bo.read_u64 len) left
  unfolding read_length
  after_length checksum rest len left h small = rw (h, read_length) (ground arith)

  torn_payload :
      (checksum tail : List ℕ) (len : ℕ)
      → length tail < len
      → read_payload bo crc32 checksum len tail ≡ failed unexpected_eof []
  unfolding read_payload
  torn_payload checksum tail len h = rw (read_exact_short len tail h, read_payload)

  torn_length :
      (checksum d : List ℕ) (m : ℕ)
      → IsEntry d
      → m < 8 + length d
      → read_length bo crc32 checksum (take m (bo.write_u64 (length d) ++ d))
        ≡ failed unexpected_eof []
  torn_length checksum d m small hi =
      let header : List ℕ = bo.write_u64 (length d) in
      let eight : length header ≡ 8 = b.eight (length d) in
      let back : bo.read_u64 header ≡ length d = b.back_u64 (length d) (omega arith) in
      elim (Bool-cases (ltb m 8)) [
        | inl short ↦
            no_length checksum (take m (header ++ d)) (ground (arith, length-take m (header ++ d)))
        | inr long ↦
            let rest : List ℕ = take (m - length header) d in
            rw (take-append_long m header d (ground arith)) (
              after_length checksum (header ++ rest) header rest
                (read_exact-append 8 header rest eight) (omega arith)
              ∙ torn_payload checksum rest (bo.read_u64 header)
                  (ground (arith, length-take (m - length header) d)))
      ]

  -- The first `n` bytes of an entry, four at least and not all: the checksum is read, the rest is
  -- cut.
  torn_entry :
      (d : List ℕ) (n : ℕ)
      → IsEntry d
      → 4 ≤ n
      → n < length (frame bo crc32 d)
      → read_entry bo crc32 (take n (frame bo crc32 d)) ≡ failed unexpected_eof []
  torn_entry d n small lo hi =
      let checksum : List ℕ = bo.write_u32 (crc32 d) in
      let body : List ℕ = bo.write_u64 (length d) ++ d in
      let four : length checksum ≡ 4 = b.four (crc32 d) in
      let rest : List ℕ = take (n - length checksum) body in
      rw (take-append_long n checksum body (omega arith)) (
        after_checksum (checksum ++ rest) checksum rest (read_exact-append 4 checksum rest four)
        ∙ torn_length checksum d (n - length checksum) small
            (omega (arith, length-frame bo crc32 b c d)))

  -- Entries have at most 128 MB, and the byte order and the checksum are as documented. If a crash
  -- leaves only the first `n` bytes of a last entry, the earlier entries are read if
  -- `n` is below four; otherwise the whole log is refused, and none of them is returned.
  pub read_all_torn :
      (es : List (List ℕ)) (d : List ℕ) (n : ℕ)
      → All IsEntry es
      → IsEntry d
      → n < length (frame bo crc32 d)
      → let content = frames bo crc32 es ++ take n (frame bo crc32 d) in
        read_all bo crc32 (open_file content)
        ≡ some (
          (if ltb n 4 then ok es else err unexpected_eof),
          record { content = content; pos = length content },
        )
  unfolding open_file
  read_all_torn es d n small_es small hi =
      let tail : List ℕ = take n (frame bo crc32 d) in
      let content : List ℕ = frames bo crc32 es ++ tail in
      let f : File = record { content = content; pos = 0 } in
      elim (Bool-cases (ltb n 4)) [
        | inl short ↦ rw short (
            read_all-frames bo crc32 b c f es tail finished refl small_es
              (torn_header tail (ground (arith, length-take n (frame bo crc32 d)))) tt
            ∙ ap (λ (m : ℕ). some (ok es, record f { pos = m })) (omega arith))
        | inr long ↦ rw long (
            read_all-frames bo crc32 b c f es tail (failed unexpected_eof []) refl small_es
              (torn_entry d n small (ground arith) hi) tt
            ∙ ap (λ (m : ℕ). some (err unexpected_eof, record f { pos = m })) (omega arith))
      ]
