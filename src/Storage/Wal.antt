-- ===== src/Storage/Wal.antt =====
-- crates/storage/src/wal.rs. The file is its bytes and the position; reads and writes of the
-- operating system succeed. `byteorder` and `crc32fast` are arguments.
pub mod Codec
pub mod Replay
pub mod Faults
pub mod Overwrite
use apfsds_rs.Base.{
  ℕ, zero, suc, ◌+◌, ◌-◌, ◌*◌, ◌%◌, ◌^◌, ◌≡◌, Bool, true, false, List, [], ◌∷◌, ◌++◌, Option, none,
  some, Result, ok, err, and_then, length, take, drop, replicate, ltb, leb, ◌==◌, if◌then◌else◌,
}

-- `write_u32::<BigEndian>` and the like: what they write, and what they make of 4 and 8 bytes.
pub record ByteOrder : Type 0 where
  pub write_u32 : ℕ → List ℕ
  pub write_u64 : ℕ → List ℕ
  pub read_u32 : List ℕ → ℕ
  pub read_u64 : List ℕ → ℕ

pub record File : Type 0 where
  pub content : List ℕ
  pub pos : ℕ

pub data IoError : Type 0 where
  unexpected_eof entry_too_large checksum_mismatch : IoError

-- 128 MB.
abbrev pub max_entry : ℕ
max_entry = 128 * 1024 * 1024

-- `open` without `append` or a seek: the position is at the start.
unfoldable pub open_file : List ℕ → File
open_file content = record { content = content; pos = 0 }

-- A write at the position: over what is there, behind zeros if the position is past the end.
unfoldable pub write_all : File → List ℕ → File
write_all f bytes =
    let padded = f.content ++ replicate (f.pos - length f.content) 0 in
    record {
      content = take f.pos padded ++ (bytes ++ drop (f.pos + length bytes) f.content);
      pos = f.pos + length bytes;
    }

-- `read_exact`: the bytes and what is left, unless there are fewer.
unfoldable pub read_exact : ℕ → List ℕ → Option (List ℕ × List ℕ)
read_exact n rest = if ltb (length rest) n then none else some (take n rest, drop n rest)

-- One round of the loop in `read_all`: the end, an entry and the rest, or an error and the rest.
pub data Round : Type 0 where
  finished : Round
  entry : List ℕ → List ℕ → Round
  failed : IoError → List ℕ → Round

module _ (bo : ByteOrder) (crc32 : List ℕ → ℕ) where
  -- The new file and its position.
  unfoldable pub append : File → List ℕ → File × ℕ
  append f bytes =
      let checksum = crc32 bytes in
      let f1 = write_all f (bo.write_u32 checksum) in
      let f2 = write_all f1 (bo.write_u64 (length bytes % 2 ^ 64)) in
      let f3 = write_all f2 bytes in (f3, f3.pos)

  unfoldable pub truncate : File → ℕ → File
  truncate f size = record f {
    content = take size f.content ++ replicate (size - length f.content) 0;
  }

  unfoldable pub read_payload : List ℕ → ℕ → List ℕ → Round
  read_payload checksum len rest = elim (read_exact len rest) [
    | none ↦ failed unexpected_eof []
    | some (payload, rest) ↦
        if crc32 payload == bo.read_u32 checksum
        then entry payload rest
        else failed checksum_mismatch rest
  ]

  unfoldable pub read_length : List ℕ → List ℕ → Round
  read_length checksum rest = elim (read_exact 8 rest) [
    | none ↦ failed unexpected_eof []
    | some (length_bytes, rest) ↦
        let len = bo.read_u64 length_bytes in
        if ltb max_entry len then failed entry_too_large rest else read_payload checksum len rest
  ]

  unfoldable pub read_entry : List ℕ → Round
  read_entry rest = elim (read_exact 4 rest) [
    | none ↦ finished
    | some (checksum, rest) ↦ read_length checksum rest
  ]

  -- The loop, with the entries so far; it gives the result and the bytes after the position. A
  -- round takes bytes or is the last, so one more round than there are bytes is enough, and
  -- `none` otherwise.
  unfoldable pub read_loop :
      ℕ → List ℕ → List (List ℕ) → Option (Result IoError (List (List ℕ)) × List ℕ)
  read_loop zero rest entries = none
  read_loop (suc fuel) rest entries = elim (read_entry rest) [
    | finished ↦ some (ok entries, [])
    | failed e left ↦ some (err e, left)
    | entry payload left ↦ read_loop fuel left (entries ++ payload ∷ [])
  ]

  -- From the start of the file. After the last entry the position is the end of the file; an error
  -- leaves it where it was met.
  unfoldable pub read_all : File → Option (Result IoError (List (List ℕ)) × File)
  read_all f =
      and_then (read_loop (suc (length f.content)) f.content [])
        λ r. some (r.0, record f { pos = length f.content - length r.1 })
