-- ===== src/Storage/Segment.antt =====
-- crates/storage/src/segment.rs. `rkyv` on `ConnRecord` is an argument; the static counter of
-- segment ids is passed in and returned.
pub mod Reads
use apfsds_rs.Base.{
  ℕ, ◌+◌, ◌-◌, ◌*◌, ◌%◌, ◌^◌, ◌≡◌, Bool, true, false, List, [], ◌∷◌, ◌++◌, Option, none, some,
  Result, ok, err, ◌>>=◌, length, take, drop, ltb, leb, if◌then◌else◌,
}
use apfsds_rs.Base.Rkyv.{Rkyv}
use apfsds_rs.Protocol.Auth.{ConnRecord}

pub record Segment : Type 0 where
  pub id : ℕ
  pub bytes : List ℕ
  pub offsets : List ℕ
  pub is_sealed : Bool
  pub size_limit : ℕ

pub record SegmentPtr : Type 0 where
  pub segment_id : ℕ
  pub offset : ℕ

-- The new segment and the counter after `fetch_add(1)`.
unfoldable pub with_size_limit : ℕ → ℕ → Segment × ℕ
with_size_limit id_counter size_limit = (
  record { id = id_counter; bytes = []; offsets = []; is_sealed = false; size_limit = size_limit },
  (id_counter + 1) % 2 ^ 64,
)

unfoldable pub new : ℕ → Segment × ℕ
unfolding with_size_limit
new id_counter = with_size_limit id_counter (10 * 1024 * 1024)

-- `offsets.iter().find(|&&o| o > offset).copied().unwrap_or(end)`.
unfoldable pub first_above : ℕ → List ℕ → ℕ → ℕ
first_above offset [] end = end
first_above offset (o ∷ os) end = if ltb offset o then o else first_above offset os end

-- `.ok()` on a result.
abbrev pub to_option : {E A : Type 0} → Result E A → Option A
to_option (ok a) = some a
to_option (err e) = none

-- The append of serialised bytes, if they fit.
abbrev append_bytes : Segment → List ℕ → Segment × Option ℕ
append_bytes s bytes = if ltb s.size_limit (length s.bytes + length bytes) then (s, none) else (
  record s { bytes = s.bytes ++ bytes; offsets = s.offsets ++ length s.bytes ∷ [] },
  some (length s.bytes),
)

module _ (k : Rkyv ConnRecord) where
  unfoldable pub append : Segment → ConnRecord → Segment × Option ℕ
  append s r =
      if s.is_sealed
      then (s, none)
      else (elim (k.to_bytes r) [ err e ↦ (s, none) | ok bytes ↦ append_bytes s bytes ])

  unfoldable pub read_at : Segment → ℕ → Option ConnRecord
  read_at s offset =
      if leb (length s.bytes) offset
      then none
      else (let end = first_above offset s.offsets (length s.bytes) in
          let bytes = take (end - offset) (drop offset s.bytes) in
          to_option (k.access bytes >>= k.deserialize))

unfoldable pub size : Segment → ℕ
size s = length s.bytes

unfoldable pub record_count : Segment → ℕ
record_count s = length s.offsets

unfoldable pub seal : Segment → Segment
seal s = record s { is_sealed = true }
