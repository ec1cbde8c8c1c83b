-- ===== src/Storage/Engine/Segments.antt =====
-- The invariant of the engine's segments, and that a rotation moves nothing out of reach.
use apfsds_rs.Base.{
  ℕ, ◌+◌, ◌^◌, ◌≤◌, ◌<◌, ◌≡◌, inl, inr, refl, true, List, [], ◌∷◌, ◌++◌, some, arith, All,
  Option-cases, length, ◌==◌, if◌then◌else◌,
}
use apfsds_rs.Base.Maps.{nat_eq, DashMap}
use apfsds_rs.Base.Rkyv.{Rkyv}
use apfsds_rs.Protocol.Auth.{ConnRecord}
use apfsds_rs.Storage.Segment.{Segment, SegmentPtr, read_at}
use apfsds_rs.Storage.Segment.Reads.{OffsetsInside}
use apfsds_rs.Storage.Engine.{StorageEngine, rotate_segment, find_sealed, get}

-- Sealed segments are older than the active one, and the next id is new; every index entry points
-- to a known segment, and inside the data if that is the active one.
pub record Inv (d : DashMap ℕ SegmentPtr) (e : StorageEngine d.Map) : Type 0 where
  pub older : All (λ s. s.id < e.active.id) e.sealed
  pub fresh : e.active.id < e.id_counter
  pub inside : OffsetsInside e.active
  pub known : (j : ℕ) (p : SegmentPtr) → d.get j e.index ≡ some p → p.segment_id ≤ e.active.id
  pub within :
      (j : ℕ) (p : SegmentPtr)
      → d.get j e.index ≡ some p
      → p.segment_id ≡ e.active.id
      → p.offset < length e.active.bytes

module _ (k : Rkyv ConnRecord) (d : DashMap ℕ SegmentPtr) where
  -- The segment that a pointer names, in a list where the ids are below `n`, then one more.
  find_sealed-append :
      (p : SegmentPtr) (ss : List Segment) (s : Segment)
      → All (λ s'. s'.id < s.id) ss
      → find_sealed k p (ss ++ s ∷ [])
        ≡ (if p.segment_id == s.id then read_at k s p.offset else find_sealed k p ss)
  unfolding find_sealed
  find_sealed-append p [] s h = refl
  find_sealed-append p (s' ∷ ss) s (lt, h) = ground (arith, find_sealed-append p ss s h)

  read_at_sealed :
      (s : Segment) (o : ℕ) → read_at k (record s { is_sealed = true }) o ≡ read_at k s o
  unfolding read_at
  read_at_sealed s o = refl

  All-append_one :
      (n m : ℕ) (ss : List Segment) (s : Segment)
      → s.id ≡ n
      → n < m
      → All (λ s'. s'.id < n) ss
      → All (λ s'. s'.id < m) (ss ++ s ∷ [])
  All-append_one n m [] s e lt h = (omega arith, tt)
  All-append_one n m (s' ∷ ss) s e lt (h, hs) = (omega arith, All-append_one n m ss s e lt hs)

  module _ {e : StorageEngine d.Map} (v : Inv d e) (room : e.id_counter + 1 < 2 ^ 64) where
    pub rotate_segment-Inv : Inv d (rotate_segment k d e)
    unfolding rotate_segment
    rotate_segment-Inv = record {
      older =
          All-append_one e.active.id e.id_counter e.sealed (record e.active { is_sealed = true })
            refl v.fresh v.older;
      fresh = omega arith;
      inside = tt;
      known = λ j p h. ground (arith, v.known j p h, v.fresh);
      within = λ j p h same. absurd (ground (arith, v.known j p h, v.fresh));
    }

    -- Rotating changes no answer.
    pub get-rotate_segment : (j : ℕ) → get k d (rotate_segment k d e) j ≡ get k d e j
    unfolding get rotate_segment
    get-rotate_segment j = elim (Option-cases (d.get j e.index)) [
      | inl missing ↦ rw missing
      | inr (p, h) ↦ rw h (
          ground (
            arith,
            find_sealed-append p e.sealed (record e.active { is_sealed = true }) v.older,
            read_at_sealed e.active p.offset,
            v.known j p h,
            v.fresh,
          ))
    ]
