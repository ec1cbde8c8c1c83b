-- ===== src/Storage/Segment/Reads.antt =====
-- Records stay readable where they were appended.
use apfsds_rs.Base.{
  ℕ, ◌+◌, ◌-◌, ◌≤◌, ◌<◌, ◌≡◌, refl, ap, false, List, [], ◌∷◌, ◌++◌, some, Result, ok, err, arith,
  All, length, length-append, length-drop, take, drop, take_all, drop-append, drop-append_short,
  take-append_short, lt→not_leb,
}
use apfsds_rs.Base.Rkyv.{Rkyv, RoundTrips}
use apfsds_rs.Protocol.Auth.{ConnRecord}
use apfsds_rs.Storage.Segment.{Segment, first_above, to_option, append, read_at}

-- Every record starts inside the data.
abbrev pub OffsetsInside : Segment → Type 0
OffsetsInside s = All (λ o. o < length s.bytes) s.offsets

-- No archived record is empty.
abbrev pub NotEmpty : Rkyv ConnRecord → Type 0
NotEmpty k = (r : ConnRecord) (bytes : List ℕ) → k.to_bytes r ≡ ok bytes → 0 < length bytes

first_above_last :
    (offset : ℕ) (os : List ℕ) (n m : ℕ)
    → All (λ o. o < n) os
    → n ≤ offset
    → first_above offset (os ++ n ∷ []) m ≡ m
unfolding first_above
first_above_last offset [] n m h le = ground arith
first_above_last offset (o ∷ os) n m (lt, h) le =
    ground (arith, first_above_last offset os n m h le)

first_above-append :
    (offset : ℕ) (os : List ℕ) (n m : ℕ)
    → offset < n
    → first_above offset (os ++ n ∷ []) m ≡ first_above offset os n
unfolding first_above
first_above-append offset [] n m lt = ground arith
first_above-append offset (o ∷ os) n m lt = ground (arith, first_above-append offset os n m lt)

first_above-le :
    (offset : ℕ) (os : List ℕ) (n : ℕ) → All (λ o. o < n) os → first_above offset os n ≤ n
unfolding first_above
first_above-le offset [] n h = omega arith
first_above-le offset (o ∷ os) n (lt, h) = ground (arith, first_above-le offset os n h)

All-append_one :
    (n m : ℕ) (os : List ℕ) → n < m → All (λ o. o < n) os → All (λ o. o < m) (os ++ n ∷ [])
All-append_one n m [] lt h = (lt, tt)
All-append_one n m (o ∷ os) lt (h, hs) = (omega arith, All-append_one n m os lt hs)

module _ (k : Rkyv ConnRecord) where
  -- An append that succeeds: the record was written behind the data, within the limit.
  pub record Appended (s s' : Segment) (r : ConnRecord) (offset : ℕ) : Type 0 where
    pub bytes : List ℕ
    pub written : k.to_bytes r ≡ ok bytes
    pub unsealed : s.is_sealed ≡ false
    pub fits : length s.bytes + length bytes ≤ s.size_limit
    pub place : offset ≡ length s.bytes
    pub result :
        s' ≡ record s { bytes = s.bytes ++ bytes; offsets = s.offsets ++ length s.bytes ∷ [] }

  pub append-Appended :
      (s s' : Segment) (r : ConnRecord) (offset : ℕ)
      → append k s r ≡ (s', some offset)
      → Appended s s' r offset
  unfolding append
  append-Appended s s' r offset e = by_bytes (k.to_bytes r) refl
    where
      by_bytes : (b : Result (List ℕ) (List ℕ)) → k.to_bytes r ≡ b → Appended s s' r offset
      by_bytes (err m) h = absurd (ground arith)
      by_bytes (ok bytes) h = record {
        bytes = bytes;
        written = h;
        unsealed = ground arith;
        fits = ground arith;
        place = ground arith;
        result = ground arith;
      }

  -- An append makes the data longer.
  pub length-Appended :
      (bulk : NotEmpty k) {s s' : Segment} {r : ConnRecord} {offset : ℕ}
      → Appended s s' r offset
      → length s.bytes < length s'.bytes
  length-Appended bulk {s = s} {r = r} a =
      rw a.result (omega (arith, length-append s.bytes a.bytes, bulk r a.bytes a.written))

  module _ (back : RoundTrips k) (bulk : NotEmpty k) {s s' : Segment} {r : ConnRecord} {offset : ℕ}
      (inside : OffsetsInside s) (a : Appended s s' r offset) where
    pub Appended-OffsetsInside : OffsetsInside s'
    Appended-OffsetsInside = rw a.result (
        All-append_one (length s.bytes) (length (s.bytes ++ a.bytes)) s.offsets
          (omega (arith, length-append s.bytes a.bytes, bulk r a.bytes a.written)) inside)

    -- Every record of a segment starts inside its data, archives read back and none is empty. After
    -- an append that succeeds, reading at the offset that it returned gives the record.
    pub read_at-Appended : read_at k s' offset ≡ some r
    unfolding read_at
    read_at-Appended =
        let n : ℕ = length s.bytes in
        let whole : List ℕ = s.bytes ++ a.bytes in
        let behind : take (length whole - n) (drop n whole) ≡ a.bytes =
          rw (drop-append n s.bytes a.bytes refl)
            (take_all (length whole - n) a.bytes (omega (arith, length-append s.bytes a.bytes))) in
        rw
          (
            a.result,
            a.place,
            lt→not_leb (length whole) n
                (omega (arith, length-append s.bytes a.bytes, bulk r a.bytes a.written)),
            first_above_last n s.offsets n (length whole) inside (omega arith),
            behind,
          )
          (ap to_option (back r a.bytes a.written))

    -- Reads inside the old data give what they gave.
    pub read_at-Appended_old : (p : ℕ) → p < length s.bytes → read_at k s' p ≡ read_at k s p
    unfolding read_at
    read_at-Appended_old p lt =
        let n : ℕ = length s.bytes in
        let end : ℕ = first_above p s.offsets n in
        let whole : List ℕ = s.bytes ++ a.bytes in
        let same : take (end - p) (drop p whole) ≡ take (end - p) (drop p s.bytes) =
          rw (drop-append_short p s.bytes a.bytes (omega arith)) (
            take-append_short (end - p) (drop p s.bytes) a.bytes
              (omega (arith, length-drop p s.bytes, first_above-le p s.offsets n inside))) in
        rw (
          a.result,
          lt→not_leb (length whole) p (omega (arith, length-append s.bytes a.bytes)),
          lt→not_leb n p lt,
          first_above-append p s.offsets n (length whole) lt,
          same,
        )
