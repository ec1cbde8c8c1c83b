-- ===== src/Storage/Engine/Storing.antt =====
-- Storing a record in the active segment.
use apfsds_rs.Base.{
  ℕ, ◌<◌, ◌≡◌, ◌≢◌, refl, ap, Bool, true, false, Option, none, some, inl, inr, arith, Option-cases,
  length, ◌==◌, if◌then◌else◌,
}
use apfsds_rs.Base.Maps.{nat_eq, DashMap}
use apfsds_rs.Base.Rkyv.{Rkyv, RoundTrips}
use apfsds_rs.Protocol.Auth.{ConnRecord}
use apfsds_rs.Storage.Segment.{Segment, SegmentPtr, append}
use apfsds_rs.Storage.Segment.Reads.{
  NotEmpty, Appended, append-Appended, Appended-OffsetsInside, read_at-Appended,
  read_at-Appended_old, length-Appended,
}
use apfsds_rs.Storage.Engine.{StorageEngine, try_store, get}
use apfsds_rs.Storage.Engine.Segments.{Inv}

module _ (k : Rkyv ConnRecord) (d : DashMap ℕ SegmentPtr) where
  -- What storing a record does to the engine: nothing, or the record is found under its
  -- connection, every other answer stays, and the invariant holds again.
  abbrev pub Stored : StorageEngine d.Map → ConnRecord → StorageEngine d.Map × Bool → Type 0
  Stored e r (e', false) = e' ≡ e
  Stored e r (e', true) =
      Inv d e'
      × (e'.id_counter ≡ e.id_counter)
      × (e'.txid_counter ≡ e.txid_counter)
      × ((j : ℕ) → get k d e' j ≡ (if r.conn_id == j then some r else get k d e j))

  module _ (back : RoundTrips k) (bulk : NotEmpty k) {e : StorageEngine d.Map} (v : Inv d e)
      (r : ConnRecord) where
    module _ {s : Segment} {offset : ℕ} (a : Appended k e.active s r offset) where
      abbrev ptr : SegmentPtr
      ptr = record { segment_id = s.id; offset = offset }

      abbrev after : StorageEngine d.Map
      after = record e { active = s; index = d.insert r.conn_id ptr e.index }

      same_id : s.id ≡ e.active.id
      same_id = ap (λ (t : Segment). t.id) a.result

      longer : length e.active.bytes < length s.bytes
      longer = length-Appended k bulk a

      after-Inv : Inv d after
      after-Inv = record {
        older = rw same_id v.older;
        fresh = rw same_id v.fresh;
        inside = Appended-OffsetsInside k back bulk v.inside a;
        known = λ j p h. ground (arith, d.get-insert r.conn_id j ptr e.index, v.known j p, same_id);
        within = λ j p h same.
            ground
              (arith, d.get-insert r.conn_id j ptr e.index, v.within j p, same_id, longer, a.place);
      }

      get-after_self : (j : ℕ) → r.conn_id ≡ j → get k d after j ≡ some r
      unfolding get
      get-after_self j hit =
          ground
            (arith, d.get-insert r.conn_id j ptr e.index, read_at-Appended k back bulk v.inside a)

      get-after_other : (j : ℕ) → r.conn_id ≢ j → get k d after j ≡ get k d e j
      unfolding get
      get-after_other j miss = elim (Option-cases (d.get j e.index)) [
        | inl missing ↦ ground (arith, d.get-insert r.conn_id j ptr e.index)
        | inr (p, h) ↦ ground (
          arith,
          d.get-insert r.conn_id j ptr e.index,
          same_id,
          v.within j p h,
          read_at-Appended_old k back bulk v.inside a p.offset,
        )
      ]

      after-Stored : Stored e r (after, true)
      after-Stored =
          (after-Inv, refl, refl, λ j. ground (arith, get-after_self j, get-after_other j))

    full : (append k e.active r).1 ≡ none → try_store k d e r ≡ (e, false)
    unfolding try_store
    full h = rw (h, try_store)

    stored :
        (offset : ℕ)
        → (append k e.active r).1 ≡ some offset
        → let s = (append k e.active r).0 in
          let ptr : SegmentPtr = record { segment_id = s.id; offset = offset } in
          try_store k d e r
          ≡ (record e { active = s; index = d.insert r.conn_id ptr e.index }, true)
    unfolding try_store
    stored offset h = rw (h, try_store)

    pub try_store-Stored : Stored e r (try_store k d e r)
    try_store-Stored = elim (Option-cases (append k e.active r).1) [
      | inl h ↦ rw (full h) refl
      | inr (offset, h) ↦ rw (stored offset h) (
          after-Stored (
            append-Appended k e.active (append k e.active r).0 r offset
              (ap (λ (o : Option ℕ). ((append k e.active r).0, o)) h)))
    ]
