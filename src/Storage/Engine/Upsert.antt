-- ===== src/Storage/Engine/Upsert.antt =====
-- The engine as a finite map from connections to records.
use apfsds_rs.Base.{
  ℕ, ◌+◌, ◌%◌, ◌^◌, ◌≤◌, ◌<◌, ◌≡◌, refl, ◌∙◌, Bool, true, false, not, ◌&&◌, List, [], ◌∷◌, ◌++◌,
  none, some, Result, ok, err, arith, ap, leb, length, ◌==◌, if◌then◌else◌,
}
use apfsds_rs.Base.Maps.{nat_eq, DashMap}
use apfsds_rs.Base.Rkyv.{Rkyv, RoundTrips}
use apfsds_rs.Protocol.Auth.{ConnRecord, ConnMeta}
use apfsds_rs.Storage.Segment.{SegmentPtr, seal, append}
use apfsds_rs.Storage.Segment.Reads.{NotEmpty}
use apfsds_rs.Storage.Engine.{
  StorageEngine, StorageConfig, StorageError, segment_full, new_record, new, next_txid,
  rotate_segment, try_store, upsert, get, delete,
}
use apfsds_rs.Storage.Engine.Segments.{Inv, rotate_segment-Inv, get-rotate_segment}
use apfsds_rs.Storage.Engine.Storing.{Stored, try_store-Stored}

module _ (k : Rkyv ConnRecord) (d : DashMap ℕ SegmentPtr) where
  -- A new engine is empty.
  pub new-Inv :
      (id_counter : ℕ) (c : StorageConfig)
      → id_counter + 1 < 2 ^ 64
      → Inv d (new k d id_counter c) × ((j : ℕ) → get k d (new k d id_counter c) j ≡ none)
  unfolding new get
  new-Inv id_counter c room = (
    record {
      older = tt;
      fresh = omega arith;
      inside = tt;
      known = λ j p h. absurd (ground (arith, d.get-empty j));
      within = λ j p h. absurd (ground (arith, d.get-empty j));
    },
    λ j. rw (d.get-empty j),
  )

  -- Deleting a connection removes its record and no other, and keeps the invariant.
  pub get-delete :
      {e : StorageEngine d.Map} (conn_id : ℕ)
      → Inv d e
      → Inv d (delete k d e conn_id).0
        × ((j : ℕ)
            → get k d (delete k d e conn_id).0 j ≡ (if conn_id == j then none else get k d e j))
  unfolding delete get
  get-delete {e} conn_id v = (
    record {
      older = v.older;
      fresh = v.fresh;
      inside = v.inside;
      known = λ j p h. ground (arith, d.get-remove conn_id j e.index, v.known j p);
      within = λ j p h s. ground (arith, d.get-remove conn_id j e.index, v.within j p);
    },
    λ j. ground (arith, d.get-remove conn_id j e.index),
  )

  -- What an upsert promises: with a transaction id, the old value of the counter, the new record is
  -- found under its connection; with an error, which is that the segment is full, nothing is
  -- found that was not before. All other answers stay, and the invariant holds again.
  abbrev pub Upserted :
      StorageEngine d.Map → ℕ → ConnMeta → ℕ → StorageEngine d.Map × Result StorageError ℕ → Type 0
  Upserted e conn_id metadata now (e', ok txid) =
      Inv d e'
      × (txid ≡ e.txid_counter)
      × (e'.txid_counter ≡ (txid + 1) % 2 ^ 64)
      × ((j : ℕ)
          → get k d e' j
            ≡ (if conn_id == j then some (new_record conn_id metadata now txid) else get k d e j))
  Upserted e conn_id metadata now (e', err x) =
      Inv d e' × (x ≡ segment_full) × ((j : ℕ) → get k d e' j ≡ get k d e j)

  try_store_fits :
      (e : StorageEngine d.Map) (r : ConnRecord) (bytes : List ℕ)
      → k.to_bytes r ≡ ok bytes
      → e.active.is_sealed ≡ false
      → length e.active.bytes + length bytes ≤ e.active.size_limit
      → (try_store k d e r).1 ≡ true
  unfolding try_store append
  try_store_fits e r bytes w u fits = ground arith

  rotated_fits :
      (e : StorageEngine d.Map) (r : ConnRecord) (bytes : List ℕ)
      → k.to_bytes r ≡ ok bytes
      → length bytes ≤ e.config.segment_size_limit
      → (try_store k d (rotate_segment k d e) r).1 ≡ true
  rotated_fits e r bytes w fits =
      try_store_fits (rotate_segment k d e) r bytes w (unfold rotate_segment in refl)
        (unfold rotate_segment in omega arith)

  -- Whether a record of these bytes goes into the active segment.
  abbrev pub fits_active : StorageEngine d.Map → List ℕ → Bool
  fits_active e bytes =
      not e.active.is_sealed && leb (length e.active.bytes + length bytes) e.active.size_limit

  try_store-fits_active :
      (e : StorageEngine d.Map) (r : ConnRecord) (bytes : List ℕ)
      → k.to_bytes r ≡ ok bytes
      → ((try_store k d e r).1 ≡ fits_active e bytes) × ((try_store k d e r).0.sealed ≡ e.sealed)
  unfolding try_store append
  try_store-fits_active e r bytes w = ground arith

  rotated-sealed :
      (e : StorageEngine d.Map) → (rotate_segment k d e).sealed ≡ e.sealed ++ seal e.active ∷ []
  unfolding rotate_segment
  rotated-sealed e = refl

  module _ (back : RoundTrips k) (bulk : NotEmpty k) {e : StorageEngine d.Map} (v : Inv d e)
      (room : e.id_counter + 1 < 2 ^ 64) (conn_id : ℕ) (metadata : ConnMeta) (now : ℕ) where
    abbrev stamped : StorageEngine d.Map
    stamped = record e { txid_counter = (e.txid_counter + 1) % 2 ^ 64 }

    abbrev r : ConnRecord
    r = new_record conn_id metadata now e.txid_counter

    stamped-Inv : Inv d stamped
    stamped-Inv = record {
      older = v.older;
      fresh = v.fresh;
      inside = v.inside;
      known = v.known;
      within = v.within;
    }

    get-stamped : (j : ℕ) → get k d stamped j ≡ get k d e j
    unfolding get
    get-stamped j = refl

    rotated : StorageEngine d.Map
    rotated = rotate_segment k d stamped

    get-rotated : (j : ℕ) → get k d rotated j ≡ get k d e j
    unfolding rotated
    get-rotated j = get-rotate_segment k d stamped-Inv room j ∙ get-stamped j

    rotated-Inv : Inv d rotated × (rotated.txid_counter ≡ (e.txid_counter + 1) % 2 ^ 64)
    unfolding rotated
    rotated-Inv = (rotate_segment-Inv k d stamped-Inv room, unfold rotate_segment in refl)

    by_tries :
        (t u : StorageEngine d.Map × Bool)
        → Stored k d stamped r t
        → Stored k d rotated r u
        → Upserted e conn_id metadata now (
            if t.1
            then (t.0, ok e.txid_counter)
            else (u.0, if u.1 then ok e.txid_counter else err segment_full))
    by_tries (e1, true) u (inv, same, ids, answers) h =
        (inv, refl, ids, λ j. answers j ∙ rw (get-stamped j))
    by_tries (e1, false) (e2, true) g (inv, same, ids, answers) =
        (inv, refl, ids ∙ rotated-Inv.1, λ j. answers j ∙ rw (get-rotated j))
    by_tries (e1, false) (e2, false) g h = (rw h rotated-Inv.0, refl, λ j. rw h (get-rotated j))

    -- Under the invariant, with an id left for a new segment, for archives that read back and are
    -- not empty: after an upsert with a
    -- transaction id the new record is found under its connection, after one with an error, which
    -- is that the segment is full, nothing new is found; all other connections give what they
    -- gave, the counter moves on, and the invariant holds again.
    pub upsert-Upserted : Upserted e conn_id metadata now (upsert k d e conn_id metadata now)
    unfolding upsert next_txid rotated
    upsert-Upserted =
        by_tries (try_store k d stamped r) (try_store k d rotated r)
          (try_store-Stored k d back bulk stamped-Inv r)
          (try_store-Stored k d back bulk rotated-Inv.0 r)

    -- An answer with a transaction id keeps what an upsert promises.
    Upserted-ok :
        (x : StorageEngine d.Map × Result StorageError ℕ)
        → Upserted e conn_id metadata now x
        → x.1 ≡ ok e.txid_counter
        → Inv d x.0 × ((j : ℕ) → get k d x.0 j ≡ (if conn_id == j then some r else get k d e j))
    Upserted-ok (e', ok txid) (inv, same, moved, answers) h = (
      inv,
      λ j.
          answers j
          ∙ ap
              (λ (n : ℕ).
                if conn_id == j then some (new_record conn_id metadata now n) else get k d e j)
              same,
    )
    Upserted-ok (e', err x) u h = cc

    module _ (bytes : List ℕ) (w : k.to_bytes r ≡ ok bytes)
        (small : length bytes ≤ e.config.segment_size_limit) where
      upsert-sealed :
          ((upsert k d e conn_id metadata now).1 ≡ ok e.txid_counter)
          × ((upsert k d e conn_id metadata now).0.sealed
              ≡ (if fits_active e bytes then e.sealed else e.sealed ++ seal e.active ∷ []))
      unfolding upsert next_txid
      upsert-sealed =
          by_tests (fits_active e bytes) (try_store k d stamped r)
            (try_store k d (rotate_segment k d stamped) r) (try_store-fits_active stamped r bytes w)
            (rotated_fits stamped r bytes w small)
            ((try_store-fits_active (rotate_segment k d stamped) r bytes w).1
              ∙ rotated-sealed stamped)
        where
          by_tests :
              (b : Bool) (t u : StorageEngine d.Map × Bool)
              → (t.1 ≡ b) × (t.0.sealed ≡ e.sealed)
              → u.1 ≡ true
              → u.0.sealed ≡ e.sealed ++ seal e.active ∷ []
              → (let e2 : StorageEngine d.Map × Result StorageError ℕ =
                    if t.1
                    then (t.0, ok e.txid_counter)
                    else (u.0, if u.1 then ok e.txid_counter else err segment_full) in
                  (e2.1 ≡ ok e.txid_counter)
                  × (e2.0.sealed ≡ (if b then e.sealed else e.sealed ++ seal e.active ∷ [])))
          by_tests b t u (first, kept) stored out = ground arith

      -- Under the invariant, with an id left for a new segment, for archives that read back and are
      -- not empty: a record that serialises within the limit of a segment is always stored. The
      -- answer is the old value of the transaction counter, the new record is found under its
      -- connection and every other connection gives what it gave, the invariant holds again, and
      -- the sealed segments are as before where the record fits into the active segment; where it
      -- does not, the active segment is sealed behind them.
      pub upsert_succeeds :
          ((upsert k d e conn_id metadata now).1 ≡ ok e.txid_counter)
          × Inv d (upsert k d e conn_id metadata now).0
          × ((j : ℕ)
              → get k d (upsert k d e conn_id metadata now).0 j
                ≡ (if conn_id == j then some r else get k d e j))
          × ((upsert k d e conn_id metadata now).0.sealed
              ≡ (if fits_active e bytes then e.sealed else e.sealed ++ seal e.active ∷ []))
      upsert_succeeds =
          let (answer, sealed) = upsert-sealed in
          let (inv, answers) =
            Upserted-ok (upsert k d e conn_id metadata now) upsert-Upserted answer in
          (answer, inv, answers, sealed)
