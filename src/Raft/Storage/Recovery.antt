-- ===== src/Raft/Storage/Recovery.antt =====
-- What a restart brings back.
use apfsds_rs.Base.{
  ℕ, ◌≡◌, refl, ap, sym, ◌∙◌, Bool, true, false, List, [], ◌∷◌, ◌++◌, map, append-nil, append_assoc,
  Option, none, some, ok, All, length,
}
use apfsds_rs.Storage.Wal.{ByteOrder, File, open_file, read_all}
use apfsds_rs.Storage.Wal
use apfsds_rs.Storage.Wal.Codec.{IsByteOrder, IsCrc32, frames}
use apfsds_rs.Storage.Wal.Replay.{IsEntry, append_all, read_all-append_all}
use apfsds_rs.Raft.Storage.{
  AsyncRaft, HardState, PersistentStorage, no_vote, marker, prepend, restored, delete_logs_from,
  new, save_hard_state, append_entry_to_log, append_batch, replicate_to_log,
}

-- JSON is read back as it was written, and no entry's JSON begins like a hard state.
pub record IsJson (r : AsyncRaft) : Type 0 where
  pub back : (e : r.Entry) → r.from_slice (r.to_vec e) ≡ some e
  pub no_entry : (bytes : List ℕ) → r.from_slice (marker ++ bytes) ≡ none

-- The operations that write.
pub data Op (Entry : Type 0) : Type 0 where
  append_entry : Entry → Op Entry
  replicate_entries : List Entry → Op Entry
  save_state : HardState → Op Entry
  delete_logs : ℕ → Option ℕ → Op Entry

module _ (r : AsyncRaft) where
  -- The entries that operations append.
  abbrev pub written : List (Op r.Entry) → List r.Entry
  written [] = []
  written (append_entry e ∷ ops) = e ∷ written ops
  written (replicate_entries es ∷ ops) = es ++ written ops
  written (save_state hs ∷ ops) = written ops
  written (delete_logs start stop ∷ ops) = written ops

  -- What they write to the file.
  abbrev pub records : List (Op r.Entry) → List (List ℕ)
  records [] = []
  records (append_entry e ∷ ops) = r.to_vec e ∷ records ops
  records (replicate_entries es ∷ ops) = map r.to_vec es ++ records ops
  records (save_state hs ∷ ops) = (marker ++ r.to_string hs) ∷ records ops
  records (delete_logs start stop ∷ ops) = records ops

  abbrev pub is_delete : Op r.Entry → Bool
  is_delete (append_entry e) = false
  is_delete (replicate_entries es) = false
  is_delete (save_state hs) = false
  is_delete (delete_logs start stop) = true

  restored-append : (xs ys : List (List ℕ)) → restored r (xs ++ ys) ≡ restored r xs ++ restored r ys
  unfolding restored
  restored-append [] ys = refl
  restored-append (x ∷ xs) ys = by_parse (r.from_slice x) (restored-append xs ys)
    where
      by_parse :
          (o : Option r.Entry)
          → restored r (xs ++ ys) ≡ restored r xs ++ restored r ys
          → prepend o (restored r (xs ++ ys)) ≡ prepend o (restored r xs) ++ restored r ys
      by_parse none e = e
      by_parse (some a) e = ap (◌∷◌ a) e

  restored-map : (j : IsJson r) (es : List r.Entry) → restored r (map r.to_vec es) ≡ es
  unfolding restored
  restored-map j [] = refl
  restored-map j (e ∷ es) = rw (j.back e) (ap (◌∷◌ e) (restored-map j es))

  restored-records :
      (j : IsJson r) (ops : List (Op r.Entry)) → restored r (records ops) ≡ written ops
  unfolding restored
  restored-records j [] = refl
  restored-records j (append_entry e ∷ ops) = rw (j.back e) (ap (◌∷◌ e) (restored-records j ops))
  restored-records j (replicate_entries es ∷ ops) =
      restored-append (map r.to_vec es) (records ops)
      ∙ rw (restored-map j es, restored-records j ops)
  restored-records j (save_state hs ∷ ops) =
      rw (j.no_entry (r.to_string hs)) (restored-records j ops)
  restored-records j (delete_logs start stop ∷ ops) = restored-records j ops

  module _ (bo : ByteOrder) (crc32 : List ℕ → ℕ) where
    unfoldable pub step : PersistentStorage r → Op r.Entry → PersistentStorage r
    step s (append_entry e) = append_entry_to_log r bo crc32 s e
    step s (replicate_entries es) = replicate_to_log r bo crc32 s es
    step s (save_state hs) = save_hard_state r bo crc32 s hs
    step s (delete_logs start stop) = delete_logs_from r s start stop

    unfoldable pub run : PersistentStorage r → List (Op r.Entry) → PersistentStorage r
    run s [] = s
    run s (op ∷ ops) = run (step s op) ops

    append_all-append :
        (f : File) (xs ys : List (List ℕ))
        → append_all bo crc32 f (xs ++ ys) ≡ append_all bo crc32 (append_all bo crc32 f xs) ys
    append_all-append f [] ys = refl
    append_all-append f (x ∷ xs) ys = append_all-append (Wal.append bo crc32 f x).0 xs ys

    append_batch-map :
        (f : File) (es : List r.Entry)
        → append_batch r bo crc32 f es ≡ append_all bo crc32 f (map r.to_vec es)
    unfolding append_batch
    append_batch-map f [] = refl
    append_batch-map f (e ∷ es) = append_batch-map (Wal.append bo crc32 f (r.to_vec e)).0 es

    delete_logs_from-wal :
        (s : PersistentStorage r) (start : ℕ) (stop : Option ℕ)
        → (delete_logs_from r s start stop).wal ≡ s.wal
    unfolding delete_logs_from
    delete_logs_from-wal s start none = refl
    delete_logs_from-wal s start (some b) = refl

    run-wal :
        (s : PersistentStorage r) (ops : List (Op r.Entry))
        → (run s ops).wal ≡ append_all bo crc32 s.wal (records ops)
    unfolding run step append_entry_to_log replicate_to_log save_hard_state
    run-wal s [] = refl
    run-wal s (append_entry e ∷ ops) = run-wal (step s (append_entry e)) ops
    run-wal s (replicate_entries es ∷ ops) =
        run-wal (step s (replicate_entries es)) ops
        ∙ rw (append_batch-map s.wal es)
            (sym (append_all-append s.wal (map r.to_vec es) (records ops)))
    run-wal s (save_state hs ∷ ops) = run-wal (step s (save_state hs)) ops
    run-wal s (delete_logs start stop ∷ ops) =
        run-wal (step s (delete_logs start stop)) ops ∙ rw (delete_logs_from-wal s start stop)

    run-log :
        (s : PersistentStorage r) (ops : List (Op r.Entry))
        → All (λ op. is_delete op ≡ false) ops
        → (run s ops).log ≡ s.log ++ written ops
    unfolding run step append_entry_to_log replicate_to_log save_hard_state
    run-log s [] h = sym (append-nil s.log)
    run-log s (append_entry e ∷ ops) (k, h) =
        run-log (step s (append_entry e)) ops h ∙ append_assoc s.log (e ∷ []) (written ops)
    run-log s (replicate_entries es ∷ ops) (k, h) =
        run-log (step s (replicate_entries es)) ops h ∙ append_assoc s.log es (written ops)
    run-log s (save_state hs ∷ ops) (k, h) = run-log (step s (save_state hs)) ops h
    run-log s (delete_logs start stop ∷ ops) (k, h) = absurd (cc)

    module _ (j : IsJson r) (b : IsByteOrder bo) (c : IsCrc32 crc32) where
      -- A storage as it is after some records were written or read: the file holds them and is
      -- at its end.
      pub record OnRecords (s : PersistentStorage r) (ds : List (List ℕ)) : Type 0 where
        pub content : s.wal.content ≡ frames bo crc32 ds
        pub at_end : s.wal.pos ≡ length s.wal.content
        pub small : All IsEntry ds

      -- A storage stands at the end of a file that holds some records, and then any operations are
      -- done, each writing records of at most 128 MB. A restart restores the entries among the old
      -- records and then every entry that was appended since, in order, those included that were
      -- deleted; the term and the vote are those of a new node. JSON, the byte order and the
      -- checksum are as their packages document.
      pub new-run :
          (s : PersistentStorage r) (ds : List (List ℕ)) (ops : List (Op r.Entry)) (node_id : ℕ)
          → OnRecords s ds
          → All IsEntry (records ops)
          → new r bo crc32 node_id ((run s ops).wal.content)
            ≡ some (record {
              node_id = node_id;
              membership = r.new_initial node_id;
              log = restored r ds ++ written ops;
              hard_state = no_vote;
              snapshot = none;
              wal = (run s ops).wal;
            })
      unfolding new
      new-run s ds ops node_id o small =
          let wal = run-wal s ops in
          let reads : read_all bo crc32
                (open_file ((append_all bo crc32 s.wal (records ops)).content))
              ≡ some (ok (ds ++ records ops), append_all bo crc32 s.wal (records ops)) =
            (read_all-append_all bo crc32 b c s.wal ds (records ops) o.content o.at_end o.small
              small).1 in
          rw (wal, reads, restored-append ds (records ops), restored-records j ops)

      -- A storage stands at the end of a file that holds the records of its log, and then entries
      -- are appended, one by one or in batches, and hard states saved, in records of at most
      -- 128 MB, and nothing is deleted. A restart brings back exactly the log that was in memory.
      -- JSON, the byte order and the checksum are as their packages document.
      pub new-run_log :
          (s : PersistentStorage r) (ds : List (List ℕ)) (ops : List (Op r.Entry)) (node_id : ℕ)
          → OnRecords s ds
          → s.log ≡ restored r ds
          → All IsEntry (records ops)
          → All (λ op. is_delete op ≡ false) ops
          → (s' : PersistentStorage r) × (new r bo crc32 node_id ((run s ops).wal.content)
              ≡ some s')
            × (s'.log ≡ (run s ops).log)
      new-run_log s ds ops node_id o log small kept =
          (_, new-run s ds ops node_id o small, rw (run-log s ops kept, log))
