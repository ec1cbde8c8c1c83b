-- ===== src/Storage/Wal/Replay.antt =====
-- Reading a whole log.
use apfsds_rs.Base.{
  ℕ, zero, suc, ◌-◌, ◌%◌, ◌^◌, ◌≤◌, ◌<◌, ◌≡◌, refl, ap, sym, ◌∙◌, List, [], ◌∷◌, ◌++◌, Option, none,
  some, arith, Result, ok, err, All, All-append, append-nil, append_assoc, length, length-append,
  and_then,
}
use mathlib.Core.Path.{subst}
use apfsds_rs.Storage.Wal.{
  ByteOrder, File, IoError, max_entry, write_all, append, Round, finished, entry, failed,
  read_entry, read_loop, read_all, open_file, read_exact,
}
use apfsds_rs.Storage.Wal.Codec.{
  IsByteOrder, IsCrc32, write_all-at_end, frame, frames, read_entry-shorter, length-frame,
  read_entry-frame,
}

abbrev pub IsEntry : List ℕ → Type 0
IsEntry d = length d ≤ max_entry

module _ (bo : ByteOrder) (crc32 : List ℕ → ℕ) where
  read_loop-returns :
      (fuel : ℕ) (rest : List ℕ) (acc : List (List ℕ))
      → length rest < fuel
      → (r : Result IoError (List (List ℕ)) × List ℕ) × (read_loop bo crc32 fuel rest acc ≡ some r)
  unfolding read_loop
  read_loop-returns zero rest acc h = absurd (omega arith)
  read_loop-returns (suc fuel) rest acc h =
      by_round (read_entry bo crc32 rest) refl (λ payload left e.
        read_loop-returns fuel left (acc ++ payload ∷ [])
          (omega (arith, read_entry-shorter bo crc32 rest payload left e)))
    where
      by_round :
          (r : Round)
          → read_entry bo crc32 rest ≡ r
          → ((payload left : List ℕ)
              → read_entry bo crc32 rest ≡ entry payload left
              → (q : Result IoError (List (List ℕ)) × List ℕ) × (read_loop bo crc32 fuel left
                    (acc ++ payload ∷ [])
                  ≡ some q))
          → (q : Result IoError (List (List ℕ)) × List ℕ) × (read_loop bo crc32 (suc fuel) rest acc
              ≡ some q)
      by_round finished e more = ((ok acc, []), rw (e, read_loop))
      by_round (failed x left) e more = ((err x, left), rw (e, read_loop))
      by_round (entry payload left) e more =
          let (q, h) = more payload left e in (q, rw (e, read_loop) h)

  -- Reading a log ends, whatever is in the file.
  pub read_all-returns :
      (f : File) → (r : Result IoError (List (List ℕ)) × File) × (read_all bo crc32 f ≡ some r)
  unfolding read_all
  read_all-returns f =
      let (q, h) = read_loop-returns (suc (length f.content)) f.content [] (omega arith) in
      ((q.0, record f { pos = length f.content - length q.1 }), rw h)

  -- What the loop answers where a round is the last.
  abbrev last_round : Round → List (List ℕ) → Option (Result IoError (List (List ℕ)) × List ℕ)
  last_round finished acc = some (ok acc, [])
  last_round (failed e left) acc = some (err e, left)
  last_round (entry payload left) acc = none

  abbrev IsLast : Round → Type 0
  IsLast finished = Unit
  IsLast (failed e left) = Unit
  IsLast (entry payload left) = ⊥

  abbrev pub append_all : File → List (List ℕ) → File
  append_all f [] = f
  append_all f (d ∷ ds) = append_all (append bo crc32 f d).0 ds

  frames-append :
      (es ds : List (List ℕ))
      → frames bo crc32 (es ++ ds) ≡ frames bo crc32 es ++ frames bo crc32 ds
  frames-append [] ds = refl
  frames-append (e ∷ es) ds =
      ap (λ (t : List ℕ). frame bo crc32 e ++ t) (frames-append es ds)
      ∙ sym (append_assoc (frame bo crc32 e) (frames bo crc32 es) (frames bo crc32 ds))

  nothing_left : read_entry bo crc32 [] ≡ finished
  unfolding read_entry read_exact
  nothing_left = refl

  module _ (b : IsByteOrder bo) (c : IsCrc32 crc32) where
    -- Entries, and then bytes whose round is the last.
    read_loop-frames :
        (ds : List (List ℕ)) (tail : List ℕ) (fuel : ℕ) (acc : List (List ℕ)) (r : Round)
        → All IsEntry ds
        → length ds < fuel
        → read_entry bo crc32 tail ≡ r
        → IsLast r
        → read_loop bo crc32 fuel (frames bo crc32 ds ++ tail) acc ≡ last_round r (acc ++ ds)
    unfolding read_loop
    read_loop-frames ds tail zero acc r small h e l = absurd (omega arith)
    read_loop-frames [] tail (suc fuel) acc finished small h e l = rw (e, read_loop, append-nil acc)
    read_loop-frames [] tail (suc fuel) acc (failed x left) small h e l = rw (e, read_loop)
    read_loop-frames [] tail (suc fuel) acc (entry p left) small h e l = elim l [ ]
    read_loop-frames (d ∷ ds) tail (suc fuel) acc r (s, small) h e l =
        rw
          (
            append_assoc (frame bo crc32 d) (frames bo crc32 ds) tail,
            read_entry-frame bo crc32 b c d (frames bo crc32 ds ++ tail) s,
            read_loop,
          )
          (read_loop-frames ds tail fuel (acc ++ d ∷ []) r small (omega arith) e l
            ∙ ap (last_round r) (append_assoc acc (d ∷ []) ds))

    length-frames : (ds : List (List ℕ)) → length ds ≤ length (frames bo crc32 ds)
    length-frames [] = omega arith
    length-frames (d ∷ ds) = omega (
      arith,
      length-frames ds,
      length-append (frame bo crc32 d) (frames bo crc32 ds),
      length-frame bo crc32 b c d,
    )

    -- The whole file: some entries, and then the last round.
    pub read_all-frames :
        (f : File) (ds : List (List ℕ)) (tail : List ℕ) (r : Round)
        → f.content ≡ frames bo crc32 ds ++ tail
        → All IsEntry ds
        → read_entry bo crc32 tail ≡ r
        → IsLast r
        → read_all bo crc32 f
          ≡ and_then
              (last_round r ds)
              λ q. some (q.0, record f { pos = length f.content - length q.1 })
    unfolding read_all
    read_all-frames f ds tail r form small e l = rw (
        subst (λ (t : List ℕ). read_loop bo crc32 (suc (length f.content)) t [] ≡ last_round r ds)
          (sym form)
          (read_loop-frames ds tail (suc (length f.content)) [] r small
            (omega
              (arith, length-frames ds, ap length form, length-append (frames bo crc32 ds) tail))
            e l))

    append-end :
        (f : File) (d : List ℕ)
        → IsEntry d
        → f.pos ≡ length f.content
        → let f' = (append bo crc32 f d).0 in
          (f'.content ≡ f.content ++ frame bo crc32 d) × (f'.pos ≡ length f'.content)
    unfolding append
    append-end f d small h =
        let f1 : File = write_all f (bo.write_u32 (crc32 d)) in
        let f2 : File = write_all f1 (bo.write_u64 (length d % 2 ^ 64)) in
        let (c1, p1) = write_all-at_end f (bo.write_u32 (crc32 d)) h in
        let (c2, p2) = write_all-at_end f1 (bo.write_u64 (length d % 2 ^ 64)) p1 in
        let (c3, p3) = write_all-at_end f2 d p2 in
        let fits : length d % 2 ^ 64 ≡ length d = omega arith in
        (c3 ∙ rw (c2, c1, fits, append_assoc, append_assoc), p3)

    append_all-end :
        (f : File) (ds : List (List ℕ))
        → All IsEntry ds
        → f.pos ≡ length f.content
        → ((append_all f ds).content ≡ f.content ++ frames bo crc32 ds)
          × ((append_all f ds).pos ≡ length (append_all f ds).content)
    append_all-end f [] small h = (sym (append-nil f.content), h)
    append_all-end f (d ∷ ds) (s, small) h =
        let (c1, p1) = append-end f d s h in
        let (cs, ps) = append_all-end (append bo crc32 f d).0 ds small p1 in
        (
          cs
              ∙ ap (λ (t : List ℕ). t ++ frames bo crc32 ds) c1
              ∙ append_assoc f.content (frame bo crc32 d) (frames bo crc32 ds),
          ps,
        )

    -- A log with its entries, read from anywhere.
    pub read_all-log :
        (f : File) (ds : List (List ℕ))
        → f.content ≡ frames bo crc32 ds
        → All IsEntry ds
        → read_all bo crc32 f ≡ some (ok ds, record f { pos = length f.content })
    read_all-log f ds form small =
        read_all-frames f ds [] finished (form ∙ sym (append-nil (frames bo crc32 ds))) small
          nothing_left tt
        ∙ ap (λ (n : ℕ). some (ok ds, record f { pos = n })) (omega arith)

    -- Entries of at most 128 MB that are appended to a log, at its end, are read back in order
    -- behind those that it held, also after the file is opened anew; reading leaves the position
    -- at the end, ready for the next append. The byte order and the checksum are as documented.
    pub read_all-append_all :
        (f : File) (es ds : List (List ℕ))
        → f.content ≡ frames bo crc32 es
        → f.pos ≡ length f.content
        → All IsEntry es
        → All IsEntry ds
        → let g = append_all f ds in
          (read_all bo crc32 g ≡ some (ok (es ++ ds), g))
          × (read_all bo crc32 (open_file g.content) ≡ some (ok (es ++ ds), g))
    unfolding open_file
    read_all-append_all f es ds form at_end small_es small_ds =
        let g : File = append_all f ds in
        let (content, pos) = append_all-end f ds small_ds at_end in
        let log : g.content ≡ frames bo crc32 (es ++ ds) =
          content ∙ ap (λ (t : List ℕ). t ++ frames bo crc32 ds) form ∙ sym (frames-append es ds) in
        let small : All IsEntry (es ++ ds) = All-append IsEntry es ds small_es small_ds in
        let at : record g { pos = length g.content } ≡ g =
          ap (λ (n : ℕ). record g { pos = n }) (sym pos) in
        (
          read_all-log g (es ++ ds) log small ∙ ap (λ (x : File). some (ok (es ++ ds), x)) at,
          read_all-log (record { content = g.content; pos = 0 }) (es ++ ds) log small
              ∙ ap (λ (x : File). some (ok (es ++ ds), x)) at,
        )
