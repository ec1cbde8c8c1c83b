-- ===== src/Storage/Wal/Overwrite.antt =====
-- An append to a log that was opened and not read.
use apfsds_rs.Base.{
  ℕ, ◌+◌, ◌-◌, ◌%◌, ◌^◌, ◌≡◌, refl, ap, sym, ◌∙◌, List, [], ◌∷◌, ◌++◌, some, ok, arith, All,
  append-nil, append_assoc, length, length-append, take, drop, take-append, drop-append,
}
use apfsds_rs.Storage.Wal.{ByteOrder, File, write_all, append, read_all, open_file}
use apfsds_rs.Storage.Wal.Codec.{IsByteOrder, IsCrc32, frame, frames}
use apfsds_rs.Storage.Wal.Replay.{IsEntry, read_all-log}

-- A write over as many bytes.
write_all-inside :
    (f : File) (a x y r : List ℕ)
    → f.content ≡ a ++ (x ++ r)
    → f.pos ≡ length a
    → length x ≡ length y
    → ((write_all f y).content ≡ a ++ (y ++ r)) × ((write_all f y).pos ≡ length (a ++ y))
unfolding write_all
write_all-inside f a x y r form at same =
    let inside : f.pos - length f.content ≡ 0 =
      omega (arith, ap length form, length-append a (x ++ r)) in
    let front : take f.pos f.content ≡ a = rw form (take-append f.pos a (x ++ r) at) in
    let back : drop (f.pos + length y) f.content ≡ r =
      rw (form, ← append_assoc)
        (drop-append (f.pos + length y) (a ++ x) r (omega (arith, length-append a x))) in
    (rw (inside, append-nil f.content, front, back), omega (arith, length-append a y))

module _ (bo : ByteOrder) (crc32 : List ℕ → ℕ) (b : IsByteOrder bo) (c : IsCrc32 crc32) where
  overwritten :
      (e d rest : List ℕ)
      → IsEntry d
      → length d ≡ length e
      → (append bo crc32 (open_file (frame bo crc32 e ++ rest)) d).0.content
        ≡ frame bo crc32 d ++ rest
  unfolding append open_file
  overwritten e d rest small same =
      let c1 : List ℕ = bo.write_u32 (crc32 e) in
      let l1 : List ℕ = bo.write_u64 (length e) in
      let c2 : List ℕ = bo.write_u32 (crc32 d) in
      let l2 : List ℕ = bo.write_u64 (length d % 2 ^ 64) in
      let f : File = record { content = (c1 ++ (l1 ++ e)) ++ rest; pos = 0 } in
      let f1 : File = write_all f c2 in
      let f2 : File = write_all f1 l2 in
      let (k1, p1) =
        write_all-inside f [] c1 c2 ((l1 ++ e) ++ rest) (append_assoc c1 (l1 ++ e) rest) refl
          (b.four (crc32 e) ∙ sym (b.four (crc32 d))) in
      let (k2, p2) =
        write_all-inside f1 c2 l1 l2 (e ++ rest)
          (k1 ∙ ap (λ (t : List ℕ). c2 ++ t) (append_assoc l1 e rest)) p1
          (b.eight (length e) ∙ sym (b.eight (length d % 2 ^ 64))) in
      let (k3, p3) =
        write_all-inside f2 (c2 ++ l2) e d rest (k2 ∙ sym (append_assoc c2 l2 (e ++ rest))) p2
          (sym same) in
      let fits : length d % 2 ^ 64 ≡ length d = omega arith in
      k3
      ∙ append_assoc c2 l2 (d ++ rest)
      ∙ ap (λ (t : List ℕ). c2 ++ t) (sym (append_assoc l2 d rest))
      ∙ sym (append_assoc c2 (l2 ++ d) rest)
      ∙ ap (λ (n : ℕ). (c2 ++ (bo.write_u64 n ++ d)) ++ rest) fits

  -- Entries have at most 128 MB, and the byte order and the checksum are as documented. A log that
  -- is opened and not read takes the next entry at its start: an entry as long as the
  -- first replaces it, so the first is lost and the new one does not follow the others.
  pub append-open_file :
      (e d : List ℕ) (es : List (List ℕ))
      → IsEntry d
      → length d ≡ length e
      → All IsEntry es
      → let f = (append bo crc32 (open_file (frames bo crc32 (e ∷ es))) d).0 in
        read_all bo crc32 f ≡ some (ok (d ∷ es), record f { pos = length f.content })
  append-open_file e d es small same small_es =
      let f : File = (append bo crc32 (open_file (frames bo crc32 (e ∷ es))) d).0 in
      read_all-log bo crc32 b c f (d ∷ es) (overwritten e d (frames bo crc32 es) small same)
        (small, small_es)
