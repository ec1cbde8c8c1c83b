-- ===== src/Storage/Wal/Codec.antt =====
-- One entry of the log: how it is framed, and how it is read.
use apfsds_rs.Base.{
  ℕ, ◌+◌, ◌-◌, ◌^◌, ◌≤◌, ◌<◌, ◌≡◌, refl, ap, sym, ◌∙◌, List, [], ◌∷◌, ◌++◌, none, some, arith,
  append-nil, append_assoc, length, length-append, length-drop, take, drop, take-append,
  drop-append, take_all, drop_all,
}
use apfsds_rs.Storage.Wal.{
  ByteOrder, File, max_entry, write_all, read_exact, entry, read_payload, read_length, read_entry,
}

-- What `byteorder` documents.
pub record IsByteOrder (bo : ByteOrder) : Type 0 where
  pub four : (n : ℕ) → length (bo.write_u32 n) ≡ 4
  pub eight : (n : ℕ) → length (bo.write_u64 n) ≡ 8
  pub back_u32 : (n : ℕ) → n < 2 ^ 32 → bo.read_u32 (bo.write_u32 n) ≡ n
  pub back_u64 : (n : ℕ) → n < 2 ^ 64 → bo.read_u64 (bo.write_u64 n) ≡ n

-- A `u32` for every list of bytes.
abbrev pub IsCrc32 : (List ℕ → ℕ) → Type 0
IsCrc32 crc32 = (bytes : List ℕ) → crc32 bytes < 2 ^ 32

pub read_exact-append :
    (n : ℕ) (xs ys : List ℕ) → length xs ≡ n → read_exact n (xs ++ ys) ≡ some (xs, ys)
unfolding read_exact
read_exact-append n xs ys h =
    ground (arith, length-append xs ys, take-append n xs ys (sym h), drop-append n xs ys (sym h))

pub read_exact_short : (n : ℕ) (xs : List ℕ) → length xs < n → read_exact n xs ≡ none
unfolding read_exact
read_exact_short n xs h = ground arith

-- A write at the end of the file appends.
write_all-end :
    (f : File) (bytes : List ℕ)
    → f.pos ≡ length f.content
    → write_all f bytes ≡ record { content = f.content ++ bytes; pos = f.pos + length bytes }
unfolding write_all
write_all-end f bytes h =
    let none_left : f.pos - length f.content ≡ 0 = omega arith in
    rw (
      none_left,
      append-nil f.content,
      take_all f.pos f.content (omega arith),
      drop_all (f.pos + length bytes) f.content (omega arith),
      append-nil bytes,
    )

pub write_all-at_end :
    (f : File) (bytes : List ℕ)
    → f.pos ≡ length f.content
    → ((write_all f bytes).content ≡ f.content ++ bytes)
      × ((write_all f bytes).pos ≡ length (write_all f bytes).content)
write_all-at_end f bytes h =
    rw (write_all-end f bytes h) (refl, omega (arith, length-append f.content bytes))

module _ (bo : ByteOrder) (crc32 : List ℕ → ℕ) where
  -- The bytes of an entry: checksum, length, payload.
  abbrev pub frame : List ℕ → List ℕ
  frame d = bo.write_u32 (crc32 d) ++ (bo.write_u64 (length d) ++ d)

  abbrev pub frames : List (List ℕ) → List ℕ
  frames [] = []
  frames (d ∷ ds) = frame d ++ frames ds

  payload-shorter :
      (checksum : List ℕ) (len : ℕ) (rest payload left : List ℕ)
      → read_payload bo crc32 checksum len rest ≡ entry payload left
      → length left ≤ length rest
  unfolding read_payload read_exact
  payload-shorter checksum len rest payload left e = ground (arith, length-drop len rest)

  length-shorter :
      (checksum rest payload left : List ℕ)
      → read_length bo crc32 checksum rest ≡ entry payload left
      → length left + 8 ≤ length rest
  unfolding read_length read_exact
  length-shorter checksum rest payload left e = ground (
    arith,
    length-drop 8 rest,
    payload-shorter checksum (bo.read_u64 (take 8 rest)) (drop 8 rest) payload left,
  )

  -- A round takes twelve bytes at least.
  pub read_entry-shorter :
      (rest payload left : List ℕ)
      → read_entry bo crc32 rest ≡ entry payload left
      → length left + 12 ≤ length rest
  unfolding read_entry read_exact
  read_entry-shorter rest payload left e =
      ground (arith, length-drop 4 rest, length-shorter (take 4 rest) (drop 4 rest) payload left)

  module _ (b : IsByteOrder bo) (c : IsCrc32 crc32) where
    pub length-frame : (d : List ℕ) → length (frame d) ≡ 12 + length d
    length-frame d = omega (
      arith,
      length-append (bo.write_u32 (crc32 d)) (bo.write_u64 (length d) ++ d),
      length-append (bo.write_u64 (length d)) d,
      b.four (crc32 d),
      b.eight (length d),
    )

    read_payload_ok :
        (d rest : List ℕ)
        → read_payload bo crc32 (bo.write_u32 (crc32 d)) (length d) (d ++ rest) ≡ entry d rest
    unfolding read_payload
    read_payload_ok d rest =
        ground (arith, read_exact-append (length d) d rest refl, b.back_u32 (crc32 d) (c d))

    read_length_ok :
        (checksum d rest : List ℕ)
        → length d ≤ max_entry
        → read_length bo crc32 checksum (bo.write_u64 (length d) ++ (d ++ rest))
          ≡ read_payload bo crc32 checksum (length d) (d ++ rest)
    unfolding read_length
    read_length_ok checksum d rest small = ground (
      arith,
      read_exact-append 8 (bo.write_u64 (length d)) (d ++ rest) (b.eight (length d)),
      b.back_u64 (length d) (omega arith),
    )

    -- A framed entry is read back, with what follows it.
    pub read_entry-frame :
        (d rest : List ℕ)
        → length d ≤ max_entry
        → read_entry bo crc32 (frame d ++ rest) ≡ entry d rest
    unfolding read_entry
    read_entry-frame d rest small =
        let header : frame d ++ rest
            ≡ bo.write_u32 (crc32 d) ++ (bo.write_u64 (length d) ++ (d ++ rest)) =
          append_assoc (bo.write_u32 (crc32 d)) (bo.write_u64 (length d) ++ d) rest
          ∙ ap (λ (t : List ℕ). bo.write_u32 (crc32 d) ++ t)
              (append_assoc (bo.write_u64 (length d)) d rest) in
        rw header (
          ground (
            arith,
            read_exact-append 4 (bo.write_u32 (crc32 d)) (bo.write_u64 (length d) ++ (d ++ rest))
                (b.four (crc32 d)),
            read_length_ok (bo.write_u32 (crc32 d)) d rest small,
            read_payload_ok d rest,
          ))
