-- ===== src/Obfuscation/Compression/Limit.antt =====
-- What a limit on the decompressed size lets through.
use apfsds_rs.Base.{
  ℕ, ◌+◌, ◌≤◌, ◌≡◌, ◌↔◌, refl, ap, ◌∙◌, List, [], ◌∷◌, ◌++◌, Result, ok, err, ◌>>=◌, length,
  length-append, append_assoc, append-nil, arith,
}
use apfsds_rs.Obfuscation.Compression.{
  decompression_failed, map_err, Zstd, Read, read_loop, decompress_with_limit,
}

-- All that the reads deliver up to the end of the stream, or the first error.
abbrev pub contents : List Read → Result (List ℕ) (List ℕ)
contents [] = ok []
contents (err m ∷ reads) = err m
contents (ok [] ∷ reads) = ok []
contents (ok (b ∷ chunk) ∷ reads) = contents reads >>= λ rest. ok ((b ∷ chunk) ++ rest)

read_loop_sound :
    (limit : ℕ) (reads : List Read) (acc out : List ℕ)
    → length acc ≤ limit
    → read_loop limit reads acc ≡ ok out
    → (rest : List ℕ) × (contents reads ≡ ok rest) × (out ≡ acc ++ rest) × (length out ≤ limit)
unfolding read_loop
read_loop_sound limit [] acc out h e = ([], refl, rw append-nil (ground arith), ground arith)
read_loop_sound limit (err m ∷ reads) acc out h e = absurd (cc)
read_loop_sound limit (ok [] ∷ reads) acc out h e =
    ([], refl, rw append-nil (ground arith), ground arith)
read_loop_sound limit (ok (b ∷ chunk) ∷ reads) acc out h e =
    let (rest, c, form, fits) =
      read_loop_sound limit reads (acc ++ b ∷ chunk) out
        (ground (arith, length-append acc (b ∷ chunk))) (ground arith) in
    ((b ∷ chunk) ++ rest, rw c, form ∙ append_assoc acc (b ∷ chunk) rest, fits)

split_contents :
    (b : ℕ) (chunk : List ℕ) (reads : List Read) (rest : List ℕ)
    → contents (ok (b ∷ chunk) ∷ reads) ≡ ok rest
    → (tail : List ℕ) × (contents reads ≡ ok tail) × (rest ≡ (b ∷ chunk) ++ tail)
split_contents b chunk reads rest c = by_rest (contents reads) refl
  where
    by_rest :
        (r : Result (List ℕ) (List ℕ))
        → contents reads ≡ r
        → (tail : List ℕ) × (contents reads ≡ ok tail) × (rest ≡ (b ∷ chunk) ++ tail)
    by_rest (ok tail) e = (tail, e, ground arith)
    by_rest (err m) e = absurd (ground arith)

read_loop_complete :
    (limit : ℕ) (reads : List Read) (acc rest : List ℕ)
    → contents reads ≡ ok rest
    → length acc + length rest ≤ limit
    → read_loop limit reads acc ≡ ok (acc ++ rest)
unfolding read_loop
read_loop_complete limit [] acc rest c h = ground (arith, append-nil acc)
read_loop_complete limit (err m ∷ reads) acc rest c h = absurd (cc)
read_loop_complete limit (ok [] ∷ reads) acc rest c h = ground (arith, append-nil acc)
read_loop_complete limit (ok (b ∷ chunk) ∷ reads) acc rest c h =
    let (tail, ct, form) = split_contents b chunk reads rest c in
    let size : length rest ≡ length (b ∷ chunk) + length tail =
      ap length form ∙ length-append (b ∷ chunk) tail in
    ground (
      arith,
      length-append acc (b ∷ chunk),
      append_assoc acc (b ∷ chunk) tail,
      read_loop_complete limit reads (acc ++ b ∷ chunk) tail ct,
    )

-- Decompressing under a limit gives the whole content of the stream exactly where it is read
-- without error and has at most that many bytes; anything longer is refused.
pub decompress_with_limit_iff :
    (z : Zstd) (bytes out : List ℕ) (limit : ℕ)
    → (decompress_with_limit z bytes limit ≡ ok out)
      ↔ (((z.decoder bytes >>= contents) ≡ ok out) × (length out ≤ limit))
unfolding decompress_with_limit
decompress_with_limit_iff z bytes out limit = by_decoder (z.decoder bytes)
  where
    by_decoder :
        (d : Result (List ℕ) (List Read))
        → ((map_err decompression_failed d >>= λ reads. read_loop limit reads []) ≡ ok out)
          ↔ (((d >>= contents) ≡ ok out) × (length out ≤ limit))
    by_decoder (err m) = (λ e. absurd (cc), λ h. absurd (ground arith))
    by_decoder (ok reads) = (
      λ e.
          let (rest, c, form, fits) = read_loop_sound limit reads [] out (omega arith) e in
          (rw form c, fits),
      λ h. read_loop_complete limit reads [] out h.0 (omega arith),
    )
