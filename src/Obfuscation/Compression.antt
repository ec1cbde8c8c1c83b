-- ===== src/Obfuscation/Compression.antt =====
-- crates/obfuscation/src/compression.rs. The `zstd` package is an argument; its error texts are
-- lists of bytes.
pub mod Limit
use apfsds_rs.Base.{
  ℕ, ◌+◌, ◌≤◌, ◌≡◌, Bool, true, false, ◌&&◌, List, [], ◌∷◌, ◌++◌, Result, ok, err, ◌>>=◌, length,
  get_or, ltb, leb, ◌==◌, if◌then◌else◌,
}

abbrev pub compression_threshold : ℕ
compression_threshold = 1024

abbrev pub default_compression_level : ℕ
default_compression_level = 3

-- The text of an error: zstd's own, or "Decompressed size exceeds limit of {} bytes".
pub data Message : Type 0 where
  zstd_says : List ℕ → Message
  exceeds_limit : ℕ → Message

pub data CompressionError : Type 0 where
  compression_failed : Message → CompressionError
  decompression_failed : Message → CompressionError
  not_compressed : CompressionError

-- One `read` into the buffer: the bytes that were read, none at the end, or an error.
abbrev pub Read : Type 0
Read = Result (List ℕ) (List ℕ)

-- The calls of `zstd`: `encode_all`, `decode_all`, and `Decoder::new` with the reads that follow.
pub record Zstd : Type 0 where
  pub encode_all : List ℕ → ℕ → Result (List ℕ) (List ℕ)
  pub decode_all : List ℕ → Result (List ℕ) (List ℕ)
  pub decoder : List ℕ → Result (List ℕ) (List Read)

abbrev pub map_err :
    {A : Type 0} → (Message → CompressionError) → Result (List ℕ) A → Result CompressionError A
map_err f (ok a) = ok a
map_err f (err m) = err (f (zstd_says m))

module _ (z : Zstd) where
  unfoldable pub compress_with_level : List ℕ → ℕ → Result CompressionError (List ℕ)
  compress_with_level bytes level = map_err compression_failed (z.encode_all bytes level)

  unfoldable pub compress : List ℕ → Result CompressionError (List ℕ)
  unfolding compress_with_level
  compress bytes = compress_with_level bytes default_compression_level

  unfoldable pub compress_if_needed : List ℕ → Result CompressionError (List ℕ × Bool)
  unfolding compress
  compress_if_needed bytes =
      if ltb (length bytes) compression_threshold
      then ok (bytes, false)
      else compress bytes >>= λ compressed. ok (compressed, true)

  unfoldable pub decompress : List ℕ → Result CompressionError (List ℕ)
  decompress bytes = map_err decompression_failed (z.decode_all bytes)

-- The loop over the reads, with the result so far.
unfoldable pub read_loop : ℕ → List Read → List ℕ → Result CompressionError (List ℕ)
read_loop max_size [] result = ok result
read_loop max_size (err m ∷ reads) result = err (decompression_failed (zstd_says m))
read_loop max_size (ok [] ∷ reads) result = ok result
read_loop max_size (ok (b ∷ chunk) ∷ reads) result =
    let rest = read_loop max_size reads (result ++ b ∷ chunk) in
    if ltb max_size (length result + length (b ∷ chunk))
    then err (decompression_failed (exceeds_limit max_size))
    else rest

unfoldable pub decompress_with_limit : Zstd → List ℕ → ℕ → Result CompressionError (List ℕ)
decompress_with_limit z bytes max_size =
    map_err decompression_failed (z.decoder bytes) >>= λ reads. read_loop max_size reads []

unfoldable pub is_compressed : List ℕ → Bool
is_compressed bytes =
    leb 4 (length bytes)
    && get_or bytes 0 0 == 0x28
    && get_or bytes 1 0 == 0xB5
    && get_or bytes 2 0 == 0x2F
    && get_or bytes 3 0 == 0xFD
