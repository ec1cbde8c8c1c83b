-- ===== src/Transport/FrameCodec.antt =====
-- crates/transport/src/frame_codec.rs. `rkyv`, `zstd`, the random draws and the clock (in seconds)
-- are arguments. `none` is a panic of the mask or of the padding.
pub mod RoundTrip
use apfsds_rs.Base.{
  ℕ, ◌≡◌, Bool, true, false, not, List, [], ◌∷◌, Option, none, some, Result, ok, err, ◌>>=◌,
  and_then, ok_or, bit_and, ◌==◌, if◌then◌else◌,
}
use apfsds_rs.Base.Rkyv.{Rkyv}
use apfsds_rs.Protocol.Frame.{ProxyFrame}
use apfsds_rs.Obfuscation.Padding.{PaddingStrategy, default_strategy, Draws, pad, unpad}
use apfsds_rs.Obfuscation.XorMask.{XorMask, Target, apply}
use apfsds_rs.Obfuscation.XorMask
use apfsds_rs.Obfuscation.Compression.{Zstd, CompressionError, compress_if_needed, decompress}

-- The texts are those of the errors that they carry.
pub data CodecError : Type 0 where
  serialization_failed : List ℕ → CodecError
  deserialization_failed : List ℕ → CodecError
  compression_failed : CompressionError → CodecError
  decompression_failed : CompressionError → CodecError
  invalid_frame_format : CodecError

abbrev pub map_err : {E A : Type 0} → (E → CodecError) → Result E A → Result CodecError A
map_err f (ok a) = ok a
map_err f (err e) = err (f e)

-- A fallible step, then one that may panic.
abbrev pub on_ok :
    {A B : Type 0} → Result CodecError A → (A → Option B) → Option (Result CodecError B)
on_ok (ok a) f = and_then (f a) (λ b. some (ok b))
on_ok (err e) f = some (err e)

pub record FrameCodec : Type 0 where
  pub xor_mask : XorMask
  pub padding : PaddingStrategy
  pub compression_enabled : Bool

unfoldable pub new : ℕ → FrameCodec
new session_key = record {
  xor_mask = XorMask.new session_key;
  padding = default_strategy;
  compression_enabled = true;
}

unfoldable pub without_compression : ℕ → FrameCodec
without_compression session_key = record {
  xor_mask = XorMask.new session_key;
  padding = default_strategy;
  compression_enabled = false;
}

module _ (k : Rkyv ProxyFrame) (z : Zstd) where
  -- Steps 1 and 2 of `encode`.
  unfoldable pub serialize_and_compress :
      FrameCodec → ProxyFrame → Result CodecError (List ℕ × Bool)
  serialize_and_compress c frame = map_err serialization_failed (k.to_bytes frame) >>= λ bytes.
      if c.compression_enabled
      then map_err compression_failed (compress_if_needed z bytes)
      else ok (bytes, false)

  -- Steps 4 and 5 of `decode`.
  unfoldable pub decompress_and_read : Bool → List ℕ → Result CodecError ProxyFrame
  decompress_and_read compressed unmasked =
      (if compressed then map_err decompression_failed (decompress z unmasked) else ok unmasked)
      >>= λ bytes. map_err deserialization_failed (k.access bytes) >>= λ archived.
          map_err deserialization_failed (k.deserialize archived)

-- Steps 3 to 5.
unfoldable pub mask_and_pad : Target → Draws → FrameCodec → ℕ → List ℕ × Bool → Option (List ℕ)
mask_and_pad t r c now (bytes, compressed) = and_then (apply t c.xor_mask now bytes) λ masked.
    and_then (pad r c.padding masked) λ padded. some ((if compressed then 0x01 else 0x00) ∷ padded)

module _ (k : Rkyv ProxyFrame) (z : Zstd) (t : Target) where
  unfoldable pub encode : Draws → FrameCodec → ℕ → ProxyFrame → Option (Result CodecError (List ℕ))
  encode r c now frame = on_ok (serialize_and_compress k z c frame) (mask_and_pad t r c now)

  unfoldable pub decode : FrameCodec → ℕ → List ℕ → Option (Result CodecError ProxyFrame)
  decode c now [] = some (err invalid_frame_format)
  decode c now (flags ∷ remaining) =
      let compressed = not (bit_and flags 0x01 == 0) in
      elim (unpad remaining) [
        | none ↦ some (err invalid_frame_format)
        | some unpadded ↦
            and_then (apply t c.xor_mask now unpadded)
              λ unmasked. some (decompress_and_read k z compressed unmasked)
      ]
