-- ===== src/Transport/FrameCodec/RoundTrip.antt =====
-- What one side encodes, the other side decodes.
use apfsds_rs.Base.{
  ℕ, ◌/◌, ◌^◌, ◌<◌, ◌≡◌, ◌≢◌, inl, inr, ap, ◌∙◌, Bool, true, false, List, ◌∷◌, some, Result, ok,
  err, ◌>>=◌, arith, Bool-cases, length, ltb, if◌then◌else◌,
}
use mathlib.Core.Path.{subst}
use apfsds_rs.Base.Rkyv.{Rkyv, RoundTrips}
use apfsds_rs.Protocol.Frame.{ProxyFrame}
use apfsds_rs.Obfuscation.Padding.{Draws, fixed, pad, unpad}
use apfsds_rs.Obfuscation.Padding.Target.{IsEmptyRange}
use apfsds_rs.Obfuscation.Padding.RoundTrip.{unpad-pad, pad_returns}
use apfsds_rs.Obfuscation.XorMask.{Target, apply}
use apfsds_rs.Obfuscation.XorMask.RoundTrip.{apply-apply, apply_returns}
use apfsds_rs.Obfuscation.Compression.{
  Zstd, compress_if_needed, decompress, default_compression_level,
}
use apfsds_rs.Transport.FrameCodec.{
  FrameCodec, deserialization_failed, map_err, serialize_and_compress, mask_and_pad, encode,
  decompress_and_read, decode,
}

-- `zstd` decompresses what it compressed at the default level.
abbrev pub ZstdRoundTrips : Zstd → Type 0
ZstdRoundTrips z =
    (bytes out : List ℕ)
    → z.encode_all bytes default_compression_level ≡ ok out
    → z.decode_all out ≡ ok bytes

module _ (k : Rkyv ProxyFrame) (z : Zstd) (rkyv_back : RoundTrips k)
    (zstd_back : ZstdRoundTrips z) where
  -- Reading back the bytes of a frame.
  read_plain :
      (frame : ProxyFrame) (bytes : List ℕ)
      → k.to_bytes frame ≡ ok bytes
      → decompress_and_read k z false bytes ≡ ok frame
  unfolding decompress_and_read
  read_plain frame bytes s = by_access (k.access bytes) (rkyv_back frame bytes s)
    where
      by_access :
          (a : Result (List ℕ) k.Archived)
          → (a >>= k.deserialize) ≡ ok frame
          → (map_err deserialization_failed a >>= λ archived.
              map_err deserialization_failed (k.deserialize archived))
            ≡ ok frame
      by_access (ok a) e = rw e
      by_access (err m) e = absurd (cc)

  read_compressed :
      (frame : ProxyFrame) (bytes out : List ℕ)
      → k.to_bytes frame ≡ ok bytes
      → z.encode_all bytes default_compression_level ≡ ok out
      → decompress_and_read k z true out ≡ ok frame
  unfolding decompress_and_read decompress
  read_compressed frame bytes out s e = rw (zstd_back bytes out e) (read_plain frame bytes s)

  -- The serialised frame, compressed or not, with its flag.
  record IsBody (c : FrameCodec) (frame : ProxyFrame) : Type 0 where
    body : List ℕ
    flag : Bool
    made : serialize_and_compress k z c frame ≡ ok (body, flag)
    reads : decompress_and_read k z flag body ≡ ok frame
    small : length body < 2 ^ 32

  serialize_and_compress-IsBody :
      (c : FrameCodec) (frame : ProxyFrame) (bytes out : List ℕ)
      → k.to_bytes frame ≡ ok bytes
      → z.encode_all bytes default_compression_level ≡ ok out
      → length bytes < 2 ^ 32
      → length out < 2 ^ 32
      → IsBody c frame
  unfolding serialize_and_compress compress_if_needed
  serialize_and_compress-IsBody c frame bytes out s e hb ho =
      elim (Bool-cases c.compression_enabled) [
        | inr off ↦ record {
          body = bytes;
          flag = false;
          made = rw (s, off);
          reads = read_plain frame bytes s;
          small = hb;
        }
        | inl on ↦ elim (Bool-cases (ltb (length bytes) 1024)) [
          | inl short ↦ record {
            body = bytes;
            flag = false;
            made = rw (s, on, short);
            reads = read_plain frame bytes s;
            small = hb;
          }
          | inr long ↦ record {
            body = out;
            flag = true;
            made = rw (s, on, long, e);
            reads = read_compressed frame bytes out s e;
            small = ho;
          }
        ]
      ]

  -- Decoding undoes the padding and the mask.
  decode_wire :
      (t u : Target) (r : Draws) (c : FrameCodec) (now later : ℕ) (body masked padded : List ℕ)
      (flag : Bool)
      → now / c.xor_mask.time_step ≡ later / c.xor_mask.time_step
      → length body < 2 ^ 32
      → apply t c.xor_mask now body ≡ some masked
      → pad r c.padding masked ≡ some padded
      → decode k z u c later ((if flag then 0x01 else 0x00) ∷ padded)
        ≡ some (decompress_and_read k z flag body)
  unfolding decode
  decode_wire t u r c now later body masked padded flag window small m p =
      let (back, size) = apply-apply t u c.xor_mask now later body masked window m in
      by_flag flag (unpad-pad r c.padding masked padded (omega arith) p) back
    where
      by_flag :
          (flag : Bool)
          → unpad padded ≡ some masked
          → apply u c.xor_mask later masked ≡ some body
          → decode k z u c later ((if flag then 0x01 else 0x00) ∷ padded)
            ≡ some (decompress_and_read k z flag body)
      by_flag true e b = rw (e, decode, b)
      by_flag false e b = rw (e, decode, b)

  -- A frame that serialises, compresses and stays below 4 GiB is encoded without a panic, and what
  -- is sent decodes to the same frame, by a receiver on any build whose clock is in the same time
  -- window. The codec has a time step and pads by a list of sizes, as `new` builds it.
  pub decode-encode :
      (t u : Target) (r : Draws) (c : FrameCodec) (dist : List (ℕ × ℕ)) (now later : ℕ)
      (frame : ProxyFrame) (bytes out : List ℕ)
      → c.xor_mask.time_step ≢ 0
      → c.padding.distribution ≡ fixed dist
      → k.to_bytes frame ≡ ok bytes
      → z.encode_all bytes default_compression_level ≡ ok out
      → length bytes < 2 ^ 32
      → length out < 2 ^ 32
      → now / c.xor_mask.time_step ≡ later / c.xor_mask.time_step
      → (wire : List ℕ) × (encode k z t r c now frame ≡ some (ok wire))
        × (decode k z u c later wire ≡ some (ok frame))
  unfolding encode mask_and_pad
  decode-encode t u r c dist now later frame bytes out step fix s e hb ho window =
      let b = serialize_and_compress-IsBody c frame bytes out s e hb ho in
      let (masked, m) = apply_returns t c.xor_mask now b.body step in
      let (padded, p) =
        pad_returns r c.padding masked (λ h. subst (λ d. IsEmptyRange d (length masked)) fix h) in
      (
        (if b.flag then 0x01 else 0x00) ∷ padded,
        rw (b.made, m, p),
        decode_wire t u r c now later b.body masked padded b.flag window b.small m p
            ∙ ap some b.reads,
      )
