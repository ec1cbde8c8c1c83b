-- ===== src/Tests/Transport.antt =====
-- The codec at a concrete frame.
use apfsds_rs.Base.{
  ◌==◌, if◌then◌else◌, zero, suc, ◌+◌, ◌%◌, ◌^◌, true, false, ℕ, ◌≡◌, refl, Option, none, sym, List,
  [], ◌∷◌, some, ok, err, arith, replicate,
}
use apfsds_rs.Protocol.Frame.{ProxyFrame, no_flags}
use apfsds_rs.Obfuscation.Padding.{size_distribution, unpad}
use apfsds_rs.Obfuscation.XorMask
use apfsds_rs.Obfuscation.XorMask.{portable, avx2}
use apfsds_rs.Transport.FrameCodec.{FrameCodec, new, encode, decode, invalid_frame_format}
use apfsds_rs.Transport.FrameCodec.RoundTrip.{ZstdRoundTrips, decode-encode}
use apfsds_rs.Protocol.Packet.{PlainPacket, response}
use apfsds_rs.Transport.ExitClient.{
  Slice, next_frame, process, dispatched, receive, receive_all, stream,
}
use apfsds_rs.Transport.ExitPool.{
  GroupPool, Reply, delivered, unreachable, connection_failed, client_at, send, try_clients,
  forward_in, serving, forward,
}
use apfsds_rs.Transport.ExitPool.Rotation.{Served, forward_in-Served}
use apfsds_rs.Tests.{
  count32, frame_rkyv, frame_rkyv-RoundTrips, stored_zstd, low_draws, write_frame,
}

abbrev frame : ProxyFrame
frame = record {
  conn_id = 7;
  rip = replicate 16 0;
  rport = 443;
  payload = 1 ∷ 2 ∷ 3 ∷ [];
  uuid = replicate 16 9;
  timestamp = 1000000;
  checksum = 3;
  flags = no_flags;
}

abbrev codec : FrameCodec
codec = new 0x1234567890ABCDEF

stored_zstd-RoundTrips : ZstdRoundTrips stored_zstd
stored_zstd-RoundTrips bytes out e = sym e

decode-encode_example :
    (wire : List ℕ) × (encode frame_rkyv stored_zstd portable low_draws codec 1000 frame
      ≡ some (ok wire))
    × (decode frame_rkyv stored_zstd avx2 codec 1019 wire ≡ some (ok frame))
unfolding new XorMask.new
decode-encode_example =
    decode-encode frame_rkyv stored_zstd frame_rkyv-RoundTrips stored_zstd-RoundTrips portable avx2
      low_draws codec size_distribution 1000 1019 frame (write_frame frame) (write_frame frame)
      (λ h. omega arith) refl refl refl (omega arith) (omega arith) refl

decode_refuses :
    (decode frame_rkyv stored_zstd avx2 codec 1019 [] ≡ some (err invalid_frame_format))
    × (decode frame_rkyv stored_zstd avx2 codec 1019 (1 ∷ 2 ∷ []) ≡ some (err invalid_frame_format))
unfolding decode unpad
decode_refuses = (refl, refl)

-- Payloads that are a connection and its data, and that are read at a multiple of 8.
abbrev from_bytes : ℕ → List ℕ → Option PlainPacket
from_bytes address [] = none
from_bytes address (conn_id ∷ payload) =
    if address % 8 == 0 then some (response count32 conn_id 2 payload) else none

-- Two frames of four bytes behind their lengths and a part of a third, in three pieces.
abbrev chunks : List Slice
chunks =
    (1000, 4 ∷ 0 ∷ [])
    ∷ (2000, 0 ∷ 0 ∷ 7 ∷ 8 ∷ [])
    ∷ (3004, 9 ∷ 9 ∷ 4 ∷ 0 ∷ 0 ∷ 0 ∷ 6 ∷ 6 ∷ 6 ∷ 6 ∷ 5 ∷ 0 ∷ [])
    ∷ []

-- Both payloads are at multiples of 8.
stream_values :
    stream from_bytes chunks
    ≡ some (
      response count32 7 2 (8 ∷ 9 ∷ 9 ∷ []) ∷ response count32 6 2 (6 ∷ 6 ∷ 6 ∷ []) ∷ [],
      5 ∷ 0 ∷ [],
    )
unfolding stream receive_all receive process next_frame dispatched
stream_values = refl

-- A payload right behind its length, in a buffer that starts at a multiple of 8.
unaligned_values : stream from_bytes ((1000, 2 ∷ 0 ∷ 0 ∷ 0 ∷ 7 ∷ 8 ∷ []) ∷ []) ≡ some ([], [])
unfolding stream receive_all receive process next_frame dispatched
unaligned_values = refl

-- Three exit nodes: the turn is at the second, which is unhealthy; the third does not answer.
abbrev group : GroupPool
group = record {
  clients =
      record { base_url = 1 ∷ []; healthy = true }
      ∷ record { base_url = 2 ∷ []; healthy = false }
      ∷ record { base_url = 3 ∷ []; healthy = true }
      ∷ [];
  next_index = 4;
}

abbrev replies : ℕ → Reply
replies zero = delivered
replies (suc i) = unreachable

forward_in-Served_example :
    Served replies group (forward_in replies group)
    × ((forward_in replies group).0.next_index ≡ (group.next_index + 1) % 2 ^ 64)
forward_in-Served_example = forward_in-Served replies group (omega arith)

-- The first takes the packet, and the third is marked; an unknown group is served by group 0.
forward_values :
    ((forward replies ((0, group) ∷ []) 9).1 ≡ ok 0)
    × ((forward replies ((1, group) ∷ []) 9).1 ≡ err connection_failed)
    × (client_at ((forward_in replies group).0.clients) 2
        ≡ some (record { base_url = 3 ∷ []; healthy = false }))
unfolding forward forward_in serving try_clients send
forward_values = (refl, refl, refl)
