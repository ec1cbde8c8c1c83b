-- ===== src/Tests.antt =====
-- Concrete stand-ins for the packages that the program uses, and the theorems at concrete inputs.
pub mod Protocol
pub mod Crypto
pub mod Obfuscation
pub mod Transport
pub mod Storage
pub mod Daemon
pub mod Raft
pub mod KeyRotation
pub mod ExitNode
pub mod Client
pub mod Records
pub mod Aligned
pub mod Handler
pub mod Services
pub mod WssClient
pub mod Config
pub mod Arrival
pub mod Outbound
use apfsds_rs.Base.{
  ℕ, zero, suc, ◌%◌, ◌^◌, ◌<◌, ◌≡◌, refl, sym, ◌∙◌, ap, ap₂, Bool, true, false, List, [], ◌∷◌, ◌++◌,
  ok, err, ok_injective, Result, arith, length, replicate, length-replicate, take, drop,
  take-append, drop-append, ◌==◌,
}
use apfsds_rs.Base.Rkyv.{Rkyv, RoundTrips}
use apfsds_rs.Protocol.Frame.{ProxyFrame, FrameFlags}
use apfsds_rs.Protocol.Packet.{PlainPacket}
use apfsds_rs.Protocol.Auth.{ConnRecord, ConnMeta, StreamState}
use apfsds_rs.Storage.Segment.Reads.{NotEmpty}
use apfsds_rs.Base.Words.{to_le_bytes, from_le_bytes, length-to_le_bytes, from_le_bytes-to_le_bytes}
use apfsds_rs.Storage.Wal.{ByteOrder}
use apfsds_rs.Storage.Wal.Codec.{IsByteOrder, IsCrc32}
use apfsds_rs.Obfuscation.Compression.{Zstd}
use apfsds_rs.Obfuscation.Padding.{Draws, IsDraws}

-- A checksum: the number of bytes.
abbrev pub count32 : List ℕ → ℕ
count32 bytes = length bytes % 2 ^ 32

abbrev bit : Bool → ℕ
bit false = 0
bit true = 1

bit_back : (b : Bool) → (bit b == 1) ≡ b
bit_back false = refl
bit_back true = refl

-- A frame as its numbers, the lengths of two arrays, and the arrays.
abbrev pub write_frame : ProxyFrame → List ℕ
write_frame f =
    f.conn_id
      ∷ f.rport
      ∷ f.timestamp
      ∷ f.checksum
      ∷ bit (f.flags.is_control)
      ∷ bit (f.flags.is_compressed)
      ∷ bit (f.flags.is_final)
      ∷ bit (f.flags.needs_ack)
      ∷ bit (f.flags.is_ack)
      ∷ length f.rip
      ∷ length f.uuid
      ∷ f.rip
    ++ (f.uuid ++ f.payload)

abbrev read_frame : List ℕ → Result (List ℕ) ProxyFrame
read_frame (c ∷ p ∷ t ∷ s ∷ f0 ∷ f1 ∷ f2 ∷ f3 ∷ f4 ∷ n ∷ m ∷ rest) = ok (record {
  conn_id = c;
  rip = take n rest;
  rport = p;
  payload = drop m (drop n rest);
  uuid = take m (drop n rest);
  timestamp = t;
  checksum = s;
  flags = record {
    is_control = f0 == 1;
    is_compressed = f1 == 1;
    is_final = f2 == 1;
    needs_ack = f3 == 1;
    is_ack = f4 == 1;
  };
})
read_frame _ = err []

abbrev pub frame_rkyv : Rkyv ProxyFrame
frame_rkyv = record {
  Archived = List ℕ;
  to_bytes = λ f. ok (write_frame f);
  access = λ bytes. ok bytes;
  deserialize = read_frame;
}

frame_back : (f : ProxyFrame) → read_frame (write_frame f) ≡ ok f
frame_back f = rw (
  bit_back (f.flags.is_control),
  bit_back (f.flags.is_compressed),
  bit_back (f.flags.is_final),
  bit_back (f.flags.needs_ack),
  bit_back (f.flags.is_ack),
  take-append (length f.rip) f.rip (f.uuid ++ f.payload) refl,
  drop-append (length f.rip) f.rip (f.uuid ++ f.payload) refl,
  take-append (length f.uuid) f.uuid f.payload refl,
  drop-append (length f.uuid) f.uuid f.payload refl,
)

pub frame_rkyv-RoundTrips : RoundTrips frame_rkyv
frame_rkyv-RoundTrips f bytes e = by_bytes bytes e
  where
    by_bytes : (b : List ℕ) → frame_rkyv.to_bytes f ≡ ok b → read_frame b ≡ ok f
    by_bytes b h = rw (← ok_injective (write_frame f) b h) (frame_back f)

-- A record without streams as its numbers and the address.
abbrev write_record : ConnRecord → List StreamState → Result (List ℕ) (List ℕ)
write_record r [] = ok (
    r.conn_id ∷ r.metadata.nat_entry.0 ∷ r.metadata.nat_entry.1 ∷ r.metadata.assigned_pod
    ∷ r.created_at ∷ r.last_active ∷ r.access_count ∷ r.txid ∷ r.metadata.client_addr)
write_record r (s ∷ streams) = err []

abbrev read_record : List ℕ → Result (List ℕ) ConnRecord
read_record (c ∷ n ∷ m ∷ p ∷ created ∷ active ∷ count ∷ t ∷ addr) = ok (record {
  conn_id = c;
  metadata = record {
    client_addr = addr;
    nat_entry = (n, m);
    assigned_pod = p;
    stream_states = [];
  };
  created_at = created;
  last_active = active;
  access_count = count;
  txid = t;
})
read_record _ = err []

abbrev pub record_rkyv : Rkyv ConnRecord
record_rkyv = record {
  Archived = List ℕ;
  to_bytes = λ r. write_record r r.metadata.stream_states;
  access = λ bytes. ok bytes;
  deserialize = read_record;
}

-- Of a record with the streams `streams`.
with_streams : ConnRecord → List StreamState → ConnRecord
with_streams r streams = record r { metadata = record (r.metadata) { stream_states = streams } }

record_back :
    (r : ConnRecord) (streams : List StreamState) (bytes : List ℕ)
    → write_record r streams ≡ ok bytes
    → (read_record bytes ≡ ok (with_streams r streams)) × (0 < length bytes)
unfolding with_streams
record_back r [] bytes e = rw (← ok_injective _ bytes e) (refl, omega arith)
record_back r (s ∷ streams) bytes e = absurd (cc)

pub record_rkyv-RoundTrips : RoundTrips record_rkyv
unfolding with_streams
record_rkyv-RoundTrips r bytes e = (record_back r r.metadata.stream_states bytes e).0

pub record_rkyv-NotEmpty : NotEmpty record_rkyv
record_rkyv-NotEmpty r bytes e = (record_back r r.metadata.stream_states bytes e).1

-- A compressor that leaves the bytes as they are, and delivers them in one read.
abbrev pub stored_zstd : Zstd
stored_zstd = record {
  encode_all = λ bytes level. ok bytes;
  decode_all = λ bytes. ok bytes;
  decoder = λ bytes. ok (ok bytes ∷ []);
}

-- Draws that give the lowest size and zeros.
abbrev pub low_draws : Draws
low_draws = record {
  range = λ lo hi. lo;
  up_to = λ n. 0;
  gauss = λ mean std_dev. mean;
  bytes = λ n. replicate n 0;
}

pub low_draws-IsDraws : IsDraws low_draws
low_draws-IsDraws = record {
  range_low = λ lo hi h. omega arith;
  range_high = λ lo hi h. h;
  up_to_high = λ n. omega arith;
  bytes_count = λ n. length-replicate n 0;
}

-- Little-endian order.
abbrev pub order : ByteOrder
order = record {
  write_u32 = to_le_bytes 4;
  write_u64 = to_le_bytes 8;
  read_u32 = from_le_bytes;
  read_u64 = from_le_bytes;
}

pub order-IsByteOrder : IsByteOrder order
order-IsByteOrder = record {
  four = length-to_le_bytes 4;
  eight = length-to_le_bytes 8;
  back_u32 = λ n h. from_le_bytes-to_le_bytes 4 n (omega arith);
  back_u64 = λ n h. from_le_bytes-to_le_bytes 8 n (omega arith);
}

pub count32-IsCrc32 : IsCrc32 count32
count32-IsCrc32 bytes = omega arith

-- A packet as its numbers, the length of an array, the array and the payload.
abbrev pub write_packet : PlainPacket → List ℕ
write_packet p =
    p.magic
      ∷ p.conn_id
      ∷ p.handler_id
      ∷ p.rport
      ∷ p.checksum
      ∷ bit p.is_response
      ∷ length p.rip
      ∷ p.rip
    ++ p.payload

abbrev pub read_packet : List ℕ → Result (List ℕ) PlainPacket
read_packet (m ∷ c ∷ h ∷ port ∷ sum ∷ r ∷ n ∷ rest) = ok (record {
  magic = m;
  conn_id = c;
  handler_id = h;
  rip = take n rest;
  rport = port;
  payload = drop n rest;
  checksum = sum;
  is_response = r == 1;
})
read_packet _ = err []

abbrev pub packet_rkyv : Rkyv PlainPacket
packet_rkyv = record {
  Archived = List ℕ;
  to_bytes = λ p. ok (write_packet p);
  access = λ bytes. ok bytes;
  deserialize = read_packet;
}

pub packet_back : (p : PlainPacket) → read_packet (write_packet p) ≡ ok p
packet_back p = rw (
  bit_back p.is_response,
  take-append (length p.rip) p.rip p.payload refl,
  drop-append (length p.rip) p.rip p.payload refl,
)

pub packet_rkyv-RoundTrips : RoundTrips packet_rkyv
packet_rkyv-RoundTrips p bytes e = by_bytes bytes e
  where
    by_bytes : (b : List ℕ) → packet_rkyv.to_bytes p ≡ ok b → read_packet b ≡ ok p
    by_bytes b h = rw (← ok_injective (write_packet p) b h) (packet_back p)
