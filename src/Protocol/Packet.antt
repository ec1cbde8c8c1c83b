-- ===== src/Protocol/Packet.antt =====
-- crates/protocol/src/frame.rs: `PlainPacket`, which handler and exit nodes exchange.
use apfsds_rs.Base.{ℕ, Bool, true, false, ◌&&◌, List, replicate, ◌==◌}
use apfsds_rs.Protocol.Frame.{ProxyFrame}

pub record PlainPacket : Type 0 where
  pub magic : ℕ
  pub conn_id : ℕ
  pub handler_id : ℕ
  pub rip : List ℕ
  pub rport : ℕ
  pub payload : List ℕ
  pub checksum : ℕ
  pub is_response : Bool

abbrev pub packet_magic : ℕ
packet_magic = 0xDEADBEEF

unfoldable pub from_frame : ProxyFrame → ℕ → PlainPacket
from_frame f handler_id = record {
  magic = packet_magic;
  conn_id = f.conn_id;
  handler_id = handler_id;
  rip = f.rip;
  rport = f.rport;
  payload = f.payload;
  checksum = f.checksum;
  is_response = false;
}

module _ (crc32 : List ℕ → ℕ) where
  unfoldable pub response : ℕ → ℕ → List ℕ → PlainPacket
  response conn_id handler_id payload = record {
    magic = packet_magic;
    conn_id = conn_id;
    handler_id = handler_id;
    rip = replicate 16 0;
    rport = 0;
    payload = payload;
    checksum = crc32 payload;
    is_response = true;
  }

  unfoldable pub is_valid : PlainPacket → Bool
  is_valid p = p.magic == packet_magic && crc32 p.payload == p.checksum
