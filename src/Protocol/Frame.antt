-- ===== src/Protocol/Frame.antt =====
-- crates/protocol/src/frame.rs: `ProxyFrame` and the control messages.
-- `crc32fast::hash`, the UUID and the clock are arguments. A byte array is a list of bytes; an `i32`
-- is its bit pattern; a `String` is its bytes.
pub mod Mapping
use apfsds_rs.Base.{
  ℕ, ◌+◌, ◌%◌, ◌^◌, ◌≡◌, Bool, true, false, ◌&&◌, List, [], ◌∷◌, ◌++◌, Option, none, some, take,
  drop, set, get_or, replicate, ◌==◌, if◌then◌else◌,
}
use apfsds_rs.Base.Maps.{Eq, bytes_eq}

pub record FrameFlags : Type 0 where
  pub is_control : Bool
  pub is_compressed : Bool
  pub is_final : Bool
  pub needs_ack : Bool
  pub is_ack : Bool

-- `#[derive(Default)]`.
abbrev pub no_flags : FrameFlags
no_flags = record {
  is_control = false;
  is_compressed = false;
  is_final = false;
  needs_ack = false;
  is_ack = false;
}

pub record ProxyFrame : Type 0 where
  pub conn_id : ℕ
  pub rip : List ℕ
  pub rport : ℕ
  pub payload : List ℕ
  pub uuid : List ℕ
  pub timestamp : ℕ
  pub checksum : ℕ
  pub flags : FrameFlags

-- `now` is the time since the epoch in milliseconds, a `u128` that the code casts to `u64`.
module _ (crc32 : List ℕ → ℕ) (uuid : List ℕ) (now : ℕ) where
  unfoldable pub new_data : ℕ → List ℕ → ℕ → List ℕ → ProxyFrame
  new_data conn_id rip rport payload = record {
    conn_id = conn_id;
    rip = rip;
    rport = rport;
    payload = payload;
    uuid = uuid;
    timestamp = now % 2 ^ 64;
    checksum = crc32 payload;
    flags = no_flags;
  }

  unfoldable pub new_control : List ℕ → ProxyFrame
  unfolding new_data
  new_control payload =
      let frame : ProxyFrame = new_data 0 (replicate 16 0) 0 payload in
      record frame { flags = record (frame.flags) { is_control = true } }

  unfoldable pub new_close : ℕ → ProxyFrame
  unfolding new_data
  new_close conn_id =
      let frame : ProxyFrame = new_data conn_id (replicate 16 0) 0 [] in
      record frame { flags = record (frame.flags) { is_final = true } }

unfoldable pub verify_checksum : (List ℕ → ℕ) → ProxyFrame → Bool
verify_checksum crc32 f = crc32 f.payload == f.checksum

-- `mapped[start..end].copy_from_slice(src)`, for a slice as long as `src`.
abbrev pub copy_from_slice : List ℕ → ℕ → ℕ → List ℕ → List ℕ
copy_from_slice xs start end src = take start xs ++ (src ++ drop end xs)

unfoldable pub ipv4_to_mapped : List ℕ → List ℕ
ipv4_to_mapped ipv4 =
    let zeros : List ℕ = replicate 16 0 in
    let marked : List ℕ = set (set zeros 10 0xff) 11 0xff in copy_from_slice marked 12 16 ipv4

unfoldable pub mapped_to_ipv4 : List ℕ → Option (List ℕ)
mapped_to_ipv4 mapped =
    if bytes_eq.beq (take 10 mapped) (replicate 10 0)
      && get_or mapped 10 0 == 0xff
      && get_or mapped 11 0 == 0xff
    then some (take 4 (drop 12 mapped))
    else none

pub record GroupInfo : Type 0 where
  pub group_id : ℕ
  pub name : List ℕ
  pub node_count : ℕ
  pub load : ℕ

pub data EmergencyLevel : Type 0 where
  warning stop shutdown : EmergencyLevel

pub data ControlMessage : Type 0 where
  doh_query : List ℕ → ControlMessage
  doh_response : List ℕ → ControlMessage
  ping : ℕ → ControlMessage
  pong : ℕ → ControlMessage
  -- new_pk, valid_from, valid_until
  key_rotation : List ℕ → ℕ → ℕ → ControlMessage
  -- level, trigger_after
  emergency : EmergencyLevel → ℕ → ControlMessage
  group_list : List GroupInfo → ControlMessage
  group_select : ℕ → ControlMessage

pub data RaftCommand : Type 0 where
  -- conn_id, txid, client_addr, nat_entry, assigned_pod
  upsert : ℕ → ℕ → List ℕ → ℕ × ℕ → ℕ → RaftCommand
  delete : ℕ → RaftCommand
  cleanup : ℕ → RaftCommand
  noop : RaftCommand
