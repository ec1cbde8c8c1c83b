-- ===== src/Tests/Protocol.antt =====
-- Frames, packets and their checks at concrete inputs.
use apfsds_rs.Base.{
  ℕ, ◌+◌, ◌^◌, ◌≤◌, ◌≡◌, ◌⊎◌, ◌↔◌, refl, true, false, List, [], ◌∷◌, some, none, ok, err, arith,
  length, replicate, set,
}
use apfsds_rs.Protocol.Frame.{ProxyFrame, new_data, ipv4_to_mapped, mapped_to_ipv4, no_flags}
use apfsds_rs.Protocol.Packet.{from_frame, response, is_valid}
use apfsds_rs.Protocol.Validation.{
  checksum_mismatch, timestamp_out_of_range, max_payload_size, validate_frame, ArchivedFrame,
}
use apfsds_rs.Protocol.Validation.Accepts.{
  Near, Explains, validate_frame-accepts, validate_frame-Explains,
}
use apfsds_rs.Tests.{count32}

abbrev frame : ProxyFrame
frame = record {
  conn_id = 7;
  rip = replicate 16 0;
  rport = 443;
  payload = 1 ∷ 2 ∷ 3 ∷ [];
  uuid = replicate 16 9;
  timestamp = 1000000;
  checksum = 3;
  flags = no_flags;
}

-- Half a range ahead of the clock.
abbrev far : ProxyFrame
far = record frame { timestamp = 1000500 + 2 ^ 63 }

frame_passes :
    (validate_frame count32 frame 1000500 ≡ ok tt)
    × (validate_frame count32 far 1000500 ≡ ok tt)
    × (validate_frame count32 frame 1030001 ≡ err (timestamp_out_of_range 30001))
    × (validate_frame count32 (record frame { checksum = 4 }) 1000500 ≡ err (checksum_mismatch 4 3))
unfolding validate_frame
frame_passes = (refl, refl, refl, refl)

new_data_passes :
    validate_frame count32
      (new_data count32 (replicate 16 9) 1000000 7 (replicate 16 0) 443 (1 ∷ []))
      1000500
    ≡ ok tt
unfolding validate_frame new_data
new_data_passes = refl

abbrev ipv4 : List ℕ
ipv4 = 192 ∷ 168 ∷ 1 ∷ 1 ∷ []

mapped_values :
    (mapped_to_ipv4 (ipv4_to_mapped ipv4) ≡ some ipv4)
    × (mapped_to_ipv4 (set (ipv4_to_mapped ipv4) 0 1) ≡ none)
unfolding mapped_to_ipv4 ipv4_to_mapped
mapped_values = (refl, refl)

validate_frame-accepts_example : (validate_frame count32 far 1000500 ≡ ok tt) ↔ (
    (length (far.payload) ≤ max_payload_size)
    × (count32 (far.payload) ≡ far.checksum)
    × (Near 1000500 (far.timestamp) ⊎ (far.timestamp ≡ 1000500 + 2 ^ 63)))
validate_frame-accepts_example =
    validate_frame-accepts count32 far 1000500 (omega arith) (omega arith) (omega arith)

late : validate_frame count32 frame 1030001 ≡ err (timestamp_out_of_range 30001)
unfolding validate_frame
late = refl

validate_frame-Explains_example : Explains count32 frame 1030001 (timestamp_out_of_range 30001)
validate_frame-Explains_example =
    validate_frame-Explains count32 frame 1030001 (timestamp_out_of_range 30001) (omega arith)
      (omega arith) late

-- The archive of a frame is the frame.
abbrev same_archive : ArchivedFrame
same_archive = record {
  Archived = ProxyFrame;
  payload = λ f. f.payload;
  checksum = λ f. f.checksum;
  timestamp = λ f. f.timestamp;
}

packet_values :
    (is_valid count32 (from_frame frame 2) ≡ true)
    × (is_valid count32 (from_frame (record frame { checksum = 4 }) 2) ≡ false)
    × (is_valid count32 (response count32 7 2 (4 ∷ 5 ∷ [])) ≡ true)
unfolding is_valid from_frame response
packet_values = (refl, refl, refl)
