-- ===== src/Protocol/Validation/Accepts.antt =====
-- Which frames `validate_frame` lets through, and what its errors say.
use apfsds_rs.Base.{ℕ, ◌+◌, ◌^◌, ◌≤◌, ◌<◌, ◌≡◌, ◌≢◌, ◌⊎◌, ◌↔◌, List, ok, err, length, arith}
use apfsds_rs.Base.Words.{IsU64}
use apfsds_rs.Protocol.Frame.{ProxyFrame}
use apfsds_rs.Protocol.Validation.{
  ValidationError, duplicate_uuid, checksum_mismatch, timestamp_out_of_range, invalid_conn_id,
  payload_too_large, max_payload_size, max_timestamp_drift_ms, validate_frame, ArchivedFrame,
  validate_archived_frame,
}

-- The two times are at most 30 seconds apart.
abbrev pub Near : ℕ → ℕ → Type 0
Near now t = (now ≤ t + max_timestamp_drift_ms) × (t ≤ now + max_timestamp_drift_ms)

-- A frame passes exactly when its payload has at most 65536 bytes and the stated checksum, and its
-- timestamp is within 30 seconds of the clock or exactly 2 ^ 63 ms ahead of it, where the
-- wrapped absolute value is negative. The clock stands past 30 seconds and below 2 ^ 63.
pub validate_frame-accepts :
    (crc32 : List ℕ → ℕ) (f : ProxyFrame) (now : ℕ)
    → max_timestamp_drift_ms ≤ now
    → now < 2 ^ 63
    → IsU64 f.timestamp
    → (validate_frame crc32 f now ≡ ok tt) ↔ (
        (length f.payload ≤ max_payload_size)
        × (crc32 f.payload ≡ f.checksum)
        × (Near now f.timestamp ⊎ (f.timestamp ≡ now + 2 ^ 63)))
unfolding validate_frame
validate_frame-accepts crc32 f now lo hi h = ground arith

-- What each error says of the frame.
abbrev pub Explains : (List ℕ → ℕ) → ProxyFrame → ℕ → ValidationError → Type 0
Explains crc32 f now duplicate_uuid = ⊥
Explains crc32 f now (checksum_mismatch expected actual) =
    (expected ≡ f.checksum)
    × (actual ≡ crc32 f.payload)
    × (expected ≢ actual)
    × (length f.payload ≤ max_payload_size)
Explains crc32 f now (timestamp_out_of_range drift) =
    ((drift + f.timestamp ≡ now) ⊎ (drift + f.timestamp ≡ now + 2 ^ 64))
    × (¬ Near now f.timestamp)
    × (crc32 f.payload ≡ f.checksum)
    × (length f.payload ≤ max_payload_size)
Explains crc32 f now invalid_conn_id = ⊥
Explains crc32 f now (payload_too_large size limit) =
    (size ≡ length f.payload) × (limit ≡ max_payload_size) × (limit < size)

-- The clock and the timestamp are below 2 ^ 64. A refusal names its reason truly: the size, the two checksums or the drift are those of the
-- frame, the check that it names fails, and the earlier checks passed. No frame is refused as a
-- duplicate or for its connection.
pub validate_frame-Explains :
    (crc32 : List ℕ → ℕ) (f : ProxyFrame) (now : ℕ) (e : ValidationError)
    → IsU64 now
    → IsU64 f.timestamp
    → validate_frame crc32 f now ≡ err e
    → Explains crc32 f now e
unfolding validate_frame
validate_frame-Explains crc32 f now duplicate_uuid hn h r = ground arith
validate_frame-Explains crc32 f now (checksum_mismatch expected actual) hn h r = ground arith
validate_frame-Explains crc32 f now (timestamp_out_of_range drift) hn h r = ground arith
validate_frame-Explains crc32 f now invalid_conn_id hn h r = ground arith
validate_frame-Explains crc32 f now (payload_too_large size limit) hn h r = ground arith

-- The zero-copy check of an archived frame gives the same answer as the check of the frame whose
-- payload, checksum and timestamp it holds.
pub validate_archived_frame-eq-validate_frame :
    (crc32 : List ℕ → ℕ) (a : ArchivedFrame) (archived : a.Archived) (f : ProxyFrame) (now : ℕ)
    → a.payload archived ≡ f.payload
    → a.checksum archived ≡ f.checksum
    → a.timestamp archived ≡ f.timestamp
    → validate_archived_frame crc32 a archived now ≡ validate_frame crc32 f now
unfolding validate_archived_frame validate_frame
validate_archived_frame-eq-validate_frame crc32 a archived f now p c t = rw (p, c, t)
