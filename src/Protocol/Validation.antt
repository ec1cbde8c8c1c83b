-- ===== src/Protocol/Validation.antt =====
-- crates/protocol/src/validation.rs. `crc32fast::hash` is an argument, and so is the clock.
-- An `i64` is its bit pattern and wraps, as in a release build.
pub mod Accepts
use apfsds_rs.Base.{
  ℕ, ◌-◌, ◌%◌, ◌^◌, ◌≡◌, Bool, not, List, Result, ok, err, ensure, ◌>>=◌, ◌>>◌, length, ltb, ◌==◌,
}
use apfsds_rs.Base.Words.{i64_sub, i64_abs, i64_gt}
use apfsds_rs.Protocol.Frame.{ProxyFrame}

pub data ValidationError : Type 0 where
  duplicate_uuid : ValidationError
  -- expected, actual
  checksum_mismatch : ℕ → ℕ → ValidationError
  timestamp_out_of_range : ℕ → ValidationError
  invalid_conn_id : ValidationError
  -- size, max
  payload_too_large : ℕ → ℕ → ValidationError

abbrev pub max_payload_size : ℕ
max_payload_size = 65536

abbrev pub max_timestamp_drift_ms : ℕ
max_timestamp_drift_ms = 30000

module _ (crc32 : List ℕ → ℕ) where
  unfoldable pub validate_frame : ProxyFrame → ℕ → Result ValidationError (Unit {0})
  validate_frame frame current_time_ms = do
    ensure (not (ltb max_payload_size (length frame.payload)))
        (payload_too_large (length frame.payload) max_payload_size)
    let computed = crc32 frame.payload
    ensure (computed == frame.checksum) (checksum_mismatch frame.checksum computed)
    let drift = i64_sub current_time_ms frame.timestamp
    ensure (not (i64_gt (i64_abs drift) max_timestamp_drift_ms)) (timestamp_out_of_range drift)

-- What rkyv generates for `ProxyFrame`: the archived form and the fields that are read from it.
pub record ArchivedFrame : Type 1 where
  pub Archived : Type 0
  pub payload : Archived → List ℕ
  pub checksum : Archived → ℕ
  pub timestamp : Archived → ℕ

module _ (crc32 : List ℕ → ℕ) (a : ArchivedFrame) where
  unfoldable pub validate_archived_frame : a.Archived → ℕ → Result ValidationError (Unit {0})
  validate_archived_frame frame current_time_ms = do
    ensure (not (ltb max_payload_size (length (a.payload frame))))
        (payload_too_large (length (a.payload frame)) max_payload_size)
    let frame_checksum = a.checksum frame
    let computed = crc32 (a.payload frame)
    ensure (computed == frame_checksum) (checksum_mismatch frame_checksum computed)
    let frame_timestamp = a.timestamp frame
    let drift = i64_sub current_time_ms frame_timestamp
    ensure (not (i64_gt (i64_abs drift) max_timestamp_drift_ms)) (timestamp_out_of_range drift)
