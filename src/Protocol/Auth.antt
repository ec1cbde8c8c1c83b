-- ===== src/Protocol/Auth.antt =====
-- crates/protocol/src/auth.rs: the records of the handshake and of the connection table.
-- Byte arrays and texts are lists of bytes.
use apfsds_rs.Base.{ℕ, Bool, List, Option}

pub record AuthRequest : Type 0 where
  pub hmac_base : List ℕ
  pub hmac_signature : List ℕ
  pub client_pk : List ℕ
  pub nonce : List ℕ
  pub timestamp : ℕ

pub record EmergencyWarning : Type 0 where
  pub level : List ℕ
  pub action : List ℕ
  pub trigger_after : ℕ

pub record AuthResponse : Type 0 where
  pub token : List ℕ
  pub valid_until : ℕ
  pub warning : Option EmergencyWarning

pub record TokenPayload : Type 0 where
  pub user_id : ℕ
  pub nonce : List ℕ
  pub issued_at : ℕ
  pub valid_until : ℕ

pub record StreamState : Type 0 where
  pub stream_id : ℕ
  pub bytes_sent : ℕ
  pub bytes_received : ℕ
  pub is_closed : Bool

pub record ConnMeta : Type 0 where
  pub client_addr : List ℕ
  pub nat_entry : ℕ × ℕ
  pub assigned_pod : ℕ
  pub stream_states : List StreamState

pub record ConnRecord : Type 0 where
  pub conn_id : ℕ
  pub metadata : ConnMeta
  pub created_at : ℕ
  pub last_active : ℕ
  pub access_count : ℕ
  pub txid : ℕ
