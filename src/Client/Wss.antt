-- ===== src/Client/Wss.antt =====
-- client/src/wss.rs. The web socket and rkyv are other packages'; the draws of the padding and the
-- clock of the mask are arguments. `none` is a panic.
pub mod Masked
pub mod Exchange
use apfsds_rs.Base.{
  ℕ, String, text_append, text_starts_with, ◌+◌, Bool, true, false, not, ◌||◌, List, [], ◌∷◌, ◌++◌,
  Option, none, some, and_then, Result, ok, err, ◌>>=◌, length, ◌==◌, if◌then◌else◌,
}
use apfsds_rs.Base.Rkyv.{Rkyv}
use apfsds_rs.Base.Words.{from_le_bytes}
use apfsds_rs.Obfuscation.Padding.{Draws, default_strategy, pad, unpad}
use apfsds_rs.Obfuscation.XorMask.{Target, apply}
use apfsds_rs.Obfuscation.XorMask
use apfsds_rs.Protocol.Frame.{ProxyFrame}
use apfsds_rs.Transport.WebSocket.{Message, binary, text, ping, pong, close, Incoming}
use apfsds_rs.Daemon.ExitNode.{rkyv_from_bytes}

pub record WssSession : Type 0 where
  pub session_key : ℕ
  pub conn_id : ℕ

pub data WssError : Type 0 where
  no_endpoints closed_before_handshake invalid_message_type : WssError
  invalid_handshake_length : ℕ → WssError
  web_socket : List ℕ → WssError
  rkyv_failed : List ℕ → WssError

-- The address of the first endpoint.
unfoldable pub upstream_url : List String → Result WssError String
upstream_url [] = err no_endpoints
upstream_url (endpoint ∷ endpoints) =
    if text_starts_with endpoint "wss://" || text_starts_with endpoint "ws://"
    then ok (text_append endpoint "/ws")
    else ok (text_append (text_append "ws://" endpoint) "/ws")

-- The first message holds the id of the connection, which is the session key too.
unfoldable pub handshake : List Incoming → Result WssError (WssSession × List Incoming)
handshake [] = err closed_before_handshake
handshake (err e ∷ rest) = err (web_socket e)
handshake (ok (binary bytes) ∷ rest) =
    if length bytes == 8
    then ok (record { session_key = from_le_bytes bytes; conn_id = from_le_bytes bytes }, rest)
    else err (invalid_handshake_length (length bytes))
handshake (ok (text t) ∷ rest) = err invalid_message_type
handshake (ok (ping t) ∷ rest) = err invalid_message_type
handshake (ok (pong t) ∷ rest) = err invalid_message_type
handshake (ok close ∷ rest) = err invalid_message_type

abbrev pub rkyv_error : {A : Type 0} → Result (List ℕ) A → Result WssError A
rkyv_error (ok a) = ok a
rkyv_error (err e) = err (rkyv_failed e)

-- Padding, then the mask.
unfoldable pub pad_and_mask : Target → Draws → ℕ → ℕ → List ℕ → Option (List ℕ)
pad_and_mask t r session_key now bytes =
    and_then (pad r default_strategy bytes) λ padded. apply t (XorMask.new session_key) now padded

-- What a message holds once the mask and the padding are off: `none` in the result where the
-- padding is invalid.
unfoldable pub unmask_and_unpad : Target → ℕ → ℕ → List ℕ → Option (Option (List ℕ))
unmask_and_unpad t session_key now bytes =
    and_then (apply t (XorMask.new session_key) now bytes) λ unmasked. some (unpad unmasked)

module _ (k : Rkyv ProxyFrame) (t : Target) where
  abbrev masked_message : Option (List ℕ) → Option (Result WssError Message)
  masked_message none = none
  masked_message (some wire) = some (ok (binary wire))

  -- The message that is handed to the socket.
  unfoldable pub send_frame : Draws → ℕ → ℕ → ProxyFrame → Option (Result WssError Message)
  unfolding pad_and_mask
  send_frame r session_key now frame = elim (k.to_bytes frame) [
    | err e ↦ some (err (rkyv_failed e))
    | ok bytes ↦ masked_message (pad_and_mask t r session_key now bytes)
  ]

  -- The loop, over what the socket delivers and the time at which each message is read: a frame, or
  -- `none` at the end of the connection, and what is not delivered yet. Messages with an invalid
  -- padding are passed over; one that holds no frame ends the call with an error.
  unfoldable pub recv_frame :
      ℕ → List (ℕ × Incoming) → Option (Result WssError (Option ProxyFrame) × List (ℕ × Incoming))
  unfolding unmask_and_unpad
  recv_frame session_key [] = some (ok none, [])
  recv_frame session_key ((now, err e) ∷ rest) = some (err (web_socket e), rest)
  recv_frame session_key ((now, ok (binary bytes)) ∷ rest) =
      and_then (unmask_and_unpad t session_key now bytes) λ unpadded. elim unpadded [
        | none ↦ recv_frame session_key rest
        | some inner ↦
            some (rkyv_error (rkyv_from_bytes k inner) >>= λ frame. ok (some frame), rest)
      ]
  recv_frame session_key ((now, ok close) ∷ rest) = some (ok none, rest)
  recv_frame session_key ((now, ok (text m)) ∷ rest) = recv_frame session_key rest
  recv_frame session_key ((now, ok (ping m)) ∷ rest) = recv_frame session_key rest
  recv_frame session_key ((now, ok (pong m)) ∷ rest) = recv_frame session_key rest
