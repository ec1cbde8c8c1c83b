-- ===== src/Client/Wss/Exchange.antt =====
-- The server's session and the client's, daemon/src/handler.rs with client/src/wss.rs.
use apfsds_rs.Base.{
  ℕ, zero, suc, ◌+◌, ◌^◌, ◌<◌, ◌≡◌, refl, Bool, true, false, List, [], ◌∷◌, Option, some, and_then,
  if◌then◌else◌, Result, ok, err, ◌>>=◌, length,
}
use apfsds_rs.Base.Rkyv.{Rkyv, RoundTrips}
use apfsds_rs.Base.Words.{to_le_bytes, from_le_bytes, length-to_le_bytes, from_le_bytes-to_le_bytes}
use apfsds_rs.Obfuscation.Padding.{Draws}
use apfsds_rs.Obfuscation.XorMask.{Target}
use apfsds_rs.Protocol.Frame.{ProxyFrame, ControlMessage}
use apfsds_rs.Transport.ExitPool.{Reply}
use apfsds_rs.Transport.WebSocket.{Message, binary, Incoming}
use apfsds_rs.Client.Wss.{WssSession, WssError, handshake, pad_and_mask, send_frame, recv_frame}
use apfsds_rs.Client.Wss.Masked.{SameMinute, pad_and_mask_returns, unmask_and_unpad-pad_and_mask}
use apfsds_rs.Daemon.Handler.Session.{greeting, tx_loop, Served, frame_in, on_frame, rx_loop}

module _ (k : Rkyv ProxyFrame) (u : Target) where
  -- So many calls of `recv_frame`: the frames, and what is not delivered yet.
  abbrev pub recv_times :
      ℕ
      → ℕ
      → List (ℕ × Incoming)
      → Option (Result WssError (List (Option ProxyFrame)) × List (ℕ × Incoming))
  recv_times zero key incoming = some (ok [], incoming)
  recv_times (suc n) key incoming = and_then (recv_frame k u key incoming) λ got. elim (got.0) [
    | err e ↦ some (err e, got.1)
    | ok frame ↦
        and_then (recv_times n key (got.1))
          λ later. some (later.0 >>= λ frames. ok (frame ∷ frames), later.1)
  ]

-- Each message, with the time at which it is read.
abbrev pub arrivals : List Message → List ℕ → List (ℕ × Incoming)
arrivals [] times = []
arrivals (m ∷ ms) [] = []
arrivals (m ∷ ms) (later ∷ times) = (later, ok m) ∷ arrivals ms times

abbrev pub Item : Type 0
Item = ProxyFrame × Draws × ℕ × Bool

abbrev pub frames_of : List Item → List (Option ProxyFrame)
frames_of [] = []
frames_of ((frame, r, now, takes) ∷ items) = some frame ∷ frames_of items

module _ (k : Rkyv ProxyFrame) where
  -- The socket takes each message, each frame is serialised to less than 4 GiB, and each message is
  -- read in the minute in which it was made.
  abbrev pub Timely : List Item → List ℕ → Type 0
  Timely [] [] = Unit
  Timely [] (later ∷ times) = ⊥
  Timely (item ∷ items) [] = ⊥
  Timely ((frame, r, now, takes) ∷ items) (later ∷ times) =
      (takes ≡ true)
      × ((bytes : List ℕ) × (k.to_bytes frame ≡ ok bytes) × (length bytes < 2 ^ 32))
      × SameMinute now later
      × Timely items times

  module _ (control : Rkyv ControlMessage) (t u : Target) (key : ℕ) where
    pub recv_one :
        (frame : ProxyFrame) (r : Draws) (now later : ℕ) (bytes wire : List ℕ)
        (rest : List (ℕ × Incoming))
        → RoundTrips k
        → k.to_bytes frame ≡ ok bytes
        → length bytes < 2 ^ 32
        → SameMinute now later
        → pad_and_mask t r key now bytes ≡ some wire
        → recv_frame k u key ((later, ok (binary wire)) ∷ rest) ≡ some (ok (some frame), rest)
    unfolding recv_frame
    recv_one frame r now later bytes wire rest back written small window masked =
        rw
          (
            unmask_and_unpad-pad_and_mask t u r key now later bytes wire small window masked,
            back frame bytes written,
          )
          refl

    -- What the server sends a client, the client receives: every frame that the registry hands to
    -- the session, in order and nothing else, where the socket takes the messages and each is read
    -- in the minute in which it was masked.
    pub recv_times-tx_loop :
        (items : List Item) (times : List ℕ)
        → RoundTrips k
        → Timely items times
        → (messages : List Message) × (tx_loop k control t key items ≡ some messages)
          × (recv_times k u (length items) key (arrivals messages times)
              ≡ some (ok (frames_of items), []))
    unfolding tx_loop
    recv_times-tx_loop [] [] back timely = ([], refl, refl)
    recv_times-tx_loop [] (later ∷ times) back timely = absurd timely
    recv_times-tx_loop (item ∷ items) [] back timely = absurd timely
    recv_times-tx_loop ((frame, r, now, takes) ∷ items) (later ∷ times) back
          (taken, (bytes, written, small), window, timely) =
        let (messages, sent, received) = recv_times-tx_loop items times back timely in
        let (wire, masked) = pad_and_mask_returns t r key now bytes in
        (
          binary wire ∷ messages,
          rw (written, tx_loop, masked, taken, sent) refl,
          rw
              (
                recv_one frame r now later bytes wire (arrivals messages times) back written small
                    window masked,
                received,
              )
              refl,
        )

-- The greeting gives the client the id of its connection, which both sides use as the key.
pub handshake-greeting :
    (conn_id : ℕ) (rest : List Incoming)
    → conn_id < 2 ^ 64
    → handshake (ok (greeting conn_id) ∷ rest)
      ≡ ok (record { session_key = conn_id; conn_id = conn_id }, rest)
unfolding handshake greeting
handshake-greeting conn_id rest small =
    by_bytes (to_le_bytes 8 conn_id) (length-to_le_bytes 8 conn_id)
      (from_le_bytes-to_le_bytes 8 conn_id small)
  where
    by_bytes :
        (bytes : List ℕ)
        → length bytes ≡ 8
        → from_le_bytes bytes ≡ conn_id
        → handshake (ok (binary bytes) ∷ rest)
          ≡ ok (record { session_key = conn_id; conn_id = conn_id }, rest)
    by_bytes bytes size value = rw (size, value) refl

module _ (k : Rkyv ProxyFrame) (control : Rkyv ControlMessage) (t u : Target)
    (replies : ProxyFrame → ℕ → Reply) (node_id user_id : ℕ) where
  abbrev received : Served → Served
  received s = record s { frames_received = s.frames_received + 1 }

  frame_in_written :
      (key : ℕ) (frame : ProxyFrame) (bytes : List ℕ)
      → RoundTrips k
      → k.to_bytes frame ≡ ok bytes
      → frame_in k control u replies node_id user_id key (some bytes) ≡ some frame
  frame_in_written key frame bytes back written = rw (back frame bytes written, frame_in) refl

  -- A client that was greeted with the id of its connection sends a frame, serialised to less than
  -- 4 GiB: it makes one message, and the server that reads this message in the same minute handles
  -- exactly this frame.
  pub rx_loop-send_frame :
      (conn_id now later : ℕ) (r : Draws) (frame : ProxyFrame) (bytes : List ℕ)
      (rest : List Incoming) (s : Served)
      → RoundTrips k
      → conn_id < 2 ^ 64
      → k.to_bytes frame ≡ ok bytes
      → length bytes < 2 ^ 32
      → SameMinute now later
      → (session : WssSession) × (message : Message) × (handshake (ok (greeting conn_id) ∷ rest)
          ≡ ok (session, rest))
        × (send_frame k t r session.session_key now frame ≡ some (ok message))
        × (rx_loop k control u replies node_id user_id conn_id s ((later, ok message) ∷ [])
            ≡ some ((on_frame k control u replies node_id user_id conn_id (received s) frame).0))
  unfolding send_frame rx_loop
  rx_loop-send_frame conn_id now later r frame bytes rest s back small written short window =
      let (wire, masked) = pad_and_mask_returns t r conn_id now bytes in
      (
        record { session_key = conn_id; conn_id = conn_id },
        binary wire,
        handshake-greeting conn_id rest small,
        rw (written, send_frame, masked) refl,
        rw
            (
              unmask_and_unpad-pad_and_mask t u r conn_id now later bytes wire short window masked,
              frame_in_written conn_id frame bytes back written,
            )
            (by_flag (on_frame k control u replies node_id user_id conn_id (received s) frame)),
      )
    where
      by_flag :
          (next : Served × Bool) → (if next.1 then some (next.0) else some (next.0)) ≡ some (next.0)
      by_flag (a, true) = refl
      by_flag (a, false) = refl
