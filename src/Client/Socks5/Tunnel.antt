-- ===== src/Client/Socks5/Tunnel.antt =====
-- client/src/socks5.rs: the two loops of a tunnel, and what gets through.
use apfsds_rs.Base.{
  ℕ, zero, suc, ◌≡◌, refl, Bool, true, false, List, [], ◌∷◌, ◌++◌, Option, none, some, and_then,
  Result, ok, err, length, replicate, if◌then◌else◌,
}
use apfsds_rs.Base.Rkyv.{Rkyv, RoundTrips}
use apfsds_rs.Obfuscation.Padding.{Draws}
use apfsds_rs.Obfuscation.XorMask.{Target}
use apfsds_rs.Protocol.Frame.{ProxyFrame, ControlMessage, new_data}
use apfsds_rs.Transport.WebSocket.{Message, binary, Incoming}
use apfsds_rs.Client.Socks5.{SocketAddr, v4, v6}
use apfsds_rs.Client.Wss.{WssError, send_frame, recv_frame}
use apfsds_rs.Client.Wss.Masked.{pad_and_mask_returns}
use apfsds_rs.Client.Wss.Exchange.{arrivals, Item, Timely, recv_one}
use apfsds_rs.Daemon.Handler.Session.{tx_loop}

-- `to_ipv6_mapped().octets()` of an IPv4 address, and the port.
unfoldable pub target_info : SocketAddr → List ℕ × ℕ
target_info (v4 ip port) = (replicate 10 0 ++ (0xff ∷ 0xff ∷ ip), port)
target_info (v6 ip port) = (ip, port)

-- One read of the local stream: the bytes, with the UUID and the time of the frame, the draws and
-- the time of the mask, and whether the socket takes the message.
pub record Read : Type 0 where
  pub bytes : Result (List ℕ) (List ℕ)
  pub uuid : List ℕ
  pub at_ms : ℕ
  pub draws : Draws
  pub at_secs : ℕ
  pub takes : Bool

module _ (crc32 : List ℕ → ℕ) (k : Rkyv ProxyFrame) (t : Target) where
  unfoldable pub data_frame : ℕ → SocketAddr → Read → List ℕ → ProxyFrame
  unfolding target_info new_data
  data_frame conn_id addr r chunk =
      new_data crc32 r.uuid r.at_ms conn_id (target_info addr).0 (target_info addr).1 chunk

  abbrev pub sent_or_stop : Bool → Option (Result WssError Message) → Option (Option Message)
  sent_or_stop takes none = none
  sent_or_stop takes (some (err e)) = some none
  sent_or_stop takes (some (ok message)) = some (if takes then some message else none)

  -- The loop from the local stream to the web socket: the messages that the socket takes. It ends at
  -- the end of the stream, at a failed read and at a failed send; `none` is a panic.
  unfoldable pub tcp_to_wss : ℕ → ℕ → SocketAddr → List Read → Option (List Message)
  unfolding data_frame send_frame
  tcp_to_wss key conn_id addr [] = some []
  tcp_to_wss key conn_id addr (r ∷ reads) =
      let later : Option (List Message) = tcp_to_wss key conn_id addr reads in
      elim r.bytes [
        | err e ↦ some []
        | ok [] ↦ some []
        | ok (b ∷ bytes) ↦
            and_then
              (sent_or_stop r.takes
                (send_frame k t r.draws key r.at_secs (data_frame conn_id addr r (b ∷ bytes))))
              λ sent. elim sent [
                | none ↦ some []
                | some message ↦ and_then later λ messages. some (message ∷ messages)
              ]
      ]

  -- The loop from the web socket to the local stream: the bytes that are written. A round takes one
  -- message at least, so one more round than there are messages is enough; `none` is a panic, or
  -- that there are too few rounds.
  unfoldable pub wss_to_tcp : (List ℕ → Bool) → ℕ → ℕ → List (ℕ × Incoming) → Option (List ℕ)
  wss_to_tcp writes zero key incoming = none
  wss_to_tcp writes (suc fuel) key incoming = and_then (recv_frame k t key incoming) λ got.
      let later : Option (List ℕ) = wss_to_tcp writes fuel key (got.1) in
      elim (got.0) [
        | err e ↦ some []
        | ok none ↦ some []
        | ok (some frame) ↦
            if frame.flags.is_control
            then later
            else if writes frame.payload
            then and_then later (λ written. some (frame.payload ++ written))
            else some []
      ]

abbrev pub payloads_of : List Item → List ℕ
payloads_of [] = []
payloads_of ((frame, r, now, takes) ∷ items) =
    let rest = payloads_of items in if frame.flags.is_control then rest else frame.payload ++ rest

module _ (crc32 : List ℕ → ℕ) (k : Rkyv ProxyFrame) (control : Rkyv ControlMessage) (t u : Target)
    (writes : List ℕ → Bool) where
  -- The local program reads exactly the payloads of the data frames that the server sent to its
  -- connection, in order, and the loop ends, where the web socket takes the messages, each is read
  -- in the minute in which it was masked, and the local stream takes what is written.
  pub wss_to_tcp-tx_loop :
      (key : ℕ) (items : List Item) (times : List ℕ)
      → RoundTrips k
      → Timely k items times
      → ((bytes : List ℕ) → writes bytes ≡ true)
      → (messages : List Message) × (tx_loop k control t key items ≡ some messages)
        × (wss_to_tcp crc32 k u writes (suc (length messages)) key (arrivals messages times)
            ≡ some (payloads_of items))
  unfolding tx_loop wss_to_tcp recv_frame
  wss_to_tcp-tx_loop key [] [] back timely open_ = ([], refl, refl)
  wss_to_tcp-tx_loop key [] (later ∷ times) back timely open_ = absurd timely
  wss_to_tcp-tx_loop key (item ∷ items) [] back timely open_ = absurd timely
  wss_to_tcp-tx_loop key ((frame, r, now, takes) ∷ items) (later ∷ times) back
        (taken, (bytes, written, small), window, timely) open_ =
      let (messages, sent, relayed) = wss_to_tcp-tx_loop key items times back timely open_ in
      let (wire, masked) = pad_and_mask_returns t r key now bytes in
      (
        binary wire ∷ messages,
        rw (written, tx_loop, masked, taken, sent) refl,
        rw
            (
              recv_one k control t u key frame r now later bytes wire (arrivals messages times) back
                  written small window masked,
              relayed,
            )
            (by_flag frame.flags.is_control),
      )
    where
      by_flag :
          (b : Bool)
          → let rest : List ℕ = payloads_of items in
            (if b
              then some rest
              else if writes frame.payload
              then and_then (some rest) (λ (written : List ℕ). some (frame.payload ++ written))
              else some [])
            ≡ some (if b then rest else frame.payload ++ rest)
      by_flag true = refl
      by_flag false = rw (open_ frame.payload) refl
