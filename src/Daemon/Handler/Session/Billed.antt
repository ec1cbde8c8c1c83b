-- ===== src/Daemon/Handler/Session/Billed.antt =====
-- What a session bills is what the exit nodes took.
use apfsds_rs.Base.{
  ℕ, ◌+◌, ◌^◌, ◌<◌, ◌≡◌, refl, ap, ◌∙◌, Bool, true, false, List, [], ◌∷◌, ◌++◌, Option, none, some,
  Result, ok, err, length, arith, ◌==◌, ==_refl, if◌then◌else◌,
}
use apfsds_rs.Base.Rkyv.{Rkyv}
use apfsds_rs.Obfuscation.Padding.{unpad}
use apfsds_rs.Obfuscation.Padding.{unpad}
use apfsds_rs.Obfuscation.XorMask.{Target, apply}
use apfsds_rs.Obfuscation.XorMask
use apfsds_rs.Obfuscation.XorMask.RoundTrip.{apply_returns}
use apfsds_rs.Protocol.Frame.{ProxyFrame, ControlMessage}
use apfsds_rs.Protocol.Packet.{PlainPacket, from_frame}
use apfsds_rs.Transport.ExitPool.{GroupPool, Reply, ExitClientError}
use apfsds_rs.Transport.ExitPool
use apfsds_rs.Transport.WebSocket.{binary, text, ping, pong, close, Incoming}
use apfsds_rs.Client.Wss.{unmask_and_unpad}
use apfsds_rs.Daemon.Billing.Conservation.{sum_for, sum_for-record_usage}
use apfsds_rs.Daemon.ExitForwarder.{forward, with_packet}
use apfsds_rs.Daemon.ExitNode.{rkyv_from_bytes}
use apfsds_rs.Daemon.Handler.Session.{
  Served, after_forward, on_frame, frame_in, on_inner, queried, rx_loop,
}

abbrev pub payload_bytes : List PlainPacket → ℕ
payload_bytes [] = 0
payload_bytes (p ∷ ps) = length p.payload + payload_bytes ps

payload_bytes-append :
    (ps qs : List PlainPacket) → payload_bytes (ps ++ qs) ≡ payload_bytes ps + payload_bytes qs
payload_bytes-append [] qs = omega arith
payload_bytes-append (p ∷ ps) qs = omega (arith, payload_bytes-append ps qs)

-- From `s` to `s'`, `user` was billed for the bytes that the exit nodes took, and nobody else for
-- any, unless the user's usage reaches 2^64.
abbrev pub Bills : ℕ → Served → Served → Type 0
Bills user s s' =
    (bytes : ℕ) × (payload_bytes s'.forwarded ≡ payload_bytes s.forwarded + bytes)
    × (sum_for user s.usage + bytes < 2 ^ 64
        → (u : ℕ) → sum_for u s'.usage ≡ sum_for u s.usage + (if user == u then bytes else 0))

Bills-nothing :
    (user : ℕ) (s s' : Served) → s'.forwarded ≡ s.forwarded → s'.usage ≡ s.usage → Bills user s s'
Bills-nothing user s s' f e =
    (0, ap payload_bytes f ∙ omega arith, λ small u. ap (sum_for u) e ∙ ground arith)

Bills-then : (user : ℕ) (s t u : Served) → Bills user s t → Bills user t u → Bills user s u
Bills-then user s t u (m, fm, bm) (n, fn, bn) = (
  m + n,
  omega arith,
  λ small v.
      let own : sum_for user t.usage ≡ sum_for user s.usage + m =
        bm (omega arith) user ∙ rw (==_refl user) refl in
      let first : sum_for v t.usage ≡ sum_for v s.usage + (if user == v then m else 0) =
        bm (omega arith) v in
      let second : sum_for v u.usage ≡ sum_for v t.usage + (if user == v then n else 0) =
        bn (omega arith) v in
      ground arith,
)

module _ (k : Rkyv ProxyFrame) (control : Rkyv ControlMessage) (t : Target)
    (replies : ProxyFrame → ℕ → Reply) (node_id user_id session_key : ℕ) where
  after_forward-Bills :
      (s : Served) (frame : ProxyFrame) (pool : List (ℕ × GroupPool))
      (sent : Result ExitClientError ℕ)
      → Bills user_id s
          (after_forward k control t replies node_id user_id session_key s frame
            (pool, with_packet (from_frame frame node_id) sent)).0
  unfolding from_frame
  after_forward-Bills s frame pool (err e) =
      Bills-nothing user_id s (record s { pool = pool }) refl refl
  after_forward-Bills s frame pool (ok index) = (
    length frame.payload,
    payload_bytes-append s.forwarded _ ∙ omega arith,
    λ small u. sum_for-record_usage u user_id (length frame.payload) s.usage small,
  )

  on_frame-Bills :
      (s : Served) (frame : ProxyFrame)
      → Bills user_id s (on_frame k control t replies node_id user_id session_key s frame).0
  unfolding on_frame forward
  on_frame-Bills s frame = by_flag frame.flags.is_control
    where
      asked : Served
      asked = record s {
        queries = s.queries ++ queried k control t (rkyv_from_bytes control frame.payload);
      }

      sent : List (ℕ × GroupPool) × Result ExitClientError ℕ
      sent = ExitPool.forward (replies frame) s.pool 0

      by_flag :
          (b : Bool)
          → Bills user_id s
              (if b
                then (asked, true)
                else after_forward k control t replies node_id user_id session_key s frame (
                    if b
                    then (s.pool, ok none)
                    else (sent.0, with_packet (from_frame frame node_id) (sent.1)))).0
      by_flag true = Bills-nothing user_id s asked refl refl
      by_flag false = after_forward-Bills s frame (sent.0) (sent.1)

  on_inner-Bills :
      (s : Served) (o : Option ProxyFrame)
      → Bills user_id s (on_inner k control t replies node_id user_id session_key s o).0
  on_inner-Bills s none = Bills-nothing user_id s s refl refl
  on_inner-Bills s (some frame) = on_frame-Bills s frame

  abbrev counted : Served → Served
  counted s = record s { frames_received = s.frames_received + 1 }

  -- However many messages a client sends, and whatever is in them: the loop ends without a panic,
  -- and the user is billed for exactly the payload bytes of the packets that exit nodes took, and
  -- nobody else for any, as long as the user's usage stays below 2^64 bytes.
  pub rx_loop-Bills :
      (s : Served) (incoming : List (ℕ × Incoming))
      → (s' : Served) × (rx_loop k control t replies node_id user_id session_key s incoming
          ≡ some s')
        × Bills user_id s s'
  unfolding rx_loop unmask_and_unpad XorMask.new
  rx_loop-Bills s [] = (s, refl, Bills-nothing user_id s s refl refl)
  rx_loop-Bills s ((now, ok close) ∷ rest) = (s, refl, Bills-nothing user_id s s refl refl)
  rx_loop-Bills s ((now, err e) ∷ rest) = (s, refl, Bills-nothing user_id s s refl refl)
  rx_loop-Bills s ((now, ok (text m)) ∷ rest) = rx_loop-Bills s rest
  rx_loop-Bills s ((now, ok (ping m)) ∷ rest) = rx_loop-Bills s rest
  rx_loop-Bills s ((now, ok (pong m)) ∷ rest) = rx_loop-Bills s rest
  rx_loop-Bills s ((now, ok (binary bytes)) ∷ rest) =
      let (plain, m) = apply_returns t (XorMask.new session_key) now bytes (λ e. omega arith) in
      let next : Served × Bool =
        on_inner k control t replies node_id user_id session_key (counted s)
          (frame_in k control t replies node_id user_id session_key (unpad plain)) in
      rw m (
        by_flag next.0 next.1
          (on_inner-Bills (counted s)
            (frame_in k control t replies node_id user_id session_key (unpad plain)))
          (rx_loop-Bills next.0 rest))
    where
      by_flag :
          (next : Served) (goes_on : Bool)
          → Bills user_id (counted s) next
          → (s' : Served) × (rx_loop k control t replies node_id user_id session_key next rest
              ≡ some s')
            × Bills user_id next s'
          → (s' : Served) × ((if goes_on
                then rx_loop k control t replies node_id user_id session_key next rest
                else some next)
              ≡ some s')
            × Bills user_id s s'
      by_flag next true first (s', e, second) = (s', e, Bills-then user_id s next s' first second)
      by_flag next false first later = (next, refl, first)
