-- ===== src/Tests/Client.antt =====
-- The client's sessions at concrete frames.
use apfsds_rs.Base.{
  ℕ, suc, ◌≡◌, refl, Bool, true, false, List, [], ◌∷◌, ◌++◌, some, ok, err, arith, length,
  replicate,
}
use apfsds_rs.Base.Text.{is_utf8}
use apfsds_rs.Base.Rkyv.{Rkyv}
use apfsds_rs.Obfuscation.XorMask.{portable, avx2}
use apfsds_rs.Protocol.Frame.{ProxyFrame, ControlMessage, doh_response, no_flags}
use apfsds_rs.Transport.ExitPool.{Reply, delivered}
use apfsds_rs.Transport.WebSocket.{Message}
use apfsds_rs.Client.Doh.{ip_v4, no_results, parse_doh_response, parse_records, build_doh_response}
use apfsds_rs.Client.Wss.{WssSession, handshake, send_frame, upstream_url}
use apfsds_rs.Client.Wss.Exchange.{Item, arrivals, rx_loop-send_frame}
use apfsds_rs.Client.Socks5.{negotiate}
use apfsds_rs.Client.Socks5.Accepted.{ipv6, domain, host_text, socks_bytes, negotiate-socks_bytes}
use apfsds_rs.Client.Socks5.Tunnel.{payloads_of, wss_to_tcp, wss_to_tcp-tx_loop}
use apfsds_rs.Daemon.Handler.Session.{Served, greeting, on_frame, rx_loop, tx_loop}
use apfsds_rs.Tests.{count32, frame_rkyv, frame_rkyv-RoundTrips, low_draws, write_frame}

abbrev frame : List ℕ → Bool → ProxyFrame
frame payload is_control = record {
  conn_id = 7;
  rip = replicate 16 0;
  rport = 443;
  payload = payload;
  uuid = replicate 16 9;
  timestamp = 1000000;
  checksum = 3;
  flags = record no_flags { is_control = is_control };
}

-- No control message is read.
abbrev pub control : Rkyv ControlMessage
control = record {
  Archived = List ℕ;
  to_bytes = λ m. err [];
  access = λ bytes. err [];
  deserialize = λ bytes. err [];
}

abbrev items : List Item
items =
    (frame (1 ∷ 2 ∷ []) false, low_draws, 1000, true)
    ∷ (frame (9 ∷ []) true, low_draws, 1019, true)
    ∷ (frame (3 ∷ []) false, low_draws, 1020, true)
    ∷ []

abbrev times : List ℕ
times = 1019 ∷ 1019 ∷ 1079 ∷ []

wss_to_tcp-tx_loop_example :
    (messages : List Message) × (tx_loop frame_rkyv control portable 7 items ≡ some messages)
    × (wss_to_tcp count32 frame_rkyv avx2
          (λ bytes. true)
          (suc (length messages))
          7
          (arrivals messages times)
        ≡ some (payloads_of items))
wss_to_tcp-tx_loop_example =
    wss_to_tcp-tx_loop count32 frame_rkyv control portable avx2 (λ bytes. true) 7 items times
      frame_rkyv-RoundTrips
      (
        refl,
        (write_frame (frame (1 ∷ 2 ∷ []) false), refl, omega arith),
        refl,
        (
          refl,
          (write_frame (frame (9 ∷ []) true), refl, omega arith),
          refl,
          (refl, (write_frame (frame (3 ∷ []) false), refl, omega arith), refl, tt),
        ),
      )
      (λ bytes. refl)

payloads_of_values : payloads_of items ≡ 1 ∷ 2 ∷ 3 ∷ []
payloads_of_values = refl

abbrev served : Served
served = record { pool = []; usage = []; frames_received = 0; queries = []; forwarded = [] }

abbrev replies : ProxyFrame → ℕ → Reply
replies f i = delivered

handled :
    (session : WssSession) × (message : Message) × (handshake (ok (greeting 7) ∷ [])
      ≡ ok (session, []))
    × (send_frame frame_rkyv portable low_draws session.session_key 1000 (frame (4 ∷ []) false)
        ≡ some (ok message))
    × (rx_loop frame_rkyv control avx2 replies 2 5 7 served ((1019, ok message) ∷ [])
        ≡ some (
            (on_frame frame_rkyv control avx2 replies 2 5 7
              (record served { frames_received = 1 })
              (frame (4 ∷ []) false)).0))
handled =
    rx_loop-send_frame frame_rkyv control portable avx2 replies 2 5 7 1000 1019 low_draws
      (frame (4 ∷ []) false) (write_frame (frame (4 ∷ []) false)) [] served frame_rkyv-RoundTrips
      (omega arith) refl (omega arith) refl

-- "a.io", asked for with two methods, and a byte of data behind the request.
abbrev name : List ℕ
name = 97 ∷ 46 ∷ 105 ∷ 111 ∷ []

negotiate-socks_bytes_example :
    negotiate false (socks_bytes (2 ∷ 0 ∷ []) 0 (domain name) 443 ++ (22 ∷ []))
    ≡ (5 ∷ 0 ∷ [], some (ok (name ++ (58 ∷ 52 ∷ 52 ∷ 51 ∷ []), 22 ∷ [])))
unfolding is_utf8
negotiate-socks_bytes_example =
    negotiate-socks_bytes false (2 ∷ 0 ∷ []) 0 (domain name) 443 (22 ∷ []) (omega arith) refl
      (omega arith, refl) (omega arith)

-- "[2001:db8::1]", "[::ffff:1.2.3.4]" and "[::]".
host_text_values :
    (host_text (ipv6 (32 ∷ 1 ∷ 13 ∷ 184 ∷ (replicate 11 0 ++ (1 ∷ []))))
      ≡ 91 ∷ 50 ∷ 48 ∷ 48 ∷ 49 ∷ 58 ∷ 100 ∷ 98 ∷ 56 ∷ 58 ∷ 58 ∷ 49 ∷ 93 ∷ [])
    × (host_text (ipv6 (replicate 10 0 ++ (255 ∷ 255 ∷ 1 ∷ 2 ∷ 3 ∷ 4 ∷ [])))
        ≡ 91 ∷ 58 ∷ 58 ∷ 102 ∷ 102 ∷ 102 ∷ 102 ∷ 58 ∷ 49 ∷ 46 ∷ 50 ∷ 46 ∷ 51 ∷ 46 ∷ 52 ∷ 93 ∷ [])
    × (host_text (ipv6 (replicate 16 0)) ≡ 91 ∷ 58 ∷ 58 ∷ 93 ∷ [])
host_text_values = (refl, refl, refl)

upstream_url_values :
    (upstream_url ("wss://a.io" ∷ []) ≡ ok "wss://a.io/ws")
    × (upstream_url ("a.io:80" ∷ "b.io" ∷ []) ≡ ok "ws://a.io:80/ws")
unfolding upstream_url
upstream_url_values = (refl, refl)

-- Of a response that announces three addresses, one is there and one is cut short.
doh_values :
    (parse_doh_response (doh_response (3 ∷ 1 ∷ 1 ∷ 2 ∷ 3 ∷ 4 ∷ 28 ∷ 9 ∷ []))
      ≡ ok (ip_v4 (1 ∷ 2 ∷ 3 ∷ 4 ∷ []) ∷ []))
    × (parse_doh_response (doh_response (build_doh_response [])) ≡ err no_results)
unfolding parse_doh_response parse_records build_doh_response
doh_values = (refl, refl)
