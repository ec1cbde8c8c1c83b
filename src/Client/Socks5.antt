-- ===== src/Client/Socks5.antt =====
-- client/src/socks5.rs: the negotiation with a local program, and the tunnel. A TCP stream is the
-- list of the bytes to be read; what is written back is a list of bytes. A text is the list of its
-- bytes.
pub mod Text
pub mod Accepted
pub mod Tunnel
pub mod Outbound
use apfsds_rs.Base.{
  ℕ, zero, suc, ◌+◌, ◌*◌, Bool, true, false, not, ◌||◌, List, [], ◌∷◌, ◌++◌, Option, none, some,
  and_then, Result, ok, err, length, take, drop, replicate, ltb, ◌==◌, if◌then◌else◌,
}
use apfsds_rs.Base.Text.{is_utf8}
use apfsds_rs.Client.Socks5.Text.{decimal, ipv4_text, bracketed}

abbrev pub socks5_version : ℕ
socks5_version = 0x05

abbrev pub auth_no_auth : ℕ
auth_no_auth = 0x00

abbrev pub cmd_connect : ℕ
cmd_connect = 0x01

abbrev pub atyp_ipv4 : ℕ
atyp_ipv4 = 0x01

abbrev pub atyp_domain : ℕ
atyp_domain = 0x03

abbrev pub atyp_ipv6 : ℕ
atyp_ipv6 = 0x04

abbrev pub rep_success : ℕ
rep_success = 0x00

abbrev pub rep_general_failure : ℕ
rep_general_failure = 0x01

abbrev pub rep_host_unreachable : ℕ
rep_host_unreachable = 0x04

abbrev pub rep_connection_refused : ℕ
rep_connection_refused = 0x05

pub data SocksError : Type 0 where
  end_of_stream no_acceptable_auth_method invalid_version_in_request : SocksError
  invalid_domain no_ip_found : SocksError
  invalid_socks_version unsupported_command unknown_address_type : ℕ → SocksError

-- Reads: `read_u8`, `read_exact` and the big-endian `read_u16`, with what is left.
abbrev pub read_u8 : List ℕ → Result SocksError (ℕ × List ℕ)
read_u8 [] = err end_of_stream
read_u8 (b ∷ bytes) = ok (b, bytes)

abbrev pub take_exact : ℕ → List ℕ → Result SocksError (List ℕ × List ℕ)
take_exact n bytes =
    if ltb (length bytes) n then err end_of_stream else ok (take n bytes, drop n bytes)

abbrev pub read_u16 : List ℕ → Result SocksError (ℕ × List ℕ)
read_u16 [] = err end_of_stream
read_u16 (hi ∷ []) = err end_of_stream
read_u16 (hi ∷ (lo ∷ bytes)) = ok (hi * 256 + lo, bytes)

unfoldable pub send_reply : ℕ → List ℕ
send_reply rep = socks5_version ∷ rep ∷ 0x00 ∷ atyp_ipv4 ∷ 0 ∷ 0 ∷ 0 ∷ 0 ∷ 0 ∷ 0 ∷ []

-- The target's text, and what is left to be read.
abbrev pub Parsed : Type 0
Parsed = Result SocksError (List ℕ × List ℕ)

-- The text of an address, a colon, and the port in decimal.
abbrev pub with_port : List ℕ → ℕ → List ℕ
with_port host port = host ++ (58 ∷ decimal port)

abbrev pub read_port : List ℕ → Result SocksError (ℕ × List ℕ) → Parsed
read_port host (err e) = err e
read_port host (ok (port, bytes)) = ok (with_port host port, bytes)

-- An address of `n` bytes, and the port; `text` is what is printed for the address.
abbrev pub parse_address : (List ℕ → List ℕ) → Result SocksError (List ℕ × List ℕ) → Parsed
parse_address text (err e) = err e
parse_address text (ok (addr, bytes)) = read_port (text addr) (read_u16 bytes)

-- The UTF-8 check comes behind the port.
abbrev pub checked_domain : List ℕ → Parsed → Parsed
checked_domain name (err e) = err e
checked_domain name (ok r) = if is_utf8 name then ok r else err invalid_domain

abbrev pub parse_domain : Result SocksError (ℕ × List ℕ) → Parsed
parse_domain (err e) = err e
parse_domain (ok (len, bytes)) =
    checked_domain (take len bytes) (parse_address (λ name. name) (take_exact len bytes))

unfoldable pub parse_target : ℕ → List ℕ → Parsed
parse_target atyp bytes =
    if atyp == atyp_ipv4
    then parse_address ipv4_text (take_exact 4 bytes)
    else if atyp == atyp_domain
    then parse_domain (read_u8 bytes)
    else if atyp == atyp_ipv6
    then parse_address bracketed (take_exact 16 bytes)
    else err (unknown_address_type atyp)

abbrev pub contains_byte : ℕ → List ℕ → Bool
contains_byte b [] = false
contains_byte b (x ∷ xs) = x == b || contains_byte b xs

-- What has been written, and the target with what is left to be read, or an error.
abbrev pub Negotiated : Type 0
Negotiated = List ℕ × Parsed

-- The request: version, command, reserved byte and address type, whatever they are, then the tests.
abbrev pub request : List ℕ → Negotiated
request (version ∷ (cmd ∷ (rsv ∷ (atyp ∷ bytes)))) =
    if not (version == socks5_version)
    then ([], err invalid_version_in_request)
    else (if not (cmd == cmd_connect)
        then (send_reply rep_general_failure, err (unsupported_command cmd))
        else ([], parse_target atyp bytes))
request _ = ([], err end_of_stream)

abbrev pub behind_methods : Result SocksError (List ℕ × List ℕ) → Negotiated
behind_methods (err e) = ([], err e)
behind_methods (ok (methods, bytes)) =
    let asked : Negotiated = request bytes in
    if not (contains_byte auth_no_auth methods)
    then (socks5_version ∷ 0xFF ∷ [], err no_acceptable_auth_method)
    else (socks5_version ∷ auth_no_auth ∷ asked.0, asked.1)

-- The two messages.
abbrev pub greeted : List ℕ → Negotiated
greeted [] = ([], err end_of_stream)
greeted (version ∷ []) =
    if not (version == socks5_version)
    then ([], err (invalid_socks_version version))
    else ([], err end_of_stream)
greeted (version ∷ (nmethods ∷ bytes)) =
    if not (version == socks5_version)
    then ([], err (invalid_socks_version version))
    else behind_methods (take_exact nmethods bytes)

-- `handle_connection` up to the target, where `is_emergency_mode` is the flag at its start: in
-- emergency mode the connection is closed, with `Ok(())` and without a byte read or written.
unfoldable pub negotiate : Bool → List ℕ → List ℕ × Option Parsed
negotiate is_emergency_mode bytes =
    if is_emergency_mode
    then ([], none)
    else (let done : Negotiated = greeted bytes in (done.0, some done.1))

pub data SocketAddr : Type 0 where
  v4 : List ℕ → ℕ → SocketAddr
  v6 : List ℕ → ℕ → SocketAddr

-- How the connection goes on behind the target: the reply that is written, and the address and the
-- session of the tunnel where one starts. `looked_up` is `lookup_host`'s answer and `connected` that
-- of `WssSession::connect`.
unfoldable pub open_tunnel :
    {E F S : Type 0}
    → Result E (List SocketAddr)
    → Result F S
    → List ℕ × Result SocksError (Option (SocketAddr × S))
open_tunnel (err e) connected = (send_reply rep_host_unreachable, ok none)
open_tunnel (ok []) connected = ([], err no_ip_found)
open_tunnel (ok (addr ∷ addrs)) connected = elim connected [
  | err e ↦ (send_reply rep_connection_refused, ok none)
  | ok session ↦ (send_reply rep_success, ok (some (addr, session)))
]
