-- ===== src/Client/Socks5/Accepted.antt =====
-- The requests of the protocol, as RFC 1928 lays them out, are understood.
use apfsds_rs.Base.{
  ℕ, ◌+◌, ◌*◌, ◌/◌, ◌%◌, ◌^◌, ◌<◌, ◌≡◌, refl, ap, sym, ◌∙◌, Bool, true, false, List, [], ◌∷◌, ◌++◌,
  append_assoc, none, some, ok, arith, length, length-append, take-append, drop-append,
  if◌then◌else◌,
}
use apfsds_rs.Base.Text.{is_utf8}
use apfsds_rs.Client.Socks5.Text.{ipv4_text, bracketed}
use apfsds_rs.Client.Socks5.{
  Parsed, auth_no_auth, take_exact, with_port, parse_address, parse_domain, parse_target,
  contains_byte, behind_methods, negotiate,
}

-- The three kinds of address that a client can ask for.
pub data Host : Type 0 where
  ipv4 : List ℕ → Host
  domain : List ℕ → Host
  ipv6 : List ℕ → Host

-- What is printed for them.
abbrev pub host_text : Host → List ℕ
host_text (ipv4 addr) = ipv4_text addr
host_text (domain name) = name
host_text (ipv6 addr) = bracketed addr

abbrev pub port_bytes : ℕ → List ℕ
port_bytes port = port / 256 ∷ port % 256 ∷ []

abbrev pub atyp_of : Host → ℕ
atyp_of (ipv4 addr) = 0x01
atyp_of (domain name) = 0x03
atyp_of (ipv6 addr) = 0x04

abbrev pub host_bytes : Host → List ℕ
host_bytes (ipv4 addr) = addr
host_bytes (domain name) = length name ∷ name
host_bytes (ipv6 addr) = addr

abbrev pub IsHost : Host → Type 0
IsHost (ipv4 addr) = length addr ≡ 4
IsHost (domain name) = (length name < 256) × (is_utf8 name ≡ true)
IsHost (ipv6 addr) = length addr ≡ 16

-- The greeting with its methods, and the request to connect.
abbrev pub socks_bytes : List ℕ → ℕ → Host → ℕ → List ℕ
socks_bytes methods rsv host port =
    0x05
    ∷ (length methods
        ∷ (methods ++ (0x05 ∷ 0x01 ∷ rsv ∷ atyp_of host ∷ (host_bytes host ++ port_bytes port))))

take_exact_front :
    (n : ℕ) (xs rest : List ℕ) → n ≡ length xs → take_exact n (xs ++ rest) ≡ ok (xs, rest)
take_exact_front n xs rest e =
    ground (arith, length-append xs rest, take-append n xs rest e, drop-append n xs rest e)

both_bytes : (port : ℕ) → port / 256 * 256 + port % 256 ≡ port
both_bytes port = omega arith

parse_address_front :
    (text : List ℕ → List ℕ) (n : ℕ) (xs : List ℕ) (port : ℕ) (rest : List ℕ)
    → n ≡ length xs
    → parse_address text (take_exact n (xs ++ (port_bytes port ++ rest)))
      ≡ ok (with_port (text xs) port, rest)
parse_address_front text n xs port rest e =
    rw (take_exact_front n xs (port_bytes port ++ rest) e)
      (ap (λ (p : ℕ). ok (with_port (text xs) p, rest)) (both_bytes port))

parse_domain_front :
    (name : List ℕ) (port : ℕ) (rest : List ℕ)
    → is_utf8 name ≡ true
    → parse_domain (ok (length name, name ++ (port_bytes port ++ rest)))
      ≡ ok (with_port name port, rest)
parse_domain_front name port rest utf8 =
    rw
      (
        parse_address_front (λ xs. xs) (length name) name port rest refl,
        take-append (length name) name (port_bytes port ++ rest) refl,
        utf8,
      )
      refl

parse_target_front :
    (host : Host) (port : ℕ) (rest : List ℕ)
    → IsHost host
    → parse_target (atyp_of host) (host_bytes host ++ (port_bytes port ++ rest))
      ≡ ok (with_port (host_text host) port, rest)
unfolding parse_target
parse_target_front (ipv4 addr) port rest h = parse_address_front ipv4_text 4 addr port rest (sym h)
parse_target_front (domain name) port rest (short, utf8) = parse_domain_front name port rest utf8
parse_target_front (ipv6 addr) port rest h = parse_address_front bracketed 16 addr port rest (sym h)

-- A greeting that offers the method without authentication among at most 255 others, with a
-- request to connect to an IPv4 address, a domain of at most 255 bytes of UTF-8 or an IPv6 address,
-- at any port: outside emergency mode the server answers 5 0, takes exactly the bytes of both
-- messages off the stream, and has the text of the host and the port that the client asked for; in
-- emergency mode it writes nothing and has no target.
pub negotiate-socks_bytes :
    (is_emergency_mode : Bool) (methods : List ℕ) (rsv : ℕ) (host : Host) (port : ℕ) (rest : List ℕ)
    → length methods < 256
    → contains_byte auth_no_auth methods ≡ true
    → IsHost host
    → port < 2 ^ 16
    → negotiate is_emergency_mode (socks_bytes methods rsv host port ++ rest) ≡ (
        if is_emergency_mode
        then ([], none)
        else (0x05 ∷ 0x00 ∷ [], some (ok (with_port (host_text host) port, rest))))
unfolding negotiate
negotiate-socks_bytes true methods rsv host port rest few offered is_host small = refl
negotiate-socks_bytes false methods rsv host port rest few offered is_host small =
    let asked : List ℕ = 0x05 ∷ 0x01 ∷ rsv ∷ atyp_of host ∷ (host_bytes host ++ port_bytes port) in
    ap (λ (done : List ℕ × Parsed). (done.0, some done.1))
      (ap (λ (bytes : List ℕ). behind_methods (take_exact (length methods) bytes))
          (append_assoc methods asked rest)
        ∙ ap behind_methods (take_exact_front (length methods) methods (asked ++ rest) refl)
        ∙ rw
            (
              offered,
              append_assoc (host_bytes host) (port_bytes port) rest,
              parse_target_front host port rest is_host,
            )
            refl)
