-- ===== src/Client/Doh.antt =====
-- client/src/doh.rs: the queries, and the addresses of a response.
use apfsds_rs.Base.{
  ℕ, zero, suc, ◌%◌, ◌≤◌, ◌≡◌, refl, ap, sym, Bool, true, false, List, [], ◌∷◌, ◌++◌, Result, ok,
  err, arith, length, length-append, take, drop, take-append, drop-append, All, leb, ◌==◌,
  if◌then◌else◌,
}
use apfsds_rs.Protocol.Frame.{ControlMessage, doh_query, doh_response}

pub data DohError : Type 0 where
  query_failed : List ℕ → DohError
  invalid_response timeout no_results : DohError

pub data QueryType : Type 0 where
  a aaaa : QueryType

pub record DohQuery : Type 0 where
  pub domain : List ℕ
  pub query_type : QueryType

abbrev pub type_byte : QueryType → ℕ
type_byte a = 0x01
type_byte aaaa = 0x1C

unfoldable pub to_bytes : DohQuery → List ℕ
to_bytes q = type_byte q.query_type ∷ q.domain

unfoldable pub to_control_message : DohQuery → ControlMessage
unfolding to_bytes
to_control_message q = doh_query (to_bytes q)

-- Four and sixteen octets.
pub data IpAddr : Type 0 where
  ip_v4 ip_v6 : List ℕ → IpAddr

-- The loop over the records that are left, on the bytes from the offset on. A record that is cut
-- short leaves the offset behind its type.
unfoldable pub parse_records : ℕ → List ℕ → List IpAddr
parse_records zero bytes = []
parse_records (suc left) [] = []
parse_records (suc left) (record_type ∷ bytes) =
    let behind_v4 = parse_records left (drop 4 bytes) in
    let behind_v6 = parse_records left (drop 16 bytes) in
    let behind_type = parse_records left bytes in
    if record_type == 0x01
    then (if leb 4 (length bytes) then ip_v4 (take 4 bytes) ∷ behind_v4 else behind_type)
    else if record_type == 0x1C
    then (if leb 16 (length bytes) then ip_v6 (take 16 bytes) ∷ behind_v6 else behind_type)
    else []

abbrev pub results : List IpAddr → Result DohError (List IpAddr)
results [] = err no_results
results (x ∷ xs) = ok (x ∷ xs)

abbrev pub parse_bytes : List ℕ → Result DohError (List IpAddr)
parse_bytes [] = err no_results
parse_bytes (count ∷ bytes) = results (parse_records count bytes)

unfoldable pub parse_doh_response : ControlMessage → Result DohError (List IpAddr)
unfolding parse_records
parse_doh_response (doh_response response) = parse_bytes response
parse_doh_response _ = err invalid_response

abbrev pub records : List IpAddr → List ℕ
records [] = []
records (ip_v4 octets ∷ addresses) = 0x01 ∷ octets ++ records addresses
records (ip_v6 octets ∷ addresses) = 0x1C ∷ octets ++ records addresses

-- The number of the addresses is one byte.
unfoldable pub build_doh_response : List IpAddr → List ℕ
build_doh_response addresses = length addresses % 256 ∷ records addresses

abbrev pub IsAddr : IpAddr → Type 0
IsAddr (ip_v4 octets) = length octets ≡ 4
IsAddr (ip_v6 octets) = length octets ≡ 16

parse_records-records :
    (n : ℕ) (addresses : List IpAddr)
    → All IsAddr addresses
    → parse_records n (records addresses) ≡ take n addresses
unfolding parse_records
parse_records-records zero addresses sizes = refl
parse_records-records (suc n) [] sizes = refl
parse_records-records (suc n) (ip_v4 octets ∷ addresses) (size, sizes) =
    let long : leb 4 (length (octets ++ records addresses)) ≡ true =
      ground (arith, length-append octets (records addresses)) in
    rw
      (
        long,
        take-append 4 octets (records addresses) (sym size),
        drop-append 4 octets (records addresses) (sym size),
        parse_records-records n addresses sizes,
      )
      refl
parse_records-records (suc n) (ip_v6 octets ∷ addresses) (size, sizes) =
    let long : leb 16 (length (octets ++ records addresses)) ≡ true =
      ground (arith, length-append octets (records addresses)) in
    rw
      (
        long,
        take-append 16 octets (records addresses) (sym size),
        drop-append 16 octets (records addresses) (sym size),
        parse_records-records n addresses sizes,
      )
      refl

-- A response built from addresses parses back to them: to as many as one byte can count, the
-- first `n % 256` of `n`. For 256 addresses, as for none, there are no results.
pub parse_doh_response-build :
    (addresses : List IpAddr)
    → All IsAddr addresses
    → parse_doh_response (doh_response (build_doh_response addresses))
      ≡ results (take (length addresses % 256) addresses)
unfolding parse_doh_response build_doh_response
parse_doh_response-build addresses sizes =
    ap results (parse_records-records (length addresses % 256) addresses sizes)

length-take_le : (n : ℕ) (xs : List ℕ) → n ≤ length xs → length (take n xs) ≡ n
length-take_le zero xs h = refl
length-take_le (suc n) [] h = absurd (omega arith)
length-take_le (suc n) (x ∷ xs) h = omega (arith, length-take_le n xs (omega arith))

abbrev pub Whole : ℕ → List IpAddr → Type 0
Whole n addresses = All IsAddr addresses × (length addresses ≤ n)

Whole-more : (n : ℕ) (addresses : List IpAddr) → Whole n addresses → Whole (suc n) addresses
Whole-more n addresses (whole, few) = (whole, omega arith)

one_of :
    (n : ℕ) (is_v4 long_v4 is_v6 long_v6 : Bool) (x y z : List IpAddr)
    → (long_v4 ≡ true → Whole n x)
    → (long_v6 ≡ true → Whole n y)
    → Whole n z
    → Whole n (
        if is_v4
        then (if long_v4 then x else z)
        else if is_v6
        then (if long_v6 then y else z)
        else [])
one_of n true true is_v6 long_v6 x y z h k l = h refl
one_of n true false is_v6 long_v6 x y z h k l = l
one_of n false long_v4 true true x y z h k l = k refl
one_of n false long_v4 true false x y z h k l = l
one_of n false long_v4 false long_v6 x y z h k l = (tt, omega arith)

-- Whatever bytes a response has, what is parsed of it are whole addresses, and not more of them
-- than it announces.
pub parse_records-Whole : (count : ℕ) (bytes : List ℕ) → Whole count (parse_records count bytes)
unfolding parse_records
parse_records-Whole zero bytes = (tt, omega arith)
parse_records-Whole (suc left) [] = (tt, omega arith)
parse_records-Whole (suc left) (record_type ∷ bytes) =
    let (whole_4, few_4) = parse_records-Whole left (drop 4 bytes) in
    let (whole_16, few_16) = parse_records-Whole left (drop 16 bytes) in
    one_of (suc left) (record_type == 0x01) (leb 4 (length bytes)) (record_type == 0x1C)
      (leb 16 (length bytes)) (ip_v4 (take 4 bytes) ∷ parse_records left (drop 4 bytes))
      (ip_v6 (take 16 bytes) ∷ parse_records left (drop 16 bytes)) (parse_records left bytes)
      (λ long. ((length-take_le 4 bytes (ground arith), whole_4), omega arith))
      (λ long. ((length-take_le 16 bytes (ground arith), whole_16), omega arith))
      (Whole-more left (parse_records left bytes) (parse_records-Whole left bytes))
