-- ===== src/Client/Socks5/Text.antt =====
-- client/src/socks5.rs, the texts of `parse_target`, as Rust's formatting prints them.
use apfsds_rs.Base.{
  ℕ, zero, suc, ◌+◌, ◌*◌, ◌/◌, ◌%◌, ◌&&◌, List, [], ◌∷◌, ◌++◌, take, drop, get_or, ltb, leb, ◌==◌,
  if◌then◌else◌,
}

-- A number in a base of at most sixteen, without leading zeros. `fuel` is at least the number of its
-- digits.
abbrev pub digit : ℕ → ℕ
digit n = if ltb n 10 then 48 + n else 87 + n

abbrev pub number : ℕ → ℕ → ℕ → List ℕ
number base zero n = []
number base (suc fuel) n =
    let front = number base fuel (n / base) in
    if ltb n base then digit n ∷ [] else front ++ (digit (n % base) ∷ [])

-- An octet or a port, which has at most five digits.
abbrev pub decimal : ℕ → List ℕ
decimal n = number 10 5 n

-- A group of an IPv6 address, which has at most four digits.
abbrev pub hex_group : ℕ → List ℕ
hex_group n = number 16 4 n

-- "{}.{}.{}.{}".
abbrev pub ipv4_text : List ℕ → List ℕ
ipv4_text addr =
    let octet : ℕ → List ℕ = λ i. decimal (get_or addr i 0) in
    octet 0 ++ (46 ∷ octet 1 ++ (46 ∷ octet 2 ++ (46 ∷ octet 3)))

-- The eight groups of sixteen bits.
abbrev pub groups : List ℕ → List ℕ
groups (hi ∷ (lo ∷ bytes)) = (hi * 256 + lo) ∷ groups bytes
groups _ = []

-- Groups with colons between them.
abbrev pub colons : List ℕ → List ℕ
colons [] = []
colons (g ∷ []) = hex_group g
colons (g ∷ gs) = hex_group g ++ (58 ∷ colons gs)

-- The zeros at the start.
abbrev pub zeros : List ℕ → ℕ
zeros [] = 0
zeros (g ∷ gs) = if g == 0 then suc (zeros gs) else 0

-- The first of the longest runs of zeros: its start and its length.
abbrev pub longest_zeros : List ℕ → ℕ × ℕ
longest_zeros [] = (0, 0)
longest_zeros (g ∷ gs) =
    let later = longest_zeros gs in
    let here = zeros (g ∷ gs) in if leb later.1 here then (0, here) else (suc later.0, later.1)

-- A mapped IPv4 address, or hexadecimal groups with "::" for the longest run of two zeros or more.
abbrev pub ipv6_text : List ℕ → List ℕ
ipv6_text addr =
    let gs : List ℕ = groups addr in
    let run : ℕ × ℕ = longest_zeros gs in
    if leb 5 (zeros gs) && get_or gs 5 0 == 65535
    then 58 ∷ 58 ∷ 102 ∷ 102 ∷ 102 ∷ 102 ∷ 58 ∷ ipv4_text (drop 12 addr)
    else if ltb 1 run.1
    then colons (take run.0 gs) ++ (58 ∷ 58 ∷ colons (drop (run.0 + run.1) gs))
    else colons gs

-- "[{}]".
abbrev pub bracketed : List ℕ → List ℕ
bracketed addr = 91 ∷ ipv6_text addr ++ (93 ∷ [])
