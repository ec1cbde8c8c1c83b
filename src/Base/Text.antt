-- ===== src/Base/Text.antt =====
-- Of Rust's standard library: the check of UTF-8, `split` at a character and `parse::<u64>`.
use mathlib.Core.Bool.{Bool, true, false, ◌&&◌}
use mathlib.Core.List.{List, [], ◌∷◌}
use mathlib.Core.Option.{Option, none, some}
use Prim.Native.Nat.{ℕ, zero, suc, ◌+◌, ◌*◌, ◌-◌, ◌^◌}
use apfsds_rs.Base.Tests.{leb, ltb, ◌==◌, if◌then◌else◌}

-- After a first byte: how many bytes continue the character, and the range of the next one.
abbrev lead : ℕ → Option (ℕ × ℕ × ℕ)
lead b =
    if ltb b 0x80
    then some (0, 0, 0)
    else if ltb b 0xC2
    then none
    else if leb b 0xDF
    then some (1, 0x80, 0xBF)
    else if b == 0xE0
    then some (2, 0xA0, 0xBF)
    else if b == 0xED
    then some (2, 0x80, 0x9F)
    else if leb b 0xEF
    then some (2, 0x80, 0xBF)
    else if b == 0xF0
    then some (3, 0x90, 0xBF)
    else if leb b 0xF3
    then some (3, 0x80, 0xBF)
    else if b == 0xF4
    then some (3, 0x80, 0x8F)
    else none

-- The bytes that are left of a character, the range of the next, and the text.
unfoldable pub continues : ℕ → ℕ → ℕ → List ℕ → Bool
continues zero lo hi [] = true
continues (suc n) lo hi [] = false
continues zero lo hi (b ∷ bytes) = elim (lead b) [
  | none ↦ false
  | some (n, lo, hi) ↦ continues n lo hi bytes
]
continues (suc n) lo hi (b ∷ bytes) = leb lo b && leb b hi && continues n 0x80 0xBF bytes

-- `std::str::from_utf8(bytes).is_ok()`.
unfoldable pub is_utf8 : List ℕ → Bool
unfolding continues
is_utf8 bytes = continues 0 0 0 bytes

abbrev onto_first : ℕ → List (List ℕ) → List (List ℕ)
onto_first b [] = (b ∷ []) ∷ []
onto_first b (part ∷ parts) = (b ∷ part) ∷ parts

-- `s.split(c).collect()`, for an ASCII character.
unfoldable pub split : ℕ → List ℕ → List (List ℕ)
split c [] = [] ∷ []
split c (b ∷ bytes) = let parts = split c bytes in if b == c then [] ∷ parts else onto_first b parts

-- The digits of a `u64` behind those read so far.
unfoldable pub digits : ℕ → List ℕ → Option ℕ
digits acc [] = some acc
digits acc (b ∷ bytes) =
    let next = acc * 10 + (b - 48) in
    let rest = digits next bytes in if leb 48 b && leb b 57 && ltb next (2 ^ 64) then rest else none

-- `parse::<u64>()`: one `+` may stand before the digits; there is at least one digit.
unfoldable pub parse_u64 : List ℕ → Option ℕ
parse_u64 [] = none
parse_u64 (b ∷ []) = digits 0 (b ∷ [])
parse_u64 (b ∷ c ∷ bytes) = if b == 43 then digits 0 (c ∷ bytes) else digits 0 (b ∷ c ∷ bytes)
