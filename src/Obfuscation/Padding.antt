-- ===== src/Obfuscation/Padding.antt =====
-- crates/obfuscation/src/padding.rs. The `fastrand` generator is an argument. Sizes stay below
-- 2 ^ 64. `none` is a panic: `fastrand` panics on an empty range.
pub mod Target
pub mod RoundTrip
use apfsds_rs.Base.{
  ℕ, ◌+◌, ◌-◌, ◌*◌, ◌/◌, ◌%◌, ◌^◌, ◌≤◌, ◌<◌, ◌≡◌, max, Bool, true, false, List, [], ◌∷◌, ◌++◌,
  Option, none, some, and_then, length, take, drop, ltb, leb, if◌then◌else◌,
}
use apfsds_rs.Base.Words.{to_le_bytes, from_le_bytes}

-- The sizes with their weights in hundredths. Choosing a target does not read the weights.
abbrev pub size_distribution : List (ℕ × ℕ)
size_distribution = (512, 40) ∷ (1024, 20) ∷ (2048, 15) ∷ (4096, 15) ∷ (8192, 7) ∷ (16384, 3) ∷ []

abbrev pub jitter_percent : ℕ
jitter_percent = 10

pub data SizeDistribution : Type 0 where
  fixed : List (ℕ × ℕ) → SizeDistribution
  learned : List (ℕ × ℕ) → SizeDistribution
  -- min, max
  random : ℕ → ℕ → SizeDistribution
  -- mean, std_dev
  normal : ℕ → ℕ → SizeDistribution

pub record PaddingStrategy : Type 0 where
  pub jitter : Bool
  pub min_size : ℕ
  pub distribution : SizeDistribution

-- `Default` and `new`.
abbrev pub default_strategy : PaddingStrategy
default_strategy = record { jitter = true; min_size = 64; distribution = fixed size_distribution }

abbrev pub no_jitter : PaddingStrategy
no_jitter = record { jitter = false; min_size = 64; distribution = fixed size_distribution }

-- The draws of one call: `usize(lo..hi)`, `usize(0..=n)`, the size that the Box-Muller transform
-- gives (floating point) and a run of bytes.
pub record Draws : Type 0 where
  pub range : ℕ → ℕ → ℕ
  pub up_to : ℕ → ℕ
  pub gauss : ℕ → ℕ → ℕ
  pub bytes : ℕ → List ℕ

-- What `fastrand` documents of them.
pub record IsDraws (r : Draws) : Type 0 where
  pub range_low : (lo hi : ℕ) → lo < hi → lo ≤ r.range lo hi
  pub range_high : (lo hi : ℕ) → lo < hi → r.range lo hi < hi
  pub up_to_high : (n : ℕ) → r.up_to n ≤ n
  pub bytes_count : (n : ℕ) → length (r.bytes n) ≡ n

-- `iter().find(|(size, _)| *size > payload_len).map(..).unwrap_or(16384)`.
unfoldable pub next_size : List (ℕ × ℕ) → ℕ → ℕ
next_size [] payload_len = 16384
next_size ((size, weight) ∷ dist) payload_len =
    if ltb payload_len size then size else next_size dist payload_len

unfoldable pub base_target : Draws → SizeDistribution → ℕ → Option ℕ
base_target r (fixed dist) payload_len = some (next_size dist payload_len)
base_target r (learned dist) payload_len = some (next_size dist payload_len)
base_target r (random lo hi) payload_len =
    if leb hi payload_len
    then some hi
    else (let start = max payload_len lo in if ltb start hi then some (r.range start hi) else none)
base_target r (normal mean std_dev) payload_len = some (max (r.gauss mean std_dev) payload_len)

abbrev add_jitter : Draws → Bool → ℕ → ℕ
add_jitter r true target =
    let jitter_range = target / jitter_percent in target - jitter_range + r.up_to (jitter_range * 2)
add_jitter r false target = target

unfoldable pub calculate_target_size : Draws → PaddingStrategy → ℕ → Option ℕ
calculate_target_size r s payload_len =
    and_then (base_target r s.distribution payload_len)
      (λ base. some (add_jitter r s.jitter (max base s.min_size)))

unfoldable pub calculate_padding_len : Draws → PaddingStrategy → ℕ → Option ℕ
calculate_padding_len r s payload_len =
    and_then (calculate_target_size r s payload_len) (λ target. some (target - payload_len))

unfoldable pub pad : Draws → PaddingStrategy → List ℕ → Option (List ℕ)
pad r s bytes =
    and_then (calculate_padding_len r s (length bytes)) (λ padding_len.
      some (to_le_bytes 4 (length bytes % 2 ^ 32) ++ (bytes ++ r.bytes padding_len)))

unfoldable pub unpad : List ℕ → Option (List ℕ)
unpad bytes =
    if ltb (length bytes) 4
    then none
    else (let original_len = from_le_bytes (take 4 bytes) in
        if ltb (length bytes) (4 + original_len)
        then none
        else some (take original_len (drop 4 bytes)))
