-- ===== src/Tests/Obfuscation.antt =====
-- Padding, masks and compression at concrete inputs.
use apfsds_rs.Base.{
  ℕ, ◌≤◌, ◌≡◌, ◌↔◌, refl, true, false, List, [], ◌∷◌, some, ok, ◌>>=◌, length, replicate,
}
use apfsds_rs.Obfuscation.Padding.{
  PaddingStrategy, random, default_strategy, base_target, next_size, calculate_target_size,
  calculate_padding_len, pad,
}
use apfsds_rs.Obfuscation.XorMask.{
  XorMask, avx2, portable, mask_loop, seed, xor_scalar, xor_with_mask, generate_mask, apply,
}
use apfsds_rs.Obfuscation.XorMask.Vector.{xor_with_mask-eq-xor_scalar}
use apfsds_rs.Obfuscation.Compression.{read_loop, decompress_with_limit, is_compressed}
use apfsds_rs.Obfuscation.Compression.Limit.{contents, decompress_with_limit_iff}
use apfsds_rs.Tests.{low_draws, stored_zstd}

abbrev plain : List ℕ
plain = 10 ∷ 20 ∷ 30 ∷ []

-- A strategy with small sizes.
abbrev narrow : PaddingStrategy
narrow = record { jitter = false; min_size = 2; distribution = random 4 9 }

abbrev narrow_padded : List ℕ
narrow_padded = 3 ∷ 0 ∷ 0 ∷ 0 ∷ 10 ∷ 20 ∷ 30 ∷ 0 ∷ []

narrow_target : calculate_target_size low_draws narrow 3 ≡ some 4
unfolding calculate_target_size base_target
narrow_target = refl

narrow-pad : pad low_draws narrow plain ≡ some narrow_padded
unfolding pad calculate_padding_len calculate_target_size base_target
narrow-pad = refl

default_target : calculate_target_size low_draws default_strategy 600 ≡ some 922
unfolding calculate_target_size base_target next_size
default_target = refl

-- The minimum is not below the maximum.
abbrev crossed : PaddingStrategy
crossed = record { jitter = false; min_size = 2; distribution = random 9 9 }

abbrev masker : XorMask
masker = record { session_key = 0x1234567890ABCDEF; time_step = 60 }

xor_with_mask-eq-xor_scalar_example :
    xor_with_mask avx2 (replicate 40 5) (replicate 40 9)
    ≡ some (xor_scalar (replicate 40 5) (replicate 40 9))
xor_with_mask-eq-xor_scalar_example =
    xor_with_mask-eq-xor_scalar avx2 (replicate 40 5) (replicate 40 9) refl

abbrev masked : List ℕ
masked = xor_scalar plain (mask_loop 3 (seed masker 1000))

mask_plain : apply portable masker 1000 plain ≡ some masked
unfolding apply generate_mask xor_with_mask
mask_plain = refl

-- The session key is the number of the window.
abbrev dead : XorMask
dead = record { session_key = 16; time_step = 60 }

decompress_with_limit_iff_example :
    (decompress_with_limit stored_zstd plain 3 ≡ ok plain)
    ↔ (((stored_zstd.decoder plain >>= contents) ≡ ok plain) × (length plain ≤ 3))
decompress_with_limit_iff_example = decompress_with_limit_iff stored_zstd plain plain 3

limit_values :
    (decompress_with_limit stored_zstd plain 3 ≡ ok plain)
    × (is_compressed (0x28 ∷ 0xB5 ∷ 0x2F ∷ 0xFD ∷ 1 ∷ []) ≡ true)
    × (is_compressed (0x28 ∷ 0xB5 ∷ 0x2F ∷ []) ≡ false)
unfolding decompress_with_limit is_compressed read_loop
limit_values = (refl, refl, refl)
