-- ===== src/Obfuscation/Padding/RoundTrip.antt =====
-- `unpad` takes back what `pad` added.
use apfsds_rs.Base.{
  ℕ, ◌+◌, ◌%◌, ◌^◌, ◌<◌, ◌≡◌, refl, sym, inl, inr, max, List, ◌++◌, some, arith, Option-cases,
  length, length-append, take-append, drop-append,
}
use apfsds_rs.Base.Words.{to_le_bytes, from_le_bytes, length-to_le_bytes, from_le_bytes-to_le_bytes}
use apfsds_rs.Obfuscation.Padding.Target.{IsEmptyRange, calculate_target_size_panics}
use apfsds_rs.Obfuscation.Padding.{
  PaddingStrategy, Draws, IsDraws, calculate_target_size, calculate_padding_len, pad, unpad,
}

-- What `pad` writes, once its target is known.
pad_form :
    (r : Draws) (s : PaddingStrategy) (bytes padded : List ℕ)
    → pad r s bytes ≡ some padded
    → (n : ℕ) × (calculate_padding_len r s (length bytes) ≡ some n)
      × (padded ≡ to_le_bytes 4 (length bytes % 2 ^ 32) ++ (bytes ++ r.bytes n))
unfolding pad
pad_form r s bytes padded e = elim (Option-cases (calculate_padding_len r s (length bytes))) [
  | inl none_left ↦ absurd (ground arith)
  | inr (n, h) ↦ (n, h, ground arith)
]

unpad_form :
    (front bytes tail : List ℕ)
    → length front ≡ 4
    → from_le_bytes front ≡ length bytes
    → unpad (front ++ (bytes ++ tail)) ≡ some bytes
unfolding unpad
unpad_form front bytes tail h e = ground (
  arith,
  length-append front (bytes ++ tail),
  length-append bytes tail,
  take-append 4 front (bytes ++ tail) (sym h),
  drop-append 4 front (bytes ++ tail) (sym h),
  take-append (length bytes) bytes tail refl,
)

-- Of fewer than 2 ^ 32 bytes, padded by any strategy, `unpad` returns exactly those bytes.
pub unpad-pad :
    (r : Draws) (s : PaddingStrategy) (bytes padded : List ℕ)
    → length bytes < 2 ^ 32
    → pad r s bytes ≡ some padded
    → unpad padded ≡ some bytes
unpad-pad r s bytes padded small e =
    let (n, h, form) = pad_form r s bytes padded e in
    rw form (
      unpad_form (to_le_bytes 4 (length bytes % 2 ^ 32)) bytes (r.bytes n)
        (length-to_le_bytes 4 (length bytes % 2 ^ 32))
        (omega (arith, from_le_bytes-to_le_bytes 4 (length bytes % 2 ^ 32) (omega arith))))

-- For draws as `fastrand` documents them, where a target and a padded text are returned: the
-- padded length is four bytes more than the target, or than the payload where that is longer.
pub length-pad :
    (r : Draws) (s : PaddingStrategy) (bytes padded : List ℕ) (target : ℕ)
    → IsDraws r
    → calculate_target_size r s (length bytes) ≡ some target
    → pad r s bytes ≡ some padded
    → length padded ≡ 4 + max target (length bytes)
unfolding calculate_padding_len
length-pad r s bytes padded target h t e =
    let (n, hn, form) = pad_form r s bytes padded e in
    rw form (
      ground (
        arith,
        length-append (to_le_bytes 4 (length bytes % 2 ^ 32)) (bytes ++ r.bytes n),
        length-to_le_bytes 4 (length bytes % 2 ^ 32),
        length-append bytes (r.bytes n),
        h.bytes_count n,
      ))

-- `pad` returns unless its draw is from an empty range.
pub pad_returns :
    (r : Draws) (s : PaddingStrategy) (bytes : List ℕ)
    → ¬ IsEmptyRange s.distribution (length bytes)
    → (padded : List ℕ) × (pad r s bytes ≡ some padded)
unfolding pad calculate_padding_len
pad_returns r s bytes h = elim (Option-cases (calculate_target_size r s (length bytes))) [
  | inl panics ↦ absurd (h ((calculate_target_size_panics r s (length bytes)).0 panics))
  | inr (target, e) ↦ rw e (_, refl)
]
