-- ===== src/Obfuscation/XorMask/RoundTrip.antt =====
-- Masking twice in one time window gives the data back.
use apfsds_rs.Base.{
  ℕ, zero, suc, ◌/◌, ◌≡◌, ◌≢◌, refl, ap, ap₂, List, [], ◌∷◌, some, arith, length, bit_xor,
}
use mathlib.Core.Option.{some-injective}
use mathlib.Core.Path.{sym, ◌∙◌}
use apfsds_rs.Base.Bits.{bit_xor-bit_xor}
use apfsds_rs.Obfuscation.XorMask.{
  XorMask, Target, mask_loop, seed, generate_mask, xor_scalar, apply,
}
use apfsds_rs.Obfuscation.XorMask.Vector.{xor_with_mask-eq-xor_scalar}

length-mask_loop : (n state : ℕ) → length (mask_loop n state) ≡ n
unfolding mask_loop
length-mask_loop zero state = refl
length-mask_loop (suc n) state = ap suc (length-mask_loop n _)

length-xor_scalar : (bytes mask : List ℕ) → length (xor_scalar bytes mask) ≡ length bytes
unfolding xor_scalar
length-xor_scalar [] mask = refl
length-xor_scalar (b ∷ bytes) [] = refl
length-xor_scalar (b ∷ bytes) (m ∷ mask) = ap suc (length-xor_scalar bytes mask)

xor_scalar-xor_scalar : (bytes mask : List ℕ) → xor_scalar (xor_scalar bytes mask) mask ≡ bytes
unfolding xor_scalar
xor_scalar-xor_scalar [] mask = refl
xor_scalar-xor_scalar (b ∷ bytes) [] = refl
xor_scalar-xor_scalar (b ∷ bytes) (m ∷ mask) =
    ap₂ ◌∷◌ (bit_xor-bit_xor b m) (xor_scalar-xor_scalar bytes mask)

-- With a time step, masking is the XOR with the mask of the current window, in every build.
pub apply_form :
    (t : Target) (x : XorMask) (now : ℕ) (bytes : List ℕ)
    → x.time_step ≢ 0
    → apply t x now bytes ≡ some (xor_scalar bytes (mask_loop (length bytes) (seed x now)))
unfolding apply generate_mask
apply_form t x now bytes step = ground (
  arith,
  xor_with_mask-eq-xor_scalar t bytes (mask_loop (length bytes) (seed x now)),
  length-mask_loop (length bytes) (seed x now),
)

pub apply_returns :
    (t : Target) (x : XorMask) (now : ℕ) (bytes : List ℕ)
    → x.time_step ≢ 0
    → (masked : List ℕ) × (apply t x now bytes ≡ some masked)
apply_returns t x now bytes step = (_, apply_form t x now bytes step)

apply_step :
    (t : Target) (x : XorMask) (now : ℕ) (bytes masked : List ℕ)
    → apply t x now bytes ≡ some masked
    → x.time_step ≢ 0
unfolding apply generate_mask
apply_step t x now bytes masked e = ground arith

-- In one time window, data masked by one build and unmasked by any other comes back unchanged,
-- and has the same length in between.
pub apply-apply :
    (t u : Target) (x : XorMask) (now later : ℕ) (bytes masked : List ℕ)
    → now / x.time_step ≡ later / x.time_step
    → apply t x now bytes ≡ some masked
    → (apply u x later masked ≡ some bytes) × (length masked ≡ length bytes)
apply-apply t u x now later bytes masked window e =
    let step : x.time_step ≢ 0 = apply_step t x now bytes masked e in
    let mask : List ℕ = mask_loop (length bytes) (seed x now) in
    let form : masked ≡ xor_scalar bytes mask =
      some-injective masked (xor_scalar bytes mask) (sym e ∙ apply_form t x now bytes step) in
    let same : seed x later ≡ seed x now =
      unfold seed in ap (λ (t : ℕ). bit_xor t x.session_key) (sym window) in
    rw form (
      apply_form u x later (xor_scalar bytes mask) step
          ∙ rw (length-xor_scalar bytes mask, same) (ap some (xor_scalar-xor_scalar bytes mask)),
      length-xor_scalar bytes mask,
    )
