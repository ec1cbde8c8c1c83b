-- ===== src/Obfuscation/XorMask/Generator.antt =====
-- The xorshift generator: from which seeds the mask is nothing but zeros.
use apfsds_rs.Base.{
  ℕ, zero, suc, ◌/◌, ◌≡◌, ◌≢◌, refl, ap, ap₂, ◌∙◌, List, [], ◌∷◌, some, length, replicate,
}
use apfsds_rs.Base.Bits.{bit_xor_self, bit_xor-zero}
use apfsds_rs.Obfuscation.XorMask.{XorMask, Target, xorshift, mask_loop, seed, apply, xor_scalar}
use apfsds_rs.Obfuscation.XorMask.RoundTrip.{apply_form}

xorshift_zero : xorshift 0 ≡ 0
unfolding xorshift
xorshift_zero = refl

mask_loop-zero : (n : ℕ) → mask_loop n 0 ≡ replicate n 0
unfolding mask_loop
mask_loop-zero zero = refl
mask_loop-zero (suc n) = rw xorshift_zero (ap (◌∷◌ 0) (mask_loop-zero n))

xor_scalar-zeros : (bytes : List ℕ) → xor_scalar bytes (replicate (length bytes) 0) ≡ bytes
unfolding xor_scalar
xor_scalar-zeros [] = refl
xor_scalar-zeros (b ∷ bytes) = ap₂ ◌∷◌ (bit_xor-zero b) (xor_scalar-zeros bytes)

-- With a time step that is not zero: whenever the number of the time window is the session key, masking changes nothing: the data
-- goes out as it is.
pub apply_identity :
    (t : Target) (x : XorMask) (now : ℕ) (bytes : List ℕ)
    → x.time_step ≢ 0
    → now / x.time_step ≡ x.session_key
    → apply t x now bytes ≡ some bytes
apply_identity t x now bytes step e =
    let dead : seed x now ≡ 0 = unfold seed in rw e (bit_xor_self x.session_key) in
    apply_form t x now bytes step ∙ rw (dead, mask_loop-zero) (ap some (xor_scalar-zeros bytes))
