-- ===== src/Obfuscation/XorMask/Vector.antt =====
-- The vector loops compute what the portable loop computes.
use apfsds_rs.Base.{
  ℕ, zero, suc, ◌≤◌, ◌<◌, ◌≡◌, refl, ap, List, [], ◌∷◌, ◌++◌, some, arith, length, take, drop,
  length-drop, leb, Bool-cases, inl, inr, bit_xor, leb→le,
}
use apfsds_rs.Obfuscation.XorMask.{
  Target, avx2, neon, portable, xor_scalar, xor_lanes, xor_rest, xor_vector, xor_with_mask,
}

xor_rest-eq-xor_scalar :
    (bytes mask : List ℕ)
    → length bytes ≤ length mask
    → xor_rest bytes mask ≡ some (xor_scalar bytes mask)
unfolding xor_rest xor_scalar
xor_rest-eq-xor_scalar [] mask h = refl
xor_rest-eq-xor_scalar (b ∷ bytes) [] h = absurd (omega arith)
xor_rest-eq-xor_scalar (b ∷ bytes) (m ∷ mask) h =
    rw (xor_rest-eq-xor_scalar bytes mask (omega arith))

-- A register and the rest make up the whole.
xor_lanes-append :
    (n : ℕ) (bytes mask : List ℕ)
    → n ≤ length bytes
    → length bytes ≡ length mask
    → xor_lanes (take n bytes) (take n mask) ++ xor_scalar (drop n bytes) (drop n mask)
      ≡ xor_scalar bytes mask
unfolding xor_scalar
xor_lanes-append zero bytes mask h e = refl
xor_lanes-append (suc n) [] mask h e = absurd (omega arith)
xor_lanes-append (suc n) (b ∷ bytes) [] h e = absurd (omega arith)
xor_lanes-append (suc n) (b ∷ bytes) (m ∷ mask) h e =
    ap (◌∷◌ (bit_xor b m)) (xor_lanes-append n bytes mask (omega arith) (omega arith))

xor_vector-eq-xor_scalar :
    (lanes fuel : ℕ) (bytes mask : List ℕ)
    → 0 < lanes
    → length bytes < fuel
    → length bytes ≡ length mask
    → xor_vector lanes fuel bytes mask ≡ some (xor_scalar bytes mask)
unfolding xor_vector
xor_vector-eq-xor_scalar lanes zero bytes mask pos h e = absurd (omega arith)
xor_vector-eq-xor_scalar lanes (suc fuel) bytes mask pos h e =
    elim (Bool-cases (leb lanes (length bytes))) [
      | inl fits ↦
          let room : lanes ≤ length bytes = leb→le lanes (length bytes) fits in
          rw
            (
              fits,
              xor_vector-eq-xor_scalar lanes fuel (drop lanes bytes) (drop lanes mask) pos
                  (omega (arith, length-drop lanes bytes))
                  (omega (arith, length-drop lanes bytes, length-drop lanes mask)),
            )
            (ap some (xor_lanes-append lanes bytes mask room e))
      | inr short ↦ rw short (xor_rest-eq-xor_scalar bytes mask (omega arith))
    ]

-- Under a mask of the data's length, every build gives the XOR of the portable loop; no loop
-- reads past the mask, and none runs out of rounds.
pub xor_with_mask-eq-xor_scalar :
    (t : Target) (bytes mask : List ℕ)
    → length bytes ≡ length mask
    → xor_with_mask t bytes mask ≡ some (xor_scalar bytes mask)
unfolding xor_with_mask
xor_with_mask-eq-xor_scalar avx2 bytes mask e =
    xor_vector-eq-xor_scalar 32 (suc (length bytes)) bytes mask (omega arith) (omega arith) e
xor_with_mask-eq-xor_scalar neon bytes mask e =
    xor_vector-eq-xor_scalar 16 (suc (length bytes)) bytes mask (omega arith) (omega arith) e
xor_with_mask-eq-xor_scalar portable bytes mask e = refl
