-- ===== src/Obfuscation/XorMask.antt =====
-- crates/obfuscation/src/xor_mask.rs. The clock, in seconds, is an argument. `none` is the panic of
-- a division by a time step of zero.
pub mod Vector
pub mod RoundTrip
pub mod Generator
use apfsds_rs.Base.{
  ℕ, zero, suc, ◌+◌, ◌-◌, ◌*◌, ◌/◌, ◌%◌, ◌^◌, ◌≡◌, Bool, true, false, List, [], ◌∷◌, ◌++◌, Option,
  none, some, and_then, length, take, drop, leb, bit_and, bit_xor, ◌==◌, if◌then◌else◌,
}

pub record XorMask : Type 0 where
  pub session_key : ℕ
  pub time_step : ℕ

unfoldable pub new : ℕ → XorMask
new session_key = record { session_key = session_key; time_step = 60 }

unfoldable pub with_time_step : ℕ → ℕ → XorMask
with_time_step session_key time_step = record { session_key = session_key; time_step = time_step }

-- One round of xorshift64 on a `u64`.
unfoldable pub xorshift : ℕ → ℕ
xorshift state =
    let a = bit_xor state (state * 2 ^ 13 % 2 ^ 64) in
    let b = bit_xor a (a / 2 ^ 7) in bit_xor b (b * 2 ^ 17 % 2 ^ 64)

unfoldable pub mask_loop : ℕ → ℕ → List ℕ
mask_loop zero state = []
mask_loop (suc left) state = let next = xorshift state in bit_and next 0xff ∷ mask_loop left next

unfoldable pub seed : XorMask → ℕ → ℕ
seed x now = bit_xor (now / x.time_step) x.session_key

unfoldable pub generate_mask : XorMask → ℕ → ℕ → Option (List ℕ)
generate_mask x now len = if x.time_step == 0 then none else some (mask_loop len (seed x now))

-- The loop over `data.iter_mut().zip(mask.iter())`.
unfoldable pub xor_scalar : List ℕ → List ℕ → List ℕ
xor_scalar [] mask = []
xor_scalar (b ∷ bytes) [] = b ∷ bytes
xor_scalar (b ∷ bytes) (m ∷ mask) = bit_xor b m ∷ xor_scalar bytes mask

-- A vector instruction: every lane of two registers.
abbrev pub xor_lanes : List ℕ → List ℕ → List ℕ
xor_lanes [] v = []
xor_lanes (a ∷ u) [] = []
xor_lanes (a ∷ u) (b ∷ v) = bit_xor a b ∷ xor_lanes u v

-- `data[j] ^= mask[j]` for the bytes that fill no register; a mask that is too short panics.
unfoldable pub xor_rest : List ℕ → List ℕ → Option (List ℕ)
xor_rest [] mask = some []
xor_rest (b ∷ bytes) [] = none
xor_rest (b ∷ bytes) (m ∷ mask) = and_then (xor_rest bytes mask) (λ rest. some (bit_xor b m ∷ rest))

-- `xor_avx2` (32 lanes) and `xor_neon` (16): whole registers while they fit, then the rest. The
-- lists are what lies from index `i` on; each round takes a register, so one more round than
-- there are bytes is enough, and `none` otherwise.
unfoldable pub xor_vector : ℕ → ℕ → List ℕ → List ℕ → Option (List ℕ)
xor_vector lanes zero bytes mask = none
xor_vector lanes (suc fuel) bytes mask =
    let rest = xor_vector lanes fuel (drop lanes bytes) (drop lanes mask) in
    if leb lanes (length bytes)
    then and_then rest (λ tail. some (xor_lanes (take lanes bytes) (take lanes mask) ++ tail))
    else xor_rest bytes mask

-- What the build is compiled for.
pub data Target : Type 0 where
  avx2 neon portable : Target

unfoldable pub xor_with_mask : Target → List ℕ → List ℕ → Option (List ℕ)
xor_with_mask avx2 bytes mask = xor_vector 32 (suc (length bytes)) bytes mask
xor_with_mask neon bytes mask = xor_vector 16 (suc (length bytes)) bytes mask
xor_with_mask portable bytes mask = some (xor_scalar bytes mask)

-- `apply` and `apply_inplace`: the masked bytes.
unfoldable pub apply : Target → XorMask → ℕ → List ℕ → Option (List ℕ)
apply t x now bytes =
    and_then (generate_mask x now (length bytes)) (λ mask. xor_with_mask t bytes mask)
