-- ===== src/Crypto/Hmac.antt =====
-- crates/crypto/src/hmac_auth.rs. HMAC-SHA256 is the `hmac` package's: `mac key message` stands for
-- its digest of the concatenation of all that `update` was given.
pub mod Compare
pub mod Binding
use apfsds_rs.Base.{
  ℕ, zero, suc, ◌+◌, ◌≡◌, Bool, List, ◌++◌, Result, ok, err, get_or, bit_or, bit_xor, ◌==◌,
  if◌then◌else◌,
}
use apfsds_rs.Base.Words.{to_le_bytes}

pub data HmacError : Type 0 where
  invalid_key_length verification_failed : HmacError

pub record HmacAuthenticator : Type 0 where
  pub secret : List ℕ

-- `for i in 0..32 { result |= a[i] ^ b[i]; }`, with the rounds left and the index.
pub compare_loop : List ℕ → List ℕ → ℕ → ℕ → ℕ → ℕ
compare_loop a b zero i result = result
compare_loop a b (suc left) i result =
    compare_loop a b left (i + 1) (bit_or result (bit_xor (get_or a i 0) (get_or b i 0)))

unfoldable pub constant_time_compare : List ℕ → List ℕ → Bool
unfolding compare_loop
constant_time_compare a b = compare_loop a b 32 0 0 == 0

module _ (mac : List ℕ → List ℕ → List ℕ) where
  unfoldable pub compute : HmacAuthenticator → List ℕ → List ℕ
  compute h bytes = mac h.secret bytes

  unfoldable pub compute_with_timestamp : HmacAuthenticator → List ℕ → ℕ → List ℕ
  compute_with_timestamp h bytes timestamp = mac h.secret (bytes ++ to_le_bytes 8 timestamp)

  unfoldable pub verify : HmacAuthenticator → List ℕ → List ℕ → Result HmacError (Unit {0})
  unfolding compute
  verify h bytes expected =
      let computed = compute h bytes in
      if constant_time_compare computed expected then ok tt else err verification_failed

  unfoldable pub verify_with_timestamp :
      HmacAuthenticator → List ℕ → ℕ → List ℕ → Result HmacError (Unit {0})
  unfolding compute_with_timestamp
  verify_with_timestamp h bytes timestamp expected =
      let computed = compute_with_timestamp h bytes timestamp in
      if constant_time_compare computed expected then ok tt else err verification_failed
