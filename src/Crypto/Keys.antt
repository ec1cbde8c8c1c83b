-- ===== src/Crypto/Keys.antt =====
-- crates/crypto/src/keys.rs: `MlDsa65KeyPair`. The `ml-dsa` package is an argument.
use apfsds_rs.Base.{
  ℕ, ◌≡◌, Bool, List, Option, Result, ok, ◌>>=◌, ◌>>◌, ensure, ok_or, length, ◌==◌, arith,
}

pub data KeyError : Type 0 where
  -- expected, actual
  invalid_key_length : ℕ → ℕ → KeyError
  signature_verification_failed invalid_signature_format : KeyError
  key_deserialization_failed key_serialization_failed : List ℕ → KeyError

-- The calls of `ml_dsa` with `MlDsa65`. Its encodings are arrays: 1952 bytes for a key, 3309 for a
-- signature.
pub record MlDsa : Type 1 where
  pub KeyPair : Type 0
  pub VerifyingKey : Type 0
  pub Signature : Type 0
  pub from_seed : List ℕ → KeyPair
  pub to_seed : KeyPair → List ℕ
  pub verifying_key : KeyPair → VerifyingKey
  pub encode_key : VerifyingKey → List ℕ
  pub decode_key : List ℕ → VerifyingKey
  pub sign_bytes : KeyPair → List ℕ → Signature
  pub encode_signature : Signature → List ℕ
  pub decode_signature : List ℕ → Option Signature
  pub verify_signature : VerifyingKey → List ℕ → Signature → Bool

module _ (m : MlDsa) where
  unfoldable pub from_secret : List ℕ → Result KeyError m.KeyPair
  from_secret secret_bytes =
      ensure (length secret_bytes == 32) (invalid_key_length 32 (length secret_bytes))
      >> ok (m.from_seed secret_bytes)

  unfoldable pub public_key : m.KeyPair → List ℕ
  public_key k = m.encode_key (m.verifying_key k)

  unfoldable pub secret_key : m.KeyPair → List ℕ
  secret_key k = m.to_seed k

  unfoldable pub sign : m.KeyPair → List ℕ → List ℕ
  sign k message = m.encode_signature (m.sign_bytes k message)

  unfoldable pub verify_with_pk : List ℕ → List ℕ → List ℕ → Result KeyError (Unit {0})
  verify_with_pk pk_bytes message signature = do
    ensure (length pk_bytes == 1952) (invalid_key_length 1952 (length pk_bytes))
    let key = m.decode_key pk_bytes
    ensure (length signature == 3309) (invalid_key_length 3309 (length signature))
    sig ← ok_or (m.decode_signature signature) invalid_signature_format
    ensure (m.verify_signature key message sig) signature_verification_failed

  -- A signature of any other size is refused.
  pub verify_with_pk_size :
      (pk message signature : List ℕ)
      → verify_with_pk pk message signature ≡ ok tt
      → length signature ≡ 3309
  unfolding verify_with_pk
  verify_with_pk_size pk message signature e = ground arith
