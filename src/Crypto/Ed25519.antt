-- ===== src/Crypto/Ed25519.antt =====
-- crates/crypto/src/keys.rs: `Ed25519KeyPair`. The `ed25519-dalek` package is an argument.
use apfsds_rs.Base.{
  ℕ, ◌≡◌, Bool, true, List, Option, some, Result, ok, ◌>>=◌, ensure, ok_or, length,
}
use apfsds_rs.Crypto.Keys.{KeyError, invalid_key_length, signature_verification_failed}

-- The calls of the package: keys from bytes and back, signing and verifying.
pub record Dalek : Type 1 where
  pub SigningKey : Type 0
  pub VerifyingKey : Type 0
  pub signing_from_bytes : List ℕ → SigningKey
  pub signing_to_bytes : SigningKey → List ℕ
  pub verifying_key : SigningKey → VerifyingKey
  pub verifying_to_bytes : VerifyingKey → List ℕ
  pub verifying_from_bytes : List ℕ → Option VerifyingKey
  pub sign_bytes : SigningKey → List ℕ → List ℕ
  pub verify_bytes : VerifyingKey → List ℕ → List ℕ → Bool

-- What it documents.
pub record IsDalek (p : Dalek) : Type 0 where
  pub secret_back : (k : p.SigningKey) → p.signing_from_bytes (p.signing_to_bytes k) ≡ k
  pub key_back : (k : p.VerifyingKey) → p.verifying_from_bytes (p.verifying_to_bytes k) ≡ some k
  pub genuine :
      (k : p.SigningKey) (message : List ℕ)
      → p.verify_bytes (p.verifying_key k) message (p.sign_bytes k message) ≡ true

module _ (p : Dalek) where
  unfoldable pub from_secret : List ℕ → p.SigningKey
  from_secret secret = p.signing_from_bytes secret

  unfoldable pub public_key : p.SigningKey → List ℕ
  public_key k = p.verifying_to_bytes (p.verifying_key k)

  unfoldable pub secret_key : p.SigningKey → List ℕ
  secret_key k = p.signing_to_bytes k

  unfoldable pub sign : p.SigningKey → List ℕ → List ℕ
  sign k message = p.sign_bytes k message

  unfoldable pub verify_with_pk : List ℕ → List ℕ → List ℕ → Result KeyError (Unit {0})
  verify_with_pk pk message signature = do
    key ← ok_or (p.verifying_from_bytes pk) (invalid_key_length 32 (length pk))
    ensure (p.verify_bytes key message signature) signature_verification_failed

  -- What a key signs verifies with its encoded public key, also after the key went through its
  -- secret bytes.
  pub verify_with_pk-secret_key :
      (law : IsDalek p) (k : p.SigningKey) (message : List ℕ)
      → verify_with_pk (public_key (from_secret (secret_key k))) message (sign k message) ≡ ok tt
  unfolding verify_with_pk public_key sign from_secret secret_key
  verify_with_pk-secret_key law k message =
      rw (law.secret_back k, law.key_back (p.verifying_key k), law.genuine k message)

  pub verify_with_pk-sign_own :
      (law : IsDalek p) (k : p.SigningKey) (message : List ℕ)
      → verify_with_pk (public_key k) message (sign k message) ≡ ok tt
  unfolding verify_with_pk public_key sign
  verify_with_pk-sign_own law k message =
      rw (law.key_back (p.verifying_key k), law.genuine k message)
