-- ===== src/Crypto/Aes.antt =====
-- crates/crypto/src/aes.rs. AES-256-GCM and SHA-256 are other packages': `seal_text` and `open_sealed` take
-- the key, the nonce and the text. The drawn nonce is an argument.
use apfsds_rs.Base.{
  ℕ, ◌≡◌, refl, sym, not, List, ◌∷◌, ◌++◌, Option, none, some, Result, ok, ◌>>=◌, ◌>>◌, ok_or,
  ensure, arith, length, length-append, take, drop, take-append, drop-append, ltb, ok_injective,
}

pub data AesError : Type 0 where
  encryption_failed decryption_failed ciphertext_too_short : AesError
  invalid_key_length_error : ℕ → AesError
  invalid_nonce_length : ℕ → AesError

pub record AesGcm : Type 0 where
  pub seal_text : List ℕ → List ℕ → List ℕ → Option (List ℕ)
  pub open_sealed : List ℕ → List ℕ → List ℕ → Option (List ℕ)

-- What is sealed opens under the same key and nonce.
abbrev pub Opens : AesGcm → Type 0
Opens a =
    (key nonce plaintext sealed : List ℕ)
    → a.seal_text key nonce plaintext ≡ some sealed
    → a.open_sealed key nonce sealed ≡ some plaintext

pub record Aes256GcmCipher : Type 0 where
  pub key : List ℕ

module _ (a : AesGcm) where
  unfoldable pub encrypt_with_nonce : Aes256GcmCipher → List ℕ → List ℕ → Result AesError (List ℕ)
  encrypt_with_nonce c nonce plaintext = ok_or (a.seal_text c.key nonce plaintext) encryption_failed

  -- The nonce, then the ciphertext.
  unfoldable pub encrypt : Aes256GcmCipher → List ℕ → List ℕ → Result AesError (List ℕ)
  encrypt c nonce plaintext =
      ok_or (a.seal_text c.key nonce plaintext) encryption_failed >>= λ ciphertext.
      ok (nonce ++ ciphertext)

  unfoldable pub decrypt_with_nonce : Aes256GcmCipher → List ℕ → List ℕ → Result AesError (List ℕ)
  decrypt_with_nonce c nonce ciphertext =
      ok_or (a.open_sealed c.key nonce ciphertext) decryption_failed

  unfoldable pub decrypt : Aes256GcmCipher → List ℕ → Result AesError (List ℕ)
  decrypt c bytes =
      ensure (not (ltb (length bytes) 12)) ciphertext_too_short
      >> ok_or (a.open_sealed c.key (take 12 bytes) (drop 12 bytes)) decryption_failed

  -- What `encrypt` gives, `decrypt` reads back under the same key, and so does
  -- `decrypt_with_nonce` with the two parts.
  pub decrypt-encrypt :
      (c : Aes256GcmCipher) (nonce plaintext wire : List ℕ)
      → Opens a
      → length nonce ≡ 12
      → encrypt c nonce plaintext ≡ ok wire
      → (decrypt c wire ≡ ok plaintext)
        × (decrypt_with_nonce c (take 12 wire) (drop 12 wire) ≡ ok plaintext)
  unfolding encrypt decrypt decrypt_with_nonce
  decrypt-encrypt c nonce plaintext wire opens twelve e =
      by_seal (a.seal_text c.key nonce plaintext) refl e
    where
      by_wire :
          (ct wire : List ℕ)
          → a.seal_text c.key nonce plaintext ≡ some ct
          → nonce ++ ct ≡ wire
          → (decrypt c wire ≡ ok plaintext)
            × (decrypt_with_nonce c (take 12 wire) (drop 12 wire) ≡ ok plaintext)
      by_wire ct wire s w = ground (
        arith,
        length-append nonce ct,
        take-append 12 nonce ct (sym twelve),
        drop-append 12 nonce ct (sym twelve),
        opens c.key nonce plaintext ct s,
      )

      by_seal :
          (o : Option (List ℕ))
          → a.seal_text c.key nonce plaintext ≡ o
          → (ok_or o encryption_failed >>= λ ciphertext. ok (nonce ++ ciphertext)) ≡ ok wire
          → (decrypt c wire ≡ ok plaintext)
            × (decrypt_with_nonce c (take 12 wire) (drop 12 wire) ≡ ok plaintext)
      by_seal none s e = absurd (cc)
      by_seal (some ct) s e = by_wire ct wire s (ok_injective _ wire e)

-- "APFSDS-AES-KEY-DERIVE" in front of the secret, under SHA-256.
unfoldable pub derive_aes_key : (List ℕ → List ℕ) → List ℕ → List ℕ
derive_aes_key sha256 shared_secret = sha256 (
    65 ∷ 80 ∷ 70 ∷ 83 ∷ 68 ∷ 83 ∷ 45 ∷ 65 ∷ 69 ∷ 83 ∷ 45 ∷ 75 ∷ 69 ∷ 89 ∷ 45 ∷ 68 ∷ 69 ∷ 82 ∷ 73
    ∷ 86 ∷ 69 ∷ shared_secret)
