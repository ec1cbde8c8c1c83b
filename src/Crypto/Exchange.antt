-- ===== src/Crypto/Exchange.antt =====
-- crates/crypto/src/keys.rs: `X25519KeyPair` and `MlKem768KeyPair`. The packages `x25519-dalek` and
-- `ml-kem` are arguments, and so is what they draw.
use apfsds_rs.Base.{ℕ, ◌≡◌, List, Result, ok, err, ◌>>=◌, ◌>>◌, ensure, length, ◌==◌}
use apfsds_rs.Crypto.Keys.{
  KeyError, invalid_key_length, key_deserialization_failed, key_serialization_failed,
}

-- A public key of a secret, and the shared secret of a secret and a public key.
pub record Dh : Type 0 where
  pub public_of : List ℕ → List ℕ
  pub shared : List ℕ → List ℕ → List ℕ

abbrev pub Agrees : Dh → Type 0
Agrees x = (a b : List ℕ) → x.shared a (x.public_of b) ≡ x.shared b (x.public_of a)

pub record X25519KeyPair : Type 0 where
  pub secret : List ℕ
  pub public : List ℕ

module _ (x : Dh) where
  unfoldable pub from_secret : List ℕ → X25519KeyPair
  from_secret secret = record { secret = secret; public = x.public_of secret }

  unfoldable pub public_key : X25519KeyPair → List ℕ
  public_key k = k.public

  unfoldable pub diffie_hellman : X25519KeyPair → List ℕ → List ℕ
  diffie_hellman k their_public = x.shared k.secret their_public

  -- Two pairs that exchange their public keys have the same secret.
  pub diffie_hellman-Agrees :
      (a b : List ℕ)
      → Agrees x
      → diffie_hellman (from_secret a) (public_key (from_secret b))
        ≡ diffie_hellman (from_secret b) (public_key (from_secret a))
  unfolding diffie_hellman from_secret public_key
  diffie_hellman-Agrees a b agrees = agrees a b

-- `ml-kem`: generated keys, encapsulation with what it draws, and decapsulation.
pub record Kem : Type 0 where
  pub encapsulates : List ℕ → Result (List ℕ) (List ℕ × List ℕ)
  pub decapsulates : List ℕ → List ℕ → Result (List ℕ) (List ℕ)

pub record MlKem768KeyPair : Type 0 where
  pub secret_key : List ℕ
  pub encapsulation_key : List ℕ

abbrev kem_error : {A : Type 0} → (List ℕ → KeyError) → Result (List ℕ) A → Result KeyError A
kem_error f (ok a) = ok a
kem_error f (err e) = err (f e)

module _ (x : Kem) where
  -- The shared secret and the ciphertext.
  unfoldable pub encapsulate : List ℕ → Result KeyError (List ℕ × List ℕ)
  encapsulate their_public_key =
      ensure (length their_public_key == 1184) (invalid_key_length 1184 (length their_public_key))
      >> kem_error key_serialization_failed (x.encapsulates their_public_key)
      >>= λ r. ok (r.1, r.0)

  unfoldable pub decapsulate : MlKem768KeyPair → List ℕ → Result KeyError (List ℕ)
  decapsulate k ciphertext =
      ensure (length k.secret_key == 2400) (invalid_key_length 2400 (length k.secret_key))
      >> ensure (length ciphertext == 1088) (invalid_key_length 1088 (length ciphertext))
      >> kem_error key_deserialization_failed (x.decapsulates k.secret_key ciphertext)
