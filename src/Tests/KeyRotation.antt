-- ===== src/Tests/KeyRotation.antt =====
-- A rotation at concrete times.
use apfsds_rs.Base.{
  ℕ, ◌+◌, ◌≡◌, refl, true, false, List, [], ◌∷◌, some, none, arith, length, ◌==◌, ==_refl,
}
use apfsds_rs.Crypto.Ed25519.{Dalek, IsDalek, verify_with_pk}
use apfsds_rs.Crypto.Ed25519
use apfsds_rs.Daemon.KeyRotation.{KeyManager, default_rotation, secs, sign, verify, rotate}
use apfsds_rs.Daemon.KeyRotation.Grace.{cleanup_all, verify-rotate}

abbrev first_number : List ℕ → ℕ
first_number [] = 0
first_number (n ∷ bytes) = n

-- Keys that are one number; a signature is the key and the length of the message.
abbrev toy : Dalek
toy = record {
  SigningKey = ℕ;
  VerifyingKey = ℕ;
  signing_from_bytes = first_number;
  signing_to_bytes = λ k. k ∷ [];
  verifying_key = λ k. k;
  verifying_to_bytes = λ k. k ∷ [];
  verifying_from_bytes = λ bytes. some (first_number bytes);
  sign_bytes = λ k message. (k + length message) ∷ [];
  verify_bytes = λ k message signature. first_number signature == k + length message;
}

toy-IsDalek : IsDalek toy
toy-IsDalek = record {
  secret_back = λ k. refl;
  key_back = λ k. refl;
  genuine = λ k message. ==_refl (k + length message);
}

abbrev manager : KeyManager ℕ
manager = record {
  current = record { keypair = 5; created_at = 100; expires_at = none };
  previous = none;
  config = default_rotation;
  force_rotation = false;
}

abbrev message : List ℕ
message = 1 ∷ 2 ∷ []

rotation_values :
    (verify toy (rotate toy manager 9 (secs 1000) (secs 1000)).0 message (7 ∷ []) (secs 1599)
      ≡ true)
    × (verify toy (rotate toy manager 9 (secs 1000) (secs 1000)).0 message (7 ∷ []) (secs 1600)
        ≡ false)
    × (verify toy (rotate toy manager 9 (secs 1000) (secs 1000)).0 message (11 ∷ []) (secs 1600)
        ≡ true)
unfolding verify rotate verify_with_pk Ed25519.public_key Ed25519.from_secret Ed25519.secret_key
rotation_values = (refl, refl, refl)

verify-rotate_example :
    (verify toy
        (cleanup_all toy (rotate toy manager 9 (secs 1000) (secs 1000)).0 (secs 1200 ∷ []))
        message
        (sign toy manager message)
        (secs 1500)
      ≡ true)
    × (verify toy
          (cleanup_all toy (rotate toy manager 9 (secs 1000) (secs 1000)).0 (secs 1200 ∷ []))
          message
          (Ed25519.sign toy 9 message)
          (secs 9000)
        ≡ true)
verify-rotate_example =
    verify-rotate toy toy-IsDalek manager 9 (secs 1000) (secs 1000) message (secs 1200 ∷ [])
      (secs 1500) (secs 9000) (omega arith, tt) (omega arith)
