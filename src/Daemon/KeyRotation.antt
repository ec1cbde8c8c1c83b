-- ===== src/Daemon/KeyRotation.antt =====
-- daemon/src/key_rotation.rs. The package behind `Ed25519KeyPair` is an argument, a generated key
-- too. An `Instant` and a `Duration` are numbers of nanoseconds; a call reads the clock once,
-- `rotate` twice.
pub mod Grace
use apfsds_rs.Base.{
  ℕ, ◌+◌, ◌-◌, ◌*◌, ◌/◌, ◌^◌, ◌≡◌, Bool, true, false, not, ◌&&◌, ◌||◌, List, Option, none, some,
  Result, ok, err, and_then, ltb, leb, if◌then◌else◌,
}
use apfsds_rs.Base.Maps.{is_some}
use apfsds_rs.Crypto.Ed25519.{Dalek, from_secret, secret_key, verify_with_pk}
use apfsds_rs.Crypto.Ed25519

abbrev pub secs : ℕ → ℕ
secs n = n * 10 ^ 9

pub record KeyRotationConfig : Type 0 where
  pub rotation_interval : ℕ
  pub grace_period : ℕ

abbrev pub default_rotation : KeyRotationConfig
default_rotation = record { rotation_interval = secs 604800; grace_period = secs 600 }

pub record KeyEntry (KeyPair : Type 0) : Type 0 where
  pub keypair : KeyPair
  pub created_at : ℕ
  pub expires_at : Option ℕ

pub record KeyManager (KeyPair : Type 0) : Type 0 where
  pub current : KeyEntry KeyPair
  pub previous : Option (KeyEntry KeyPair)
  pub config : KeyRotationConfig
  pub force_rotation : Bool

pub record KeyRotationStatus : Type 0 where
  pub current_pk : List ℕ
  pub current_age_secs : ℕ
  pub next_rotation_secs : ℕ
  pub in_grace_period : Bool
  pub grace_remaining_secs : Option ℕ

abbrev pub is_ok : {E A : Type 0} → Result E A → Bool
is_ok (ok a) = true
is_ok (err e) = false

-- `expires_at.map(|e| now < e).unwrap_or(false)`, and whether an entry is to be dropped.
abbrev pub in_grace : Option ℕ → ℕ → Bool
in_grace none now = false
in_grace (some e) now = ltb now e

module _ (p : Dalek) where
  abbrev pub fresh_entry : p.SigningKey → ℕ → KeyEntry p.SigningKey
  fresh_entry keypair now = record { keypair = keypair; created_at = now; expires_at = none }

  -- `generated` is what `Ed25519KeyPair::generate` gives.
  unfoldable pub new : p.SigningKey → KeyRotationConfig → ℕ → KeyManager p.SigningKey
  new generated config now = record {
    current = fresh_entry generated now;
    previous = none;
    config = config;
    force_rotation = false;
  }

  unfoldable pub with_secret : List ℕ → KeyRotationConfig → ℕ → KeyManager p.SigningKey
  with_secret secret config now = record {
    current = fresh_entry (from_secret p secret) now;
    previous = none;
    config = config;
    force_rotation = false;
  }

  unfoldable pub public_key : KeyManager p.SigningKey → List ℕ
  public_key m = Ed25519.public_key p m.current.keypair

  unfoldable pub sign : KeyManager p.SigningKey → List ℕ → List ℕ
  sign m message = Ed25519.sign p m.current.keypair message

  abbrev verifies : p.SigningKey → List ℕ → List ℕ → Bool
  verifies k message signature = is_ok (verify_with_pk p (Ed25519.public_key p k) message signature)

  abbrev previous_verifies : Option (KeyEntry p.SigningKey) → List ℕ → List ℕ → ℕ → Bool
  previous_verifies none message signature now = false
  previous_verifies (some prev) message signature now =
      in_grace prev.expires_at now && verifies prev.keypair message signature

  unfoldable pub verify : KeyManager p.SigningKey → List ℕ → List ℕ → ℕ → Bool
  verify m message signature now =
      if verifies m.current.keypair message signature
      then true
      else previous_verifies m.previous message signature now

  unfoldable pub should_rotate : KeyManager p.SigningKey → ℕ → Bool
  should_rotate m now =
      if m.force_rotation then true else leb m.config.rotation_interval (now - m.current.created_at)

  unfoldable pub force_rotate : KeyManager p.SigningKey → KeyManager p.SigningKey
  force_rotate m = record m { force_rotation = true }

  -- The clock reads `now` for the old key and `later` for the generated one.
  unfoldable pub rotate :
      KeyManager p.SigningKey → p.SigningKey → ℕ → ℕ → KeyManager p.SigningKey × List ℕ
  rotate m generated now later =
      let old_entry : KeyEntry p.SigningKey = record {
        keypair = from_secret p (secret_key p m.current.keypair);
        created_at = m.current.created_at;
        expires_at = some (now + m.config.grace_period);
      } in
      (
        record m {
          current = fresh_entry generated later;
          previous = some old_entry;
          force_rotation = false;
        },
        Ed25519.public_key p generated,
      )

  abbrev keep_previous : Option (KeyEntry p.SigningKey) → ℕ → Option (KeyEntry p.SigningKey)
  keep_previous none now = none
  keep_previous (some prev) now = if in_grace prev.expires_at now then some prev else none

  unfoldable pub cleanup : KeyManager p.SigningKey → ℕ → KeyManager p.SigningKey
  cleanup m now = record m { previous = keep_previous m.previous now }

  abbrev expiry_of : Option (KeyEntry p.SigningKey) → Option ℕ
  expiry_of none = none
  expiry_of (some prev) = prev.expires_at

  unfoldable pub status : KeyManager p.SigningKey → ℕ → KeyRotationStatus
  unfolding public_key
  status m now =
      let elapsed = now - m.current.created_at in
      record {
        current_pk = public_key m;
        current_age_secs = elapsed / 10 ^ 9;
        next_rotation_secs = (m.config.rotation_interval - elapsed) / 10 ^ 9;
        in_grace_period = is_some m.previous;
        grace_remaining_secs = and_then (expiry_of m.previous) (λ e. some ((e - now) / 10 ^ 9));
      }
