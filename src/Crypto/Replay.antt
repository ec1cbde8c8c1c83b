-- ===== src/Crypto/Replay.antt =====
-- crates/crypto/src/replay.rs: `ReplayCache` and `UuidReplayCache`, which differ in the length of
-- their keys. An `Instant` and a `Duration` are numbers of nanoseconds; the clock is an argument.
pub mod Window
pub mod Spec
pub mod Race
use apfsds_rs.Base.{
  ℕ, ◌+◌, ◌≡◌, refl, Bool, true, false, Option, none, some, ltb, ◌==◌, if◌then◌else◌,
}
use apfsds_rs.Base.Maps.{Eq, DashMap}

pub record ReplayCache (Map : Type 0) : Type 0 where
  pub seen : Map
  pub ttl : ℕ

-- Whether the key has an expiry after `now`: the test of `check_and_insert` and of `contains`.
abbrev pub is_live : Option ℕ → ℕ → Bool
is_live none now = false
is_live (some expiry) now = ltb now expiry

module _ {K : Type 0} ⦃e : Eq K⦄ (d : DashMap K ℕ) where
  unfoldable pub new : ℕ → ReplayCache d.Map
  new ttl = record { seen = d.empty; ttl = ttl }

  unfoldable pub check_and_insert : ReplayCache d.Map → K → ℕ → ReplayCache d.Map × Bool
  check_and_insert c nonce now =
      let expiry = now + c.ttl in
      if is_live (d.get nonce c.seen) now
      then (c, false)
      else (record c { seen = d.insert nonce expiry c.seen }, true)

  unfoldable pub contains : ReplayCache d.Map → K → ℕ → Bool
  contains c nonce now = is_live (d.get nonce c.seen) now

  unfoldable pub cleanup : ReplayCache d.Map → ℕ → ReplayCache d.Map
  cleanup c now = record c { seen = d.retain (λ _ expiry. ltb now expiry) c.seen }

  unfoldable pub len : ReplayCache d.Map → ℕ
  len c = d.len c.seen

  unfoldable pub is_empty : ReplayCache d.Map → Bool
  is_empty c = d.len c.seen == 0

  unfoldable pub clear : ReplayCache d.Map → ReplayCache d.Map
  clear c = record c { seen = d.empty }
