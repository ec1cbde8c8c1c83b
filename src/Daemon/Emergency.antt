-- ===== src/Daemon/Emergency.antt =====
-- daemon/src/emergency.rs. The answers of crates.io, the clock and the delay that is drawn are
-- arguments, those of one round together.
use apfsds_rs.Base.{
  ℕ, String, text_starts_with, ◌+◌, ◌%◌, ◌^◌, ◌≡◌, refl, ap, Bool, true, false, List, [], ◌∷◌,
  Option, none, some, and_then, Result, ok, err, leb, if◌then◌else◌,
}

pub record EmergencyConfig : Type 0 where
  pub crate_name : String
  pub trigger_version : String
  -- in seconds
  pub check_interval : ℕ
  pub trigger_delay_range : ℕ × ℕ

abbrev pub default_config : EmergencyConfig
default_config = record {
  crate_name = "apfsds";
  trigger_version = "0.0.0-EMERGENCY";
  check_interval = 300;
  trigger_delay_range = (0, 3600);
}

pub record EmergencyMonitor : Type 0 where
  pub config : EmergencyConfig
  pub triggered : Bool
  pub trigger_at : ℕ

unfoldable pub new : EmergencyConfig → EmergencyMonitor
new config = record { config = config; triggered = false; trigger_at = 0 }

unfoldable pub trigger : EmergencyMonitor → ℕ → ℕ → EmergencyMonitor
trigger m now delay_secs = record m { triggered = true; trigger_at = (now + delay_secs) % 2 ^ 64 }

-- The time at which the flag is checked, the versions that crates.io lists, and the time and the
-- delay of a trigger in this round.
pub record Round : Type 0 where
  pub checked_at : ℕ
  pub versions : Result (List ℕ) (List String)
  pub triggers_at : ℕ
  pub delay : ℕ

abbrev pub any_version : String → List String → Bool
any_version prefix [] = false
any_version prefix (version ∷ versions) =
    let later = any_version prefix versions in
    if text_starts_with version prefix then true else later

abbrev pub detects : EmergencyConfig → Round → Bool
detects c r = elim r.versions [
  | err e ↦ false
  | ok versions ↦ any_version c.trigger_version versions
]

-- The monitor after the loop, and the time of the shutdown where the loop ends with one.
unfoldable pub start : EmergencyMonitor → List Round → EmergencyMonitor × Option ℕ
unfolding trigger
start m [] = (m, none)
start m (r ∷ rounds) =
    let waits = start m rounds in
    let warned = start (trigger m r.triggers_at r.delay) rounds in
    if m.triggered
    then (if leb m.trigger_at r.checked_at then (m, some r.checked_at) else waits)
    else (if detects m.config r then warned else waits)

-- The first round with a version that warns, and the rounds behind it.
abbrev pub first_warning : EmergencyConfig → List Round → Option (Round × List Round)
first_warning c [] = none
first_warning c (r ∷ rounds) =
    let later = first_warning c rounds in if detects c r then some (r, rounds) else later

-- The first check at `due` or later.
abbrev pub first_check : ℕ → List Round → Option ℕ
first_check due [] = none
first_check due (r ∷ rounds) =
    let later = first_check due rounds in if leb due r.checked_at then some r.checked_at else later

start_triggered :
    (m : EmergencyMonitor) (rounds : List Round)
    → m.triggered ≡ true
    → start m rounds ≡ (m, first_check m.trigger_at rounds)
unfolding start
start_triggered m [] on = refl
start_triggered m (r ∷ rounds) on =
    by_flags m.triggered (leb m.trigger_at r.checked_at) on (start m rounds)
      (start_triggered m rounds on)
  where
    by_flags :
        (triggered is_due : Bool)
        → triggered ≡ true
        → (waits : EmergencyMonitor × Option ℕ) → waits ≡ (m, first_check m.trigger_at rounds)
        → (if triggered
            then (if is_due then (m, some r.checked_at) else waits)
            else (if detects m.config r
                then start (trigger m r.triggers_at r.delay) rounds
                else waits))
          ≡ (m, if is_due then some r.checked_at else first_check m.trigger_at rounds)
    by_flags false is_due on waits same = absurd (cc)
    by_flags true true on waits same = refl
    by_flags true false on waits same = same

abbrev pub due : Round × List Round → Option ℕ
due (r, rounds) = first_check ((r.triggers_at + r.delay) % 2 ^ 64) rounds

-- A monitor that is not triggered shuts down exactly at the first check that comes after the first
-- round in which a version warns, and at or after the time drawn in that round; without such a
-- round, or such a check, it never does. An answer that fails changes nothing.
pub start-due :
    (m : EmergencyMonitor) (rounds : List Round)
    → m.triggered ≡ false
    → (start m rounds).1 ≡ and_then (first_warning m.config rounds) due
unfolding start trigger
start-due m [] off = refl
start-due m (r ∷ rounds) off =
    by_flags m.triggered (detects m.config r) off (start m rounds)
      (start (trigger m r.triggers_at r.delay) rounds) (start-due m rounds off)
      (ap (λ (s : EmergencyMonitor × Option ℕ). s.1)
        (start_triggered (trigger m r.triggers_at r.delay) rounds refl))
  where
    by_flags :
        (triggered warns : Bool)
        → triggered ≡ false
        → (waits warned : EmergencyMonitor × Option ℕ)
        → waits.1 ≡ and_then (first_warning m.config rounds) due
        → warned.1 ≡ due (r, rounds)
        → (if triggered
            then (if leb m.trigger_at r.checked_at then (m, some r.checked_at) else waits)
            else (if warns then warned else waits)).1
          ≡ and_then (if warns then some (r, rounds) else first_warning m.config rounds) due
    by_flags true warns off waits warned later here = absurd (cc)
    by_flags false true off waits warned later here = here
    by_flags false false off waits warned later here = later
