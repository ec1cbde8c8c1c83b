-- ===== src/Obfuscation/Padding/Target.antt =====
-- The size that a strategy aims for.
use apfsds_rs.Base.{
  ℕ, ◌+◌, ◌*◌, ◌/◌, ◌≤◌, ◌<◌, ◌≡◌, ◌⊎◌, ◌↔◌, inl, inr, refl, max, Bool, true, false, List, [], ◌∷◌,
  none, some, arith, Option-cases,
}
use apfsds_rs.Obfuscation.Padding.{
  SizeDistribution, fixed, learned, random, normal, PaddingStrategy, Draws, IsDraws, add_jitter,
  next_size, base_target, calculate_target_size,
}

-- What each distribution promises of the base size, before the minimum and the jitter.
abbrev pub Promised : SizeDistribution → ℕ → ℕ → Type 0
Promised (fixed dist) len base = (len < base) ⊎ (base ≡ 16384)
Promised (learned dist) len base = (len < base) ⊎ (base ≡ 16384)
Promised (random lo hi) len base =
    ((len ≤ base) × (lo ≤ base) × (base < hi)) ⊎ ((base ≡ hi) × (hi ≤ len))
Promised (normal mean std_dev) len base = len ≤ base

next_size-Promised :
    (dist : List (ℕ × ℕ)) (len : ℕ) → (len < next_size dist len) ⊎ (next_size dist len ≡ 16384)
unfolding next_size
next_size-Promised [] len = inr refl
next_size-Promised ((size, weight) ∷ dist) len = ground (arith, next_size-Promised dist len)

base_target-Promised :
    (r : Draws) (dist : SizeDistribution) (len base : ℕ)
    → IsDraws r
    → base_target r dist len ≡ some base
    → Promised dist len base
unfolding base_target
base_target-Promised r (fixed dist) len base h e = ground (arith, next_size-Promised dist len)
base_target-Promised r (learned dist) len base h e = ground (arith, next_size-Promised dist len)
base_target-Promised r (random lo hi) len base h e =
    ground (arith, h.range_low (max len lo) hi, h.range_high (max len lo) hi)
base_target-Promised r (normal mean std_dev) len base h e = ground arith

add_jitter_bounds :
    (r : Draws) (jitter : Bool) (t : ℕ)
    → IsDraws r
    → let target = add_jitter r jitter t in
      (t ≤ target + t / 10) × (target ≤ t + t / 10) × ((jitter ≡ true) ⊎ (target ≡ t))
add_jitter_bounds r true t h = ground (arith, h.up_to_high (t / 10 * 2))
add_jitter_bounds r false t h = (omega arith, omega arith, inr refl)

-- For draws as `fastrand` documents them, where a target is returned: it is the base size that the distribution promises, raised to the minimum, and moved by
-- at most a tenth when jitter is on; without jitter it is that size.
pub calculate_target_size_bounds :
    (r : Draws) (s : PaddingStrategy) (len target : ℕ)
    → IsDraws r
    → calculate_target_size r s len ≡ some target
    → (base : ℕ) × Promised s.distribution len base
      × (let t = max base s.min_size in
          (t ≤ target + t / 10) × (target ≤ t + t / 10) × ((s.jitter ≡ true) ⊎ (target ≡ t)))
unfolding calculate_target_size
calculate_target_size_bounds r s len target h e =
    elim (Option-cases (base_target r s.distribution len)) [
      | inl panics ↦ absurd (ground arith)
      | inr (base, b) ↦ (base, base_target-Promised r s.distribution len base h b, jittered base b)
    ]
  where
    jittered :
        (base : ℕ)
        → base_target r s.distribution len ≡ some base
        → let t = max base s.min_size in
          (t ≤ target + t / 10) × (target ≤ t + t / 10) × ((s.jitter ≡ true) ⊎ (target ≡ t))
    jittered base b = ground (arith, add_jitter_bounds r s.jitter (max base s.min_size) h)

-- A range with nothing in it, which `fastrand` is asked to draw from.
abbrev pub IsEmptyRange : SizeDistribution → ℕ → Type 0
IsEmptyRange (fixed dist) len = ⊥
IsEmptyRange (learned dist) len = ⊥
IsEmptyRange (random lo hi) len = (len < hi) × (hi ≤ lo)
IsEmptyRange (normal mean std_dev) len = ⊥

base_target_panics :
    (r : Draws) (dist : SizeDistribution) (len : ℕ)
    → (base_target r dist len ≡ none) ↔ IsEmptyRange dist len
unfolding base_target
base_target_panics r (fixed dist) len = ground arith
base_target_panics r (learned dist) len = ground arith
base_target_panics r (random lo hi) len = ground arith
base_target_panics r (normal mean std_dev) len = ground arith

-- Choosing a size panics exactly for a random distribution whose range is empty and a payload
-- below its maximum.
pub calculate_target_size_panics :
    (r : Draws) (s : PaddingStrategy) (len : ℕ)
    → (calculate_target_size r s len ≡ none) ↔ IsEmptyRange s.distribution len
unfolding calculate_target_size
calculate_target_size_panics r s len = elim (Option-cases (base_target r s.distribution len)) [
  | inl panics ↦ rw panics (λ _. (base_target_panics r s.distribution len).0 panics, λ _. refl)
  | inr (base, b) ↦
      rw b (
        λ e. absurd (cc),
        λ h. absurd (never base b ((base_target_panics r s.distribution len).1 h)),
      )
]
  where
    never :
        (base : ℕ)
        → base_target r s.distribution len ≡ some base
        → base_target r s.distribution len ≡ none
        → ⊥
    never base b n = cc
