-- ===== src/Client/Wss/Masked.antt =====
-- The mask and the padding of a message come off.
use apfsds_rs.Base.{ℕ, ◌/◌, ◌^◌, ◌<◌, ◌≡◌, refl, List, some, and_then-some, arith, length}
use apfsds_rs.Obfuscation.Padding.{Draws, default_strategy, pad}
use apfsds_rs.Obfuscation.Padding.RoundTrip.{unpad-pad, pad_returns}
use apfsds_rs.Obfuscation.XorMask.{Target, apply}
use apfsds_rs.Obfuscation.XorMask
use apfsds_rs.Obfuscation.XorMask.RoundTrip.{apply-apply, apply_returns}
use apfsds_rs.Client.Wss.{pad_and_mask, unmask_and_unpad}

-- Two times in one window of a minute, in which the mask does not change.
abbrev pub SameMinute : ℕ → ℕ → Type 0
SameMinute now later = now / 60 ≡ later / 60

-- It gives a message for all bytes.
pub pad_and_mask_returns :
    (t : Target) (r : Draws) (key now : ℕ) (bytes : List ℕ)
    → (wire : List ℕ) × (pad_and_mask t r key now bytes ≡ some wire)
unfolding pad_and_mask XorMask.new
pad_and_mask_returns t r key now bytes =
    let (padded, p) = pad_returns r default_strategy bytes (λ e. e) in
    let (wire, m) = apply_returns t (XorMask.new key) now padded (λ e. omega arith) in
    (wire, rw p m)

pub unmask_and_unpad-pad_and_mask :
    (t u : Target) (r : Draws) (key now later : ℕ) (bytes wire : List ℕ)
    → length bytes < 2 ^ 32
    → SameMinute now later
    → pad_and_mask t r key now bytes ≡ some wire
    → unmask_and_unpad u key later wire ≡ some (some bytes)
unfolding pad_and_mask unmask_and_unpad XorMask.new
unmask_and_unpad-pad_and_mask t u r key now later bytes wire small window e =
    let (padded, p, m) = and_then-some (pad r default_strategy bytes) _ wire e in
    let back : apply u (XorMask.new key) later wire ≡ some padded =
      (apply-apply t u (XorMask.new key) now later padded wire window m).0 in
    rw (back, unpad-pad r default_strategy bytes padded small p) refl
