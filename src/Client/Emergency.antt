-- ===== src/Client/Emergency.antt =====
-- client/src/emergency.rs. The flag is the process's; crates.io answers with its versions, each with
-- whether it is yanked.
use apfsds_rs.Base.{
  ℕ, ◌≡◌, refl, Bool, true, false, List, [], ◌∷◌, Option, none, some, Result, ok, err,
  if◌then◌else◌,
}

-- Whether the first version is yanked; a package without versions counts as yanked.
unfoldable pub check_crate_status : Result (List ℕ) (List Bool) → Result (List ℕ) Bool
check_crate_status (err e) = err e
check_crate_status (ok []) = ok true
check_crate_status (ok (yanked ∷ versions)) = ok yanked

-- Each round is an answer and the delay that is drawn. The flag, and the delay after which the
-- process exits where it does.
unfoldable pub check_loop : Bool → List (Result (List ℕ) (List Bool) × ℕ) → Bool × Option ℕ
unfolding check_crate_status
check_loop mode [] = (mode, none)
check_loop mode ((answer, delay) ∷ rounds) =
    let later : Bool × Option ℕ = check_loop mode rounds in
    elim (check_crate_status answer) [
      | err e ↦ later
      | ok yanked ↦ if yanked then (true, some delay) else later
    ]

unfoldable pub start_checker :
    Bool → Bool → List (Result (List ℕ) (List Bool) × ℕ) → Bool × Option ℕ
unfolding check_loop
start_checker enabled mode rounds = if enabled then check_loop mode rounds else (mode, none)

-- The delay of the first round that asks for the end.
abbrev pub first_end : List (Result (List ℕ) (List Bool) × ℕ) → Option ℕ
first_end [] = none
first_end ((err e, delay) ∷ rounds) = first_end rounds
first_end ((ok [], delay) ∷ rounds) = some delay
first_end ((ok (true ∷ versions), delay) ∷ rounds) = some delay
first_end ((ok (false ∷ versions), delay) ∷ rounds) = first_end rounds

abbrev pub raised : Bool → Option ℕ → Bool
raised mode none = mode
raised mode (some delay) = true

-- An enabled checker raises the flag and ends the process exactly where a round finds the first
-- version yanked or no version at all, after the delay of the first such round; a disabled one
-- does neither, and answers that fail change nothing.
pub start_checker-first_end :
    (enabled mode : Bool) (rounds : List (Result (List ℕ) (List Bool) × ℕ))
    → start_checker enabled mode rounds
      ≡ (if enabled then (raised mode (first_end rounds), first_end rounds) else (mode, none))
unfolding start_checker check_loop check_crate_status
start_checker-first_end false mode rounds = refl
start_checker-first_end true mode [] = refl
start_checker-first_end true mode ((err e, delay) ∷ rounds) =
    start_checker-first_end true mode rounds
start_checker-first_end true mode ((ok [], delay) ∷ rounds) = refl
start_checker-first_end true mode ((ok (true ∷ versions), delay) ∷ rounds) = refl
start_checker-first_end true mode ((ok (false ∷ versions), delay) ∷ rounds) =
    start_checker-first_end true mode rounds
