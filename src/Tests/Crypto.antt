-- ===== src/Tests/Crypto.antt =====
-- The replay cache and the tags at concrete inputs.
use apfsds_rs.Base.{
  ℕ, ◌≡◌, refl, true, false, List, [], ◌∷◌, none, ok, arith, length, length-replicate, replicate,
}
use apfsds_rs.Base.Maps.{nat_eq, bytes_eq, DashMap, assoc_map}
use apfsds_rs.Crypto.Replay.{ReplayCache, new, check_and_insert, cleanup, len, is_empty, clear}
use apfsds_rs.Crypto.Replay.Window.{Event, check, clean}
use apfsds_rs.Crypto.Replay.Spec.{answers, expected, answers-eq-expected}
use apfsds_rs.Crypto.Replay.Race.{start, done, interleave, interleave_both}
use apfsds_rs.Crypto.Hmac.{
  HmacAuthenticator, constant_time_compare, compute_with_timestamp, verify, verify_with_timestamp,
}

abbrev map : DashMap (List ℕ) ℕ
map = assoc_map (List ℕ) ℕ

abbrev nonce : List ℕ
nonce = 1 ∷ 2 ∷ []

abbrev other : List ℕ
other = 1 ∷ 3 ∷ []

abbrev cache : ReplayCache (map.Map)
cache = record { seen = []; ttl = 120 }

first_accepted : (check_and_insert map cache nonce 10).1 ≡ true
unfolding check_and_insert
first_accepted = refl

-- A cache with two keys, one of which is expired at 50.
cache_values :
    (len map (check_and_insert map (check_and_insert map cache nonce 10).0 other 10).0 ≡ 2)
    × (len map (cleanup map (check_and_insert map cache nonce 10).0 200) ≡ 0)
    × (is_empty map (clear map (check_and_insert map cache nonce 10).0) ≡ true)
    × ((check_and_insert map (check_and_insert map cache nonce 10).0 nonce 130).1 ≡ true)
unfolding check_and_insert cleanup len is_empty clear
cache_values = (refl, refl, refl, refl)

abbrev between : List (Event (List ℕ))
between = check other 11 ∷ clean 50 ∷ check nonce 60 ∷ []

abbrev events : List (Event (List ℕ))
events = check nonce 10 ∷ check nonce 129 ∷ clean 130 ∷ check nonce 130 ∷ check other 130 ∷ []

answers-eq-expected_example : answers map (new map 120) events ≡ expected 120 (λ _. none) events
answers-eq-expected_example =
    answers-eq-expected map 120 0 events
      (omega arith, (omega arith, (omega arith, (omega arith, (omega arith, tt)))))

expected-events : expected 120 (λ _. none) events ≡ true ∷ false ∷ true ∷ true ∷ []
expected-events = refl

interleave_both_example :
    let apart = interleave map nonce 10 (true ∷ true ∷ false ∷ false ∷ []) cache start start in
    let mixed = interleave map nonce 10 (true ∷ false ∷ true ∷ false ∷ []) cache start start in
    (apart.1 ≡ done true) × (apart.2 ≡ done false) × (mixed.1 ≡ done true) × (mixed.2 ≡ done true)
interleave_both_example = interleave_both map nonce cache 10 (omega arith) refl

-- A digest of 32 bytes.
abbrev mac : List ℕ → List ℕ → List ℕ
mac key message = replicate 32 (length message)

mac_digest : (key message : List ℕ) → length (mac key message) ≡ 32
mac_digest key message = length-replicate 32 (length message)

abbrev signer : HmacAuthenticator
signer = record { secret = 5 ∷ [] }

abbrev sevens : List ℕ
sevens = replicate 32 7

abbrev sixes : List ℕ
sixes = replicate 32 6

tag_values :
    (verify mac signer (1 ∷ 2 ∷ []) (replicate 32 2) ≡ ok tt)
    × (verify_with_timestamp mac signer (1 ∷ 2 ∷ []) 1000 (replicate 32 10) ≡ ok tt)
unfolding verify verify_with_timestamp constant_time_compare
tag_values = (refl, refl)

abbrev signed : List ℕ
signed = 1 ∷ 2 ∷ []

abbrev stamp : ℕ
stamp = 1000

own_tag :
    verify_with_timestamp mac signer signed stamp (compute_with_timestamp mac signer signed stamp)
    ≡ ok tt
unfolding verify_with_timestamp compute_with_timestamp constant_time_compare
own_tag = refl
