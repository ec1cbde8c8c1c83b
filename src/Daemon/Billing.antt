-- ===== src/Daemon/Billing.antt =====
-- daemon/src/billing.rs: the usage that is collected for each user until it is flushed. The users are
-- the bit patterns of an `i64`; the map is an association list, and `drain` gives its entries.
-- The database is another module: an answer for each call.
pub mod Conservation
use apfsds_rs.Base.{
  ℕ, ◌+◌, ◌%◌, ◌^◌, Bool, true, false, not, List, [], ◌∷◌, Option, none, some, if◌then◌else◌,
}
use apfsds_rs.Base.Maps.{assoc_get, assoc_insert, nat_eq}

abbrev pub Usage : Type 0
Usage = List (ℕ × ℕ)

abbrev pub or_default : Option ℕ → ℕ
or_default none = 0
or_default (some n) = n

unfoldable pub record_usage : Usage → ℕ → ℕ → Usage
record_usage usage user_id bytes =
    assoc_insert user_id ((or_default (assoc_get user_id usage) + bytes) % 2 ^ 64) usage

-- The calls of `PgClient::record_usage`, and those of them that failed.
abbrev pub failed_calls : (ℕ → ℕ → Bool) → List (ℕ × ℕ) → List (ℕ × ℕ)
failed_calls accepts [] = []
failed_calls accepts ((user_id, bytes) ∷ calls) =
    let rest = failed_calls accepts calls in
    if accepts user_id bytes then rest else (user_id, bytes) ∷ rest

-- The map that is left, the calls, and the calls that failed.
unfoldable pub flush : (ℕ → ℕ → Bool) → Usage → Usage × List (ℕ × ℕ) × List (ℕ × ℕ)
flush accepts [] = ([], [], [])
flush accepts (entry ∷ usage) = ([], entry ∷ usage, failed_calls accepts (entry ∷ usage))
