-- ===== src/Daemon/Billing/Conservation.antt =====
-- No usage is lost or billed twice on the way to the database.
use apfsds_rs.Base.{
  ℕ, ◌+◌, ◌^◌, ◌≤◌, ◌<◌, ◌≡◌, refl, ap, ◌∙◌, Bool, List, [], ◌∷◌, ◌++◌, arith, ◌==◌, if◌then◌else◌,
}
use native.Mathlib.Nat.{mod-eq_of_lt}
use apfsds_rs.Base.Maps.{assoc_get, assoc_insert, nat_eq}
use apfsds_rs.Daemon.Billing.{Usage, or_default, record_usage, flush}

-- What the entries of a user add up to.
abbrev pub sum_for : ℕ → List (ℕ × ℕ) → ℕ
sum_for user [] = 0
sum_for user ((id, bytes) ∷ entries) =
    let rest = sum_for user entries in if id == user then bytes + rest else rest

pub data Op : Type 0 where
  record_op : ℕ → ℕ → Op
  flush_op : (ℕ → ℕ → Bool) → Op

abbrev pub used : ℕ → List Op → ℕ
used user [] = 0
used user (record_op id bytes ∷ ops) =
    let rest = used user ops in if id == user then bytes + rest else rest
used user (flush_op accepts ∷ ops) = used user ops

-- The usage and all calls so far, run through the operations.
abbrev pub run : Usage → List (ℕ × ℕ) → List Op → Usage × List (ℕ × ℕ)
run usage calls [] = (usage, calls)
run usage calls (record_op id bytes ∷ ops) = run (record_usage usage id bytes) calls ops
run usage calls (flush_op accepts ∷ ops) =
    let flushed : Usage × List (ℕ × ℕ) × List (ℕ × ℕ) = flush accepts usage in
    run flushed.0 (calls ++ flushed.1) ops

sum_for-append :
    (user : ℕ) (xs ys : List (ℕ × ℕ)) → sum_for user (xs ++ ys) ≡ sum_for user xs + sum_for user ys
sum_for-append user [] ys = omega arith
sum_for-append user (x ∷ xs) ys = ground (arith, sum_for-append user xs ys)

sum_for-insert :
    (user id bytes : ℕ) (usage : Usage)
    → sum_for user (assoc_insert id (or_default (assoc_get id usage) + bytes) usage)
      ≡ sum_for user usage + (if id == user then bytes else 0)
sum_for-insert user id bytes [] = ground arith
sum_for-insert user id bytes (x ∷ usage) = ground (arith, sum_for-insert user id bytes usage)

default_le_sum : (id : ℕ) (usage : Usage) → or_default (assoc_get id usage) ≤ sum_for id usage
default_le_sum id [] = omega arith
default_le_sum id (x ∷ usage) = ground (arith, default_le_sum id usage)

run_flush :
    (accepts : ℕ → ℕ → Bool) (usage : Usage) (calls : List (ℕ × ℕ)) (ops : List Op)
    → run usage calls (flush_op accepts ∷ ops) ≡ run [] (calls ++ usage) ops
unfolding flush
run_flush accepts [] calls ops = refl
run_flush accepts (x ∷ usage) calls ops = refl

pub sum_for-record_usage :
    (user id bytes : ℕ) (usage : Usage)
    → sum_for id usage + bytes < 2 ^ 64
    → sum_for user (record_usage usage id bytes)
      ≡ sum_for user usage + (if id == user then bytes else 0)
unfolding record_usage
sum_for-record_usage user id bytes usage small =
    ap (λ (n : ℕ). sum_for user (assoc_insert id n usage))
      (mod-eq_of_lt (omega (arith, default_le_sum id usage)))
    ∙ sum_for-insert user id bytes usage

-- A record moves usage from the operations to the map.
used_record :
    (user id bytes : ℕ) (usage : Usage) (ops : List Op)
    → sum_for id usage + used id (record_op id bytes ∷ ops) < 2 ^ 64
    → sum_for user (record_usage usage id bytes) + used user ops
      ≡ sum_for user usage + used user (record_op id bytes ∷ ops)
used_record user id bytes usage ops small = ground (arith, sum_for-record_usage user id bytes usage)

-- For each user: what the database was called with and what is still collected add up to the usage
-- recorded, whenever the flushes came and whatever the database answered, as long as no user's
-- usage reaches 2^64 bytes.
pub run-conserves :
    (usage : Usage) (calls : List (ℕ × ℕ)) (ops : List Op)
    → ((user : ℕ) → sum_for user usage + used user ops < 2 ^ 64)
    → (user : ℕ)
    → let s : Usage × List (ℕ × ℕ) = run usage calls ops in
      sum_for user (s.1) + sum_for user (s.0)
      ≡ sum_for user calls + sum_for user usage + used user ops
run-conserves usage calls [] small user = omega arith
run-conserves usage calls (record_op id bytes ∷ ops) small user =
    let moved : (u : ℕ)
        → sum_for u (record_usage usage id bytes) + used u ops
          ≡ sum_for u usage + used u (record_op id bytes ∷ ops) =
      λ u. used_record u id bytes usage ops (small id) in
    omega (
      arith,
      moved user,
      run-conserves (record_usage usage id bytes) calls ops (λ u. omega (arith, moved u, small u))
          user,
    )
run-conserves usage calls (flush_op accepts ∷ ops) small user =
    rw (run_flush accepts usage calls ops) (
      omega (
        arith,
        sum_for-append user calls usage,
        run-conserves [] (calls ++ usage) ops (λ u. omega (arith, small u)) user,
      ))
