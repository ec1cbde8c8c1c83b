-- ===== src/Transport/Pool/Slots.antt =====
-- The slots of the pool are only emptied once it is connected.
use apfsds_rs.Base.{
  ℕ, zero, suc, ◌+◌, ◌%◌, ◌^◌, ◌≤◌, ◌<◌, ◌≡◌, refl, ap, sym, ◌∙◌, Bool, true, false, List, [], ◌∷◌,
  Option, none, some, and_then, none_ne_some, some_injective, Result, ok, err, arith, length, set,
  replicate, ◌==◌, if◌then◌else◌,
}
use native.Mathlib.Nat.{mod-lt}
use apfsds_rs.Transport.Pool.{
  ConnectionPoolConfig, ConnectionPool, PoolError, pool_closed, at_index, get_slot, on_slot,
  on_answer, with_connection, active,
}

pub at_index-below :
    {A : Type 0} (xs : List A) (i : ℕ) → i < length xs → (x : A) × (at_index xs i ≡ some x)
at_index-below [] i h = absurd (omega arith)
at_index-below (x ∷ xs) zero h = (x, refl)
at_index-below (x ∷ xs) (suc i) h = at_index-below xs i (omega arith)

pub length-set : {A : Type 0} (xs : List A) (i : ℕ) (a : A) → length (set xs i a) ≡ length xs
length-set [] i a = refl
length-set (x ∷ xs) zero a = refl
length-set (x ∷ xs) (suc i) a = ap suc (length-set xs i a)

module _ {Client : Type 0} where
  active-set-none : (cs : List (Option Client)) (i : ℕ) → active (set cs i none) ≤ active cs
  active-set-none [] i = omega arith
  active-set-none (c ∷ cs) zero = ground arith
  active-set-none (c ∷ cs) (suc i) = ground (arith, active-set-none cs i)

  -- A filled slot stays filled.
  active-set-some :
      (cs : List (Option Client)) (i : ℕ) (old c : Client)
      → at_index cs i ≡ some (some old)
      → active (set cs i (some c)) ≡ active cs
  active-set-some [] i old c e = absurd (none_ne_some _ e)
  active-set-some (x ∷ cs) zero old c e = rw (some_injective _ _ e) refl
  active-set-some (x ∷ cs) (suc i) old c e = ground (arith, active-set-some cs i old c e)

  pub active-set_next :
      (cs : List (Option Client)) (i : ℕ) (c : Client)
      → at_index cs i ≡ some none
      → active (set cs i (some c)) ≡ active cs + 1
  active-set_next [] i c e = absurd (none_ne_some _ e)
  active-set_next (x ∷ cs) zero c e = rw (some_injective _ _ e) refl
  active-set_next (x ∷ cs) (suc i) c e = ground (arith, active-set_next cs i c e)

pub active-replicate : (Client : Type 0) (n : ℕ) → active (replicate {A = Option Client} n none) ≡ 0
active-replicate Client zero = refl
active-replicate Client (suc n) = active-replicate Client n

pub at_index-set_other :
    {A : Type 0} (xs : List A) (i j : ℕ) (a : A) → i < j → at_index (set xs i a) j ≡ at_index xs j
at_index-set_other [] i j a h = refl
at_index-set_other (x ∷ xs) zero zero a h = absurd (omega arith)
at_index-set_other (x ∷ xs) zero (suc j) a h = refl
at_index-set_other (x ∷ xs) (suc i) zero a h = absurd (omega arith)
at_index-set_other (x ∷ xs) (suc i) (suc j) a h = at_index-set_other xs i j a (omega arith)

pub at_index-replicate :
    {A : Type 0} (n i : ℕ) (a : A) → i < n → at_index (replicate n a) i ≡ some a
at_index-replicate zero i a h = absurd (omega arith)
at_index-replicate (suc n) zero a h = refl
at_index-replicate (suc n) (suc i) a h = at_index-replicate n i a (omega arith)

-- Where one slot is filled, an empty one is another.
at_index-set_empty :
    {A : Type 0} (xs : List (Option A)) (i j : ℕ) (old : A) (new : Option A)
    → at_index xs i ≡ some (some old)
    → at_index xs j ≡ some none
    → at_index (set xs i new) j ≡ some none
at_index-set_empty [] i j old new e f = absurd (none_ne_some _ f)
at_index-set_empty (x ∷ xs) zero zero old new e f =
    absurd (none_ne_some old (some_injective _ _ (sym f ∙ e)))
at_index-set_empty (x ∷ xs) zero (suc j) old new e f = f
at_index-set_empty (x ∷ xs) (suc i) zero old new e f = f
at_index-set_empty (x ∷ xs) (suc i) (suc j) old new e f = at_index-set_empty xs i j old new e f

-- What no operation on the pool may break: an empty slot stays empty.
abbrev pub Degrades : {Client : Type 0} → ConnectionPool Client → ConnectionPool Client → Type 0
Degrades p q =
    (q.config ≡ p.config)
    × (length q.connections ≡ length p.connections)
    × (active q.connections ≤ active p.connections)
    × ((i : ℕ) → at_index p.connections i ≡ some none → at_index q.connections i ≡ some none)

module _ {Client E : Type 0} where
  on_answer-Degrades :
      {T : Type 0} (p : ConnectionPool Client) (slot : ℕ) (old : Client) (a : Result E (Client × T))
      → at_index p.connections slot ≡ some (some old)
      → Degrades p (on_answer p slot a).0
  on_answer-Degrades p slot old (ok (client, value)) e = (
    refl,
    length-set p.connections slot (some client),
    omega (arith, active-set-some p.connections slot old client e),
    λ i empty. at_index-set_empty p.connections slot i old (some client) e empty,
  )
  on_answer-Degrades p slot old (err x) e = (
    refl,
    length-set p.connections slot none,
    active-set-none p.connections slot,
    λ i empty. at_index-set_empty p.connections slot i old none e empty,
  )

  on_slot-Degrades :
      {T : Type 0} (f : Client → Result E (Client × T)) (p : ConnectionPool Client) (slot : ℕ)
      (o : Option Client)
      → at_index p.connections slot ≡ some o
      → Degrades p (on_slot f p slot o).0
  on_slot-Degrades f p slot none e = (refl, refl, omega arith, λ i empty. empty)
  on_slot-Degrades f p slot (some client) e = on_answer-Degrades p slot client (f client) e

  with_connection-Degrades :
      {T : Type 0} (f : Client → Result E (Client × T)) (p : ConnectionPool Client)
      → 0 < p.config.pool_size
      → length p.connections ≡ p.config.pool_size
      → (r : ConnectionPool Client × Result (PoolError E) T) × (with_connection f p ≡ some r)
        × Degrades p r.0
  unfolding with_connection get_slot
  with_connection-Degrades {T} f p pos size =
      let positive : (p.config.pool_size == 0) ≡ false = ground arith in
      let slot : ℕ = p.robin_counter % p.config.pool_size in
      let (o, found) =
        at_index-below p.connections slot (omega (arith, mod-lt p.robin_counter pos)) in
      by_closed p.closed positive found
    where
      moved : ConnectionPool Client
      moved = record p { robin_counter = (p.robin_counter + 1) % 2 ^ 64 }

      by_closed :
          (closed : Bool) {o : Option Client}
          → (p.config.pool_size == 0) ≡ false
          → at_index p.connections (p.robin_counter % p.config.pool_size) ≡ some o
          → (r : ConnectionPool Client × Result (PoolError E) T) × ((if closed
                then some (p, err pool_closed)
                else and_then
                    (if p.config.pool_size == 0
                      then none
                      else some (moved, p.robin_counter % p.config.pool_size))
                    λ (r : ConnectionPool Client × ℕ).
                      and_then
                        (at_index (r.0.connections) (r.1))
                        λ (slot : Option Client). some (on_slot f (r.0) (r.1) slot))
              ≡ some r)
            × Degrades p r.0
      by_closed true positive found =
          ((p, err pool_closed), refl, (refl, refl, omega arith, λ i empty. empty))
      by_closed false {o} positive found = (
        on_slot f moved (p.robin_counter % p.config.pool_size) o,
        rw (positive, found) refl,
        on_slot-Degrades f moved (p.robin_counter % p.config.pool_size) o found,
      )

  -- One operation after another.
  abbrev pub run :
      {T : Type 0}
      → List (Client → Result E (Client × T))
      → ConnectionPool Client
      → Option (ConnectionPool Client)
  run [] p = some p
  run (f ∷ fs) p = and_then (with_connection f p) λ r. run fs (r.0)

  -- A pool with a slot never panics, whatever operations run on it and whatever they answer; a slot
  -- that is empty before them is empty after them, and the active connections do not grow in number.
  pub run-Degrades :
      {T : Type 0} (fs : List (Client → Result E (Client × T))) (p : ConnectionPool Client)
      → 0 < p.config.pool_size
      → length p.connections ≡ p.config.pool_size
      → (q : ConnectionPool Client) × (run fs p ≡ some q) × Degrades p q
  run-Degrades [] p pos size = (p, refl, (refl, refl, omega arith, λ i empty. empty))
  run-Degrades (f ∷ fs) p pos size =
      let (r, e, (same, len, fewer, kept)) = with_connection-Degrades f p pos size in
      let slots : r.0.config.pool_size ≡ p.config.pool_size =
        ap (λ (c : ConnectionPoolConfig). c.pool_size) same in
      let (q, later, (same', len', fewer', kept')) =
        run-Degrades fs (r.0) (omega (arith, slots)) (omega (arith, slots)) in
      (
        q,
        rw e later,
        (same' ∙ same, len' ∙ len, omega (arith, fewer, fewer'), λ i empty. kept' i (kept i empty)),
      )
