-- ===== src/Transport/ExitPool/Rotation.antt =====
-- Which client takes a packet.
use apfsds_rs.Base.{
  ℕ, zero, suc, ◌+◌, ◌-◌, ◌%◌, ◌^◌, ◌≤◌, ◌<◌, ◌≡◌, inl, inr, refl, ap, sym, ◌∙◌, Bool, true, false,
  List, Option, none, some, Result, ok, err, length, arith, Bool-cases, leb, ◌==◌, if◌then◌else◌,
}
use native.Mathlib.Nat.{mod-eq_of_lt, add-mod_right, mod-lt, mod-add-mod}
use apfsds_rs.Transport.ExitPool.{
  ExitClient, ExitClientError, connection_failed, GroupPool, Reply, client_at, attempt, try_clients,
  forward_in,
}
use apfsds_rs.Transport.ExitPool.Attempts.{takes, attempt_with-takes, attempt_keeps}

module _ (replies : ℕ → Reply) where
  -- What the loop answers from an attempt on: the first client in turn that takes the packet, or
  -- none.
  abbrev First : List ExitClient → ℕ → ℕ → ℕ → Option ℕ → Type 0
  First cs start attempts left none =
      (a : ℕ)
      → attempts ≤ a
      → a < attempts + left
      → takes replies cs ((start + a) % length cs) ≡ false
  First cs start attempts left (some i) =
      (a : ℕ) × (attempts ≤ a)
      × (a < attempts + left)
      × (i ≡ (start + a) % length cs)
      × (takes replies cs i ≡ true)
      × ((b : ℕ) → attempts ≤ b → b < a → takes replies cs ((start + b) % length cs) ≡ false)

  -- One more failed attempt in front.
  widen :
      (cs after : List ExitClient) (start attempts left : ℕ) (o : Option ℕ)
      → length after ≡ length cs
      → ((j : ℕ) → takes replies after j ≡ takes replies cs j)
      → takes replies cs ((start + attempts) % length cs) ≡ false
      → First after start (attempts + 1) left o
      → First cs start attempts (suc left) o
  widen cs after start attempts left o len keeps failed f = by_answer o f
    where
      earlier :
          (b : ℕ)
          → attempts ≤ b
          → (attempts + 1 ≤ b → takes replies after ((start + b) % length after) ≡ false)
          → takes replies cs ((start + b) % length cs) ≡ false
      earlier b lo h = elim (Bool-cases (leb b attempts)) [
        | inl first ↦
            let here : attempts ≡ b = ground arith in
            ap (λ (t : ℕ). takes replies cs ((start + t) % length cs)) (sym here) ∙ failed
        | inr later ↦
            sym (keeps ((start + b) % length cs))
            ∙ ap (λ (n : ℕ). takes replies after ((start + b) % n)) (sym len)
            ∙ h (ground arith)
      ]

      by_answer :
          (o : Option ℕ)
          → First after start (attempts + 1) left o
          → First cs start attempts (suc left) o
      by_answer none f = λ a lo hi. earlier a lo (λ next. f a next (omega arith))
      by_answer (some i) (a, lo, hi, place, good, before) = (
        a,
        omega arith,
        omega arith,
        place ∙ ap (λ (n : ℕ). (start + a) % n) len,
        sym (keeps i) ∙ good,
        λ b l h. earlier b l (λ next. before b next h),
      )

  try_clients-First :
      (left attempts start : ℕ) (cs : List ExitClient)
      → First cs start attempts left (try_clients replies start left attempts cs).1
  unfolding try_clients
  try_clients-First zero attempts start cs = λ a lo hi. absurd (omega arith)
  try_clients-First (suc left) attempts start cs =
      let index : ℕ = (start + attempts) % length cs in
      let tried : List ExitClient × Bool = attempt replies cs index in
      let answers : tried.1 ≡ takes replies cs index =
        attempt_with-takes (client_at cs index) (replies index) cs index in
      by_flag tried.1 answers (try_clients-First left (attempts + 1) start tried.0)
    where
      by_flag :
          (b : Bool)
          → let index : ℕ = (start + attempts) % length cs in
            let tried : List ExitClient × Bool = attempt replies cs index in
            let rest : List ExitClient × Option ℕ =
              try_clients replies start left (attempts + 1) tried.0 in
            b ≡ takes replies cs index
            → First tried.0 start (attempts + 1) left rest.1
            → First cs start attempts (suc left) (
                let r : List ExitClient × Option ℕ = if b then (tried.0, some index) else rest in
                r.1)
      by_flag true e f =
          (attempts, omega arith, omega arith, refl, sym e, λ b lo hi. absurd (omega arith))
      by_flag false e f =
          let index : ℕ = (start + attempts) % length cs in
          let (len, keeps) = attempt_keeps replies cs index in
          widen cs (attempt replies cs index).0 start attempts left _ len keeps (sym e) f

-- What a group promises: the packet goes to the first client in turn, from the one at `next_index`
-- on, that takes it; or none takes it, and the answer is an error.
abbrev pub Served : (ℕ → Reply) → GroupPool → GroupPool × Result ExitClientError ℕ → Type 0
Served replies g (g', ok i) =
    (a : ℕ) × (a < length g.clients)
    × (i ≡ (g.next_index + a) % length g.clients)
    × (takes replies g.clients i ≡ true)
    × ((b : ℕ) → b < a → takes replies g.clients ((g.next_index + b) % length g.clients) ≡ false)
Served replies g (g', err e) =
    (e ≡ connection_failed) × ((j : ℕ) → j < length g.clients → takes replies g.clients j ≡ false)

-- Every index is met by some number of steps from the start.
reached : (n start j : ℕ) → start < n → j < n → (a : ℕ) × (a < n) × ((start + a) % n ≡ j)
reached n start j hs hj = elim (Bool-cases (leb start j)) [
  | inl ahead ↦ (j - start, omega arith, ap (λ (t : ℕ). t % n) (ground arith) ∙ mod-eq_of_lt hj)
  | inr behind ↦ (
    j + n - start,
    ground arith,
    ap (λ (t : ℕ). t % n) (ground arith) ∙ add-mod_right j n ∙ mod-eq_of_lt hj,
  )
]

-- In a group with clients, the packet goes to the first healthy client, in turn from the one at
-- `next_index` on, that it reaches, whatever the attempts before it did to the flags; an error is
-- the answer exactly where it reaches no healthy client. The turn moves on by one.
pub forward_in-Served :
    (replies : ℕ → Reply) (g : GroupPool)
    → 0 < length g.clients
    → Served replies g (forward_in replies g)
      × ((forward_in replies g).0.next_index ≡ (g.next_index + 1) % 2 ^ 64)
unfolding forward_in
forward_in-Served replies g some_client =
    let n : ℕ = length g.clients in
    let start : ℕ = g.next_index % n in
    let tried : List ExitClient × Option ℕ = try_clients replies start n 0 g.clients in
    let filled : (n == 0) ≡ false = ground arith in
    rw filled (by_answer tried.1 (try_clients-First replies n 0 start g.clients), refl)
  where
    turn :
        (a : ℕ)
        → (g.next_index % length g.clients + a) % length g.clients
          ≡ (g.next_index + a) % length g.clients
    turn a = mod-add-mod g.next_index (length g.clients) a

    by_answer :
        (o : Option ℕ)
        → First replies g.clients (g.next_index % length g.clients) 0 (length g.clients) o
        → Served replies g (
          record {
            clients =
                (try_clients replies
                  (g.next_index % length g.clients)
                  (length g.clients)
                  0
                  g.clients).0;
            next_index = (g.next_index + 1) % 2 ^ 64;
          },
          elim o as (λ _. Result ExitClientError ℕ) [
            | none ↦ err connection_failed
            | some index ↦ ok index
          ],
        )
    by_answer none f = (
      refl,
      λ j h.
          let (a, lt, meets) =
            reached (length g.clients) (g.next_index % length g.clients) j
              (mod-lt g.next_index some_client) h in
          ap (takes replies g.clients) (sym meets) ∙ f a (omega arith) (omega arith),
    )
    by_answer (some i) (a, lo, hi, place, good, before) = (
      a,
      omega arith,
      place ∙ turn a,
      good,
      λ b lt. ap (takes replies g.clients) (sym (turn b)) ∙ before b (omega arith) lt,
    )
