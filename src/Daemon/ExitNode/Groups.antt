-- ===== src/Daemon/ExitNode/Groups.antt =====
-- The group that an exit node asks for.
use apfsds_rs.Base.{
  ℕ, ◌≤◌, ◌<◌, ◌≡◌, ◌⊎◌, inl, inr, refl, sym, ◌∙◌, ap, Bool, true, false, List, [], ◌∷◌, ◌++◌,
  append-nil, append_assoc, All-append, All-map, none_ne_some, some_injective, Option, none, some,
  Result, ok, err, arith, All, ltb, Bool-cases, if◌then◌else◌,
}
use mathlib.Core.Path.{subst}
use apfsds_rs.Base.Rkyv.{Rkyv}
use apfsds_rs.Protocol.Frame.{GroupInfo, ControlMessage, group_list}
use apfsds_rs.Daemon.ExitNode.{rkyv_from_bytes}
use apfsds_rs.Transport.WebSocket.{Message, binary, text, ping, pong, close}
use apfsds_rs.Daemon.ExitNode.Sessions.{
  ConnectError, least_loaded, auto_select, has_group, select, groups_of, or_no_groups, await_groups,
}

-- The first of the groups with the least load.
abbrev pub IsLeast : GroupInfo → List GroupInfo → Type 0
IsLeast g groups =
    (before after : List GroupInfo) × (groups ≡ before ++ (g ∷ after))
    × All (λ (x : GroupInfo). g.load < x.load) before
    × All (λ (x : GroupInfo). g.load ≤ x.load) after

IsLeast-moved :
    (g h : GroupInfo) (xs ys : List GroupInfo) → g ≡ h → xs ≡ ys → IsLeast g xs → IsLeast h ys
IsLeast-moved g h xs ys same_group same_list (before, after, split, low, same) =
    subst (λ (t : GroupInfo). IsLeast t ys) same_group
      (before, after, sym same_list ∙ split, low, same)

-- `best` is behind `before`, whose loads are greater, and ahead of `between`, with none of less.
least_loaded-IsLeast :
    (best : GroupInfo) (before between groups : List GroupInfo)
    → All (λ (x : GroupInfo). best.load < x.load) before
    → All (λ (x : GroupInfo). best.load ≤ x.load) between
    → IsLeast (least_loaded best groups) (before ++ (best ∷ (between ++ groups)))
least_loaded-IsLeast best before between [] low same = (
  before,
  between,
  ap (λ (t : List GroupInfo). before ++ (best ∷ t)) (append-nil between),
  low,
  same,
)
least_loaded-IsLeast best before between (g ∷ groups) low same =
    elim (Bool-cases (ltb g.load best.load)) [
      | inl e ↦
          let less : g.load < best.load = ground arith in
          IsLeast-moved (least_loaded g groups) _ _ _
            (ap (λ (t : Bool). least_loaded (if t then g else best) groups) (sym e))
            (append_assoc before (best ∷ between) (g ∷ groups))
            (least_loaded-IsLeast g (before ++ (best ∷ between)) [] groups
              (All-append _ before (best ∷ between) (All-map before (λ x h. omega arith) low)
                (less, All-map between (λ x h. omega arith) same))
              tt)
      | inr e ↦
          let more : best.load ≤ g.load = ground arith in
          IsLeast-moved (least_loaded best groups) _ _ _
            (ap (λ (t : Bool). least_loaded (if t then g else best) groups) (sym e))
            (ap (λ (t : List GroupInfo). before ++ (best ∷ t))
              (append_assoc between (g ∷ []) groups))
            (least_loaded-IsLeast best before (between ++ (g ∷ [])) groups low
              (All-append _ between (g ∷ []) same (more, tt)))
    ]

-- What a handler's groups and a preference allow.
abbrev pub Chosen : Option ℕ → List GroupInfo → ℕ → Type 0
Chosen preferred groups id =
    ((preferred ≡ some id) × (has_group id groups ≡ true))
    ⊎ (((wanted : ℕ) → preferred ≡ some wanted → has_group wanted groups ≡ false)
        × ((g : GroupInfo) × IsLeast g groups × (id ≡ g.group_id)))

auto_select-IsLeast :
    (groups : List GroupInfo) (id : ℕ)
    → auto_select groups ≡ some id
    → (g : GroupInfo) × IsLeast g groups × (id ≡ g.group_id)
auto_select-IsLeast [] id e = absurd (none_ne_some id e)
auto_select-IsLeast (g ∷ groups) id e =
    (least_loaded g groups, least_loaded-IsLeast g [] [] groups tt tt, sym (some_injective _ id e))

select-Chosen :
    (preferred : Option ℕ) (groups : List GroupInfo) (id : ℕ)
    → select preferred groups ≡ some id
    → Chosen preferred groups id
unfolding select
select-Chosen none groups id e =
    inr ((λ wanted h. absurd (none_ne_some wanted h)), auto_select-IsLeast groups id e)
select-Chosen (some wanted) groups id e = by_test (has_group wanted groups) refl e
  where
    by_test :
        (b : Bool)
        → has_group wanted groups ≡ b
        → (if b then some wanted else auto_select groups) ≡ some id
        → Chosen (some wanted) groups id
    by_test true h e =
        let same : wanted ≡ id = some_injective wanted id e in
        inl (e, ap (λ (t : ℕ). has_group t groups) (sym same) ∙ h)
    by_test false h e = inr (
      λ w is. ap (λ (t : ℕ). has_group t groups) (sym (some_injective wanted w is)) ∙ h,
      auto_select-IsLeast groups id e,
    )

-- Messages before the groups that hold no groups, and nothing that ends the wait.
abbrev pub IsPassed : Rkyv ControlMessage → Result (List ℕ) Message → Type 0
IsPassed k (ok (binary bytes)) = groups_of (rkyv_from_bytes k bytes) ≡ none
IsPassed k (ok close) = ⊥
IsPassed k (ok (text t)) = Unit
IsPassed k (ok (ping t)) = Unit
IsPassed k (ok (pong t)) = Unit
IsPassed k (err e) = ⊥

-- What the wait for the groups gives: the groups are those of the first message that holds any, and
-- nothing behind it has been taken.
abbrev pub Awaited :
    Rkyv ControlMessage
    → Option ℕ
    → List (Result (List ℕ) Message)
    → ℕ
    → List (Result (List ℕ) Message)
    → Type 0
Awaited k preferred incoming id rest =
    (passed : List (Result (List ℕ) Message)) × (bytes : List ℕ) × (groups : List GroupInfo)
    × (incoming ≡ passed ++ (ok (binary bytes) ∷ rest))
    × All (IsPassed k) passed
    × (rkyv_from_bytes k bytes ≡ ok (group_list groups))
    × Chosen preferred groups id

Awaited-later :
    (k : Rkyv ControlMessage) (preferred : Option ℕ) (m : Result (List ℕ) Message)
    (incoming : List (Result (List ℕ) Message)) (id : ℕ) (rest : List (Result (List ℕ) Message))
    → IsPassed k m
    → Awaited k preferred incoming id rest
    → Awaited k preferred (m ∷ incoming) id rest
Awaited-later k preferred m incoming id rest p (passed, bytes, groups, e, all, read, chosen) =
    (m ∷ passed, bytes, groups, ap (◌∷◌ m) e, (p, all), read, chosen)

groups_of-some :
    (r : Result (List ℕ) ControlMessage) (groups : List GroupInfo)
    → groups_of r ≡ some groups
    → r ≡ ok (group_list groups)
groups_of-some r groups e = ground arith

or_no_groups-ok : (o : Option ℕ) (id : ℕ) → or_no_groups o ≡ ok id → o ≡ some id
or_no_groups-ok o id e = ground arith

-- When the wait ends with a group: the groups are those of the first message that holds any, before
-- which nothing closed the connection and nothing failed; the group is the preferred one where the
-- handler has it, and otherwise the first of those with the least load.
pub await_groups-Awaited :
    (k : Rkyv ControlMessage) (preferred : Option ℕ) (incoming : List (Result (List ℕ) Message))
    (id : ℕ)
    → (await_groups k preferred incoming).0 ≡ ok id
    → Awaited k preferred incoming id ((await_groups k preferred incoming).1)
unfolding await_groups
await_groups-Awaited k preferred [] id e = absurd (cc)
await_groups-Awaited k preferred (err x ∷ rest) id e = absurd (cc)
await_groups-Awaited k preferred (ok close ∷ rest) id e = absurd (cc)
await_groups-Awaited k preferred (ok (text t) ∷ rest) id e =
    Awaited-later k preferred _ rest id _ tt (await_groups-Awaited k preferred rest id e)
await_groups-Awaited k preferred (ok (ping t) ∷ rest) id e =
    Awaited-later k preferred _ rest id _ tt (await_groups-Awaited k preferred rest id e)
await_groups-Awaited k preferred (ok (pong t) ∷ rest) id e =
    Awaited-later k preferred _ rest id _ tt (await_groups-Awaited k preferred rest id e)
await_groups-Awaited k preferred (ok (binary bytes) ∷ rest) id e =
    by_groups (groups_of (rkyv_from_bytes k bytes)) refl e
      (await_groups-Awaited k preferred rest id)
  where
    after_message : Option (List GroupInfo) → Result ConnectError ℕ × List (Result (List ℕ) Message)
    after_message o = elim o [
      | none ↦ await_groups k preferred rest
      | some groups ↦ (or_no_groups (select preferred groups), rest)
    ]

    by_groups :
        (o : Option (List GroupInfo))
        → groups_of (rkyv_from_bytes k bytes) ≡ o
        → (after_message o).0 ≡ ok id
        → ((await_groups k preferred rest).0 ≡ ok id
            → Awaited k preferred rest id ((await_groups k preferred rest).1))
        → Awaited k preferred (ok (binary bytes) ∷ rest) id ((after_message o).1)
    by_groups none none_here e later = Awaited-later k preferred _ rest id _ none_here (later e)
    by_groups (some groups) here e later = (
      [],
      bytes,
      groups,
      refl,
      tt,
      groups_of-some _ groups here,
      select-Chosen preferred groups id (or_no_groups-ok (select preferred groups) id e),
    )
