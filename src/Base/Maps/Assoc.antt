-- ===== src/Base/Maps/Assoc.antt =====
-- Equality of keys as an interface, and maps as association lists with distinct keys.
use Prim.Native.Nat.{ℕ, ◌+◌, ◌-◌, ◌<◌}
use mathlib.Core.Path.{◌≡◌, refl}
use mathlib.Core.Logic.{◌↔◌, inl, inr}
use mathlib.Core.Bool.{Bool, true, false, ◌&&◌}
use mathlib.Core.List.{List, [], ◌∷◌}
use mathlib.Core.Option.{Option, none, some}
use native.Mathlib.Omega.{arith}
use apfsds_rs.Base.Tests.{◌==◌, ==_iff, Bool-cases, if◌then◌else◌}

pub record Eq {ℓ} (A : Type ℓ) : Type ℓ where
  pub beq : A → A → Bool
  pub beq_iff : (a b : A) → (beq a b ≡ true) ↔ (a ≡ b)

instance abbrev pub nat_eq : Eq ℕ
nat_eq = record { beq = ◌==◌; beq_iff = ==_iff }

abbrev bytes_beq : List ℕ → List ℕ → Bool
bytes_beq [] [] = true
bytes_beq [] (y ∷ ys) = false
bytes_beq (x ∷ xs) [] = false
bytes_beq (x ∷ xs) (y ∷ ys) = x == y && bytes_beq xs ys

pub bytes_beq_iff : (xs ys : List ℕ) → (bytes_beq xs ys ≡ true) ↔ (xs ≡ ys)
bytes_beq_iff [] [] = (λ _. refl, λ _. refl)
bytes_beq_iff [] (y ∷ ys) = (λ h. cc, λ h. cc)
bytes_beq_iff (x ∷ xs) [] = (λ h. cc, λ h. cc)
bytes_beq_iff (x ∷ xs) (y ∷ ys) = ground (arith, bytes_beq_iff xs ys)

-- `==` on byte arrays and slices.
instance abbrev pub bytes_eq : Eq (List ℕ)
bytes_eq = record { beq = bytes_beq; beq_iff = bytes_beq_iff }

pub beq_refl {ℓ} : {A : Type ℓ} ⦃e : Eq A⦄ (a : A) → e.beq a a ≡ true
beq_refl ⦃e⦄ a = (e.beq_iff a a).1 refl

abbrev pub is_some {ℓ} : {A : Type ℓ} → Option A → Bool
is_some none = false
is_some (some a) = true

abbrev pub keep_if {ℓ} : {A : Type ℓ} → (A → Bool) → Option A → Option A
keep_if p none = none
keep_if p (some a) = if p a then some a else none

module _ {K V : Type 0} ⦃e : Eq K⦄ where
  abbrev pub assoc_get : K → List (K × V) → Option V
  assoc_get k [] = none
  assoc_get k ((j, v) ∷ m) = if e.beq j k then some v else assoc_get k m

  abbrev pub assoc_remove : K → List (K × V) → List (K × V)
  assoc_remove k [] = []
  assoc_remove k ((j, v) ∷ m) =
      let rest = assoc_remove k m in if e.beq j k then rest else (j, v) ∷ rest

  abbrev pub assoc_insert : K → V → List (K × V) → List (K × V)
  assoc_insert k v [] = (k, v) ∷ []
  assoc_insert k v ((j, w) ∷ m) = if e.beq j k then (k, v) ∷ m else (j, w) ∷ assoc_insert k v m

  -- What `p` refuses is gone, with any older entry of its key.
  abbrev pub assoc_retain : (K → V → Bool) → List (K × V) → List (K × V)
  assoc_retain p [] = []
  assoc_retain p ((j, v) ∷ m) =
      let rest = assoc_retain p m in if p j v then (j, v) ∷ rest else assoc_remove j rest

  -- The number of keys.
  abbrev pub assoc_len : List (K × V) → ℕ
  assoc_len [] = 0
  assoc_len ((j, v) ∷ m) = let n = assoc_len m in if is_some (assoc_get j m) then n else n + 1

  assoc_len_pos : (k : K) (m : List (K × V)) → is_some (assoc_get k m) ≡ true → 0 < assoc_len m
  assoc_len_pos k [] h = cc
  assoc_len_pos k ((j, w) ∷ m) h = ground (arith, assoc_len_pos k m, assoc_len_pos j m)

  pub assoc_get-insert :
      (k j : K) (v : V) (m : List (K × V))
      → assoc_get j (assoc_insert k v m) ≡ (if e.beq k j then some v else assoc_get j m)
  assoc_get-insert k j v [] = refl
  assoc_get-insert k j v ((i, w) ∷ m) =
      ground (arith, assoc_get-insert k j v m, e.beq_iff k j, e.beq_iff i j, e.beq_iff i k)

  pub assoc_get-remove :
      (k j : K) (m : List (K × V))
      → assoc_get j (assoc_remove k m) ≡ (if e.beq k j then none else assoc_get j m)
  assoc_get-remove k j [] = ground arith
  assoc_get-remove k j ((i, w) ∷ m) =
      ground (arith, assoc_get-remove k j m, e.beq_iff k j, e.beq_iff i j, e.beq_iff i k)

  pub assoc_get-retain :
      (p : K → V → Bool) (j : K) (m : List (K × V))
      → assoc_get j (assoc_retain p m) ≡ keep_if (p j) (assoc_get j m)
  assoc_get-retain p j [] = refl
  assoc_get-retain p j ((i, w) ∷ m) = elim (Bool-cases (e.beq i j)) [
    | inl hit ↦
        let same : i ≡ j = (e.beq_iff i j).0 hit in
        rw same (ground (arith, beq_refl j, assoc_get-remove j j (assoc_retain p m)))
    | inr miss ↦ ground (arith, assoc_get-retain p j m, assoc_get-remove i j (assoc_retain p m))
  ]

  pub assoc_len-insert :
      (k : K) (v : V) (m : List (K × V))
      → assoc_len (assoc_insert k v m)
        ≡ (if is_some (assoc_get k m) then assoc_len m else assoc_len m + 1)
  assoc_len-insert k v [] = omega arith
  assoc_len-insert k v ((j, w) ∷ m) =
      ground (arith, assoc_len-insert k v m, assoc_get-insert k j v m, e.beq_iff j k, e.beq_iff k j)

  pub assoc_len-remove :
      (k : K) (m : List (K × V))
      → assoc_len (assoc_remove k m)
        ≡ (if is_some (assoc_get k m) then assoc_len m - 1 else assoc_len m)
  assoc_len-remove k [] = refl
  assoc_len-remove k ((j, w) ∷ m) = ground (
    arith,
    assoc_len-remove k m,
    assoc_get-remove k j m,
    e.beq_iff j k,
    e.beq_iff k j,
    assoc_len_pos k m,
  )
