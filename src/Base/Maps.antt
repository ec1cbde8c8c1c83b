-- ===== src/Base/Maps.antt =====
-- Maps. `dashmap::DashMap` is another package's code: it is a record of operations with the laws
-- that its documentation states. An association list has them all.
mod Assoc
use mathlib.Core.Path.{◌≡◌, refl}
use mathlib.Core.Logic.{◌↔◌}
use mathlib.Core.Bool.{Bool}
use mathlib.Core.List.{List, [], ◌∷◌}
use mathlib.Core.Option.{Option, none, some}
use native.Mathlib.Omega.{arith}
use Prim.Native.Nat.{ℕ, ◌+◌, ◌-◌}
use apfsds_rs.Base.Tests.{if◌then◌else◌}
pub use Assoc.{
  assoc_get, assoc_insert, Eq, nat_eq, bytes_eq, bytes_beq_iff, beq_refl, keep_if, is_some,
}
use Assoc.{assoc_remove, assoc_retain, assoc_len}
use Assoc.{assoc_get-insert, assoc_get-remove, assoc_get-retain, assoc_len-insert, assoc_len-remove}

-- The shards' locks make each operation one step.
pub record DashMap (K V : Type 0) ⦃e : Eq K⦄ : Type 1 where
  pub Map : Type 0
  pub empty : Map
  pub get : K → Map → Option V
  pub insert : K → V → Map → Map
  pub remove : K → Map → Map
  pub retain : (K → V → Bool) → Map → Map
  pub len : Map → ℕ
  pub get-empty : (k : K) → get k empty ≡ none
  pub get-insert :
      (k j : K) (v : V) (m : Map) → get j (insert k v m) ≡ (if e.beq k j then some v else get j m)
  pub get-remove : (k j : K) (m : Map) → get j (remove k m) ≡ (if e.beq k j then none else get j m)
  pub get-retain :
      (p : K → V → Bool) (j : K) (m : Map) → get j (retain p m) ≡ keep_if (p j) (get j m)
  pub len-empty : len empty ≡ 0
  pub len-insert :
      (k : K) (v : V) (m : Map)
      → len (insert k v m) ≡ (if is_some (get k m) then len m else len m + 1)
  pub len-remove :
      (k : K) (m : Map) → len (remove k m) ≡ (if is_some (get k m) then len m - 1 else len m)

abbrev pub assoc_map : (K V : Type 0) ⦃e : Eq K⦄ → DashMap K V
assoc_map K V = record {
  Map = List (K × V);
  empty = [];
  get = assoc_get;
  insert = assoc_insert;
  remove = assoc_remove;
  retain = assoc_retain;
  len = assoc_len;
  get-empty = λ k. refl;
  get-insert = assoc_get-insert;
  get-remove = assoc_get-remove;
  get-retain = assoc_get-retain;
  len-empty = refl;
  len-insert = assoc_len-insert;
  len-remove = assoc_len-remove;
}
