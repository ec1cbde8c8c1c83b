-- ===== src/Base/Rkyv.antt =====
-- The `rkyv` package for one type: its serialiser, the check of archived bytes and the
-- deserialiser. Error texts are lists of bytes.
use mathlib.Core.Path.{◌≡◌}
use mathlib.Core.List.{List}
use Prim.Native.Nat.{ℕ, ◌%◌}
use mathlib.Core.Option.{Option, none, some}
use apfsds_rs.Base.Lists.{length}
use apfsds_rs.Base.Tests.{Result, ok, ◌>>=◌, ◌==◌, if◌then◌else◌}

pub record Rkyv (A : Type 0) : Type 1 where
  pub Archived : Type 0
  pub to_bytes : A → Result (List ℕ) (List ℕ)
  pub access : List ℕ → Result (List ℕ) Archived
  pub deserialize : Archived → Result (List ℕ) A

-- What is written is read back.
abbrev pub RoundTrips : {A : Type 0} → Rkyv A → Type 0
RoundTrips {A} k =
    (a : A) (bytes : List ℕ) → k.to_bytes a ≡ ok bytes → (k.access bytes >>= k.deserialize) ≡ ok a

-- `rkyv::from_bytes` on a slice that starts at an address: an archive whose alignment is `n` takes a
-- multiple of `n` bytes, and is read back where it starts at a multiple of `n`; at any other address
-- it is refused as unaligned.
abbrev pub AlignsTo : {A : Type 0} → ℕ → Rkyv A → (ℕ → List ℕ → Option A) → Type 0
AlignsTo {A} n k from_bytes =
    (a : A) (bytes : List ℕ)
    → k.to_bytes a ≡ ok bytes
    → (length bytes % n ≡ 0)
      × ((address : ℕ) → from_bytes address bytes ≡ (if address % n == 0 then some a else none))
