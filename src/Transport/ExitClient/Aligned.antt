-- ===== src/Transport/ExitClient/Aligned.antt =====
-- Which packets of a stream are dispatched, where rkyv reads an archive exactly at multiples of 8.
use apfsds_rs.Base.{
  ℕ, suc, ◌+◌, ◌%◌, ◌≡◌, refl, ◌∙◌, ap, ap₂, Bool, true, false, not, List, [], ◌∷◌, ◌++◌, Option,
  none, some, ok, and_then, arith, length, ◌==◌, if◌then◌else◌,
}
use apfsds_rs.Base.Rkyv.{Rkyv, AlignsTo}
use apfsds_rs.Protocol.Packet.{PlainPacket}
use apfsds_rs.Transport.ExitClient.{Slice, if_ok, dispatched}
use apfsds_rs.Transport.ExitClient.Chunks.{placed}
use apfsds_rs.Transport.ExitClient.Cuts.{payloads_of}

-- Every second packet: from the first on, or from the second on.
abbrev pub every_second : Bool → List PlainPacket → List PlainPacket
every_second first [] = []
every_second first (p ∷ ps) =
    let rest = every_second (not first) ps in if first then p ∷ rest else rest

-- The packets whose archives start at a multiple of 8.
abbrev pub kept : List Slice → List PlainPacket → List PlainPacket
kept ((address, payload) ∷ slices) (r ∷ rs) =
    let rest = kept slices rs in if address % 8 == 0 then r ∷ rest else rest
kept _ _ = []

-- Of packets whose frames lie one behind the other, from an address on, those that are read.
abbrev pub readable : ℕ → List PlainPacket → List PlainPacket
readable address rs =
    if address % 8 == 0
    then every_second false rs
    else if address % 8 == 4
    then every_second true rs
    else []

if_ok-append :
    (o : Option PlainPacket) (xs ys : List PlainPacket) → if_ok o (xs ++ ys) ≡ if_ok o xs ++ ys
if_ok-append none xs ys = refl
if_ok-append (some packet) xs ys = refl

-- A payload of whole words puts the next one 4 further.
readable_next :
    (address n : ℕ) (r : PlainPacket) (rs : List PlainPacket)
    → n % 8 ≡ 0
    → if_ok (if (address + 4) % 8 == 0 then some r else none) (readable (address + 4 + n) rs)
      ≡ readable address (r ∷ rs)
readable_next address n r rs eights = ground arith

module _ (rkyv : Rkyv PlainPacket) where
  -- The payloads are the archives of the packets.
  abbrev pub Archives : List (List ℕ) → List PlainPacket → Type 0
  Archives [] [] = Unit
  Archives [] (p ∷ ps) = ⊥
  Archives (b ∷ bs) [] = ⊥
  Archives (b ∷ bs) (p ∷ ps) = (rkyv.to_bytes p ≡ ok b) × Archives bs ps

  pub Archives-append :
      (bs cs : List (List ℕ)) (ps qs : List PlainPacket)
      → Archives bs ps
      → Archives cs qs
      → Archives (bs ++ cs) (ps ++ qs)
  Archives-append [] cs [] qs x y = y
  Archives-append [] cs (p ∷ ps) qs x y = absurd x
  Archives-append (b ∷ bs) cs [] qs x y = absurd x
  Archives-append (b ∷ bs) cs (p ∷ ps) qs (w, x) y = (w, Archives-append bs cs ps qs x y)

  pub length-Archives :
      (slices : List Slice) (rs : List PlainPacket)
      → Archives (payloads_of slices) rs
      → length slices ≡ length rs
  length-Archives [] [] held = refl
  length-Archives [] (r ∷ rs) held = absurd held
  length-Archives (slice ∷ slices) [] held = absurd held
  length-Archives (slice ∷ slices) (r ∷ rs) (written, held) =
      ap suc (length-Archives slices rs held)

  module _ (from_bytes : ℕ → List ℕ → Option PlainPacket)
      (aligned : AlignsTo 8 rkyv from_bytes) where
    pub dispatched-placed :
        (address : ℕ) (payloads : List (List ℕ)) (rs : List PlainPacket)
        → Archives payloads rs
        → dispatched from_bytes (placed address payloads) ≡ readable address rs
    unfolding dispatched
    dispatched-placed address [] [] held = ground arith
    dispatched-placed address [] (r ∷ rs) held = absurd held
    dispatched-placed address (b ∷ bs) [] held = absurd held
    dispatched-placed address (b ∷ bs) (r ∷ rs) (written, held) =
        let (eights, reads) = aligned r b written in
        ap₂ if_ok (reads (address + 4)) (dispatched-placed (address + 4 + length b) bs rs held)
        ∙ readable_next address (length b) r rs eights

    dispatched-append :
        (xs ys : List Slice)
        → dispatched from_bytes (xs ++ ys) ≡ dispatched from_bytes xs ++ dispatched from_bytes ys
    unfolding dispatched
    dispatched-append [] ys = refl
    dispatched-append ((address, payload) ∷ xs) ys =
        ap (if_ok (from_bytes address payload)) (dispatched-append xs ys)
        ∙ if_ok-append (from_bytes address payload) (dispatched from_bytes xs)
            (dispatched from_bytes ys)

    pub dispatched_behind :
        (xs : List Slice) (o : Option (List Slice × List ℕ))
        → and_then {B = List PlainPacket × List ℕ}
            (and_then {B = List Slice × List ℕ} o (λ q. some (xs ++ q.0, q.1)))
            (λ r. some (dispatched from_bytes r.0, r.1))
          ≡ and_then {B = List PlainPacket × List ℕ}
              (and_then {B = List PlainPacket × List ℕ} o
                (λ r. some (dispatched from_bytes r.0, r.1)))
              (λ r. some (dispatched from_bytes xs ++ r.0, r.1))
    dispatched_behind xs none = refl
    dispatched_behind xs (some (ys, left)) =
        ap (λ (rs : List PlainPacket). some (rs, left)) (dispatched-append xs ys)

    pub dispatched-kept :
        (slices : List Slice) (rs : List PlainPacket)
        → Archives (payloads_of slices) rs
        → dispatched from_bytes slices ≡ kept slices rs
    unfolding dispatched
    dispatched-kept [] [] held = refl
    dispatched-kept [] (r ∷ rs) held = absurd held
    dispatched-kept ((address, b) ∷ slices) [] held = absurd held
    dispatched-kept ((address, b) ∷ slices) (r ∷ rs) (written, held) =
        ap₂ if_ok ((aligned r b written).1 address) (dispatched-kept slices rs held) ∙ ground arith
