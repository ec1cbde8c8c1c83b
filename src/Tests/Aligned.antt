-- ===== src/Tests/Aligned.antt =====
-- Archives of packets that want an address that is a multiple of 8.
use apfsds_rs.Base.{
  ℕ, ◌+◌, ◌-◌, ◌%◌, ◌≡◌, refl, ◌∙◌, ap, List, [], ◌∷◌, ◌++◌, Option, none, some, Result, ok, err,
  ok_injective, length, length-append, length-replicate, take, take-append, replicate, arith, ◌==◌,
  if◌then◌else◌,
}
use apfsds_rs.Base.Rkyv.{Rkyv, AlignsTo}
use apfsds_rs.Protocol.Packet.{PlainPacket}
use apfsds_rs.Tests.{write_packet, read_packet, packet_back}

abbrev pub missing : List ℕ → ℕ
missing bytes = (8 - (length bytes + 1) % 8) % 8

-- Filled up to whole words, behind a byte that says by how much.
abbrev pub write_words : PlainPacket → List ℕ
write_words p =
    missing (write_packet p) ∷ (write_packet p ++ replicate (missing (write_packet p)) 0)

abbrev read_words : List ℕ → Result (List ℕ) PlainPacket
read_words [] = err []
read_words (n ∷ bytes) = read_packet (take (length bytes - n) bytes)

abbrev pub aligned_rkyv : Rkyv PlainPacket
aligned_rkyv = record {
  Archived = List ℕ;
  to_bytes = λ p. ok (write_words p);
  access = λ bytes. ok bytes;
  deserialize = read_words;
}

abbrev of_read : Result (List ℕ) PlainPacket → Option PlainPacket
of_read (ok p) = some p
of_read (err e) = none

abbrev pub from_bytes : ℕ → List ℕ → Option PlainPacket
from_bytes address bytes = if address % 8 == 0 then of_read (read_words bytes) else none

length-filled : (xs : List ℕ) (n : ℕ) → length (xs ++ replicate n 0) ≡ length xs + n
length-filled xs n =
    length-append xs (replicate n 0) ∙ ap (λ (m : ℕ). length xs + m) (length-replicate {A = ℕ} n 0)

filled : (xs : List ℕ) (n : ℕ) → take (length (xs ++ replicate n 0) - n) (xs ++ replicate n 0) ≡ xs
filled xs n =
    take-append (length (xs ++ replicate n 0) - n) xs (replicate n 0)
      (ground (arith, length-filled xs n))

words_back : (p : PlainPacket) → read_words (write_words p) ≡ ok p
words_back p = ap read_packet (filled (write_packet p) (missing (write_packet p))) ∙ packet_back p

whole_words : (xs : List ℕ) → length (missing xs ∷ (xs ++ replicate (missing xs) 0)) % 8 ≡ 0
whole_words xs = ground (arith, length-filled xs (missing xs))

pub aligned_rkyv-AlignsTo : AlignsTo 8 aligned_rkyv from_bytes
aligned_rkyv-AlignsTo p bytes e = by_bytes (ok_injective (write_words p) bytes e)
  where
    by_bytes :
        write_words p ≡ bytes
        → (length bytes % 8 ≡ 0)
          × ((address : ℕ) → from_bytes address bytes ≡ (if address % 8 == 0 then some p else none))
    by_bytes same = rw (← same) (whole_words (write_packet p), λ address. rw (words_back p) refl)
