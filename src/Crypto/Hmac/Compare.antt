-- ===== src/Crypto/Hmac/Compare.antt =====
-- The comparison that reads all 32 bytes decides equality.
use apfsds_rs.Base.{
  ℕ, zero, suc, ◌+◌, ◌≤◌, ◌<◌, ◌≡◌, ◌↔◌, refl, ap₂, true, List, [], ◌∷◌, arith, length, get_or,
  ==_iff,
}
use apfsds_rs.Base.Bits.{bit_xor_self, eq_of_bit_xor, zero_of_bit_or}
use apfsds_rs.Crypto.Hmac.{compare_loop, constant_time_compare}

loop-zero :
    (a b : List ℕ) (left i r : ℕ)
    → compare_loop a b left i r ≡ 0
    → (r ≡ 0) × ((j : ℕ) → i ≤ j → j < i + left → get_or a j 0 ≡ get_or b j 0)
unfolding compare_loop
loop-zero a b zero i r e = (e, λ j p q. absurd (omega arith))
loop-zero a b (suc left) i r e =
    let (both, rest) = loop-zero a b left (i + 1) _ e in
    let (fst, here) = zero_of_bit_or r _ both in
    (fst, λ j p q. ground (arith, rest j, eq_of_bit_xor (get_or a i 0) (get_or b i 0) here))

loop_self : (a : List ℕ) (left i : ℕ) → compare_loop a a left i 0 ≡ 0
unfolding compare_loop
loop_self a zero i = refl
loop_self a (suc left) i = rw (bit_xor_self (get_or a i 0)) (loop_self a left (i + 1))

bytes_ext :
    (a b : List ℕ)
    → length a ≡ length b
    → ((j : ℕ) → j < length a → get_or a j 0 ≡ get_or b j 0)
    → a ≡ b
bytes_ext [] [] e h = refl
bytes_ext [] (y ∷ b) e h = absurd (omega arith)
bytes_ext (x ∷ a) [] e h = absurd (omega arith)
bytes_ext (x ∷ a) (y ∷ b) e h =
    ap₂ ◌∷◌ (h 0 (omega arith)) (bytes_ext a b (omega arith) (λ j p. h (suc j) (omega arith)))

-- On arrays of 32 bytes `constant_time_compare` is equality.
pub constant_time_compare_iff :
    (a b : List ℕ) → length a ≡ 32 → length b ≡ 32 → (constant_time_compare a b ≡ true) ↔ (a ≡ b)
constant_time_compare_iff a b ha hb =
    (forth, λ e. rw e (unfold constant_time_compare in (==_iff _ 0).1 (loop_self b 32 0)))
  where
    forth : constant_time_compare a b ≡ true → a ≡ b
    forth e =
        let zero_result : compare_loop a b 32 0 0 ≡ 0 =
          (==_iff _ 0).0 (unfold constant_time_compare in e) in
        bytes_ext a b (omega arith)
          (λ j p. (loop-zero a b 32 0 0 zero_result).1 j (omega arith) (omega arith))
