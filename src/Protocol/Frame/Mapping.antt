-- ===== src/Protocol/Frame/Mapping.antt =====
-- `ipv4_to_mapped` and `mapped_to_ipv4` are inverse to each other.
use apfsds_rs.Base.{
  ℕ, zero, suc, ◌<◌, ◌≡◌, refl, ap, sym, ◌∙◌, ◌↔◌, List, [], ◌∷◌, ◌++◌, some, arith, length, take,
  drop, get_or, replicate, take-append-drop, take_all, length-drop, append-nil,
}
use apfsds_rs.Base.Maps.{bytes_beq_iff}
use apfsds_rs.Protocol.Frame.{ipv4_to_mapped, mapped_to_ipv4}

drop_at : (n : ℕ) (m : List ℕ) → n < length m → drop n m ≡ get_or m n 0 ∷ drop (suc n) m
drop_at zero [] h = absurd (omega arith)
drop_at zero (x ∷ m) h = refl
drop_at (suc n) [] h = absurd (omega arith)
drop_at (suc n) (x ∷ m) h = drop_at n m (omega arith)

mapped_form : (a : List ℕ) → ipv4_to_mapped a ≡ replicate 10 0 ++ 0xff ∷ 0xff ∷ a
unfolding ipv4_to_mapped
mapped_form a = ap (λ (t : List ℕ). replicate 10 0 ++ 0xff ∷ 0xff ∷ t) (append-nil a)

mapped_split :
    (m : List ℕ) → length m ≡ 16 → m ≡ take 10 m ++ get_or m 10 0 ∷ get_or m 11 0 ∷ drop 12 m
mapped_split m h =
    sym (take-append-drop 10 m)
    ∙ ap (λ (t : List ℕ). take 10 m ++ t)
        (drop_at 10 m (omega arith) ∙ ap (◌∷◌ (get_or m 10 0)) (drop_at 11 m (omega arith)))

marks :
    (m a : List ℕ)
    → mapped_to_ipv4 m ≡ some a
    → (take 10 m ≡ replicate 10 0)
      × (get_or m 10 0 ≡ 0xff)
      × (get_or m 11 0 ≡ 0xff)
      × (take 4 (drop 12 m) ≡ a)
unfolding mapped_to_ipv4
marks m a e = ground (arith, bytes_beq_iff (take 10 m) (replicate 10 0))

read_back : (a : List ℕ) → length a ≡ 4 → mapped_to_ipv4 (ipv4_to_mapped a) ≡ some a
read_back a h = rw (mapped_form a) (unfold mapped_to_ipv4 in ap some (take_all 4 a (omega arith)))

-- Of a 16-byte address `mapped_to_ipv4` returns `a` exactly where `ipv4_to_mapped` wrote `a`.
pub mapped_to_ipv4_iff :
    (m a : List ℕ)
    → length m ≡ 16
    → length a ≡ 4
    → (mapped_to_ipv4 m ≡ some a) ↔ (m ≡ ipv4_to_mapped a)
mapped_to_ipv4_iff m a hm ha = (forth, λ e. rw e (read_back a ha))
  where
    forth : mapped_to_ipv4 m ≡ some a → m ≡ ipv4_to_mapped a
    forth e =
        let (zeros, ten, eleven, rest) = marks m a e in
        let tail : drop 12 m ≡ a =
          sym (take_all 4 (drop 12 m) (omega (arith, length-drop 12 m))) ∙ rest in
        rw (mapped_form a) (mapped_split m hm ∙ cc)
