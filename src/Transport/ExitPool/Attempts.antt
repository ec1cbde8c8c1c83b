-- ===== src/Transport/ExitPool/Attempts.antt =====
-- Which clients take a packet, and what one attempt leaves.
use apfsds_rs.Base.{
  ℕ, zero, suc, ◌≡◌, ◌⊎◌, inl, inr, refl, ap, sym, ◌∙◌, Bool, true, false, ◌&&◌, List, [], ◌∷◌,
  Option, none, some, length, set, arith,
}
use apfsds_rs.Transport.ExitPool.{
  ExitClient, attempt_with, Reply, delivered, refused, unreachable, unserialized, send, client_at,
  attempt,
}

abbrev is_delivered : Reply → Bool
is_delivered delivered = true
is_delivered refused = false
is_delivered unreachable = false
is_delivered unserialized = false

abbrev pub takes_of : Option ExitClient → Reply → Bool
takes_of none reply = false
takes_of (some c) reply = c.healthy && is_delivered reply

-- The client at an index is there and healthy, and the packet reaches it.
abbrev pub takes : (ℕ → Reply) → List ExitClient → ℕ → Bool
takes replies cs i = takes_of (client_at cs i) (replies i)

client_at-set :
    (cs : List ExitClient) (i j : ℕ) (c : ExitClient)
    → (client_at (set cs i c) j ≡ client_at cs j) ⊎ ((i ≡ j) × (client_at (set cs i c) j ≡ some c))
client_at-set [] i j c = inl refl
client_at-set (x ∷ cs) zero zero c = inr (refl, refl)
client_at-set (x ∷ cs) zero (suc j) c = inl refl
client_at-set (x ∷ cs) (suc i) zero c = inl refl
client_at-set (x ∷ cs) (suc i) (suc j) c = elim (client_at-set cs i j c) [
  | inl same ↦ inl same
  | inr (e, h) ↦ inr (ap suc e, h)
]

length-set : (cs : List ExitClient) (i : ℕ) (c : ExitClient) → length (set cs i c) ≡ length cs
length-set [] i c = refl
length-set (x ∷ cs) zero c = refl
length-set (x ∷ cs) (suc i) c = ap suc (length-set cs i c)

-- An attempt forwards the packet exactly where the client takes it.
pub attempt_with-takes :
    (o : Option ExitClient) (reply : Reply) (cs : List ExitClient) (i : ℕ)
    → (attempt_with o reply cs i).1 ≡ takes_of o reply
unfolding send
attempt_with-takes none reply cs i = refl
attempt_with-takes (some c) delivered cs i = ground arith
attempt_with-takes (some c) refused cs i = ground arith
attempt_with-takes (some c) unreachable cs i = ground arith
attempt_with-takes (some c) unserialized cs i = ground arith

-- What an attempt does to the clients: nothing, or it puts a client back as it was, or it marks one
-- that does not answer.
data Left (o : Option ExitClient) (reply : Reply) (cs : List ExitClient) (i : ℕ)
    : List ExitClient → Type 0 where
  same : Left o reply cs i cs
  back : (c : ExitClient) → o ≡ some c → Left o reply cs i (set cs i c)
  marked : (c : ExitClient) → reply ≡ unreachable → Left o reply cs i (set cs i c)

attempt_with-Left :
    (o : Option ExitClient) (reply : Reply) (cs : List ExitClient) (i : ℕ)
    → Left o reply cs i (attempt_with o reply cs i).0
unfolding send
attempt_with-Left none reply cs i = same
attempt_with-Left (some c) reply cs i = by_flag c.base_url c.healthy reply
  where
    by_flag :
        (url : List ℕ) (healthy : Bool) (reply : Reply)
        → let c : ExitClient = record { base_url = url; healthy = healthy } in
          Left (some c) reply cs i (attempt_with (some c) reply cs i).0
    by_flag url false reply = same
    by_flag url true delivered = back (record { base_url = url; healthy = true }) refl
    by_flag url true refused = back (record { base_url = url; healthy = true }) refl
    by_flag url true unreachable = marked (record { base_url = url; healthy = false }) refl
    by_flag url true unserialized = back (record { base_url = url; healthy = true }) refl

unanswered : (o : Option ExitClient) → takes_of o unreachable ≡ false
unanswered none = refl
unanswered (some c) = ground arith

module _ (replies : ℕ → Reply) where
  set-takes_back :
      (cs : List ExitClient) (i j : ℕ) (c : ExitClient)
      → client_at cs i ≡ some c
      → takes replies (set cs i c) j ≡ takes replies cs j
  set-takes_back cs i j c e = elim (client_at-set cs i j c) [
    | inl kept ↦ ap (λ (o : Option ExitClient). takes_of o (replies j)) kept
    | inr (here, put) ↦
        ap (λ (o : Option ExitClient). takes_of o (replies j))
          (put ∙ sym e ∙ ap (client_at cs) here)
  ]

  set-takes_marked :
      (cs : List ExitClient) (i j : ℕ) (c : ExitClient)
      → replies i ≡ unreachable
      → takes replies (set cs i c) j ≡ takes replies cs j
  set-takes_marked cs i j c e = elim (client_at-set cs i j c) [
    | inl kept ↦ ap (λ (o : Option ExitClient). takes_of o (replies j)) kept
    | inr (here, put) ↦
        let dead : replies j ≡ unreachable = ap replies (sym here) ∙ e in
        ap (takes_of (client_at (set cs i c) j)) dead
        ∙ unanswered (client_at (set cs i c) j)
        ∙ sym (unanswered (client_at cs j))
        ∙ sym (ap (takes_of (client_at cs j)) dead)
  ]

  -- An attempt changes neither the number of the clients nor which of them take the packet.
  pub attempt_keeps :
      (cs : List ExitClient) (i : ℕ)
      → (length (attempt replies cs i).0 ≡ length cs)
        × ((j : ℕ) → takes replies (attempt replies cs i).0 j ≡ takes replies cs j)
  attempt_keeps cs i =
      by_left (attempt replies cs i).0 (attempt_with-Left (client_at cs i) (replies i) cs i)
    where
      by_left :
          (after : List ExitClient)
          → Left (client_at cs i) (replies i) cs i after
          → (length after ≡ length cs) × ((j : ℕ) → takes replies after j ≡ takes replies cs j)
      by_left _ same = (refl, λ j. refl)
      by_left _ (back c e) = (length-set cs i c, λ j. set-takes_back cs i j c e)
      by_left _ (marked c e) = (length-set cs i c, λ j. set-takes_marked cs i j c e)
