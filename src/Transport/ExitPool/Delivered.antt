-- ===== src/Transport/ExitPool/Delivered.antt =====
-- Which reply a packet met that was forwarded.
use apfsds_rs.Base.{
  ℕ, ◌≡◌, refl, ap, sym, ◌∙◌, true, List, Option, none, some, Result, ok, err, ok_injective, length,
  arith, ◌==◌, Bool-cases, inl, inr,
}
use apfsds_rs.Base.Maps.{nat_eq, assoc_insert}
use apfsds_rs.Transport.ExitPool.{
  ExitClient, ExitClientError, connection_failed, GroupPool, Reply, delivered, refused, unreachable,
  unserialized, client_at, serving, forward_in, forward,
}
use apfsds_rs.Transport.ExitPool.Attempts.{takes_of}
use apfsds_rs.Transport.ExitPool.Rotation.{Served, forward_in-Served}

takes_of-delivered :
    (o : Option ExitClient) (reply : Reply) → takes_of o reply ≡ true → reply ≡ delivered
takes_of-delivered none reply h = cc
takes_of-delivered (some c) delivered h = refl
takes_of-delivered (some c) refused h = ground arith
takes_of-delivered (some c) unreachable h = ground arith
takes_of-delivered (some c) unserialized h = ground arith

module _ (replies : ℕ → Reply) where
  served-delivered :
      (g : GroupPool) (x : GroupPool × Result ExitClientError ℕ) (i : ℕ)
      → Served replies g x
      → x.1 ≡ ok i
      → replies i ≡ delivered
  served-delivered g (g', err e) i s h = cc
  served-delivered g (g', ok j) i (a, lt, place, good, before) h =
      ap replies (sym (ok_injective j i h))
      ∙ takes_of-delivered (client_at g.clients j) (replies j) good

  forward_in_empty :
      (g : GroupPool)
      → (length g.clients == 0) ≡ true
      → (forward_in replies g).1 ≡ err connection_failed
  unfolding forward_in
  forward_in_empty g h = rw h refl

  forward_in-delivered :
      (g : GroupPool) (i : ℕ) → (forward_in replies g).1 ≡ ok i → replies i ≡ delivered
  forward_in-delivered g i h = elim (Bool-cases (length g.clients == 0)) [
    | inl empty ↦
        let failed : err connection_failed ≡ ok i = sym (forward_in_empty g empty) ∙ h in cc
    | inr filled ↦
        served-delivered g (forward_in replies g) i (forward_in-Served replies g (ground arith)).0 h
  ]

  -- The node of a packet that was forwarded has answered with success.
  pub forward-delivered :
      (groups : List (ℕ × GroupPool)) (group_id : ℕ) (i : ℕ)
      → (forward replies groups group_id).1 ≡ ok i
      → replies i ≡ delivered
  unfolding forward
  forward-delivered groups group_id i h = by_group (serving groups group_id) h
    where
      by_group :
          (o : Option (ℕ × GroupPool))
          → (elim o as (λ _. List (ℕ × GroupPool) × Result ExitClientError ℕ) [
            | none ↦ (groups, err connection_failed)
            | some (id, g) ↦
                let sent = forward_in replies g in (assoc_insert id sent.0 groups, sent.1)
          ]).1
            ≡ ok i
          → replies i ≡ delivered
      by_group none h = cc
      by_group (some (id, g)) h = forward_in-delivered g i h
