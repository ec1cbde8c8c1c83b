-- ===== src/Crypto/Replay/Race.antt =====
-- `check_and_insert` takes the map's lock twice: once to look, once to insert. Two threads that
-- present one key, with their steps in any order.
use apfsds_rs.Base.{ℕ, ◌+◌, ◌<◌, ◌≡◌, Bool, true, false, List, [], ◌∷◌, arith, if◌then◌else◌}
use apfsds_rs.Base.Maps.{Eq, DashMap, beq_refl}
use apfsds_rs.Crypto.Replay.{ReplayCache, check_and_insert, is_live}

-- Where a call stands: before its look, before its insert, or done with an answer.
pub data Phase : Type 0 where
  start : Phase
  looked : ℕ → Phase
  done : Bool → Phase

module _ {K : Type 0} ⦃e : Eq K⦄ (d : DashMap K ℕ) (nonce : K) where
  -- One step of a call whose clock reads `now`.
  unfoldable pub advance : ℕ → ReplayCache d.Map × Phase → ReplayCache d.Map × Phase
  advance now (c, start) =
      if is_live (d.get nonce c.seen) now then (c, done false) else (c, looked (now + c.ttl))
  advance now (c, looked expiry) = (record c { seen = d.insert nonce expiry c.seen }, done true)
  advance now (c, done b) = (c, done b)

  -- `true` lets the first thread take a step, `false` the second.
  unfoldable pub interleave :
      ℕ → List Bool → ReplayCache d.Map → Phase → Phase → ReplayCache d.Map × Phase × Phase
  interleave now [] c p q = (c, p, q)
  interleave now (true ∷ ts) c p q = let r = advance now (c, p) in interleave now ts r.0 r.1 q
  interleave now (false ∷ ts) c p q = let r = advance now (c, q) in interleave now ts r.0 p r.1

  -- Two steps of one thread are the whole call.
  pub advance-advance :
      (c : ReplayCache d.Map) (now : ℕ)
      → let r = check_and_insert d c nonce now in
        advance now (advance now (c, start)) ≡ (r.0, done r.1)
  unfolding advance check_and_insert
  advance-advance c now = ground arith

  -- With a time to live and a key that is not live in the cache: one call after the other, the second is refused; if both
  -- look before either inserts, both are accepted.
  pub interleave_both :
      (c : ReplayCache d.Map) (now : ℕ)
      → 0 < c.ttl
      → is_live (d.get nonce c.seen) now ≡ false
      → let apart = interleave now (true ∷ true ∷ false ∷ false ∷ []) c start start in
        let mixed = interleave now (true ∷ false ∷ true ∷ false ∷ []) c start start in
        (apart.1 ≡ done true)
        × (apart.2 ≡ done false)
        × (mixed.1 ≡ done true)
        × (mixed.2 ≡ done true)
  unfolding interleave advance
  interleave_both c now pos new =
      let held = d.get-insert nonce nonce (now + c.ttl) c.seen in
      ground (arith, held, beq_refl nonce)
