-- ===== src/Crypto/Replay/Window.antt =====
-- A key that was accepted is refused for the whole of its time to live.
use apfsds_rs.Base.{ℕ, ◌+◌, ◌≤◌, ◌<◌, ◌≡◌, true, false, List, [], ◌∷◌, some, arith, ltb, All}
use apfsds_rs.Base.Maps.{Eq, DashMap, beq_refl}
use apfsds_rs.Crypto.Replay.{ReplayCache, check_and_insert, contains, cleanup}

-- What may happen to a cache, at a time.
pub data Event (K : Type 0) : Type 0 where
  check : K → ℕ → Event K
  clean : ℕ → Event K

abbrev pub time_of : {K : Type 0} → Event K → ℕ
time_of (check k t) = t
time_of (clean t) = t

module _ {K : Type 0} ⦃e : Eq K⦄ (d : DashMap K ℕ) where
  unfoldable pub apply : ReplayCache d.Map → Event K → ReplayCache d.Map
  apply c (check k t) = (check_and_insert d c k t).0
  apply c (clean t) = cleanup d c t

  unfoldable pub apply_all : ReplayCache d.Map → List (Event K) → ReplayCache d.Map
  apply_all c [] = c
  apply_all c (v ∷ vs) = apply_all (apply c v) vs

  -- The key is refused up to and at time `t`.
  abbrev pub HeldAt : ReplayCache d.Map → K → ℕ → Type 0
  HeldAt c k t = (x : ℕ) × (d.get k c.seen ≡ some x) × (t < x)

  pub apply-HeldAt :
      (c : ReplayCache d.Map) (k : K) (t : ℕ) (v : Event K)
      → time_of v ≤ t
      → HeldAt c k t
      → HeldAt (apply c v) k t
  unfolding apply check_and_insert cleanup
  apply-HeldAt c k t (check j now) le (x, g, lt) =
      (x, ground (arith, d.get-insert j k (now + c.ttl) c.seen, e.beq_iff j k), lt)
  apply-HeldAt c k t (clean now) le (x, g, lt) =
      (x, rw (d.get-retain (λ _ expiry. ltb now expiry) k c.seen, g) (ground arith), lt)

  apply_all-HeldAt :
      (vs : List (Event K)) (c : ReplayCache d.Map) (k : K) (t : ℕ)
      → All (λ v. time_of v ≤ t) vs
      → HeldAt c k t
      → HeldAt (apply_all c vs) k t
  unfolding apply_all
  apply_all-HeldAt [] c k t le h = h
  apply_all-HeldAt (v ∷ vs) c k t (l, le) h =
      apply_all-HeldAt vs (apply c v) k t le (apply-HeldAt c k t v l h)

  pub accepted-HeldAt :
      (c : ReplayCache d.Map) (k : K) (t0 t : ℕ)
      → (check_and_insert d c k t0).1 ≡ true
      → t < t0 + c.ttl
      → HeldAt (check_and_insert d c k t0).0 k t
  unfolding check_and_insert
  accepted-HeldAt c k t0 t acc lt =
      (t0 + c.ttl, ground (arith, d.get-insert k k (t0 + c.ttl) c.seen, beq_refl k), lt)

  -- Once a key is accepted at `t0`, whatever checks and cleanups follow, the key is refused at
  -- every later time before `t0 + ttl`, and `contains` says that it was seen.
  pub check_and_insert-refuses_replay :
      (c : ReplayCache d.Map) (k : K) (t0 t : ℕ) (vs : List (Event K))
      → (check_and_insert d c k t0).1 ≡ true
      → All (λ v. time_of v ≤ t) vs
      → t < t0 + c.ttl
      → let c' = apply_all (check_and_insert d c k t0).0 vs in
        ((check_and_insert d c' k t).1 ≡ false) × (contains d c' k t ≡ true)
  check_and_insert-refuses_replay c k t0 t vs acc le lt =
      let (x, g, after) =
        apply_all-HeldAt vs (check_and_insert d c k t0).0 k t le
          (accepted-HeldAt c k t0 t acc lt) in
      (unfold check_and_insert in rw g (ground arith), unfold contains in rw g (ground arith))
