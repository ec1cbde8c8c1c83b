-- ===== src/Crypto/Replay/Spec.antt =====
-- The cache against a machine that never forgets: it keeps the time of each key's last acceptance.
use apfsds_rs.Base.{
  ℕ, ◌+◌, ◌≤◌, ◌≡◌, refl, Bool, true, false, not, List, [], ◌∷◌, Option, none, some, arith, ltb, ap,
  Bool-cases, if◌then◌else◌, inl, inr,
}
use apfsds_rs.Base.Maps.{Eq, DashMap}
use apfsds_rs.Crypto.Replay.{ReplayCache, new, check_and_insert, cleanup, is_live}
use apfsds_rs.Crypto.Replay.Window.{Event, check, clean, time_of}

-- The events happen one after the other, from time `t` on.
abbrev pub Ordered : {K : Type 0} → ℕ → List (Event K) → Type 0
Ordered t [] = Unit
Ordered t (v ∷ vs) = (t ≤ time_of v) × Ordered (time_of v) vs

-- An acceptance at `a` bars the key while `t < a + ttl`.
abbrev pub is_barred : ℕ → Option ℕ → ℕ → Bool
is_barred ttl none t = false
is_barred ttl (some a) t = ltb t (a + ttl)

module _ {K : Type 0} ⦃e : Eq K⦄ where
  abbrev pub note : (K → Option ℕ) → K → ℕ → K → Option ℕ
  note last k t j = if e.beq k j then some t else last j

  -- The answers of the checks, by the specification.
  abbrev pub expected : ℕ → (K → Option ℕ) → List (Event K) → List Bool
  expected ttl last [] = []
  expected ttl last (clean t ∷ vs) = expected ttl last vs
  expected ttl last (check k t ∷ vs) =
      let barred = is_barred ttl (last k) t in
      not barred ∷ expected ttl (if barred then last else note last k t) vs

module _ {K : Type 0} ⦃e : Eq K⦄ (d : DashMap K ℕ) where
  -- The answers of the checks, by the cache.
  abbrev pub answers : ReplayCache d.Map → List (Event K) → List Bool
  answers c [] = []
  answers c (clean t ∷ vs) = answers (cleanup d c t) vs
  answers c (check k t ∷ vs) = let r = check_and_insert d c k t in r.1 ∷ answers r.0 vs

  Agrees : ReplayCache d.Map → (K → Option ℕ) → ℕ → Type 0
  Agrees c last now =
      (k : K) (t : ℕ) → now ≤ t → is_live (d.get k c.seen) t ≡ is_barred c.ttl (last k) t

  clean-Agrees :
      (c : ReplayCache d.Map) (last : K → Option ℕ) (now t : ℕ)
      → now ≤ t
      → Agrees c last now
      → Agrees (cleanup d c t) last t
  unfolding Agrees cleanup
  clean-Agrees c last now t le a k u h =
      rw (d.get-retain (λ _ expiry. ltb t expiry) k c.seen) (ground (arith, a k u (omega arith)))

  accepted-Agrees :
      (c : ReplayCache d.Map) (last : K → Option ℕ) (now t : ℕ) (k : K)
      → now ≤ t
      → Agrees c last now
      → Agrees (record c { seen = d.insert k (t + c.ttl) c.seen }) (note last k t) t
  unfolding Agrees
  accepted-Agrees c last now t k le a j u h =
      rw (d.get-insert k j (t + c.ttl) c.seen) (ground (arith, a j u (omega arith)))

  later-Agrees :
      (c : ReplayCache d.Map) (last : K → Option ℕ) (now t : ℕ)
      → now ≤ t
      → Agrees c last now
      → Agrees c last t
  unfolding Agrees
  later-Agrees c last now t le a k u h = a k u (omega arith)

  check_live :
      (c : ReplayCache d.Map) (k : K) (t : ℕ)
      → is_live (d.get k c.seen) t ≡ true
      → check_and_insert d c k t ≡ (c, false)
  unfolding check_and_insert
  check_live c k t h = rw h

  check_new :
      (c : ReplayCache d.Map) (k : K) (t : ℕ)
      → is_live (d.get k c.seen) t ≡ false
      → check_and_insert d c k t ≡ (record c { seen = d.insert k (t + c.ttl) c.seen }, true)
  unfolding check_and_insert
  check_new c k t h = rw h

  answers-Agrees :
      (vs : List (Event K)) (c : ReplayCache d.Map) (last : K → Option ℕ) (now : ℕ)
      → Ordered now vs
      → Agrees c last now
      → answers c vs ≡ expected c.ttl last vs
  unfolding cleanup
  answers-Agrees [] c last now o a = refl
  answers-Agrees (clean t ∷ vs) c last now (le, o) a =
      answers-Agrees vs (cleanup d c t) last t o (clean-Agrees c last now t le a)
  answers-Agrees (check k t ∷ vs) c last now (le, o) a =
      let same : is_live (d.get k c.seen) t ≡ is_barred c.ttl (last k) t =
        unfold Agrees in a k t le in
      elim (Bool-cases (is_live (d.get k c.seen) t)) [
        | inl live ↦
            rw (check_live c k t live, ← same, live)
              (ap (◌∷◌ false) (answers-Agrees vs c last t o (later-Agrees c last now t le a)))
        | inr fresh ↦
            rw (check_new c k t fresh, ← same, fresh)
              (ap (◌∷◌ true) (
                answers-Agrees vs (record c { seen = d.insert k (t + c.ttl) c.seen })
                  (note last k t) t o (accepted-Agrees c last now t k le a)))
      ]

  -- On any sequence of checks and cleanups in the order of time, a new cache gives the answers of
  -- the machine that remembers every acceptance: a check passes exactly when its key was not
  -- accepted within the last `ttl`. Cleanups are not visible.
  pub answers-eq-expected :
      (ttl now : ℕ) (vs : List (Event K))
      → Ordered now vs
      → answers (new d ttl) vs ≡ expected ttl (λ _. none) vs
  unfolding new
  answers-eq-expected ttl now vs o =
      answers-Agrees vs (record { seen = d.empty; ttl = ttl }) (λ _. none) now o
        (unfold Agrees in λ k t h. rw (d.get-empty k))
