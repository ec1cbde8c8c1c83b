-- ===== src/Crypto/Hmac/Binding.antt =====
-- What a tag that verifies says of the data and the timestamp.
use apfsds_rs.Base.{
  ℕ, ◌≡◌, ◌≢◌, ◌↔◌, ◌⊎◌, inl, inr, ap, sym, ◌∙◌, refl, List, ◌++◌, ok, arith, Bool-cases, length,
  take, drop, take-append, drop-append, length-append,
}
use apfsds_rs.Base.Maps.{bytes_eq}
use apfsds_rs.Base.Words.{
  IsU64, to_le_bytes, from_le_bytes, length-to_le_bytes, from_le_bytes-to_le_bytes,
}
use apfsds_rs.Crypto.Hmac.{HmacAuthenticator, compute_with_timestamp, verify_with_timestamp, verify}
use apfsds_rs.Crypto.Hmac.Compare.{constant_time_compare_iff}

stamped_length :
    (b c : List ℕ) (t u : ℕ) → b ++ to_le_bytes 8 t ≡ c ++ to_le_bytes 8 u → length b ≡ length c
stamped_length b c t u e = omega (
  arith,
  ap length e,
  length-append b (to_le_bytes 8 t),
  length-append c (to_le_bytes 8 u),
  length-to_le_bytes 8 t,
  length-to_le_bytes 8 u,
)

-- The bytes under the tag determine the data and the timestamp.
stamped-injective :
    (b c : List ℕ) (t u : ℕ)
    → IsU64 t
    → IsU64 u
    → b ++ to_le_bytes 8 t ≡ c ++ to_le_bytes 8 u
    → (b ≡ c) × (t ≡ u)
stamped-injective b c t u ht hu e = (front, stamp)
  where
    same : length b ≡ length c
    same = stamped_length b c t u e

    front : b ≡ c
    front =
        sym (take-append (length b) b (to_le_bytes 8 t) refl)
        ∙ ap (take (length b)) e
        ∙ take-append (length b) c (to_le_bytes 8 u) same

    back : to_le_bytes 8 t ≡ to_le_bytes 8 u
    back =
        sym (drop-append (length b) b (to_le_bytes 8 t) refl)
        ∙ ap (drop (length b)) e
        ∙ drop-append (length b) c (to_le_bytes 8 u) same

    stamp : t ≡ u
    stamp =
        sym (from_le_bytes-to_le_bytes 8 t (omega arith))
        ∙ ap from_le_bytes back
        ∙ from_le_bytes-to_le_bytes 8 u (omega arith)

module _ (mac : List ℕ → List ℕ → List ℕ) (digest : (k m : List ℕ) → length (mac k m) ≡ 32)
    (h : HmacAuthenticator) where
  -- Digests have 32 bytes. A 32-byte tag verifies exactly when it is the MAC: of the data, and of the data followed by
  -- the eight bytes of the timestamp.
  pub verify_iff :
      (bytes tag : List ℕ) (t : ℕ)
      → length tag ≡ 32
      → ((verify mac h bytes tag ≡ ok tt) ↔ (tag ≡ mac h.secret bytes))
        × ((verify_with_timestamp mac h bytes t tag ≡ ok tt)
            ↔ (tag ≡ mac h.secret (bytes ++ to_le_bytes 8 t)))
  unfolding verify verify_with_timestamp
  verify_iff bytes tag t len = ground (
    arith,
    constant_time_compare_iff (mac h.secret bytes) tag (digest _ _) len,
    constant_time_compare_iff (mac h.secret (bytes ++ to_le_bytes 8 t)) tag (digest _ _) len,
  )

  -- Two messages with one MAC.
  abbrev pub Collision : Type 0
  Collision = (m : List ℕ) × (n : List ℕ) × (m ≢ n) × (mac h.secret m ≡ mac h.secret n)

  -- Digests have 32 bytes and timestamps are below 2 ^ 64. A tag made for some data and timestamp verifies for no other pair, unless it shows two
  -- messages with the same MAC.
  pub verify_with_timestamp-binds :
      (b c : List ℕ) (t u : ℕ)
      → IsU64 t
      → IsU64 u
      → verify_with_timestamp mac h c u (compute_with_timestamp mac h b t) ≡ ok tt
      → ((b ≡ c) × (t ≡ u)) ⊎ Collision
  unfolding compute_with_timestamp
  verify_with_timestamp-binds b c t u ht hu e =
      let m = b ++ to_le_bytes 8 t in
      let n = c ++ to_le_bytes 8 u in
      let macs : mac h.secret m ≡ mac h.secret n =
        (verify_iff c (mac h.secret m) u (digest _ _)).1.0 e in
      elim (Bool-cases (bytes_eq.beq m n)) [
        | inl same ↦ inl (stamped-injective b c t u ht hu ((bytes_eq.beq_iff m n).0 same))
        | inr apart ↦ inr (m, n, (λ p. ground (arith, bytes_eq.beq_iff m n)), macs)
      ]
