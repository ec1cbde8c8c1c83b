-- ===== src/Daemon/Auth/Tokens.antt =====
-- The one-time tokens.
use apfsds_rs.Base.{
  ℕ, ◌-◌, ◌≡◌, ◌≢◌, refl, inl, inr, false, List, Option, none, some, Result, ok, err, ◌>>◌, arith,
  length, take, drop, length-drop, ltb, Bool-cases,
}
use apfsds_rs.Base.Maps.{DashMap, bytes_eq}
use apfsds_rs.Crypto.Keys.{MlDsa, KeyError, verify_with_pk, verify_with_pk_size}
use apfsds_rs.Daemon.Auth.{
  Authenticator, AuthError, invalid_signature, Wire, map_err, mldsa65_signature_size, public_key,
  open_token, verify_and_consume_token,
}

module _ (m : MlDsa) (d : DashMap (List ℕ) ℕ) (w : Wire) where
  refused_key :
      (r : Result KeyError (Unit {0})) (s : Result AuthError w.Archived)
      → r ≢ ok tt
      → (map_err (λ _. invalid_signature) r >> s) ≡ err invalid_signature
  refused_key (ok tt) s h = absurd (h refl)
  refused_key (err x) s h = refl

  -- What is split off has 3293 bytes, and no signature has that size.
  wrong_size :
      (pk decoded : List ℕ)
      → ltb (length decoded) mldsa65_signature_size ≡ false
      → let middle = length decoded - mldsa65_signature_size in
        verify_with_pk m pk (take middle decoded) (drop middle decoded) ≢ ok tt
  wrong_size pk decoded h e =
      let middle : ℕ = length decoded - mldsa65_signature_size in
      ground (
        arith,
        verify_with_pk_size m pk (take middle decoded) (drop middle decoded) e,
        length-drop middle decoded,
      )

  refused_decoded :
      (a : Authenticator m.KeyPair d.Map) (token : List ℕ) (o : Option (List ℕ))
      → w.base64_decode token ≡ o
      → open_token m d w a token ≡ err invalid_signature
  unfolding open_token
  refused_decoded a token none e = rw e
  refused_decoded a token (some decoded) e =
      elim (Bool-cases (ltb (length decoded) mldsa65_signature_size)) [
        | inl short ↦ rw (e, short)
        | inr long ↦ rw (e, long) (refused_key _ _ (wrong_size (public_key m d a) decoded long))
      ]

  -- No token is ever accepted: whatever bytes are presented, those of `generate_token` among them,
  -- at any time, the answer is that the signature is invalid, and nothing changes.
  pub verify_and_consume_token-refuses :
      (a : Authenticator m.KeyPair d.Map) (token : List ℕ) (now t : ℕ)
      → verify_and_consume_token m d w a token now t ≡ (a, err invalid_signature)
  unfolding verify_and_consume_token
  verify_and_consume_token-refuses a token now t =
      rw (verify_and_consume_token, refused_decoded a token (w.base64_decode token) refl)
