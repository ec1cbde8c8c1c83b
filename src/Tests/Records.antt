-- ===== src/Tests/Records.antt =====
-- Records of the handshake as numbers and arrays.
use apfsds_rs.Base.{
  ℕ, ◌≡◌, refl, List, [], ◌∷◌, ◌++◌, Option, none, some, Result, ok, err, ok_injective, length,
  take, drop, take-append, drop-append,
}
use apfsds_rs.Base.Maps.{bytes_eq, nat_eq}
use apfsds_rs.Base.Rkyv.{Rkyv, RoundTrips}
use apfsds_rs.Protocol.Auth.{AuthRequest, AuthResponse, EmergencyWarning, TokenPayload}

-- Records of numbers and one array.
abbrev read_request : List ℕ → Result (List ℕ) AuthRequest
read_request (t ∷ n ∷ m ∷ l ∷ bytes) = ok (record {
  hmac_base = take n bytes;
  hmac_signature = take m (drop n bytes);
  client_pk = take l (drop m (drop n bytes));
  nonce = drop l (drop m (drop n bytes));
  timestamp = t;
})
read_request _ = err []

abbrev pub write_request : AuthRequest → List ℕ
write_request a =
    a.timestamp ∷ length a.hmac_base ∷ length a.hmac_signature ∷ length a.client_pk ∷ a.hmac_base
    ++ (a.hmac_signature ++ (a.client_pk ++ a.nonce))

abbrev pub request_rkyv : Rkyv AuthRequest
request_rkyv = record {
  Archived = List ℕ;
  to_bytes = λ a. ok (write_request a);
  access = λ bytes. ok bytes;
  deserialize = read_request;
}

request_back : (a : AuthRequest) → read_request (write_request a) ≡ ok a
request_back a = rw (
  take-append (length a.hmac_base) a.hmac_base (a.hmac_signature ++ (a.client_pk ++ a.nonce)) refl,
  drop-append (length a.hmac_base) a.hmac_base (a.hmac_signature ++ (a.client_pk ++ a.nonce)) refl,
  take-append (length a.hmac_signature) a.hmac_signature (a.client_pk ++ a.nonce) refl,
  drop-append (length a.hmac_signature) a.hmac_signature (a.client_pk ++ a.nonce) refl,
  take-append (length a.client_pk) a.client_pk a.nonce refl,
  drop-append (length a.client_pk) a.client_pk a.nonce refl,
)

pub request_rkyv-RoundTrips : RoundTrips request_rkyv
request_rkyv-RoundTrips a bytes e = by_bytes bytes e
  where
    by_bytes : (b : List ℕ) → request_rkyv.to_bytes a ≡ ok b → read_request b ≡ ok a
    by_bytes b h = rw (← ok_injective (write_request a) b h) (request_back a)

abbrev read_token : List ℕ → Result (List ℕ) TokenPayload
read_token (u ∷ i ∷ v ∷ nonce) =
    ok (record { user_id = u; nonce = nonce; issued_at = i; valid_until = v })
read_token _ = err []

abbrev pub token_rkyv : Rkyv TokenPayload
token_rkyv = record {
  Archived = List ℕ;
  to_bytes = λ p. ok (p.user_id ∷ p.issued_at ∷ p.valid_until ∷ p.nonce);
  access = λ bytes. ok bytes;
  deserialize = read_token;
}

pub token_rkyv-RoundTrips : RoundTrips token_rkyv
token_rkyv-RoundTrips p bytes e = by_bytes bytes e
  where
    by_bytes : (b : List ℕ) → token_rkyv.to_bytes p ≡ ok b → read_token b ≡ ok p
    by_bytes b h = rw (← ok_injective _ b h) refl

-- A response without a warning.
abbrev write_response : AuthResponse → Option EmergencyWarning → Result (List ℕ) (List ℕ)
write_response r none = ok (r.valid_until ∷ r.token)
write_response r (some w) = err []

abbrev read_response : List ℕ → Result (List ℕ) AuthResponse
read_response (v ∷ token) = ok (record { token = token; valid_until = v; warning = none })
read_response _ = err []

abbrev pub response_rkyv : Rkyv AuthResponse
response_rkyv = record {
  Archived = List ℕ;
  to_bytes = λ r. write_response r r.warning;
  access = λ bytes. ok bytes;
  deserialize = read_response;
}

with_warning : AuthResponse → Option EmergencyWarning → AuthResponse
with_warning r w = record r { warning = w }

response_back :
    (r : AuthResponse) (w : Option EmergencyWarning) (bytes : List ℕ)
    → write_response r w ≡ ok bytes
    → read_response bytes ≡ ok (with_warning r w)
unfolding with_warning
response_back r none bytes e = rw (← ok_injective _ bytes e) refl
response_back r (some w) bytes e = absurd (cc)

pub response_rkyv-RoundTrips : RoundTrips response_rkyv
unfolding with_warning
response_rkyv-RoundTrips r bytes e = response_back r r.warning bytes e
