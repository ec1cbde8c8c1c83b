-- ===== src/Tests/Daemon.antt =====
-- The authenticator and the signing keys at concrete inputs.
use apfsds_rs.Base.{
  ℕ, ◌≡◌, ◌⊎◌, ◌↔◌, refl, false, List, [], ◌∷◌, ◌++◌, some, ok, err, arith, length,
  length-replicate, replicate, ◌==◌,
}
use apfsds_rs.Base.Maps.{nat_eq, bytes_eq, DashMap, assoc_map}
use apfsds_rs.Base.Text.{is_utf8, split, parse_u64, digits}
use apfsds_rs.Base.Words.{i64_sub, to_le_bytes}
use apfsds_rs.Crypto.Hmac.{verify_with_timestamp, constant_time_compare}
use apfsds_rs.Crypto.Keys.{MlDsa, sign}
use apfsds_rs.Crypto.Replay.{contains, check_and_insert}
use apfsds_rs.Protocol.Auth.{AuthRequest}
use apfsds_rs.Daemon.Auth.{
  Authenticator, invalid_timestamp, nonce_reused, invalid_hmac, invalid_signature, Wire, from_secs,
  extract_user_id, verify, verify_and_consume_token,
}
use apfsds_rs.Daemon.Auth.Requests.{Timely, verify-accepts, verify-accepts_renamed}
use apfsds_rs.Daemon.Auth.Replays.{Call, request, tidy, call_all, verify-refuses_replay}
use apfsds_rs.Daemon.Auth.Tokens.{verify_and_consume_token-refuses}

abbrev first_number : List ℕ → ℕ
first_number [] = 0
first_number (n ∷ bytes) = n

-- Keys and signatures that are one number; a signature is the length of the message.
abbrev pub toy : MlDsa
toy = record {
  KeyPair = ℕ;
  VerifyingKey = ℕ;
  Signature = ℕ;
  from_seed = first_number;
  to_seed = λ k. k ∷ [];
  verifying_key = λ k. k;
  encode_key = λ k. k ∷ replicate 1951 0;
  decode_key = first_number;
  sign_bytes = λ k bytes. length bytes;
  encode_signature = λ s. s ∷ replicate 3308 0;
  decode_signature = λ bytes. some (first_number bytes);
  verify_signature = λ k bytes s. s == length bytes;
}

abbrev pub map : DashMap (List ℕ) ℕ
map = assoc_map (List ℕ) ℕ

-- A digest of 32 bytes.
abbrev pub mac : List ℕ → List ℕ → List ℕ
mac key message = replicate 32 (length message)

mac_digest : (key message : List ℕ) → length (mac key message) ≡ 32
mac_digest key message = length-replicate 32 (length message)

abbrev server : Authenticator ℕ (map.Map)
server = record {
  keypair = 3;
  hmac = record { secret = 5 ∷ [] };
  nonce_cache = record { seen = []; ttl = from_secs 120 };
  token_cache = record { seen = []; ttl = from_secs 120 };
  max_drift_ms = 30000;
  token_ttl_ms = 60000;
}

-- "42:1".
abbrev base : List ℕ
base = 52 ∷ 50 ∷ 58 ∷ 49 ∷ []

base_values :
    (extract_user_id base ≡ ok 42)
    × (extract_user_id (255 ∷ []) ≡ err invalid_hmac)
    × (extract_user_id (58 ∷ 49 ∷ []) ≡ err invalid_hmac)
unfolding extract_user_id is_utf8 split parse_u64 digits
base_values = (refl, refl, refl)

abbrev pub hello : AuthRequest
hello = record {
  hmac_base = base;
  hmac_signature = replicate 32 12;
  client_pk = [];
  nonce = 1 ∷ 2 ∷ [];
  timestamp = 1000000;
}

hello_accepted : (verify toy map mac server hello 1000500 5000000000).1 ≡ ok 42
unfolding verify check_and_insert verify_with_timestamp constant_time_compare extract_user_id
    is_utf8 split parse_u64 digits
hello_accepted = refl

verify-accepts_example : ((verify toy map mac server hello 1000500 5000000000).1 ≡ ok 42) ↔ (
    Timely toy map mac 1000500 (hello.timestamp)
    × (contains map (server.nonce_cache) (hello.nonce) 5000000000 ≡ false)
    × (hello.hmac_signature
        ≡ mac (server.hmac.secret) ((hello.hmac_base) ++ to_le_bytes 8 (hello.timestamp)))
    × (extract_user_id (hello.hmac_base) ≡ ok 42))
verify-accepts_example =
    verify-accepts toy map mac mac_digest server hello 1000500 5000000000 42 refl (omega arith)
      (omega arith) (omega arith) refl

other_unseen :
    contains map
      ((verify toy map mac server hello 1000500 5000000000).0.nonce_cache)
      (9 ∷ [])
      6000000000
    ≡ false
unfolding verify contains check_and_insert
other_unseen = refl

verify-accepts_renamed_example :
    (verify toy map mac
      (verify toy map mac server hello 1000500 5000000000).0
      (record hello { nonce = 9 ∷ [] })
      1001500
      6000000000).1
    ≡ ok 42
verify-accepts_renamed_example =
    verify-accepts_renamed toy map mac server hello 1000500 5000000000 42 (9 ∷ []) 1001500
      6000000000 refl (omega arith) (omega arith) (omega arith) (omega arith) (omega arith)
      hello_accepted (omega arith) other_unseen

abbrev between : List Call
between = tidy 6000000000 ∷ request hello 1001600 6100000000 ∷ []

verify-refuses_replay_example :
    let a' = call_all toy map mac (verify toy map mac server hello 1000500 5000000000).0 between in
    ((verify toy map mac a' hello 1002500 7000000000).1 ≡ err nonce_reused)
    ⊎ ((verify toy map mac a' hello 1002500 7000000000).1
        ≡ err (invalid_timestamp (i64_sub 1002500 (hello.timestamp))))
verify-refuses_replay_example =
    verify-refuses_replay toy map mac server hello 1000500 5000000000 1002500 7000000000 42 between
      refl refl (omega arith) (omega arith) (omega arith) (omega arith, (omega arith, tt))
      (omega arith) hello_accepted

abbrev pub archive : Wire
archive = record {
  base64_encode = λ bytes. bytes;
  base64_decode = λ bytes. some bytes;
  Archived = List ℕ;
  to_bytes = λ p. ok (p.user_id ∷ p.valid_until ∷ p.nonce);
  access = λ bytes. ok bytes;
  user_id = first_number;
  nonce = λ bytes. bytes;
  valid_until = first_number;
}

-- A token as `generate_token` builds it.
abbrev token : List ℕ
token = (42 ∷ 1060500 ∷ 1 ∷ 2 ∷ []) ++ sign toy 3 (42 ∷ 1060500 ∷ 1 ∷ 2 ∷ [])

verify_and_consume_token-refuses_example :
    verify_and_consume_token toy map archive server token 1000600 5100000000
    ≡ (server, err invalid_signature)
verify_and_consume_token-refuses_example =
    verify_and_consume_token-refuses toy map archive server token 1000600 5100000000
