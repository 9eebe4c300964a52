-- ===== src/Examples/Access.antt =====
-- The theorems on authentication at a toy instance of Node's crypto.
use stellar_kraal.Common.{
  ◌<>◌, str_eq, if◌then◌else◌, str_eq_iff, get, values, ◌≡◌, refl, ◌≢◌, none, some, [], ◌∷◌, arith,
}
use stellar_kraal.Auth.ApiKey.{bearer, forbidden, create_key, authenticate_api_key, revoke_key}
use stellar_kraal.Auth.Tokens.{
  Crypto, CryptoLaws, Payload, claims, sign_jwt, verify_parts, verify_jwt, Sessions, Ttls, denied,
  issue_tokens, login_with, refresh,
}
use stellar_kraal.Auth.Sessions.{verify_jwt-sign_jwt, login_with-once, refresh-rotates, cookie_of}
use stellar_kraal.Auth.Keys.{key_lifecycle}
use stellar_kraal.Auth.Gate.{
  Request, Method, pass, user_of, needs_token, gate_bearer, jwt_middleware,
}

abbrev pub ticket : Payload
ticket = record { sub = "GA"; iat = 1; exp = 900 }

-- Hashing prefixes, a payload is coded by its subject, and every signature is "m".
abbrev pub toy : Crypto
toy = record {
  hash_token = λ t. "#" <> t;
  header = "h";
  hmac = λ t. "m";
  encode = λ p. p.sub;
  decode = λ t. some (record { sub = t; iat = 1; exp = 900 });
  split_dots = λ t. if str_eq t "h.GA.m" then "h" ∷ "GA" ∷ "m" ∷ [] else [];
  verify_signature = λ w n s. some (str_eq s "good");
}

toy_laws : CryptoLaws toy ticket
toy_laws = record { decode-encode = refl; split_token = refl }

verify_jwt-sign_jwt_example : verify_jwt toy 5000 (sign_jwt toy ticket) ≡ claims ticket
verify_jwt-sign_jwt_example = verify_jwt-sign_jwt toy 5000 ticket toy_laws

abbrev pub short_ttls : Ttls
short_ttls = record { access_ttl_ms = 900000; refresh_ttl_ms = 5000000 }

abbrev pub open_sessions : Sessions
open_sessions = record {
  challenges = ("n1", 9000) ∷ [];
  refresh_tokens = ("#r1", record { public_key = "GA"; exp = 8000 }) ∷ [];
}

login_with-once_example :
    login_with toy short_ttls 7000 "r3" "GB" "n1" "good"
      (login_with toy short_ttls 6000 "r2" "GA" "n1" "good" open_sessions).1
    ≡ (
      denied 401 "Invalid or expired challenge",
      (login_with toy short_ttls 6000 "r2" "GA" "n1" "good" open_sessions).1,
    )
login_with-once_example =
    login_with-once toy short_ttls 6000 7000 "r2" "r3" "GA" "GB" "n1" "good" "good" open_sessions
      (omega arith)

other_hash : toy.hash_token "r1" ≢ toy.hash_token "r2"
other_hash e = ground (arith, (str_eq_iff "#r1" "#r2").1 e)

refresh-rotates_example :
    let s' = (refresh toy short_ttls 6000 "r2" (some "r1") open_sessions).1 in
    (cookie_of (refresh toy short_ttls 6000 "r2" (some "r1") open_sessions).0 ≡ some "r2")
    × (refresh toy short_ttls 7000 "r3" (some "r1") s' ≡ (denied 401 "INVALID_TOKEN", s'))
    × ((refresh toy short_ttls 7000 "r3" (some "r2") s').0
        ≡ (issue_tokens toy short_ttls 7000 "r3" "GA" open_sessions).0)
unfolding get
refresh-rotates_example =
    refresh-rotates toy short_ttls 6000 7000 "r2" "r3" "r1"
      (record { public_key = "GA"; exp = 8000 }) open_sessions refl (omega arith) other_hash
      (omega arith)

key_lifecycle_example :
    let keys' = (create_key toy.hash_token 50 "sk_1" "k1" (some "GA") []).1 in
    (authenticate_api_key toy.hash_token (bearer "sk_1") keys' ≡ some "GA")
    × (revoke_key 60 "k1" (some "GB") keys' ≡ (forbidden, keys'))
    × (authenticate_api_key toy.hash_token (bearer "sk_1") (revoke_key 60 "k1" (some "GA") keys').1
        ≡ none)
unfolding values
key_lifecycle_example =
    key_lifecycle toy.hash_token 50 60 "sk_1" "k1" "GA" "GB" [] refl refl refl refl refl tt

abbrev pub put_loan : Request
put_loan = record {
  method = Method.http_put;
  path = "api" ∷ "loans" ∷ "l1" ∷ "repay" ∷ [];
  authorization = bearer "h.GA.m";
}

passes : jwt_middleware toy 5000 [] put_loan ≡ pass (user_of "GA")
unfolding jwt_middleware needs_token gate_bearer verify_jwt verify_parts
passes = refl
