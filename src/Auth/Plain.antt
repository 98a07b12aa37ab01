-- ===== src/Auth/Plain.antt =====
-- Tokens and hashes that can be read, for the examples: they do what is documented of JwtService and
-- of bcrypt.
use mesyaf_market.Prelude.{refl, some, str_eq, eq_iff}
use mesyaf_market.Auth.{Bcrypt, DocumentedBcrypt, Jwt, DocumentedJwt, Claims}

abbrev pub open_tokens : Jwt
open_tokens = record { Token = Claims; sign = λ c now. c; verify = λ t now. some t }

pub open_tokens-IsDocumented : DocumentedJwt open_tokens
open_tokens-IsDocumented = record { verify-sign_lem = λ c now. refl }

abbrev pub plain_hash : Bcrypt
plain_hash = record { hash = λ password salt. password; compare = λ a b. str_eq a b }

pub plain_hash-IsDocumented : DocumentedBcrypt plain_hash
plain_hash-IsDocumented = record {
  compare-hash_lem = λ password salt. (eq_iff password password).1 refl;
}
