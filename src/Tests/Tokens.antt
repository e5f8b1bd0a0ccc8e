-- ===== src/Tests/Tokens.antt =====
-- A stand-in for bcrypt and jsonwebtoken, which the tests run with: a hash is the password itself,
-- a token tells its expiry, its secret and its claims.
use backend_assessment_chall.Prelude.{
  Bool, Option, [], arith, false, if◌then◌else◌, ite, ltb, none, some, true, ℕ, ◌+◌, ◌==◌, ◌||◌,
  ◌∷◌, ◌≡◌,
}
use backend_assessment_chall.Auth.Types.{
  AccessTokenPayload, Claims, Crypto, JwtConfig, RefreshTokenPayload,
}
use backend_assessment_chall.Prelude.Text.{Text, codes, text_discrete}
use backend_assessment_chall.Schema.{Role}
use backend_assessment_chall.Tests.Codec.{get_text, get_text-put_text, put_text}
use backend_assessment_chall.World.{World}

unfoldable pub toy_hash : World → Text → Text
toy_hash w p = p

unfoldable pub toy_compare : Text → Text → Bool
toy_compare p h = ite (text_discrete p h) true false

pub toy_compare-hash : (w : World) (p : Text) → toy_compare p (toy_hash w p) ≡ true
unfolding toy_compare toy_hash
toy_compare-hash w p = ground arith

unfoldable pub role_code : Role → ℕ
role_code Role.customer = 0
role_code Role.admin = 1

unfoldable pub code_role : ℕ → Role
code_role n = if n == 1 then Role.admin else Role.customer

unfoldable pub toy_sign_access : Text → Text → ℕ → AccessTokenPayload → Text
toy_sign_access secret ttl now p = put_text secret (role_code p.role ∷ p.sub)

unfoldable pub read_claims : Text → Option Claims
read_claims [] = none
read_claims (r ∷ sub) = some (record { sub = some sub; role = some (code_role r) })

unfoldable pub toy_verify_access : Text → ℕ → Text → Option Claims
toy_verify_access secret now token =
    let a : Text × Text = get_text token in ite (text_discrete a.0 secret) (read_claims a.1) none

unfoldable pub toy_sign_refresh : Text → Text → ℕ → RefreshTokenPayload → Text
toy_sign_refresh secret ttl now p = (now + 1000000) ∷ put_text secret (put_text p.sub p.jti)

unfoldable pub toy_verify_refresh : Text → Bool → ℕ → Text → Option RefreshTokenPayload
toy_verify_refresh secret ignore_expiration later [] = none
toy_verify_refresh secret ignore_expiration later (e ∷ token) =
    let a : Text × Text = get_text token in
    let b : Text × Text = get_text a.1 in
    if ignore_expiration || ltb later e
    then ite (text_discrete a.0 secret) (some (record { sub = b.0; jti = b.1 })) none
    else none

pub toy_verify-sign :
    (secret ttl : Text) (now later : ℕ) (p : RefreshTokenPayload)
    → toy_verify_refresh secret true later (toy_sign_refresh secret ttl now p) ≡ some p
unfolding toy_verify_refresh toy_sign_refresh
toy_verify-sign secret ttl now later p =
    ground (arith, get_text-put_text secret (put_text p.sub p.jti), get_text-put_text p.sub p.jti)

abbrev pub toy_crypto : Crypto
toy_crypto = record {
  hash = toy_hash;
  compare_hash = toy_compare;
  sign_access = toy_sign_access;
  sign_refresh = toy_sign_refresh;
  verify_access = toy_verify_access;
  verify_refresh = toy_verify_refresh;
  compare_hash-hash = toy_compare-hash;
  verify-sign = toy_verify-sign;
}

abbrev pub jwt : JwtConfig
jwt = record {
  access_secret = codes "as";
  access_ttl = codes "15m";
  refresh_secret = codes "rs";
  refresh_ttl = codes "7d";
}
