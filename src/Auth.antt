-- ===== src/Auth.antt =====
-- internal/auth/jwt.go: bearer tokens. The JWT library and the clock are arguments; times are in
-- nanoseconds.
pub mod Gate
pub mod Issue
pub mod Tests
use kms_golang.Base.{
  ℕ, panic, ◌+◌, ◌-◌, ◌*◌, ◌/◌, Bytes, [], ◌∷◌, List, Bool, true, false, not, ltb, ◌&&◌, ◌||◌,
  if◌then◌else◌, Option, none, some, String, Result, ok, err, Error, new, status, unauthenticated,
  require, codes, bytes_eq, drop, ◌>>=◌, ◌>>◌,
}
use kms_golang.Go.Strings.{has_prefix, has_suffix, to_lower, trim_space}
use kms_golang.Go.World.{M}

pub record JwtConfig : Type 0 where
  pub secret : Bytes
  pub audience : Bytes
  pub issuer : Bytes

-- `jwt.RegisteredClaims`; a missing date is `none`.
pub record Claims : Type 0 where
  pub subject : Bytes
  pub issuer : Bytes
  pub audience : List Bytes
  pub issued_at : Option ℕ
  pub expires_at : Option ℕ
  pub not_before : Option ℕ

pub record Token : Type 0 where
  pub valid : Bool
  pub claims : Claims

-- What the program calls of the JWT library. `parse_with_claims` is given the function from the
-- token's algorithm to the key, and the time; `none` is an error. `signed_string` signs with HS256.
pub record Jwt : Type 0 where
  pub parse_with_claims : Bytes → (Bytes → Option Bytes) → ℕ → Option Token
  pub signed_string : Claims → Bytes → Result Bytes

-- `metadata.FromIncomingContext`: the values of each key, if the request has metadata at all.
abbrev pub Context : Type 0
Context = Option (String → List Bytes)

abbrev pub refused {ℓ} : {A : Type ℓ} → String → Result A
refused message = err (status unauthenticated (new message))

abbrev pub demand : Bool → String → Result (Unit {0})
demand test message = require test (status unauthenticated (new message))

-- The function handed to the library: only HS256 has a key.
abbrev pub key_func : JwtConfig → Bytes → Option Bytes
key_func cfg alg = if bytes_eq alg (codes "HS256") then some cfg.secret else none

abbrev pub first_value : List Bytes → Bytes
first_value [] = []
first_value (v ∷ vs) = v

-- The token of the header of a request.
unfoldable pub bearer_token : Context → Result Bytes
unfolding has_prefix to_lower trim_space
bearer_token none = refused "missing metadata"
bearer_token (some md) = do
  let header = first_value (md "authorization")
  demand (not (bytes_eq header [])) "missing authorization header"
  demand (has_prefix (to_lower header) (codes "bearer ")) "invalid authorization scheme"
  let raw = trim_space (drop 7 header)
  demand (not (bytes_eq raw [])) "empty bearer token"
  ok raw

abbrev pub is_before : Option ℕ → ℕ → Bool
is_before none now = false
is_before (some t) now = ltb t now

abbrev pub is_after : Option ℕ → ℕ → Bool
is_after none now = false
is_after (some t) now = ltb now t

abbrev pub first_is : List Bytes → Bytes → Bool
first_is [] text = false
first_is (a ∷ rest) text = bytes_eq a text

unfoldable pub check_claims : JwtConfig → Claims → ℕ → Result (Unit {0})
check_claims cfg claims now = do
  demand (not (is_before claims.expires_at now)) "token expired"
  demand (not (is_after claims.not_before now)) "token not yet valid"
  demand (bytes_eq cfg.audience [] || first_is claims.audience cfg.audience) "invalid audience"
  demand (bytes_eq cfg.issuer [] || bytes_eq claims.issuer cfg.issuer) "invalid issuer"

unfoldable pub check_token : JwtConfig → Option Token → ℕ → Result (Unit {0})
unfolding check_claims
check_token cfg none now = refused "invalid token"
check_token cfg (some token) now = do
  demand token.valid "invalid token"
  check_claims cfg token.claims now

-- The library reads the clock before the interceptor does.
unfoldable pub authenticate : JwtConfig → Jwt → (parsed_at now : ℕ) → Context → Result (Unit {0})
unfolding bearer_token check_token
authenticate cfg jwt parsed_at now ctx = do
  raw ← bearer_token ctx
  check_token cfg (jwt.parse_with_claims raw (key_func cfg) parsed_at) now

abbrev pub guarded : {D A : Type 0} → Result (Unit {0}) → M D A → M D A
guarded (ok _) handler w = handler w
guarded (err e) handler w = (err e, w)
guarded (panic s) handler w = (panic s, w)

unfoldable pub unary_server_interceptor :
    {D A : Type 0} → JwtConfig → Jwt → (parsed_at now : ℕ) → Context → Bytes → M D A → M D A
unfolding has_suffix authenticate
unary_server_interceptor cfg jwt parsed_at now ctx full_method handler =
    if bytes_eq cfg.secret []
    then handler
    else if has_suffix full_method (codes "/Login")
    then handler
    else guarded (authenticate cfg jwt parsed_at now ctx) handler

abbrev pub second : ℕ
second = 1_000_000_000

-- `jwt.NewNumericDate`: whole seconds.
abbrev pub numeric_date : ℕ → ℕ
numeric_date t = t / second * second

abbrev pub issued_claims : JwtConfig → Bytes → ℕ → ℕ → Claims
issued_claims cfg subject ttl now = record {
  subject = subject;
  issuer = if bytes_eq cfg.issuer [] then [] else cfg.issuer;
  audience = if bytes_eq cfg.audience [] then [] else cfg.audience ∷ [];
  issued_at = some (numeric_date now);
  expires_at = some (numeric_date (now + ttl));
  not_before = none;
}

unfoldable pub issue_token : JwtConfig → Jwt → Bytes → ℕ → ℕ → Result Bytes
issue_token cfg jwt subject ttl now =
    if bytes_eq cfg.secret []
    then err (new "JWT secret not configured")
    else jwt.signed_string (issued_claims cfg subject ttl now) cfg.secret
