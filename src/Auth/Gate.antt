-- ===== src/Auth/Gate.antt =====
-- What the interceptor lets through.
use kms_golang.Base.{
  ℕ, ◌≤◌, Bytes, [], ◌∷◌, List, Bool, true, false, not, Option, none, some, Result, ok, err, Error,
  new, String, suc, ap, ◌>>=◌, status, unauthenticated, codes, bytes_eq, bytes_eq→eq, length, drop,
  ◌≡◌, ◌≢◌, refl, arith, ◌⊎◌, inl, inr, ◌||◌, ◌>>◌, >>=-eq-ok,
}
use kms_golang.Go.Strings.{has_prefix, has_suffix, to_lower, trim_space}
use kms_golang.Go.World.{World, M}
use kms_golang.Auth.{
  JwtConfig, Claims, Token, Jwt, Context, key_func, demand, first_value, is_before, is_after,
  first_is, bearer_token, check_claims, check_token, authenticate, unary_server_interceptor,
}

-- What the claims of an accepted token say, apart from the code's order of tests.
pub record IsCurrent (cfg : JwtConfig) (claims : Claims) (now : ℕ) : Type 0 where
  pub not_expired : (t : ℕ) → claims.expires_at ≡ some t → now ≤ t
  pub started : (t : ℕ) → claims.not_before ≡ some t → t ≤ now
  pub for_us : cfg.audience ≢ [] → (rest : List Bytes) × (claims.audience ≡ cfg.audience ∷ rest)
  pub by_issuer : cfg.issuer ≢ [] → claims.issuer ≡ cfg.issuer

first_is-cons :
    (l : List Bytes) (text : Bytes)
    → first_is l text ≡ true
    → (rest : List Bytes) × (l ≡ text ∷ rest)
first_is-cons [] text h = ground arith
first_is-cons (a ∷ rest) text h = (rest, rw (bytes_eq→eq a text h))

check_claims-IsCurrent :
    (cfg : JwtConfig) (claims : Claims) (now : ℕ)
    → check_claims cfg claims now ≡ ok tt
    → IsCurrent cfg claims now
unfolding check_claims
check_claims-IsCurrent cfg claims now h = record {
  not_expired = λ t e. ground arith;
  started = λ t e. ground arith;
  for_us = λ set.
      first_is-cons claims.audience cfg.audience (ground (arith, bytes_eq→eq cfg.audience []));
  by_issuer =
      λ set. ground (arith, bytes_eq→eq cfg.issuer [], bytes_eq→eq claims.issuer cfg.issuer);
}

-- What it takes to be let through: a token in the header that the library reads and calls valid,
-- with claims that are current.
pub record IsAuthentic (cfg : JwtConfig) (jwt : Jwt) (parsed_at now : ℕ) (ctx : Context)
    : Type 0 where
  pub raw : Bytes
  pub token : Token
  pub sent : bearer_token ctx ≡ ok raw
  pub parsed : jwt.parse_with_claims raw (key_func cfg) parsed_at ≡ some token
  pub valid : token.valid ≡ true
  pub current : IsCurrent cfg token.claims now

module _ (cfg : JwtConfig) (jwt : Jwt) (parsed_at now : ℕ) (ctx : Context) where
  check_token-ok :
      (read : Option Token)
      → check_token cfg read now ≡ ok tt
      → (token : Token) × (read ≡ some token)
        × (token.valid ≡ true)
        × (check_claims cfg token.claims now ≡ ok tt)
  unfolding check_token
  check_token-ok none h = ground arith
  check_token-ok (some token) h = (token, refl, ground arith, ground arith)

  authenticate-IsAuthentic :
      authenticate cfg jwt parsed_at now ctx ≡ ok tt → IsAuthentic cfg jwt parsed_at now ctx
  unfolding authenticate
  authenticate-IsAuthentic h =
      let (raw, sent, h') = >>=-eq-ok (bearer_token ctx) _ h in
      let (token, parsed, valid, checked) =
        check_token-ok (jwt.parse_with_claims raw (key_func cfg) parsed_at) h' in
      record {
        raw = raw;
        token = token;
        sent = sent;
        parsed = parsed;
        valid = valid;
        current = check_claims-IsCurrent cfg token.claims now checked;
      }

-- The result of the tests: to go on, or a refusal with the status Unauthenticated.
data IsGated {ℓ} {A : Type ℓ} (r : Result A) : Type ℓ where
  passed : (a : A) → r ≡ ok a → IsGated r
  refusal : (e : Error) → r ≡ err (status unauthenticated e) → IsGated r

bind-IsGated {ℓ κ} :
    {A : Type ℓ} {B : Type κ} (test : Result A) (next : A → Result B)
    → IsGated test
    → ((a : A) → IsGated (next a))
    → IsGated (test >>= next)
bind-IsGated test next (passed a e) k = rw e (k a)
bind-IsGated test next (refusal e p) k = refusal e (rw p)

demand-IsGated : (test : Bool) (message : String) → IsGated (demand test message)
demand-IsGated true message = passed tt refl
demand-IsGated false message = refusal (new message) refl

demand_then-IsGated {ℓ} :
    {A : Type ℓ} (test : Bool) (message : String) (k : Result A)
    → IsGated k
    → IsGated (demand test message >> k)
demand_then-IsGated test message k h =
    bind-IsGated (demand test message) (λ _. k) (demand-IsGated test message) λ _. h

bearer_token-IsGated : (ctx : Context) → IsGated (bearer_token ctx)
unfolding bearer_token
bearer_token-IsGated none = refusal (new "missing metadata") refl
bearer_token-IsGated (some md) =
    let header = first_value (md "authorization") in
    let raw = trim_space (drop 7 header) in
    let found : IsGated (ok raw) = passed raw refl in
    demand_then-IsGated (not (bytes_eq header [])) "missing authorization header" _ (
      demand_then-IsGated (has_prefix (to_lower header) (codes "bearer "))
        "invalid authorization scheme" _
        (demand_then-IsGated (not (bytes_eq raw [])) "empty bearer token" (ok raw) found))

check_claims-IsGated :
    (cfg : JwtConfig) (claims : Claims) (now : ℕ) → IsGated (check_claims cfg claims now)
unfolding check_claims
check_claims-IsGated cfg claims now =
    demand_then-IsGated (not (is_before claims.expires_at now)) "token expired" _ (
      demand_then-IsGated (not (is_after claims.not_before now)) "token not yet valid" _ (
        demand_then-IsGated (bytes_eq cfg.audience [] || first_is claims.audience cfg.audience)
          "invalid audience" _
          (demand-IsGated (bytes_eq cfg.issuer [] || bytes_eq claims.issuer cfg.issuer)
            "invalid issuer")))

check_token-IsGated :
    (cfg : JwtConfig) (read : Option Token) (now : ℕ) → IsGated (check_token cfg read now)
unfolding check_token
check_token-IsGated cfg none now = refusal (new "invalid token") refl
check_token-IsGated cfg (some token) now =
    demand_then-IsGated token.valid "invalid token" (check_claims cfg token.claims now)
      (check_claims-IsGated cfg token.claims now)

authenticate-IsGated :
    (cfg : JwtConfig) (jwt : Jwt) (parsed_at now : ℕ) (ctx : Context)
    → IsGated (authenticate cfg jwt parsed_at now ctx)
unfolding authenticate
authenticate-IsGated cfg jwt parsed_at now ctx =
    bind-IsGated (bearer_token ctx)
      (λ raw. check_token cfg (jwt.parse_with_claims raw (key_func cfg) parsed_at) now)
      (bearer_token-IsGated ctx)
      λ raw. check_token-IsGated cfg (jwt.parse_with_claims raw (key_func cfg) parsed_at) now

module _ (cfg : JwtConfig) (jwt : Jwt) (parsed_at now : ℕ) (ctx : Context) (full_method : Bytes)
    {D A : Type 0} (handler : M D A) (w : World D) where
  -- With a secret, a call of any method but a login either carries a token that is authentic and
  -- current, and is then handled, or is refused with the status Unauthenticated: the handler does
  -- not run and the world stays as it was.
  pub unary_server_interceptor_gate :
      cfg.secret ≢ []
      → has_suffix full_method (codes "/Login") ≡ false
      → (IsAuthentic cfg jwt parsed_at now ctx
          × (unary_server_interceptor cfg jwt parsed_at now ctx full_method handler w ≡ handler w))
        ⊎ ((e : Error) × (unary_server_interceptor cfg jwt parsed_at now ctx full_method handler w
              ≡ (err (status unauthenticated e), w)))
  unfolding unary_server_interceptor
  unary_server_interceptor_gate secret other =
      elim (authenticate-IsGated cfg jwt parsed_at now ctx) [
        | passed tt checked ↦ inl (
          authenticate-IsAuthentic cfg jwt parsed_at now ctx checked,
          ground (arith, checked, bytes_eq→eq cfg.secret []),
        )
        | refusal e stopped ↦ inr (e, ground (arith, stopped, bytes_eq→eq cfg.secret []))
      ]

  -- Without a secret, and for a login, the call is handled whatever it carries.
  pub unary_server_interceptor_open :
      (cfg.secret ≡ []) ⊎ (has_suffix full_method (codes "/Login") ≡ true)
      → unary_server_interceptor cfg jwt parsed_at now ctx full_method handler w ≡ handler w
  unfolding unary_server_interceptor
  unary_server_interceptor_open (inl empty) = rw empty
  unary_server_interceptor_open (inr login) = ground arith

-- Behind a header that passes the test of the scheme there are the seven bytes that are cut off.
length-to_lower : (s : Bytes) → length (to_lower s) ≡ length s
unfolding to_lower
length-to_lower [] = refl
length-to_lower (c ∷ s) = ap suc (length-to_lower s)

-- `authHeader[7:]` is never out of range: a header whose lower case starts with "bearer " has at
-- least seven bytes.
pub scheme_in_range :
    (header : Bytes) → has_prefix (to_lower header) (codes "bearer ") ≡ true → 7 ≤ length header
unfolding has_prefix
scheme_in_range header h = ground (arith, length-to_lower header)

-- A call whose token is accepted is handled.
pub unary_server_interceptor_pass :
    {D A : Type 0} (cfg : JwtConfig) (jwt : Jwt) (parsed_at now : ℕ) (ctx : Context)
    (full_method : Bytes) (handler : M D A) (w : World D)
    → authenticate cfg jwt parsed_at now ctx ≡ ok tt
    → unary_server_interceptor cfg jwt parsed_at now ctx full_method handler w ≡ handler w
unfolding unary_server_interceptor
unary_server_interceptor_pass cfg jwt parsed_at now ctx full_method handler w h = ground (arith, h)
