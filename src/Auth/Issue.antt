-- ===== src/Auth/Issue.antt =====
-- Tokens that the service issues.
use kms_golang.Base.{
  ℕ, ◌+◌, ◌%◌, ◌≤◌, ◌<◌, Bytes, [], ◌∷◌, ◌++◌, List, true, false, Option, none, some, ok, err,
  codes, bytes_eq, bytes_eq→eq, bytes_eq_refl, String, All, if◌then◌else◌, ◌≡◌, ◌≢◌, refl, arith,
  Bool-cases, inl, inr, new,
}
use kms_golang.Go.Strings.{trim_space}
use kms_golang.Auth.{
  JwtConfig, Claims, Jwt, key_func, bearer_token, check_claims, check_token, authenticate,
  numeric_date, second, issued_claims, issue_token,
}

abbrev pub IsAscii : Bytes → Type 0
IsAscii = All (λ c. c < 128)

-- Claims that the JSON form of a token keeps as they are: ASCII texts and whole seconds.
pub record IsPortable (claims : Claims) (expiry : ℕ) : Type 0 where
  pub subject : IsAscii claims.subject
  pub issuer : IsAscii claims.issuer
  pub audience : All IsAscii claims.audience
  pub expires : claims.expires_at ≡ some expiry
  pub whole : expiry % second ≡ 0
  pub at_once : claims.not_before ≡ none

-- What the library documents: a token that was signed with a key is read back with that key until
-- it expires, and it is a text with no white space around it.
pub record IsJwt (jwt : Jwt) : Type 0 where
  pub reads :
      (claims : Claims) (secret raw : Bytes) (key : Bytes → Option Bytes) (expiry now : ℕ)
      → IsPortable claims expiry
      → jwt.signed_string claims secret ≡ ok raw
      → key (codes "HS256") ≡ some secret
      → now < expiry
      → jwt.parse_with_claims raw key now ≡ some (record { valid = true; claims = claims })
  pub trimmed :
      (claims : Claims) (secret raw : Bytes)
      → jwt.signed_string claims secret ≡ ok raw
      → (raw ≢ []) × (trim_space raw ≡ raw)

module _ (cfg : JwtConfig) where
  issued_claims-IsPortable :
      (subject : Bytes) (ttl now : ℕ)
      → IsAscii subject
      → IsAscii cfg.issuer
      → IsAscii cfg.audience
      → IsPortable (issued_claims cfg subject ttl now) (numeric_date (now + ttl))
  issued_claims-IsPortable subject ttl now hs hi ha = record {
    subject = hs;
    issuer = ground arith;
    audience = ground arith;
    expires = refl;
    whole = omega arith;
    at_once = refl;
  }

  check_claims-issued :
      (subject : Bytes) (ttl issued now : ℕ)
      → now ≤ numeric_date (issued + ttl)
      → check_claims cfg (issued_claims cfg subject ttl issued) now ≡ ok tt
  unfolding check_claims
  check_claims-issued subject ttl issued now early =
      ground (arith, bytes_eq_refl cfg.audience, bytes_eq_refl cfg.issuer)

bearer_token-header :
    (md : String → List Bytes) (raw : Bytes) (more : List Bytes)
    → md "authorization" ≡ (codes "Bearer " ++ raw) ∷ more
    → raw ≢ []
    → trim_space raw ≡ raw
    → bearer_token (some md) ≡ ok raw
unfolding bearer_token
bearer_token-header md raw more sent full plain =
    rw (sent, plain) (ground (arith, bytes_eq→eq raw []))

module _ {jwt : Jwt} (library : IsJwt jwt) (cfg : JwtConfig) where
  -- A token that the service issues, in ASCII names and with a library that keeps its contract,
  -- is accepted by its own interceptor, sent in a bearer header, as long as the library reads it
  -- before its expiry and the interceptor looks at the clock no later than the expiry, which is
  -- the time of issue and the lifetime, down to the whole second.
  pub authenticate-issue_token :
      (subject raw : Bytes) (ttl issued parsed_at now : ℕ) (md : String → List Bytes)
      (more : List Bytes)
      → IsAscii subject
      → IsAscii cfg.issuer
      → IsAscii cfg.audience
      → issue_token cfg jwt subject ttl issued ≡ ok raw
      → md "authorization" ≡ (codes "Bearer " ++ raw) ∷ more
      → parsed_at < numeric_date (issued + ttl)
      → now ≤ numeric_date (issued + ttl)
      → authenticate cfg jwt parsed_at now (some md) ≡ ok tt
  unfolding authenticate issue_token check_token
  authenticate-issue_token subject raw ttl issued parsed_at now md more hs hi ha made sent fresh
        early =
      elim (Bool-cases (bytes_eq cfg.secret [])) [
        | inl empty ↦ ground (arith, empty)
        | inr secret ↦
            let claims = issued_claims cfg subject ttl issued in
            let signed = signed_when cfg claims secret made in
            let (full, plain) = library.trimmed claims cfg.secret raw signed in
            let read =
              library.reads claims cfg.secret raw (key_func cfg) (numeric_date (issued + ttl))
                parsed_at (issued_claims-IsPortable cfg subject ttl issued hs hi ha) signed refl
                fresh in
            rw (bearer_token-header md raw more sent full plain)
              (rw read (check_claims-issued cfg subject ttl issued now early))
      ]
    where
      signed_when :
          (cfg : JwtConfig) (claims : Claims)
          → bytes_eq cfg.secret [] ≡ false
          → (if bytes_eq cfg.secret []
              then err (new "JWT secret not configured")
              else jwt.signed_string claims cfg.secret)
            ≡ ok raw
          → jwt.signed_string claims cfg.secret ≡ ok raw
      signed_when cfg claims some_secret e = ground arith
