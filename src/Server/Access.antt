-- ===== src/Server/Access.antt =====
-- Which calls are handled.
use kms_golang.Base.{
  ◌+◌, ◌*◌, ◌<◌, ◌≤◌, Bytes, [], ◌∷◌, ◌++◌, List, String, true, false, some, ok, err, Error, new,
  wrapped, status, unauthenticated, internal, codes, bytes_eq, bytes_eq→eq, ◌≡◌, ◌≢◌, refl, arith,
  ◌⊎◌, inl, inr, ap, sym, not, ◌||◌, ◌∙◌, Bool-cases,
}
use kms_golang.Go.Strings.{has_suffix}
use mathlib.Core.Path.{subst}
use kms_golang.Go.World.{World, M, return}
use kms_golang.Kms.Config.{Env}
use kms_golang.Kms.Manager.{Manager}
use kms_golang.Auth.{JwtConfig, Jwt, Context, second, numeric_date, issue_token, authenticate}
use kms_golang.Auth.Gate.{
  IsAuthentic, unary_server_interceptor_gate, unary_server_interceptor_open,
  unary_server_interceptor_pass,
}
use kms_golang.Auth.Issue.{IsJwt, IsAscii, authenticate-issue_token}
use kms_golang.Proto.{EncryptRequest, DecryptRequest, LoginRequest, LoginResponse}
use kms_golang.Server.{
  Server, Times, encrypt, decrypt, login, new_auth_server, new_server, env_jwt, no_jwt,
  serve_encrypt, serve_decrypt, serve_login,
}
use kms_golang.Server.Login.{login_sound}

-- The two outcomes of a call behind the gate.
abbrev pub IsGuarded :
    {D A : Type 0} → JwtConfig → Jwt → Times → Context → M D A → M D A → World D → Type 0
IsGuarded cfg jwt t ctx call handler w =
    (IsAuthentic cfg jwt t.parsed_at t.now ctx × (call w ≡ handler w))
    ⊎ ((e : Error) × (call w ≡ (err (status unauthenticated e), w)))

login_suffix :
    (has_suffix (codes "/kms.KMS/Encrypt") (codes "/Login") ≡ false)
    × (has_suffix (codes "/kms.KMS/Decrypt") (codes "/Login") ≡ false)
    × (has_suffix (codes "/kms.Auth/Login") (codes "/Login") ≡ true)
unfolding has_suffix
login_suffix = (refl, refl, refl)

-- The server of an environment with a secret.
abbrev secured : {D : Type 0} → Env → Manager D → Server D
secured env m = record {
  kms = record { manager = m };
  auth = new_auth_server env (env_jwt env);
  interceptor = some (env_jwt env);
}

new_server_secret :
    (env : Env) {D : Type 0} (m : Manager D)
    → env "KMS_JWT_SECRET" ≢ []
    → new_server env m ≡ secured env m
unfolding new_server
new_server_secret env m secret = ground (arith, bytes_eq→eq (env "KMS_JWT_SECRET") [])

module _ (env : Env) {D : Type 0} (m : Manager D) (jwt : Jwt) (t : Times) (ctx : Context)
    (w : World D) where
  -- A server whose environment sets a secret encrypts and decrypts only for a caller with an
  -- authentic and current token, and refuses every other caller as unauthenticated, in the world as
  -- it was.
  pub new_server-IsGuarded :
      (plain : EncryptRequest) (sealed : DecryptRequest)
      → env "KMS_JWT_SECRET" ≢ []
      → let s = new_server env m in
        IsGuarded (env_jwt env) jwt t ctx (serve_encrypt s jwt t ctx plain) (encrypt s.kms plain) w
        × IsGuarded
            (env_jwt env)
            jwt
            t
            ctx
            (serve_decrypt s jwt t ctx sealed)
            (decrypt s.kms sealed)
            w
  unfolding serve_encrypt serve_decrypt
  new_server-IsGuarded plain sealed secret =
      let cfg = env_jwt env in
      rw (new_server_secret env m secret) (
        unary_server_interceptor_gate cfg jwt t.parsed_at t.now ctx (codes "/kms.KMS/Encrypt")
            (encrypt (secured env m).kms plain) w secret login_suffix.0,
        unary_server_interceptor_gate cfg jwt t.parsed_at t.now ctx (codes "/kms.KMS/Decrypt")
            (decrypt (secured env m).kms sealed) w secret login_suffix.1,
      )

  -- Without a secret, encryption and decryption are open to every caller.
  pub new_server_open :
      (plain : EncryptRequest) (sealed : DecryptRequest)
      → env "KMS_JWT_SECRET" ≡ []
      → (serve_encrypt (new_server env m) jwt t ctx plain w
          ≡ encrypt (record { manager = m }) plain w)
        × (serve_decrypt (new_server env m) jwt t ctx sealed w
            ≡ decrypt (record { manager = m }) sealed w)
  unfolding new_server serve_encrypt serve_decrypt
  new_server_open plain sealed empty = rw empty (refl, refl)

  no_token :
      (req : LoginRequest) (user pass : Bytes)
      → (e : Error) × (login
            (record { jwt_cfg = no_jwt; user = user; pass = pass; token_ttl = 3600 * second })
            jwt
            t.now
            req
          ≡ err e)
  unfolding login issue_token bytes_eq
  no_token req user pass =
      elim (Bool-cases (not (bytes_eq req.username user) || not (bytes_eq req.password pass))) [
        | inl wrong ↦ (status unauthenticated (new "invalid credentials"), rw wrong refl)
        | inr right ↦ (
          status internal (wrapped "failed to issue token: " (new "JWT secret not configured")),
          rw right refl,
        )
      ]

  -- Without a secret nobody can log in: every request for a token ends in an error, and the world
  -- stays as it was.
  pub new_server_no_login :
      (req : LoginRequest)
      → env "KMS_JWT_SECRET" ≡ []
      → (e : Error) × (serve_login (new_server env m) jwt t ctx req w ≡ (err e, w))
  unfolding new_server serve_login new_auth_server
  new_server_no_login req empty =
      let s = new_auth_server env no_jwt in
      let (e, refused) = no_token req s.user s.pass in (e, rw empty (ap (λ r. (r, w)) refused))

module _ {jwt : Jwt} (library : IsJwt jwt) (env : Env) {D : Type 0} (m : Manager D) where
  login-secured :
      (login_times : Times) (before : Context) (req : LoginRequest) (r : LoginResponse)
      (w w' : World D)
      → serve_login (secured env m) jwt login_times before req w ≡ (ok r, w')
      → login (new_auth_server env (env_jwt env)) jwt login_times.now req ≡ ok r
  unfolding serve_login
  login-secured login_times before req r w w' got =
      ap (λ x. x.0)
        (sym (
            unary_server_interceptor_open (env_jwt env) jwt login_times.parsed_at login_times.now
              before (codes "/kms.Auth/Login")
              (return (login (new_auth_server env (env_jwt env)) jwt login_times.now req)) w
              (inr login_suffix.2))
          ∙ got)

  token_accepted :
      (login_times t : Times) (md : String → List Bytes) (more : List Bytes) (req : LoginRequest)
      (r : LoginResponse)
      → login (new_auth_server env (env_jwt env)) jwt login_times.now req ≡ ok r
      → IsAscii req.username
      → IsAscii (env "KMS_JWT_ISS")
      → IsAscii (env "KMS_JWT_AUD")
      → md "authorization" ≡ (codes "Bearer " ++ r.token) ∷ more
      → t.parsed_at < numeric_date (login_times.now + 3600 * second)
      → t.now ≤ numeric_date (login_times.now + 3600 * second)
      → authenticate (env_jwt env) jwt t.parsed_at t.now (some md) ≡ ok tt
  unfolding new_auth_server
  token_accepted login_times t md more req r logged hu hi ha sent fresh early =
      let s = new_auth_server env (env_jwt env) in
      let (user, _, token) = login_sound s jwt login_times.now req r logged in
      authenticate-issue_token library (env_jwt env) s.user r.token (3600 * second) login_times.now
        t.parsed_at t.now md more (subst IsAscii user hu) hi ha token sent fresh early

  -- Log in and call: with a secret set, a JWT library that keeps its contract and ASCII names,
  -- the token that a login returns, sent as the first bearer header, is accepted by the same
  -- server for encryption and decryption until it expires, an hour after the login, down to the
  -- whole second.
  pub serve_login-serve :
      (login_times t : Times) (before ctx : Context) (md : String → List Bytes) (more : List Bytes)
      (req : LoginRequest) (r : LoginResponse) (plain : EncryptRequest) (sealed : DecryptRequest)
      (w w' w'' : World D)
      → env "KMS_JWT_SECRET" ≢ []
      → IsAscii req.username
      → IsAscii (env "KMS_JWT_ISS")
      → IsAscii (env "KMS_JWT_AUD")
      → serve_login (new_server env m) jwt login_times before req w ≡ (ok r, w')
      → ctx ≡ some md
      → md "authorization" ≡ (codes "Bearer " ++ r.token) ∷ more
      → t.parsed_at < numeric_date (login_times.now + 3600 * second)
      → t.now ≤ numeric_date (login_times.now + 3600 * second)
      → (serve_encrypt (new_server env m) jwt t ctx plain w''
          ≡ encrypt (new_server env m).kms plain w'')
        × (serve_decrypt (new_server env m) jwt t ctx sealed w''
            ≡ decrypt (new_server env m).kms sealed w'')
  unfolding serve_encrypt serve_decrypt
  serve_login-serve login_times t before ctx md more req r plain sealed w w' w'' secret hu hi ha got
        same sent fresh early =
      let cfg = env_jwt env in
      let logged =
        login-secured login_times before req r w w' (rw (new_server_secret env m secret) at got) in
      let accepted : authenticate cfg jwt t.parsed_at t.now ctx ≡ ok tt =
        rw same (token_accepted login_times t md more req r logged hu hi ha sent fresh early) in
      rw (new_server_secret env m secret) (
        unary_server_interceptor_pass cfg jwt t.parsed_at t.now ctx (codes "/kms.KMS/Encrypt")
            (encrypt (secured env m).kms plain) w'' accepted,
        unary_server_interceptor_pass cfg jwt t.parsed_at t.now ctx (codes "/kms.KMS/Decrypt")
            (decrypt (secured env m).kms sealed) w'' accepted,
      )
