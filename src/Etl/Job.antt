-- ===== src/Etl/Job.antt =====
-- `main` of the ETL job: its configuration, its token and its mode. An error of the model is one that
-- `log.Fatal` ends the process with. The flags, the files, the databases and the connection are
-- arguments.
pub mod Encryption
pub mod Verified
pub mod Safe
pub mod Tests
use kms_golang.Base.{
  Bytes, [], ◌∷◌, Bool, true, false, ◌⊎◌, inl, inr, Result, ok, err, panic, new, wrapped, bytes_eq,
  ok_injective, ◌∙◌, if◌then◌else◌, ◌>>=◌, ◌≡◌, ◌≢◌, refl, ap, arith,
}
use kms_golang.Go.World.{World, M}
use kms_golang.Proto.{LoginRequest, LoginResponse}
use kms_golang.Client.{AuthClient}

pub record AppConfig : Type 0 where
  pub kms_addr : Bytes
  pub bearer_token : Bytes
  pub username : Bytes
  pub password : Bytes
  pub source_driver : Bytes
  pub source_dsn : Bytes
  pub dest_driver : Bytes
  pub dest_dsn : Bytes

-- `os.ReadFile` and `yaml.Unmarshal` are arguments.
unfoldable pub load_config :
    (Bytes → Result Bytes) → (Bytes → Result AppConfig) → Bytes → Result AppConfig
load_config read_file unmarshal path = do data_read ← read_file path; unmarshal data_read

token_of : {D : Type 0} → Result LoginResponse × World D → Result Bytes × World D
token_of (ok r, w) = (ok r.token, w)
token_of (err e, w) = (err e, w)
token_of (panic p, w) = (panic p, w)

unfoldable pub login_to_kms : {D : Type 0} → AuthClient D → Bytes → Bytes → M D Bytes
unfolding token_of
login_to_kms login username password w =
    token_of (login (record { username = username; password = password }) w)

after_login : {D : Type 0} → Result Bytes × World D → Result Bytes × World D
unfolding bytes_eq
after_login (ok token, w) =
    if bytes_eq token [] then (err (new "Auto-login returned empty token!"), w) else (ok token, w)
after_login (err e, w) = (err (wrapped "Auto-login failed: " e), w)
after_login (panic p, w) = (panic p, w)

-- The token: that of KMS_BEARER_TOKEN, that of the configuration, that of a login, or none.
unfoldable pub choose_token : {D : Type 0} → AuthClient D → Bytes → AppConfig → M D Bytes
unfolding login_to_kms after_login
choose_token login env_token cfg w =
    if bytes_eq env_token []
    then if bytes_eq cfg.bearer_token []
      then if bytes_eq cfg.username []
        then (ok [], w)
        else after_login (login_to_kms login cfg.username cfg.password w)
      else (ok cfg.bearer_token, w)
    else (ok env_token, w)

-- `-verify-excel` goes before `-verify`.
pub data Mode : Type 0 where
  etl_with_verification safe_verification etl : Mode

unfoldable pub choose_mode : Bool → Bool → Mode
choose_mode verify_excel verify =
    if verify_excel then etl_with_verification else if verify then safe_verification else etl

-- A test for the empty string, with what it says.
empty_or_not :
    (b : Bytes) → ((bytes_eq b [] ≡ true) × (b ≡ [])) ⊎ ((bytes_eq b [] ≡ false) × (b ≢ []))
unfolding bytes_eq
empty_or_not [] = inl (refl, refl)
empty_or_not (x ∷ b) = inr (refl, λ h. absurd (ground (arith, h)))

-- Where a token comes from, and what the search for it leaves behind.
pub data Origin {D : Type 0} (login : AuthClient D) (env_token : Bytes) (cfg : AppConfig)
    (w : World D) (token : Bytes) (w' : World D) : Type 0 where
  from_env : env_token ≢ [] → env_token ≡ token → w ≡ w' → Origin login env_token cfg w token w'
  from_config :
      env_token ≡ []
      → cfg.bearer_token ≢ []
      → cfg.bearer_token ≡ token
      → w ≡ w'
      → Origin login env_token cfg w token w'
  from_login :
      env_token ≡ []
      → cfg.bearer_token ≡ []
      → cfg.username ≢ []
      → (r : LoginResponse)
      → login (record { username = cfg.username; password = cfg.password }) w ≡ (ok r, w')
      → r.token ≡ token
      → token ≢ []
      → Origin login env_token cfg w token w'
  from_nothing :
      env_token ≡ []
      → cfg.bearer_token ≡ []
      → cfg.username ≡ []
      → [] ≡ token
      → w ≡ w'
      → Origin login env_token cfg w token w'

module _ {D : Type 0} (login : AuthClient D) where
  after_login-nonempty :
      (x : Result Bytes × World D) {token : Bytes} {w' : World D}
      → after_login x ≡ (ok token, w')
      → (x ≡ (ok token, w')) × (token ≢ [])
  unfolding after_login
  after_login-nonempty (ok t, w) {token} {w'} h = elim (empty_or_not t) [
    | inl (empty, _) ↦ absurd (ground (arith, h, empty))
    | inr (full, some_byte) ↦
        let e : Path (Result Bytes × World D) (ok t, w) (ok token, w') = rw full at h in
        (e, λ none_left. some_byte (ok_injective (ap (λ x. x.0) e) ∙ none_left))
  ]
  after_login-nonempty (err e, w) h = absurd (ground arith)
  after_login-nonempty (panic p, w) h = absurd (ground arith)

  token_of-eq-ok :
      (x : Result LoginResponse × World D) {token : Bytes} {w : World D}
      → token_of x ≡ (ok token, w)
      → (r : LoginResponse) × (x ≡ (ok r, w)) × (r.token ≡ token)
  unfolding token_of
  token_of-eq-ok (ok r, w) h = (r, ground (arith, h), ground (arith, h))
  token_of-eq-ok (err e, w) h = absurd (ground arith)
  token_of-eq-ok (panic p, w) h = absurd (ground arith)

  -- Where a token comes from: the environment, else the configuration, else a login that succeeded
  -- with the configured name and password. The job goes on with an empty token only where nothing is
  -- configured, and calls the service for a token only where neither of the first two is set.
  pub choose_token_sound :
      (env_token : Bytes) (cfg : AppConfig) (w w' : World D) {token : Bytes}
      → choose_token login env_token cfg w ≡ (ok token, w')
      → Origin login env_token cfg w token w'
  unfolding choose_token login_to_kms
  choose_token_sound env_token cfg w w' {token} h = elim (empty_or_not env_token) [
    | inr (full, set) ↦
        let e : Path (Result Bytes × World D) (ok env_token, w) (ok token, w') = rw full at h in
        from_env set (ok_injective (ap (λ x. x.0) e)) (ap (λ x. x.1) e)
    | inl (no_env, env_empty) ↦ elim (empty_or_not cfg.bearer_token) [
      | inr (full, set) ↦
          let e : Path (Result Bytes × World D) (ok cfg.bearer_token, w) (ok token, w') =
            rw (no_env, full) at h in
          from_config env_empty set (ok_injective (ap (λ x. x.0) e)) (ap (λ x. x.1) e)
      | inl (no_bearer, bearer_empty) ↦ elim (empty_or_not cfg.username) [
        | inl (no_name, name_empty) ↦
            let e : Path (Result Bytes × World D) (ok [], w) (ok token, w') =
              rw (no_env, no_bearer, no_name) at h in
            from_nothing env_empty bearer_empty name_empty (ok_injective (ap (λ x. x.0) e))
              (ap (λ x. x.1) e)
        | inr (named, set) ↦
            let answer = login (record { username = cfg.username; password = cfg.password }) w in
            let (e, some_byte) =
              after_login-nonempty (token_of answer) (rw (no_env, no_bearer, named) at h) in
            let (r, logged, same) = token_of-eq-ok answer e in
            from_login env_empty bearer_empty set r logged same some_byte
      ]
    ]
  ]
