-- ===== src/Server/Process.antt =====
-- `Run` of internal/server/server.go and `main` of cmd/kms-server/main.go: a manager is made, the
-- address is taken, and the server runs. The network is an argument, and the texts of the errors leave
-- out the path of the key.
use kms_golang.Base.{
  Bytes, String, if◌then◌else◌, Result, ok, err, panic, Error, wrapped, codes, bytes_eq, ◌≡◌, ◌≢◌,
  refl, ◌⊎◌, inl, inr, arith, [],
}
use kms_golang.Go.World.{World, M, ◌>>=◌}
use kms_golang.Go.Gcm.{Aes}
use kms_golang.Kms.Config.{Env, Providers, getenv_default, server_manager}
use kms_golang.Kms.Manager.{Manager}
use kms_golang.Auth.{Jwt, Context}
use kms_golang.Proto.{EncryptRequest, DecryptRequest}
use kms_golang.Server.{
  Server, Times, new_server, env_jwt, serve_encrypt, serve_decrypt, encrypt, decrypt,
}
use kms_golang.Server.Access.{IsGuarded, new_server-IsGuarded}

-- How the process ends.
pub data Exit : Type 0 where
  fatal : Error → Exit
  crashed : String → Exit
  stopped : Exit

-- `log.Fatalf("prefix: %v", err)`, or the next statement.
or_fatal :
    {D A : Type 0} → String → (A → World D → Exit × World D) → Result A × World D → Exit × World D
or_fatal prefix next (ok a, w) = next a w
or_fatal prefix next (err e, w) = (fatal (wrapped prefix e), w)
or_fatal prefix next (panic p, w) = (crashed p, w)

abbrev load_failure : Env → String
load_failure env =
    if bytes_eq (env "KMS_HSM_TYPE") []
    then "failed to load master key: "
    else "failed to initialize HSM manager: "

unfoldable pub ended : {D : Type 0} → Result (Unit {0}) × World D → Exit × World D
unfolding or_fatal
ended = or_fatal "KMS server exited with error: " (λ _ w. (stopped, w))

module _ {D : Type 0} (listen : Bytes → M D (Unit {0})) (serve : Server D → M D (Unit {0}))
    (env : Env) where
  unfoldable pub run : Bytes → Manager D → M D (Unit {0})
  run addr m = listen addr >>= λ _. serve (new_server env m)

  unfoldable pub main : Providers D → Aes → (Bytes → Result Bytes) → World D → Exit × World D
  unfolding or_fatal run ended
  main build aes read_file w =
      let addr = getenv_default env "KMS_GRPC_ADDR" (codes ":50051") in
      or_fatal (load_failure env) (λ m w'. ended (run addr m w'))
        (server_manager env build aes read_file w)

module _ {D : Type 0} (listen : Bytes → M D (Unit {0})) (env : Env) (build : Providers D)
    (aes : Aes) (read_file : Bytes → Result Bytes) (w : World D) where
  -- The process ends before it serves, whatever serving would do.
  pub record IsRefused : Type 0 where
    pub exit : Exit
    pub left : World D
    pub exits :
        (serve : Server D → M D (Unit {0}))
        → main listen serve env build aes read_file w ≡ (exit, left)
    pub failed : exit ≢ stopped

  -- The process serves a server of which every call is guarded.
  pub record IsServing (jwt : Jwt) : Type 0 where
    pub manager : Manager D
    pub server : Server D
    pub loaded : World D
    pub ready : World D
    pub made : server_manager env build aes read_file w ≡ (ok manager, loaded)
    pub listening :
        listen (getenv_default env "KMS_GRPC_ADDR" (codes ":50051")) loaded ≡ (ok tt, ready)
    pub serves :
        (serve : Server D → M D (Unit {0}))
        → main listen serve env build aes read_file w ≡ ended (serve server ready)
    pub guarded :
        (t : Times) (ctx : Context) (later : World D) (plain : EncryptRequest)
        (sealed : DecryptRequest)
        → IsGuarded
            (env_jwt env)
            jwt
            t
            ctx
            (serve_encrypt server jwt t ctx plain)
            (encrypt server.kms plain)
            later
          × IsGuarded
              (env_jwt env)
              jwt
              t
              ctx
              (serve_decrypt server jwt t ctx sealed)
              (decrypt server.kms sealed)
              later

  -- What `Run` does with a manager that was made.
  after_load :
      (jwt : Jwt) (m : Manager D) (loaded : World D)
      → env "KMS_JWT_SECRET" ≢ []
      → server_manager env build aes read_file w ≡ (ok m, loaded)
      → (heard : Result (Unit {0}) × World D)
      → listen (getenv_default env "KMS_GRPC_ADDR" (codes ":50051")) loaded ≡ heard
      → IsRefused ⊎ IsServing jwt
  unfolding main or_fatal run ended
  after_load jwt m loaded secret made (ok tt, ready) h = inr (record {
    manager = m;
    server = new_server env m;
    loaded = loaded;
    ready = ready;
    made = made;
    listening = h;
    serves = λ serve. rw (made, h) refl;
    guarded =
        λ t ctx later plain sealed. new_server-IsGuarded env m jwt t ctx later plain sealed secret;
  })
  after_load jwt m loaded secret made (err e, left) h = inl (record {
    exit = fatal (wrapped "KMS server exited with error: " e);
    left = left;
    exits = λ serve. rw (made, h) refl;
    failed = ground arith;
  })
  after_load jwt m loaded secret made (panic p, left) h = inl (record {
    exit = crashed p;
    left = left;
    exits = λ serve. rw (made, h) refl;
    failed = ground arith;
  })

  after_manager :
      (jwt : Jwt)
      → env "KMS_JWT_SECRET" ≢ []
      → (made : Result (Manager D) × World D) → server_manager env build aes read_file w ≡ made
      → IsRefused ⊎ IsServing jwt
  unfolding main or_fatal
  after_manager jwt secret (ok m, loaded) h = after_load jwt m loaded secret h _ refl
  after_manager jwt secret (err e, left) h = inl (record {
    exit = fatal (wrapped (load_failure env) e);
    left = left;
    exits = λ serve. rw h refl;
    failed = ground arith;
  })
  after_manager jwt secret (panic p, left) h =
      inl (record {
        exit = crashed p;
        left = left;
        exits = λ serve. rw h refl;
        failed = ground arith;
      })

  -- With a secret in its environment, the server program either ends with an error before it serves,
  -- or it makes the manager, listens at its address, and serves a server of which every call of
  -- Encrypt and Decrypt, at any time, is handled only for an authentic and current token.
  pub main_guarded : (jwt : Jwt) → env "KMS_JWT_SECRET" ≢ [] → IsRefused ⊎ IsServing jwt
  main_guarded jwt secret = after_manager jwt secret _ refl
