-- ===== src/Server.antt =====
-- internal/server and cmd/kms-server/main.go: the gRPC server, its two services and the interceptor
-- before them. The network, the log and the reflection service are left out.
pub mod Login
pub mod Access
pub mod Crypto
pub mod Process
pub mod Tests
use kms_golang.Base.{
  ℕ, ◌*◌, Bytes, [], ◌∷◌, Bool, not, ◌||◌, if◌then◌else◌, Option, none, some, Result, ok, err,
  panic, Error, new, wrapped, status, unauthenticated, internal, codes, bytes_eq, ◌>>=◌,
}
use kms_golang.Go.World
use kms_golang.Go.World.{M, return}
use kms_golang.Kms.Manager.{Manager}
use kms_golang.Kms.Config.{Env, getenv_default}
use kms_golang.Auth.{JwtConfig, Jwt, Context, second, unary_server_interceptor, issue_token}
use kms_golang.Proto.{
  EncryptRequest, EncryptResponse, DecryptRequest, DecryptResponse, LoginRequest, LoginResponse,
}

pub record KmsServer (D : Type 0) : Type 0 where
  pub manager : Manager D

module _ {D : Type 0} where
  -- The key identifier of a request is not read.
  unfoldable pub encrypt : KmsServer D → EncryptRequest → M D EncryptResponse
  encrypt s req =
      World.◌>>=◌ (s.manager.encrypt req.plaintext)
        (λ (ciphertext, nonce). return (ok (record { ciphertext = ciphertext; nonce = nonce })))

  unfoldable pub decrypt : KmsServer D → DecryptRequest → M D DecryptResponse
  decrypt s req =
      World.◌>>=◌ (s.manager.decrypt req.ciphertext req.nonce)
        (λ plain. return (ok (record { plaintext = plain })))

pub record AuthServer : Type 0 where
  pub jwt_cfg : JwtConfig
  pub user : Bytes
  pub pass : Bytes
  pub token_ttl : ℕ

unfoldable pub new_auth_server : Env → JwtConfig → AuthServer
unfolding bytes_eq
new_auth_server env cfg = record {
  jwt_cfg = cfg;
  user = let user = env "KMS_DEMO_USER" in if bytes_eq user [] then codes "demo" else user;
  pass = let pass = env "KMS_DEMO_PASS" in if bytes_eq pass [] then codes "demo123" else pass;
  token_ttl = 3600 * second;
}

-- `status.Errorf(codes.Internal, "failed to issue token: %v", err)`
abbrev issued : Result Bytes → Result LoginResponse
issued (ok token) = ok (record { token = token })
issued (err e) = err (status internal (wrapped "failed to issue token: " e))
issued (panic s) = panic s

unfoldable pub login : AuthServer → Jwt → ℕ → LoginRequest → Result LoginResponse
login s jwt now req =
    if not (bytes_eq req.username s.user) || not (bytes_eq req.password s.pass)
    then err (status unauthenticated (new "invalid credentials"))
    else issued (issue_token s.jwt_cfg jwt req.username s.token_ttl now)

-- What `Run` registers: the two services, and the interceptor if there is one.
pub record Server (D : Type 0) : Type 0 where
  pub kms : KmsServer D
  pub auth : AuthServer
  pub interceptor : Option JwtConfig

abbrev pub no_jwt : JwtConfig
no_jwt = record { secret = []; audience = []; issuer = [] }

-- The configuration that `main` reads, and the server that it runs.
abbrev pub env_jwt : Env → JwtConfig
env_jwt env = record {
  secret = env "KMS_JWT_SECRET";
  audience = env "KMS_JWT_AUD";
  issuer = env "KMS_JWT_ISS";
}

unfoldable pub new_server : {D : Type 0} → Env → Manager D → Server D
unfolding new_auth_server
new_server env manager =
    if bytes_eq (env "KMS_JWT_SECRET") []
    then record {
      kms = record { manager = manager };
      auth = new_auth_server env no_jwt;
      interceptor = none;
    }
    else record {
      kms = record { manager = manager };
      auth = new_auth_server env (env_jwt env);
      interceptor = some (env_jwt env);
    }

-- The clock during one call: when the library parses the token, and when the handler looks.
pub record Times : Type 0 where
  pub parsed_at : ℕ
  pub now : ℕ

intercepted : {D A : Type 0} → Option JwtConfig → Jwt → Times → Context → Bytes → M D A → M D A
intercepted none jwt t ctx full_method handler = handler
intercepted (some cfg) jwt t ctx full_method handler =
    unary_server_interceptor cfg jwt t.parsed_at t.now ctx full_method handler

module _ {D : Type 0} (s : Server D) (jwt : Jwt) (t : Times) (ctx : Context) where
  unfoldable pub serve_encrypt : EncryptRequest → M D EncryptResponse
  unfolding intercepted unary_server_interceptor
  serve_encrypt req =
      intercepted s.interceptor jwt t ctx (codes "/kms.KMS/Encrypt") (encrypt s.kms req)

  unfoldable pub serve_decrypt : DecryptRequest → M D DecryptResponse
  unfolding intercepted unary_server_interceptor
  serve_decrypt req =
      intercepted s.interceptor jwt t ctx (codes "/kms.KMS/Decrypt") (decrypt s.kms req)

  unfoldable pub serve_login : LoginRequest → M D LoginResponse
  unfolding intercepted unary_server_interceptor
  serve_login req =
      intercepted s.interceptor jwt t ctx (codes "/kms.Auth/Login")
        (return (login s.auth jwt t.now req))
