-- ===== src/Server/Login.antt =====
-- Who gets a token.
use kms_golang.Base.{ℕ, ok, err, new, status, unauthenticated, bytes_eq→eq, ◌≡◌, ◌≢◌, arith, ◌⊎◌}
use kms_golang.Auth.{Jwt, issue_token}
use kms_golang.Proto.{LoginRequest, LoginResponse}
use kms_golang.Server.{AuthServer, login}

-- Who gets a token sent the configured name and password, and the token is issued in that name.
pub login_sound :
    (s : AuthServer) (jwt : Jwt) (now : ℕ) (req : LoginRequest) (r : LoginResponse)
    → login s jwt now req ≡ ok r
    → (req.username ≡ s.user)
      × (req.password ≡ s.pass)
      × (issue_token s.jwt_cfg jwt s.user s.token_ttl now ≡ ok r.token)
unfolding login
login_sound s jwt now req r h =
    ground (arith, bytes_eq→eq req.username s.user, bytes_eq→eq req.password s.pass)

-- A wrong name or a wrong password is refused as unauthenticated, in the same words, whatever the
-- secret and the library.
pub login_refuses :
    (s : AuthServer) (jwt : Jwt) (now : ℕ) (req : LoginRequest)
    → (req.username ≢ s.user) ⊎ (req.password ≢ s.pass)
    → login s jwt now req ≡ err (status unauthenticated (new "invalid credentials"))
unfolding login
login_refuses s jwt now req wrong =
    ground (arith, bytes_eq→eq req.username s.user, bytes_eq→eq req.password s.pass)
