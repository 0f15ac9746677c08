-- ===== src/Auth/Tests.antt =====
-- Examples for internal/auth.
use kms_golang.Base.{
  Bytes, List, [], ◌∷◌, ◌++◌, false, some, String, ok, codes, bytes_eq, ◌≡◌, refl, arith,
}
use kms_golang.Fixtures.{hour, the_secret, the_token, toy_jwt, toy_jwt-IsJwt}
use kms_golang.Go.World.{M}
use kms_golang.Go.Strings.{has_suffix}
use kms_golang.Auth.{JwtConfig, authenticate, issue_token}
use kms_golang.Auth.Issue.{authenticate-issue_token}

abbrev secured : JwtConfig
secured = record { secret = the_secret; audience = []; issuer = [] }

abbrev handler : M (Unit {0}) Bytes
handler w = (ok (codes "handled"), w)

abbrev bearer : String → List Bytes
bearer key = (codes "Bearer " ++ the_token) ∷ []

encrypt_is_no_login : has_suffix (codes "/kms.KMS/Encrypt") (codes "/Login") ≡ false
unfolding has_suffix
encrypt_is_no_login = refl

demo_issued : issue_token secured toy_jwt (codes "demo") hour 0 ≡ ok the_token
unfolding issue_token bytes_eq
demo_issued = refl

authenticate-issue_token_example : authenticate secured toy_jwt 1 1 (some bearer) ≡ ok tt
authenticate-issue_token_example =
    authenticate-issue_token toy_jwt-IsJwt secured (codes "demo") the_token hour 0 1 1 bearer []
      (ground arith) tt tt demo_issued refl (omega arith) (omega arith)
