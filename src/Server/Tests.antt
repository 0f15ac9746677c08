-- ===== src/Server/Tests.antt =====
-- Examples for internal/server.
use kms_golang.Base.{
  Bytes, List, [], ◌∷◌, ◌++◌, none, some, String, Result, ok, ◌⊎◌, codes, bytes_eq, ◌≡◌, ◌≢◌, refl,
  sym, arith, if◌then◌else◌,
}
use kms_golang.Fixtures.{
  hour, the_secret, the_token, toy_aes, toy_aes-IsAead, toy_jwt, toy_jwt-IsJwt, toy_world,
  later_world,
}
use mathlib.Core.Path.{subst}
use kms_golang.Go.Gcm.{nonce_size}
use kms_golang.Kms.File.{FileManager}
use kms_golang.Kms.File.Load.{holding}
use kms_golang.Kms.File.Cipher.{drawn}
use kms_golang.Kms.Manager.{Manager, file_manager}
use kms_golang.Kms.Config.{Env, stubs}
use kms_golang.Auth.{issue_token}
use kms_golang.Auth.Issue.{IsAscii}
use kms_golang.Proto.{EncryptRequest, EncryptResponse, DecryptRequest, LoginRequest}
use kms_golang.Server.{
  AuthServer, Times, encrypt, decrypt, login, new_server, env_jwt, serve_encrypt, serve_decrypt,
  serve_login,
}
use kms_golang.Go.World.{M}
use kms_golang.Server.Process.{IsRefused, IsServing, main_guarded}
use kms_golang.Server.Access.{IsGuarded, new_server-IsGuarded, serve_login-serve}
use kms_golang.Server.Crypto.{back, file_server, decrypt-encrypt_file}

abbrev manager : FileManager
manager = holding (codes "0123456789abcdef0123456789abcdef")

abbrev served : Manager (Unit {0})
served = file_manager toy_aes manager

-- An environment that sets the secret only.
unfoldable is_secret : String → Bytes
unfolding bytes_eq
is_secret name = if bytes_eq (codes name) (codes "KMS_JWT_SECRET") then the_secret else []

abbrev demo : LoginRequest
demo = record { username = codes "demo"; password = codes "demo123" }

abbrev card : EncryptRequest
card = record { plaintext = codes "4111111111111111"; key_id = [] }

abbrev noise : DecryptRequest
noise = record { ciphertext = codes "noise"; nonce = codes "short"; key_id = [] }

abbrev start : Times
start = record { parsed_at = 0; now = 0 }

abbrev soon : Times
soon = record { parsed_at = 1; now = 1 }

abbrev bearer : String → List Bytes
bearer key = (codes "Bearer " ++ the_token) ∷ []

secret_set : is_secret "KMS_JWT_SECRET" ≢ []
unfolding is_secret
secret_set = ground arith

other_unset : (is_secret "KMS_JWT_ISS" ≡ []) × (is_secret "KMS_JWT_AUD" ≡ [])
unfolding is_secret
other_unset = (refl, refl)

new_server-IsGuarded_example :
    IsGuarded
      (env_jwt is_secret)
      toy_jwt
      soon
      none
      (serve_encrypt (new_server is_secret served) toy_jwt soon none card)
      (encrypt (new_server is_secret served).kms card)
      toy_world
    × IsGuarded
        (env_jwt is_secret)
        toy_jwt
        soon
        none
        (serve_decrypt (new_server is_secret served) toy_jwt soon none noise)
        (decrypt (new_server is_secret served).kms noise)
        toy_world
new_server-IsGuarded_example =
    new_server-IsGuarded is_secret served toy_jwt soon none toy_world card noise secret_set

demo_login :
    serve_login (new_server is_secret served) toy_jwt start none demo toy_world
    ≡ (ok (record { token = the_token }), toy_world)
unfolding serve_login new_server login issue_token bytes_eq is_secret
demo_login = refl

serve_login-serve_example :
    (serve_encrypt (new_server is_secret served) toy_jwt soon (some bearer) card later_world
      ≡ encrypt (new_server is_secret served).kms card later_world)
    × (serve_decrypt (new_server is_secret served) toy_jwt soon (some bearer) noise later_world
        ≡ decrypt (new_server is_secret served).kms noise later_world)
serve_login-serve_example =
    serve_login-serve toy_jwt-IsJwt is_secret served start soon none (some bearer) bearer [] demo
      (record { token = the_token }) card noise toy_world toy_world later_world secret_set
      (ground arith) (subst IsAscii (sym other_unset.0) tt) (subst IsAscii (sym other_unset.1) tt)
      demo_login refl refl (omega arith) (omega arith)

-- An environment that sets nothing.
abbrev nothing_set : Env
nothing_set name = []

abbrev auth_server : AuthServer
auth_server = record {
  jwt_cfg = record { secret = the_secret; audience = []; issuer = [] };
  user = codes "demo";
  pass = codes "demo123";
  token_ttl = hour;
}

logged_in : login auth_server toy_jwt 0 demo ≡ ok (record { token = the_token })
unfolding login issue_token bytes_eq
logged_in = refl

-- Encryption and decryption.
decrypt-encrypt_file_example :
    (r : EncryptResponse) × (encrypt (file_server toy_aes manager) card toy_world
      ≡ (ok r, drawn nonce_size toy_world))
    × (decrypt (file_server toy_aes manager) (back r (codes "any")) later_world
        ≡ (ok (record { plaintext = card.plaintext }), later_world))
decrypt-encrypt_file_example =
    decrypt-encrypt_file toy_aes-IsAead manager card (codes "any") toy_world later_world refl
      (omega arith)

-- The whole program, with a key file and an address that is free.
abbrev key_file : Bytes → Result Bytes
key_file path = ok (codes "000102030405060708090a0b0c0d0e0f101112131415161718191a1b1c1d1e1f")

abbrev free : Bytes → M (Unit {0}) (Unit {0})
free addr w = (ok tt, w)

main_guarded_example :
    IsRefused free is_secret stubs toy_aes key_file toy_world
    ⊎ IsServing free is_secret stubs toy_aes key_file toy_world toy_jwt
main_guarded_example =
    main_guarded free is_secret stubs toy_aes key_file toy_world toy_jwt secret_set
