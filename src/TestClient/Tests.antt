-- ===== src/TestClient/Tests.antt =====
-- An example for the command line: a number is encrypted and decrypted again.
use kms_golang.Base.{Bytes, [], ◌∷◌, ok, err, new, codes, ◌≡◌, refl}
use kms_golang.Fixtures.{toy_client, toy_client-IsClient, toy_world, later_world}
use kms_golang.Kms.Config.{Env}
use kms_golang.TestClient.{Connection, printed, encrypted, decrypted, main}
use kms_golang.TestClient.RoundTrip.{main-main}

abbrev with_token : Env
with_token name = codes "token"

abbrev toy_connection : Connection (Unit {0})
toy_connection = record { kms = toy_client; auth = λ req w. (err (new "no login"), w) }

abbrev nonce_hex : Bytes
nonce_hex = codes "6e6f6e636520303030303031"

text_encrypted :
    main with_token (λ addr. ok toy_connection) (codes "encrypt" ∷ codes "card" ∷ []) toy_world
    ≡ (printed (encrypted (codes "card") (codes "63617264") nonce_hex), toy_world)
unfolding main
text_encrypted = refl

text_decrypted :
    main with_token
      (λ addr. ok toy_connection)
      (codes "decrypt" ∷ codes "63617264" ∷ nonce_hex ∷ [])
      later_world
    ≡ (printed (decrypted (codes "card")), later_world)
unfolding main
text_decrypted = refl

main-main_example : decrypted (codes "card") ≡ decrypted (codes "card")
main-main_example =
    main-main with_token (λ addr. ok toy_connection) toy_connection refl (codes "card")
      (codes "card") (codes "63617264") nonce_hex (decrypted (codes "card")) toy_world toy_world
      later_world later_world toy_client-IsClient text_encrypted text_decrypted
