-- ===== src/Connected/Tests.antt =====
-- Examples for the service behind its client and its gateway.
use kms_golang.Base.{
  Bytes, [], ◌∷◌, ◌++◌, if◌then◌else◌, Option, none, some, codes, bytes_eq, IsBytes, ◌≡◌, ◌≢◌, refl,
  arith,
}
use kms_golang.Fixtures.{
  toy_aes, toy_aes-IsAead, toy_jwt, the_secret, the_token, toy_world, later_world,
}
use kms_golang.Go.Base64
use kms_golang.Client.{IsByteClient}
use kms_golang.Kms.Config.{Env}
use kms_golang.Kms.File
use kms_golang.Go.Gcm.{seal, open_sealed}
use kms_golang.Kms.File.{FileManager}
use kms_golang.Kms.File.Load.{holding}
use kms_golang.Kms.File.Cipher.{drawn}
use kms_golang.Kms.Manager.{Manager, IsManager, file_manager, file_manager-IsManager}
use kms_golang.Connected.Portable.{file_manager-IsPortable}
use kms_golang.Http.Refusal.{IsTurnedAway}
use kms_golang.Auth.{Context, bearer_token}
use kms_golang.Auth.Gate.{IsAuthentic}
use kms_golang.Server.{Times, encrypt, decrypt, new_server, env_jwt, serve_encrypt, serve_decrypt}
use kms_golang.Http.{
  EncryptRequest, EncryptResponse, encrypted, decrypted, respond_ok, create_context,
  encrypt_handler, decrypt_handler,
}
use kms_golang.Connected.{server_client, IsPortable, server_client-IsByteClient}
use kms_golang.Connected.Gateway.{gateway, gateway_round_trip, gateway_refuses}

-- The manager of a key file, with a world of bytes.
abbrev key : FileManager
key = holding (codes "0123456789abcdef0123456789abcdef")

abbrev served : Manager (Unit {0})
served = file_manager toy_aes key

served-IsManager : IsManager served
served-IsManager = file_manager-IsManager toy_aes-IsAead key

served-IsPortable : IsPortable served
served-IsPortable = file_manager-IsPortable toy_aes-IsAead key

random-IsBytes : IsBytes toy_world.entropy
random-IsBytes = ground arith

-- Metadata that arrives as it was sent.
abbrev incoming : Option Bytes → Context
incoming none = some (λ name. [])
incoming (some value) =
    some (λ name. if bytes_eq (codes name) (codes "authorization") then value ∷ [] else [])

-- A server with a secret.
unfoldable is_secret : Env
unfolding bytes_eq
is_secret name = if bytes_eq (codes name) (codes "KMS_JWT_SECRET") then the_secret else []

secret_set : is_secret "KMS_JWT_SECRET" ≢ []
unfolding is_secret
secret_set = ground arith

abbrev clock : Unit {0} → Times
clock u = record { parsed_at = 1; now = 1 }

server_client-IsByteClient_example :
    IsByteClient (server_client (new_server is_secret served) toy_jwt clock incoming)
server_client-IsByteClient_example =
    server_client-IsByteClient is_secret served toy_jwt clock incoming served-IsManager
      served-IsPortable

abbrev card : EncryptRequest
card = record { plaintext = codes "4111"; key_id = [] }

abbrev answer : EncryptResponse
answer = record {
  ciphertext = codes "NDExMQAAAAAAAAAAAAAAAAAAAAA=";
  nonce = codes "bm9uY2UgMDAwMDAx";
}

card_encrypted :
    encrypt_handler
      (gateway is_secret served toy_jwt clock incoming the_token)
      []
      (some card)
      toy_world
    ≡ (respond_ok (encrypted answer), drawn 12 toy_world)
unfolding encrypt_handler server_client serve_encrypt encrypt new_server is_secret file_manager
    File.encrypt seal Base64.encode Base64.digit bytes_eq
card_encrypted = refl

card_decrypted :
    decrypt_handler
      (gateway is_secret served toy_jwt clock incoming the_token)
      (codes "Bearer " ++ the_token)
      (some (record {
        ciphertext = answer.ciphertext;
        nonce = answer.nonce;
        encrypted = [];
        key_id = [];
      }))
      later_world
    ≡ (respond_ok (decrypted card.plaintext), later_world)
unfolding decrypt_handler server_client serve_decrypt decrypt new_server is_secret file_manager
    File.decrypt open_sealed Base64.decode Base64.encode Base64.digit bytes_eq
card_decrypted = refl

gateway_round_trip_example : card.plaintext ≡ card.plaintext
gateway_round_trip_example =
    gateway_round_trip is_secret served toy_jwt clock incoming the_token []
      (codes "Bearer " ++ the_token) card answer card.plaintext toy_world (drawn 12 toy_world)
      later_world later_world served-IsManager served-IsPortable (ground arith) random-IsBytes
      card_encrypted card_decrypted

-- A request without any token.
no_token : ¬ IsAuthentic (env_jwt is_secret) toy_jwt 1 1 (incoming (create_context [] []))
unfolding create_context bearer_token bytes_eq
no_token authentic = absurd (ground (arith, authentic.sent))

gateway_refuses_example :
    let refusing = gateway is_secret served toy_jwt clock incoming [] in
    IsTurnedAway toy_world (encrypt_handler refusing [] (some card) toy_world)
    × IsTurnedAway toy_world (decrypt_handler refusing [] none toy_world)
gateway_refuses_example =
    gateway_refuses is_secret served toy_jwt clock incoming [] [] (some card) none toy_world
      secret_set no_token
