-- ===== src/Http.antt =====
-- cmd/kms-http-server/main.go: the HTTP gateway before the gRPC service. A request arrives with its
-- JSON body decoded, `none` where the decoder fails; a response holds the body before it is encoded.
-- The client of the service is an argument; its timeout of 30 seconds shows only as an error.
pub mod Context
pub mod Single
pub mod Refusal
pub mod Batch
pub mod Routes
pub mod Tests
use kms_golang.Base.{
  ℕ, Bytes, [], ◌∷◌, ◌++◌, List, Bool, true, false, not, ◌&&◌, if◌then◌else◌, Option, none, some,
  String, Result, ok, err, panic, Error, new, wrapped, codes, bytes_eq,
}
use kms_golang.Go.Base64
use kms_golang.Go.Strings.{has_prefix, trim_prefix}
use kms_golang.Go.World.{World, M}
use kms_golang.Kms.Format.{aes_gcm_nonce_size, split_nonce_and_ciphertext}
use kms_golang.Proto
use kms_golang.Client.{KmsClient}

-- The JSON requests and responses.
pub record EncryptRequest : Type 0 where
  pub plaintext : Bytes
  pub key_id : Bytes

pub record EncryptResponse : Type 0 where
  pub ciphertext : Bytes
  pub nonce : Bytes

pub record DecryptRequest : Type 0 where
  pub ciphertext : Bytes
  pub nonce : Bytes
  pub encrypted : Bytes
  pub key_id : Bytes

pub data Body : Type 0 where
  no_body : Body
  health : Body
  encrypted : EncryptResponse → Body
  batch : List EncryptResponse → List Error → Body
  decrypted : Bytes → Body
  failed : Error → Body

pub record Response : Type 0 where
  pub code : ℕ
  pub headers : List (String × String)
  pub body : Body

abbrev json_type : String × String
json_type = ("Content-Type", "application/json")

abbrev pub respond_ok : Body → Response
respond_ok body = record { code = 200; headers = json_type ∷ []; body = body }

unfoldable pub respond_error : ℕ → Error → Response
respond_error code message = record { code = code; headers = json_type ∷ []; body = failed message }

pub record HttpServer (D : Type 0) : Type 0 where
  pub grpc_client : KmsClient D
  pub token : Bytes

-- `createContext`, from the server's own token and the request's Authorization header.
unfoldable pub create_context : Bytes → Bytes → Option Bytes
unfolding has_prefix trim_prefix
create_context token auth_header =
    if not (bytes_eq auth_header []) && has_prefix auth_header (codes "Bearer ")
    then some (codes "Bearer " ++ trim_prefix auth_header (codes "Bearer "))
    else if not (bytes_eq token [])
    then some (codes "Bearer " ++ token)
    else none

unfoldable pub health_handler : Response
health_handler = respond_ok health

abbrev pub cors : List (String × String)
cors =
    ("Access-Control-Allow-Origin", "*")
    ∷ ("Access-Control-Allow-Methods", "GET, POST, OPTIONS")
    ∷ ("Access-Control-Allow-Headers", "Content-Type, Authorization")
    ∷ []

unfoldable pub cors_middleware :
    {D : Type 0} → Bytes → (World D → Response × World D) → World D → Response × World D
cors_middleware method next w =
    if bytes_eq method (codes "OPTIONS")
    then (record { code = 200; headers = cors; body = no_body }, w)
    else let (r, w') = next w in (record r { headers = cors ++ r.headers }, w')

-- The end of a handler: an error of the call is a 500.
abbrev answered : {D A : Type 0} → (A → Body) → Result A × World D → Response × World D
answered f (ok a, w) = (respond_ok (f a), w)
answered f (err e, w) = (respond_error 500 e, w)
answered f (panic s, w) = (respond_error 500 (new s), w)

-- Both parts in base64.
abbrev pub encoded : Proto.EncryptResponse → EncryptResponse
encoded r = record { ciphertext = Base64.encode r.ciphertext; nonce = Base64.encode r.nonce }

module _ {D : Type 0} (s : HttpServer D) (auth_header : Bytes) where
  unfoldable pub encrypt_handler : Option EncryptRequest → World D → Response × World D
  unfolding create_context respond_error
  encrypt_handler none w = (respond_error 400 (new "invalid request body"), w)
  encrypt_handler (some req) w =
      if bytes_eq req.plaintext []
      then (respond_error 400 (new "plaintext is required"), w)
      else answered (λ r. encrypted (encoded r))
          (s.grpc_client.encrypt (create_context s.token auth_header)
            (record { plaintext = req.plaintext; key_id = req.key_id }) w)

  -- The call of the service, with a nonce and a ciphertext.
  call_decrypt : Bytes → Bytes × Bytes → World D → Response × World D
  call_decrypt key_id (nonce, ciphertext) w =
      answered (λ r. decrypted r.plaintext)
        (s.grpc_client.decrypt (create_context s.token auth_header)
          (record { ciphertext = ciphertext; nonce = nonce; key_id = key_id }) w)

  -- `if err != nil { respondError(w, http.StatusBadRequest, …); return }`
  or_bad_request :
      {A : Type 0}
      → (Error → Error)
      → Result A
      → (A → World D → Response × World D)
      → World D
      → Response × World D
  or_bad_request message (ok a) next w = next a w
  or_bad_request message (err e) next w = (respond_error 400 (message e), w)
  or_bad_request message (panic p) next w = (respond_error 500 (new p), w)

  unfoldable pub decrypt_handler : Option DecryptRequest → World D → Response × World D
  unfolding create_context respond_error call_decrypt or_bad_request
  decrypt_handler none w = (respond_error 400 (new "invalid request body"), w)
  decrypt_handler (some req) w =
      if not (bytes_eq req.encrypted [])
      then or_bad_request (wrapped "invalid encrypted format: ")
          (split_nonce_and_ciphertext req.encrypted aes_gcm_nonce_size) (call_decrypt req.key_id) w
      else or_bad_request (λ _. new "invalid ciphertext encoding") (Base64.decode req.ciphertext)
          (λ ciphertext.
            or_bad_request (λ _. new "invalid nonce encoding") (Base64.decode req.nonce)
              (λ nonce. call_decrypt req.key_id (nonce, ciphertext)))
          w
