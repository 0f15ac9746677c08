-- ===== src/Connected/Gateway.antt =====
-- The HTTP gateway of cmd/kms-http-server/main.go before the gRPC server of internal/server.
use kms_golang.Base.{
  Bytes, IsBytes, err, [], Option, some, Error, status, unauthenticated, inl, inr, ◌≡◌, ◌≢◌,
}
use kms_golang.Go.World.{World, M}
use kms_golang.Proto
use kms_golang.Kms.Config.{Env}
use kms_golang.Kms.Manager.{Manager, IsManager}
use kms_golang.Auth.{Jwt, Context}
use kms_golang.Auth.Gate.{IsAuthentic}
use kms_golang.Server.{Times, new_server, env_jwt, serve_encrypt, serve_decrypt, encrypt, decrypt}
use kms_golang.Server.Access.{IsGuarded, new_server-IsGuarded}
use kms_golang.Http.{
  HttpServer, EncryptRequest, DecryptRequest, EncryptResponse, respond_ok, encrypted, decrypted,
  create_context, encrypt_handler, decrypt_handler,
}
use kms_golang.Http.Refusal.{IsTurnedAway, encrypt_handler-turned, decrypt_handler-turned}
use kms_golang.Http.Single.{decrypt_handler-encrypt_handler}
use kms_golang.Connected.{server_client, IsPortable, server_client-IsByteClient}

module _ (env : Env) {D : Type 0} (m : Manager D) (jwt : Jwt) (clock : D → Times)
    (incoming : Option Bytes → Context) (token : Bytes) where
  abbrev pub gateway : HttpServer D
  gateway = record {
    grpc_client = server_client (new_server env m) jwt clock incoming;
    token = token;
  }

  -- Through the gateway, the server and the manager: what was encrypted with status 200 and is
  -- decrypted with status 200, at any later time and with any tokens, is the text, if the manager
  -- keeps its contract and makes bytes of bytes. The text is one of bytes, and so is what the random
  -- source delivers.
  pub gateway_round_trip :
      (auth auth' : Bytes) (req : EncryptRequest) (e : EncryptResponse) (answer : Bytes)
      (w w' later last : World D)
      → IsManager m
      → IsPortable m
      → IsBytes req.plaintext
      → IsBytes w.entropy
      → encrypt_handler gateway auth (some req) w ≡ (respond_ok (encrypted e), w')
      → decrypt_handler gateway auth'
          (some
            (record { ciphertext = e.ciphertext; nonce = e.nonce; encrypted = []; key_id = [] }))
          later
        ≡ (respond_ok (decrypted answer), last)
      → answer ≡ req.plaintext
  gateway_round_trip auth auth' req e answer w w' later last contract portable =
      decrypt_handler-encrypt_handler gateway auth auth' req e answer w w' later last
        (server_client-IsByteClient env m jwt clock incoming contract portable)

  -- With a secret in the server's environment, a request to encrypt or to decrypt one item, whatever
  -- its body is, is answered with an error of status 400 or 500 if the token that the gateway forwards,
  -- that of the request's own header or else that of the gateway, is not authentic and current. The
  -- world stays as it was: neither the manager nor the random source is touched.
  pub gateway_refuses :
      (auth : Bytes) (plain : Option EncryptRequest) (sealed : Option DecryptRequest) (w : World D)
      → env "KMS_JWT_SECRET" ≢ []
      → let t = clock w.device in
        ¬ IsAuthentic (env_jwt env) jwt t.parsed_at t.now (incoming (create_context token auth))
        → IsTurnedAway w (encrypt_handler gateway auth plain w)
          × IsTurnedAway w (decrypt_handler gateway auth sealed w)
  unfolding server_client
  gateway_refuses auth plain sealed w secret stranger =
      let t = clock w.device in
      let ctx = incoming (create_context token auth) in
      let s = new_server env m in
      let any : Proto.EncryptRequest = record { plaintext = []; key_id = [] } in
      let any_sealed : Proto.DecryptRequest = record { ciphertext = []; nonce = []; key_id = [] } in
      (
        encrypt_handler-turned gateway auth w plain (λ req.
            turned (serve_encrypt s jwt t ctx req) (encrypt s.kms req)
              (new_server-IsGuarded env m jwt t ctx w req any_sealed secret).0),
        decrypt_handler-turned gateway auth w sealed (λ req.
            turned (serve_decrypt s jwt t ctx req) (decrypt s.kms req)
              (new_server-IsGuarded env m jwt t ctx w any req secret).1),
      )
    where
      turned :
          {A : Type 0} (call handler : M D A)
          → IsGuarded
              (env_jwt env)
              jwt
              (clock w.device)
              (incoming (create_context token auth))
              call
              handler
              w
          → (e : Error) × (call w ≡ (err e, w))
      turned call handler (inl (authentic, same)) = absurd (stranger authentic)
      turned call handler (inr (e, refused)) = (status unauthenticated e, refused)
