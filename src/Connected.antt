-- ===== src/Connected.antt =====
-- The gRPC service behind its own client, as proto/kms_grpc.pb.go connects them: a call carries its
-- messages and the value of the authorization metadata, and the network loses nothing. The clock is a
-- part of the world's device, and what the gRPC library delivers of the metadata is an argument.
pub mod Gateway
pub mod Portable
pub mod Tests
use kms_golang.Base.{
  Bytes, String, List, [], ◌∷◌, if◌then◌else◌, Option, none, some, Result, ok, err, codes, bytes_eq,
  false, bytes_eq→eq, eq→bytes_eq, Bool-cases, inl, inr, IsBytes, length, ◌≡◌, ◌≢◌, refl, sym, ap,
  ◌∙◌, arith, ok_injective,
}
use mathlib.Core.Path.{subst}
use kms_golang.Go.World.{World, M, >>=-eq-ok}
use kms_golang.Proto.{EncryptRequest, EncryptResponse, DecryptRequest, DecryptResponse}
use kms_golang.Client.{KmsClient, IsByteClient}
use kms_golang.Kms.Config.{Env}
use kms_golang.Kms.Manager.{Manager, IsManager}
use kms_golang.Auth.{Context, Jwt, JwtConfig}
use kms_golang.Server.{Server, Times, encrypt, decrypt, new_server, serve_encrypt, serve_decrypt}
use kms_golang.Server.Access.{IsGuarded, new_server-IsGuarded, new_server_open}
use kms_golang.Server.Crypto.{decrypt-encrypt_honest}

unfoldable pub server_client :
    {D : Type 0} → Server D → Jwt → (D → Times) → (Option Bytes → Context) → KmsClient D
unfolding serve_encrypt serve_decrypt
server_client s jwt clock incoming = record {
  encrypt = λ ctx req w. serve_encrypt s jwt (clock w.device) (incoming ctx) req w;
  decrypt = λ ctx req w. serve_decrypt s jwt (clock w.device) (incoming ctx) req w;
}

-- What goes over the network is bytes: from a text of bytes and a random source that delivers bytes, a
-- manager makes bytes, and nonces of twelve of them.
pub record IsPortable {D : Type 0} (m : Manager D) : Type 0 where
  pub bytes :
      (plain ciphertext nonce : Bytes) (w w' : World D)
      → IsBytes plain
      → IsBytes w.entropy
      → m.encrypt plain w ≡ (ok (ciphertext, nonce), w')
      → IsBytes ciphertext × IsBytes nonce × (length nonce ≡ 12)

new_server-kms :
    (env : Env) {D : Type 0} (m : Manager D) → (new_server env m).kms ≡ record { manager = m }
unfolding new_server
new_server-kms env m = elim (Bool-cases (bytes_eq (env "KMS_JWT_SECRET") [])) [
  | inl empty ↦ rw empty refl
  | inr set ↦ rw set refl
]

-- Inversion of a guarded call that succeeds.
guarded-eq-ok :
    {D A : Type 0} {cfg : JwtConfig} {jwt : Jwt} {t : Times} {ctx : Context} (call handler : M D A)
    {w w' : World D} {a : A}
    → IsGuarded cfg jwt t ctx call handler w
    → call w ≡ (ok a, w')
    → handler w ≡ (ok a, w')
guarded-eq-ok call handler (inl (authentic, same)) h = sym same ∙ h
guarded-eq-ok call handler (inr (e, refused)) h = absurd (ground (arith, sym refused ∙ h))

not_empty : {b : Bytes} → bytes_eq b [] ≡ false → b ≢ []
not_empty {b} set empty = absurd (ground (arith, set, eq→bytes_eq b [] empty))

module _ (env : Env) {D : Type 0} (m : Manager D) (jwt : Jwt) where
  -- A call that succeeds has been handled.
  serve_encrypt-handled :
      (t : Times) (ctx : Context) (req : EncryptRequest) {r : EncryptResponse} (w : World D)
      {w' : World D}
      → serve_encrypt (new_server env m) jwt t ctx req w ≡ (ok r, w')
      → encrypt (record { manager = m }) req w ≡ (ok r, w')
  serve_encrypt-handled t ctx req {r} w {w'} h =
      let any : DecryptRequest = record { ciphertext = []; nonce = []; key_id = [] } in
      elim (Bool-cases (bytes_eq (env "KMS_JWT_SECRET") [])) [
        | inl empty ↦
            sym
              (new_server_open env m jwt t ctx w req any
                (bytes_eq→eq (env "KMS_JWT_SECRET") [] empty)).0
            ∙ h
        | inr set ↦
            subst (λ kms. encrypt kms req w ≡ (ok r, w')) (new_server-kms env m)
              (guarded-eq-ok (serve_encrypt (new_server env m) jwt t ctx req)
                (encrypt (new_server env m).kms req)
                (new_server-IsGuarded env m jwt t ctx w req any (not_empty set)).0 h)
      ]

  serve_decrypt-handled :
      (t : Times) (ctx : Context) (req : DecryptRequest) {r : DecryptResponse} (w : World D)
      {w' : World D}
      → serve_decrypt (new_server env m) jwt t ctx req w ≡ (ok r, w')
      → decrypt (record { manager = m }) req w ≡ (ok r, w')
  serve_decrypt-handled t ctx req {r} w {w'} h =
      let any : EncryptRequest = record { plaintext = []; key_id = [] } in
      elim (Bool-cases (bytes_eq (env "KMS_JWT_SECRET") [])) [
        | inl empty ↦
            sym
              (new_server_open env m jwt t ctx w any req
                (bytes_eq→eq (env "KMS_JWT_SECRET") [] empty)).1
            ∙ h
        | inr set ↦
            subst (λ kms. decrypt kms req w ≡ (ok r, w')) (new_server-kms env m)
              (guarded-eq-ok (serve_decrypt (new_server env m) jwt t ctx req)
                (decrypt (new_server env m).kms req)
                (new_server-IsGuarded env m jwt t ctx w any req (not_empty set)).1 h)
      ]

  encrypt-called :
      (req : EncryptRequest) {r : EncryptResponse} (w : World D) {w' : World D}
      → encrypt (record { manager = m }) req w ≡ (ok r, w')
      → m.encrypt req.plaintext w ≡ (ok (r.ciphertext, r.nonce), w')
  unfolding encrypt
  encrypt-called req w h =
      let ((c, n), w1, sealed, e) = >>=-eq-ok (m.encrypt req.plaintext) _ w h in
      ground (arith, sealed, e)

  -- The client of the server that an environment configures keeps the contract of a client for texts
  -- of bytes, if the manager behind it keeps its own and makes bytes of bytes: with or without the
  -- gate, for every clock, whatever tokens the calls carry, and however the metadata is delivered.
  pub server_client-IsByteClient :
      (clock : D → Times) (incoming : Option Bytes → Context)
      → IsManager m
      → IsPortable m
      → IsByteClient (server_client (new_server env m) jwt clock incoming)
  unfolding server_client
  server_client-IsByteClient clock incoming contract portable = record {
    bytes = λ ctx req r w w' text random sealed.
        portable.bytes req.plaintext r.ciphertext r.nonce w w' text random (
          encrypt-called req w
            (serve_encrypt-handled (clock w.device) (incoming ctx) req w sealed));
    honest = λ ctx ctx' req r key_id answer w w' later last sealed opened.
        decrypt-encrypt_honest (record { manager = m }) req r key_id w w' later last answer contract
          (serve_encrypt-handled (clock w.device) (incoming ctx) req w sealed)
          (serve_decrypt-handled (clock later.device) (incoming ctx')
            (record { ciphertext = r.ciphertext; nonce = r.nonce; key_id = key_id }) later opened);
  }
