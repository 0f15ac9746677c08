-- ===== src/Client.antt =====
-- proto/kms_grpc.pb.go, `KMSClient`: the interface through which the HTTP gateway and the ETL job call
-- the service, and its contract.
use kms_golang.Base.{Bytes, Option, ok, IsBytes, length, ◌≡◌}
use kms_golang.Go.World.{World, M}
use kms_golang.Proto

-- `KMSClient`: the outgoing context is the value of the `authorization` metadata, if there is one.
pub record KmsClient (D : Type 0) : Type 0 where
  pub encrypt : Option Bytes → Proto.EncryptRequest → M D Proto.EncryptResponse
  pub decrypt : Option Bytes → Proto.DecryptRequest → M D Proto.DecryptResponse

-- What the gateway and the ETL job rely on of the service behind the client: bytes, nonces of
-- twelve of them, and no ciphertext that is decrypted to anything but its plain text.
pub record IsClient {D : Type 0} (c : KmsClient D) : Type 0 where
  pub bytes :
      (ctx : Option Bytes) (req : Proto.EncryptRequest) (r : Proto.EncryptResponse) (w w' : World D)
      → c.encrypt ctx req w ≡ (ok r, w')
      → IsBytes r.ciphertext × IsBytes r.nonce × (length r.nonce ≡ 12)
  pub honest :
      (ctx ctx' : Option Bytes) (req : Proto.EncryptRequest) (r : Proto.EncryptResponse)
      (key_id : Bytes) (answer : Proto.DecryptResponse) (w w' later last : World D)
      → c.encrypt ctx req w ≡ (ok r, w')
      → c.decrypt ctx'
          (record { ciphertext = r.ciphertext; nonce = r.nonce; key_id = key_id })
          later
        ≡ (ok answer, last)
      → answer.plaintext ≡ req.plaintext

-- The same of a service whose random source delivers bytes, for texts that are bytes.
pub record IsByteClient {D : Type 0} (c : KmsClient D) : Type 0 where
  pub bytes :
      (ctx : Option Bytes) (req : Proto.EncryptRequest) (r : Proto.EncryptResponse) (w w' : World D)
      → IsBytes req.plaintext
      → IsBytes w.entropy
      → c.encrypt ctx req w ≡ (ok r, w')
      → IsBytes r.ciphertext × IsBytes r.nonce × (length r.nonce ≡ 12)
  pub honest :
      (ctx ctx' : Option Bytes) (req : Proto.EncryptRequest) (r : Proto.EncryptResponse)
      (key_id : Bytes) (answer : Proto.DecryptResponse) (w w' later last : World D)
      → c.encrypt ctx req w ≡ (ok r, w')
      → c.decrypt ctx'
          (record { ciphertext = r.ciphertext; nonce = r.nonce; key_id = key_id })
          later
        ≡ (ok answer, last)
      → answer.plaintext ≡ req.plaintext

-- `AuthClient.Login`.
abbrev pub AuthClient : Type 0 → Type 0
AuthClient D = Proto.LoginRequest → M D Proto.LoginResponse
