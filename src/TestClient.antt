-- ===== src/TestClient.antt =====
-- cmd/test-client/main.go: the command line that logs in, encrypts and decrypts. A text argument is its
-- bytes; the connection, and the two clients behind it, are arguments.
pub mod RoundTrip
pub mod Tests
use kms_golang.Base.{
  Bytes, String, List, [], ◌∷◌, ◌++◌, Bool, if◌then◌else◌, Option, none, some, Result, ok, err,
  panic, Error, new, with_text, wrapped, codes, bytes_eq,
}
use kms_golang.Go.Hex
use kms_golang.Go.World.{World}
use kms_golang.Kms.Config.{Env, getenv_default}
use kms_golang.Proto.{LoginResponse, EncryptResponse, DecryptResponse}
use kms_golang.Client.{KmsClient, AuthClient}

-- What the program prints: the values in its lines.
pub data Printed : Type 0 where
  token_line : Bytes → Printed  -- also as a line that sets the variable
  encrypted : (plaintext ciphertext_hex nonce_hex : Bytes) → Printed
  decrypted : Bytes → Printed

-- How the process ends.
pub data Exit : Type 0 where
  usage : Exit  -- with status 1
  fatal : Error → Exit
  printed : Printed → Exit

-- `log.Fatalf("prefix: %v", err)`, or the next statement.
or_fatal : {D A : Type 0} → String → (A → Printed) → Result A × World D → Exit × World D
or_fatal prefix show (ok a, w) = (printed (show a), w)
or_fatal prefix show (err e, w) = (fatal (wrapped prefix e), w)
or_fatal prefix show (panic s, w) = (fatal (new s), w)

abbrev no_token : Error
no_token = new "KMS_BEARER_TOKEN not set. Please login first and set the token."

unfoldable pub test_login : {D : Type 0} → AuthClient D → World D → Exit × World D
unfolding or_fatal
test_login login w =
    or_fatal "login failed: " (λ r. token_line r.token)
      (login (record { username = codes "demo"; password = codes "demo123" }) w)

abbrev pub bearer : Bytes → Option Bytes
bearer token = some (codes "Bearer " ++ token)

-- `hexDecode`: an error ends the process.
hex_decoded :
    {D : Type 0} → Result Bytes → (Bytes → World D → Exit × World D) → World D → Exit × World D
hex_decoded (ok bytes) next w = next bytes w
hex_decoded (err e) next w = (fatal (wrapped "invalid hex string: " e), w)
hex_decoded (panic s) next w = (fatal (new s), w)

module _ {D : Type 0} (env : Env) (client : KmsClient D) where
  unfoldable pub test_encrypt : Bytes → World D → Exit × World D
  unfolding or_fatal bytes_eq Hex.encode
  test_encrypt plaintext w =
      if bytes_eq (env "KMS_BEARER_TOKEN") []
      then (fatal no_token, w)
      else or_fatal "encrypt failed: "
          (λ r. encrypted plaintext (Hex.encode r.ciphertext) (Hex.encode r.nonce))
          (client.encrypt (bearer (env "KMS_BEARER_TOKEN"))
            (record { plaintext = plaintext; key_id = [] }) w)

  call_decrypt : Bytes → Bytes → World D → Exit × World D
  unfolding or_fatal
  call_decrypt ciphertext nonce w =
      or_fatal "decrypt failed: " (λ r. decrypted r.plaintext)
        (client.decrypt (bearer (env "KMS_BEARER_TOKEN"))
          (record { ciphertext = ciphertext; nonce = nonce; key_id = [] }) w)

  unfoldable pub test_decrypt : Bytes → Bytes → World D → Exit × World D
  unfolding call_decrypt hex_decoded bytes_eq Hex.decode
  test_decrypt cipher_hex nonce_hex w =
      if bytes_eq (env "KMS_BEARER_TOKEN") []
      then (fatal no_token, w)
      else hex_decoded (Hex.decode cipher_hex)
          (λ ciphertext.
            hex_decoded (Hex.decode nonce_hex) (λ nonce. call_decrypt ciphertext nonce))
          w

-- `grpc.Dial` is an argument: the two clients at an address.
pub record Connection (D : Type 0) : Type 0 where
  pub kms : KmsClient D
  pub auth : AuthClient D

module _ {D : Type 0} (env : Env) where
  -- The arguments that follow the command.
  encrypt_command : KmsClient D → List Bytes → World D → Exit × World D
  encrypt_command client [] w = (fatal (new "encrypt requires text argument"), w)
  encrypt_command client (plaintext ∷ rest) w = test_encrypt env client plaintext w

  decrypt_command : KmsClient D → List Bytes → World D → Exit × World D
  decrypt_command client (cipher ∷ nonce ∷ rest) w = test_decrypt env client cipher nonce w
  decrypt_command client _ w =
      (fatal (new "decrypt requires cipher and nonce arguments (as hex)"), w)

  command : Connection D → Bytes → List Bytes → World D → Exit × World D
  command conn cmd rest w =
      if bytes_eq cmd (codes "login")
      then test_login conn.auth w
      else if bytes_eq cmd (codes "encrypt")
      then encrypt_command conn.kms rest w
      else if bytes_eq cmd (codes "decrypt")
      then decrypt_command conn.kms rest w
      else (fatal (with_text "unknown command: " cmd), w)

  connected : Result (Connection D) → Bytes → List Bytes → World D → Exit × World D
  connected (ok conn) cmd rest w = command conn cmd rest w
  connected (err e) cmd rest w = (fatal (wrapped "failed to dial: " e), w)
  connected (panic s) cmd rest w = (fatal (new s), w)

  -- `main`, with the arguments after the program's name.
  unfoldable pub main : (Bytes → Result (Connection D)) → List Bytes → World D → Exit × World D
  unfolding connected command encrypt_command decrypt_command test_login test_encrypt test_decrypt
      getenv_default
  main dial [] w = (usage, w)
  main dial (cmd ∷ rest) w =
      connected (dial (getenv_default env "KMS_GRPC_ADDR" (codes "127.0.0.1:50051"))) cmd rest w
