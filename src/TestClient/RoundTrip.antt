-- ===== src/TestClient/RoundTrip.antt =====
-- What `encrypt` prints can be given to `decrypt`.
use kms_golang.Base.{
  Bytes, String, [], ◌∷◌, Bool-cases, inl, inr, Result, ok, err, panic, codes, bytes_eq, IsBytes,
  ◌≡◌, refl, sym, ap, ◌∙◌, arith,
}
use kms_golang.Go.Hex
use kms_golang.Go.Hex.RoundTrip.{decode-encode}
use kms_golang.Go.World.{World}
use kms_golang.Kms.Config.{Env, getenv_default}
use kms_golang.Proto.{EncryptResponse, DecryptResponse}
use kms_golang.Client.{KmsClient, IsClient}
use kms_golang.TestClient.{
  Printed, token_line, encrypted, decrypted, printed, or_fatal, bearer, hex_decoded, test_encrypt,
  call_decrypt, test_decrypt, Connection, main, connected, command, encrypt_command,
  decrypt_command,
}

printed_injective : {a b : Printed} → printed a ≡ printed b → a ≡ b
printed_injective h = cc

-- Inversion of a call that is printed.
or_fatal-printed :
    {D A : Type 0} (prefix : String) (show : A → Printed) (x : Result A × World D) {v : Printed}
    {w' : World D}
    → or_fatal prefix show x ≡ (printed v, w')
    → (a : A) × (x ≡ (ok a, w')) × (show a ≡ v)
unfolding or_fatal
or_fatal-printed prefix show (ok a, w) h =
    (a, ap (λ u. (ok a, u)) (ap (λ y. y.1) h), printed_injective (ap (λ y. y.0) h))
or_fatal-printed prefix show (err e, w) h = absurd (ground (arith, h))
or_fatal-printed prefix show (panic s, w) h = absurd (ground (arith, h))

abbrev text_of : Printed → Bytes
text_of (token_line t) = t
text_of (encrypted plaintext c n) = plaintext
text_of (decrypted t) = t

abbrev hex_of : Printed → Bytes × Bytes
hex_of (encrypted plaintext c n) = (c, n)
hex_of _ = ([], [])

module _ {D : Type 0} (env : Env) (client : KmsClient D) where
  -- A text is printed as encrypted only after a call that succeeded.
  test_encrypt-printed :
      (plaintext text c n : Bytes) (w w' : World D)
      → test_encrypt env client plaintext w ≡ (printed (encrypted text c n), w')
      → (r : EncryptResponse) × (client.encrypt
            (bearer (env "KMS_BEARER_TOKEN"))
            (record { plaintext = plaintext; key_id = [] })
            w
          ≡ (ok r, w'))
        × (Hex.encode r.ciphertext ≡ c)
        × (Hex.encode r.nonce ≡ n)
  unfolding test_encrypt
  test_encrypt-printed plaintext text c n w w' h =
      elim (Bool-cases (bytes_eq (env "KMS_BEARER_TOKEN") [])) [
        | inl missing ↦ absurd (ground (arith, rw missing at h))
        | inr set ↦
            let (r, called, shown) =
              or_fatal-printed "encrypt failed: "
                (λ r. encrypted plaintext (Hex.encode r.ciphertext) (Hex.encode r.nonce))
                (client.encrypt (bearer (env "KMS_BEARER_TOKEN"))
                  (record { plaintext = plaintext; key_id = [] }) w)
                (rw set at h) in
            (r, called, ap (λ v. (hex_of v).0) shown, ap (λ v. (hex_of v).1) shown)
      ]

  -- A decryption of what %x wrote is printed only after a call with the bytes themselves.
  test_decrypt-printed :
      (ciphertext nonce : Bytes) (v : Printed) (w w' : World D)
      → IsBytes ciphertext
      → IsBytes nonce
      → test_decrypt env client (Hex.encode ciphertext) (Hex.encode nonce) w ≡ (printed v, w')
      → (r : DecryptResponse) × (client.decrypt
            (bearer (env "KMS_BEARER_TOKEN"))
            (record { ciphertext = ciphertext; nonce = nonce; key_id = [] })
            w
          ≡ (ok r, w'))
        × (decrypted r.plaintext ≡ v)
  unfolding test_decrypt call_decrypt hex_decoded
  test_decrypt-printed ciphertext nonce v w w' hc hn h =
      elim (Bool-cases (bytes_eq (env "KMS_BEARER_TOKEN") [])) [
        | inl missing ↦ absurd (ground (arith, rw missing at h))
        | inr set ↦
            or_fatal-printed "decrypt failed: " (λ r. decrypted r.plaintext)
              (client.decrypt (bearer (env "KMS_BEARER_TOKEN"))
                (record { ciphertext = ciphertext; nonce = nonce; key_id = [] }) w)
              (rw (set, decode-encode ciphertext hc, decode-encode nonce hn) at h)
      ]

module _ {D : Type 0} (env : Env) (dial : Bytes → Result (Connection D)) (conn : Connection D)
    (dialled : dial (getenv_default env "KMS_GRPC_ADDR" (codes "127.0.0.1:50051")) ≡ ok conn) where
  main-encrypt :
      (plaintext : Bytes) (w : World D)
      → main env dial (codes "encrypt" ∷ plaintext ∷ []) w ≡ test_encrypt env conn.kms plaintext w
  unfolding main connected command encrypt_command
  main-encrypt plaintext w = rw dialled refl

  main-decrypt :
      (c n : Bytes) (w : World D)
      → main env dial (codes "decrypt" ∷ c ∷ n ∷ []) w ≡ test_decrypt env conn.kms c n w
  unfolding main connected command decrypt_command
  main-decrypt c n w = rw dialled refl

  -- On the command line: the two hexadecimal texts that `encrypt` prints, given to `decrypt` at any
  -- later time, are printed as the text that was encrypted, unless an error ends the program, with a
  -- service that keeps its contract and can be reached.
  pub main-main :
      (plaintext text c n : Bytes) (v : Printed) (w w' later last : World D)
      → IsClient conn.kms
      → main env dial (codes "encrypt" ∷ plaintext ∷ []) w ≡ (printed (encrypted text c n), w')
      → main env dial (codes "decrypt" ∷ c ∷ n ∷ []) later ≡ (printed v, last)
      → v ≡ decrypted plaintext
  main-main plaintext text c n v w w' later last service sealed opened =
      let (r, called, ct, nonce) =
        test_encrypt-printed env conn.kms plaintext text c n w w'
          (sym (main-encrypt plaintext w) ∙ sealed) in
      let (bytes, nonce_bytes, _) =
        service.bytes (bearer (env "KMS_BEARER_TOKEN"))
          (record { plaintext = plaintext; key_id = [] }) r w w' called in
      let run =
        ap (λ x. test_decrypt env conn.kms x (Hex.encode r.nonce) later) ct
        ∙ ap (λ x. test_decrypt env conn.kms c x later) nonce
        ∙ sym (main-decrypt c n later)
        ∙ opened in
      let (answer, answered, shown) =
        test_decrypt-printed env conn.kms r.ciphertext r.nonce v later last bytes nonce_bytes run in
      sym shown
      ∙ ap decrypted (
          service.honest (bearer (env "KMS_BEARER_TOKEN")) (bearer (env "KMS_BEARER_TOKEN"))
            (record { plaintext = plaintext; key_id = [] }) r [] answer w w' later last called
            answered)
