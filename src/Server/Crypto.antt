-- ===== src/Server/Crypto.antt =====
-- Encryption and decryption through the server.
use kms_golang.Base.{◌≤◌, Bytes, some, ok, ◌≡◌, refl, sym, ap, ◌∙◌, arith, length}
use kms_golang.Go.World.{World, >>=-eq-ok}
use kms_golang.Go.Gcm.{Aes, IsAead, Aead, nonce_size}
use kms_golang.Kms.File.{FileManager}
use kms_golang.Kms.File.Cipher.{decrypt-encrypt, drawn}
use kms_golang.Kms.Manager.{IsManager, file_manager}
use kms_golang.Proto.{EncryptRequest, EncryptResponse, DecryptRequest, DecryptResponse}
use kms_golang.Server.{KmsServer, encrypt, decrypt}

-- The request to decrypt what a response holds.
abbrev pub back : EncryptResponse → Bytes → DecryptRequest
back r key_id = record { ciphertext = r.ciphertext; nonce = r.nonce; key_id = key_id }

abbrev pub file_server : {D : Type 0} → Aes → FileManager → KmsServer D
file_server aes m = record { manager = file_manager aes m }

module _ {aes : Aes} (good : IsAead aes) {D : Type 0} (m : FileManager) {a : Aead} where
  -- With a cipher that keeps its contract, a server with a key from a file encrypts every text as
  -- long as twelve random bytes are left, and decrypts its response to that text at any later
  -- time, whatever key identifiers are sent.
  pub decrypt-encrypt_file :
      (req : EncryptRequest) (key_id : Bytes) (w later : World D)
      → m.aead ≡ some a
      → 12 ≤ length w.entropy
      → (r : EncryptResponse) × (encrypt (file_server aes m) req w ≡ (ok r, drawn nonce_size w))
        × (decrypt (file_server aes m) (back r key_id) later
            ≡ (ok (record { plaintext = req.plaintext }), later))
  unfolding encrypt decrypt file_manager
  decrypt-encrypt_file req key_id w later held enough =
      let (c, n, e, d) = decrypt-encrypt good m req.plaintext w held enough in
      (record { ciphertext = c; nonce = n }, rw e refl, rw d refl)

-- Any manager that keeps the contract: the server never answers with another text than the one that
-- was encrypted.
pub decrypt-encrypt_honest :
    {D : Type 0} (s : KmsServer D) (req : EncryptRequest) (r : EncryptResponse) (key_id : Bytes)
    (w w' later last : World D) (answer : DecryptResponse)
    → IsManager s.manager
    → encrypt s req w ≡ (ok r, w')
    → decrypt s (back r key_id) later ≡ (ok answer, last)
    → answer.plaintext ≡ req.plaintext
unfolding encrypt decrypt
decrypt-encrypt_honest s req r key_id w w' later last answer contract e d =
    let ((c, n), w1, sealed, e') = >>=-eq-ok (s.manager.encrypt req.plaintext) _ w e in
    let (plain, w2, opened, d') = >>=-eq-ok (s.manager.decrypt r.ciphertext r.nonce) _ later d in
    let given : s.manager.encrypt req.plaintext w ≡ (ok (r.ciphertext, r.nonce), w1) =
      ground (arith, sealed, e') in
    let same : plain ≡ answer.plaintext = ground (arith, d') in
    let right =
      contract.honest req.plaintext r.ciphertext r.nonce plain w w1 later given
        (ap (λ x. x.0) opened) in
    sym same ∙ right
