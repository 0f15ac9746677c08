-- ===== src/Kms/File/Cipher.antt =====
-- Encryption and decryption with the key of a file.
use kms_golang.Base.{
  ℕ, ◌<◌, ◌≤◌, Bytes, none, some, ok, err, panic, new, ◌≡◌, ◌≢◌, refl, arith, length, length-take,
  take, drop, map,
}
use kms_golang.Go.World.{World}
use kms_golang.Go.Gcm.{Aes, IsAead, Aead, nonce_size, seal, open_sealed}
use kms_golang.Kms.File.{FileManager, encrypt, decrypt, close}

-- A world from which `n` random bytes have been drawn.
abbrev pub drawn : {D : Type 0} → ℕ → World D → World D
drawn n w = record w { entropy = drop n w.entropy }

abbrev pub next_nonce : {D : Type 0} → World D → Bytes
next_nonce w = take nonce_size w.entropy

next_nonce-length : {D : Type 0} (w : World D) → 12 ≤ length w.entropy → length (next_nonce w) ≡ 12
next_nonce-length w h = omega (arith, length-take 12 w.entropy)

module _ {aes : Aes} (good : IsAead aes) where
  pub open_sealed-seal :
      (a : Aead) (nonce plain : Bytes)
      → length nonce ≡ nonce_size
      → open_sealed aes a nonce (aes.seal a.key nonce plain) ≡ ok plain
  unfolding open_sealed
  open_sealed-seal a nonce plain h =
      ground (arith, good.opens a.key nonce plain, good.tagged a.key nonce plain)

module _ (aes : Aes) {D : Type 0} where
  -- Encryption takes the next twelve random bytes as its nonce.
  pub encrypt_lem :
      (m : FileManager) {a : Aead} (plain : Bytes) (w : World D)
      → m.aead ≡ some a
      → 12 ≤ length w.entropy
      → encrypt aes m plain w
        ≡ (ok (aes.seal a.key (next_nonce w) plain, next_nonce w), drawn nonce_size w)
  unfolding encrypt seal
  encrypt_lem m plain w held enough = ground (arith, held, next_nonce-length w enough)

  pub encrypt_no_cipher :
      (m : FileManager) (plain : Bytes) (w : World D)
      → m.aead ≡ none
      → encrypt aes m plain w ≡ (err (new "kms manager not initialized"), w)
  unfolding encrypt
  encrypt_no_cipher m plain w h = ground (arith, h)

  -- If the random source has fewer than twelve bytes left, then encryption is an error, and nothing
  -- is drawn.
  pub encrypt_short :
      (m : FileManager) (plain : Bytes) (w : World D)
      → m.aead ≢ none
      → length w.entropy < 12
      → encrypt aes m plain w ≡ (err (new "unexpected EOF"), w)
  unfolding encrypt
  encrypt_short m plain w h short = ground (arith, h)

module _ {aes : Aes} (good : IsAead aes) where
  -- Decryption undoes encryption: with a cipher and twelve random bytes left, encryption succeeds,
  -- and what it returns is decrypted to the plain text by the same manager.
  pub decrypt-encrypt :
      {D : Type 0} (m : FileManager) {a : Aead} (plain : Bytes) (w : World D)
      → m.aead ≡ some a
      → 12 ≤ length w.entropy
      → (ciphertext nonce : Bytes) × (encrypt aes m plain w
          ≡ (ok (ciphertext, nonce), drawn nonce_size w))
        × (decrypt aes m ciphertext nonce ≡ ok plain)
  unfolding decrypt
  decrypt-encrypt m {a} plain w held enough = (
    aes.seal a.key (next_nonce w) plain,
    next_nonce w,
    encrypt_lem aes m plain w held enough,
    rw held (open_sealed-seal good a (next_nonce w) plain (next_nonce-length w enough)),
  )

-- A nonce whose length is not twelve makes the decryption panic, whatever the ciphertext: only a
-- manager with no cipher returns an error.
pub decrypt_panics :
    (aes : Aes) (m : FileManager) (ciphertext nonce : Bytes)
    → m.aead ≢ none
    → length nonce ≢ 12
    → decrypt aes m ciphertext nonce ≡ panic "crypto/cipher: incorrect nonce length given to GCM"
unfolding decrypt open_sealed
decrypt_panics aes m ciphertext nonce held size = ground (arith, held)

-- Closing a manager that holds a key overwrites the key with zeros and forgets it, but the cipher
-- stays: the closed manager encrypts and decrypts as before.
pub close_keeps_cipher :
    {D : Type 0} (aes : Aes) (m : FileManager) (key plain ciphertext nonce : Bytes) (w : World D)
    → m.master_key ≡ some key
    → let (closed, memory) = close m in
      (closed.master_key ≡ none)
      × (memory ≡ some (map (λ _. 0) key))
      × (encrypt aes closed plain w ≡ encrypt aes m plain w)
      × (decrypt aes closed ciphertext nonce ≡ decrypt aes m ciphertext nonce)
unfolding close encrypt decrypt
close_keeps_cipher aes m key plain ciphertext nonce w held = (refl, rw held, refl, refl)
