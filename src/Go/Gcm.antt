-- ===== src/Go/Gcm.antt =====
-- AES-GCM of `crypto/aes` and `crypto/cipher`: the cipher itself is a parameter, and the checks on
-- lengths that stand around it are modelled.
use kms_golang.Base.{
  ℕ, ◌+◌, Bytes, ◌==◌, ◌||◌, ltb, if◌then◌else◌, Option, none, some, Result, ok, err, panic, new,
  length, ◌≡◌, IsBytes,
}

-- The authenticated cipher, by key, nonce and text.
pub record Aes : Type 0 where
  pub seal : Bytes → Bytes → Bytes → Bytes
  pub open_sealed : Bytes → Bytes → Bytes → Option Bytes

-- What its documentation promises: opening undoes sealing, and the result is bytes, sixteen more
-- than the plain text.
pub record IsAead (aes : Aes) : Type 0 where
  pub opens :
      (key nonce plain : Bytes) → aes.open_sealed key nonce (aes.seal key nonce plain) ≡ some plain
  pub tagged : (key nonce plain : Bytes) → length (aes.seal key nonce plain) ≡ length plain + 16
  pub bytes : (key nonce plain : Bytes) → IsBytes plain → IsBytes (aes.seal key nonce plain)

-- A `cipher.AEAD`: the expanded key, which shares no memory with the caller's slice.
pub record Aead : Type 0 where
  pub key : Bytes

abbrev pub nonce_size : ℕ
nonce_size = 12

abbrev pub tag_size : ℕ
tag_size = 16

-- `aes.NewCipher` and `cipher.NewGCM`.
unfoldable pub new_gcm : Bytes → Result Aead
new_gcm key =
    if length key == 16 || length key == 24 || length key == 32
    then ok (record { key = key })
    else err (new "crypto/aes: invalid key size")

abbrev or_failed : Option Bytes → Result Bytes
or_failed none = err (new "cipher: message authentication failed")
or_failed (some plain) = ok plain

module _ (aes : Aes) where
  -- `aead.Seal(nil, nonce, plaintext, nil)`; the limit of 64 GB is left out.
  unfoldable pub seal : Aead → Bytes → Bytes → Result Bytes
  seal a nonce plain =
      if length nonce == nonce_size
      then ok (aes.seal a.key nonce plain)
      else panic "crypto/cipher: incorrect nonce length given to GCM"

  -- `aead.Open(nil, nonce, ciphertext, nil)`.
  unfoldable pub open_sealed : Aead → Bytes → Bytes → Result Bytes
  open_sealed a nonce sealed =
      if length nonce == nonce_size
      then (if ltb (length sealed) tag_size
          then or_failed none
          else or_failed (aes.open_sealed a.key nonce sealed))
      else panic "crypto/cipher: incorrect nonce length given to GCM"
