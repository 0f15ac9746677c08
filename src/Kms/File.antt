-- ===== src/Kms/File.antt =====
-- internal/kms/crypto.go: the manager of a key that is read from a file. The read-write lock is left
-- out: no operation but `close` changes the manager. `os.ReadFile` is an argument.
pub mod Load
pub mod Cipher
use kms_golang.Base.{
  ℕ, Bytes, [], ◌∷◌, Option, none, some, Result, ok, err, panic, new, require, ◌==◌, length, map,
  ◌>>=◌, ◌>>◌,
}
use kms_golang.Go.Hex
use kms_golang.Go.World
use kms_golang.Go.World.{World, M, read_full, return}
use kms_golang.Go.Gcm.{Aes, Aead, nonce_size, new_gcm, seal, open_sealed}
use kms_golang.Kms.Trim.{bytes_trim_space}

pub record FileManager : Type 0 where
  pub aead : Option Aead
  pub master_key : Option Bytes

abbrev pub wrong_size : Result FileManager
wrong_size = err (new "master key must be 32 bytes (AES-256)")

unfoldable pub new_manager_from_file : (Bytes → Result Bytes) → Bytes → Result FileManager
new_manager_from_file read_file path = do
  content ← read_file path
  key ← Hex.decode (bytes_trim_space content)
  require (length key == 32) (new "master key must be 32 bytes (AES-256)")
  aead ← new_gcm key
  ok (record { aead = some aead; master_key = some key })

abbrev not_initialized {ℓ} : {A : Type ℓ} → Result A
not_initialized = err (new "kms manager not initialized")

module _ (aes : Aes) where
  encrypt_with : {D : Type 0} → Option Aead → Bytes → M D (Bytes × Bytes)
  encrypt_with none plain w = (not_initialized, w)
  encrypt_with (some a) plain w =
      World.◌>>=◌ (read_full nonce_size)
        (λ nonce. return (seal aes a nonce plain >>= λ ciphertext. ok (ciphertext, nonce))) w

  -- The ciphertext and the nonce, which is drawn from the random source.
  unfoldable pub encrypt : {D : Type 0} → FileManager → Bytes → M D (Bytes × Bytes)
  unfolding encrypt_with read_full
  encrypt m = encrypt_with m.aead

  decrypt_with : Option Aead → Bytes → Bytes → Result Bytes
  decrypt_with none ciphertext nonce = not_initialized
  decrypt_with (some a) ciphertext nonce = open_sealed aes a nonce ciphertext

  unfoldable pub decrypt : FileManager → Bytes → Bytes → Result Bytes
  unfolding decrypt_with
  decrypt m = decrypt_with m.aead

-- The manager after `Close`, and what the key's memory then holds.
unfoldable pub close : FileManager → FileManager × Option Bytes
close m = (record m { master_key = none }, wiped m.master_key)
  where
    wiped : Option Bytes → Option Bytes
    wiped none = none
    wiped (some key) = some (map (λ _. 0) key)
