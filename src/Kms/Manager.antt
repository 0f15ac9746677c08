-- ===== src/Kms/Manager.antt =====
-- internal/kms/manager.go, `Manager`: the interface through which the servers encrypt and decrypt,
-- and its contract. `FileManager` is one implementation, `HSMManager` the other.
use kms_golang.Base.{Bytes, ok, ◌≡◌, arith, length, leb, Bool-cases, inl, inr, Option-cases}
use kms_golang.Go.World.{World, M, return}
use kms_golang.Go.Gcm.{Aes, IsAead}
use kms_golang.Kms.File
use kms_golang.Kms.File.{FileManager}
use kms_golang.Kms.File.Cipher.{encrypt_no_cipher, encrypt_short, decrypt-encrypt}

pub record Manager (D : Type 0) : Type 0 where
  pub encrypt : Bytes → M D (Bytes × Bytes)
  pub decrypt : Bytes → Bytes → M D Bytes
  pub close : M D (Unit {0})

-- The contract: what was encrypted is never decrypted to anything but its plain text, at any later
-- time. A manager may fail.
pub record IsManager {D : Type 0} (m : Manager D) : Type 0 where
  pub honest :
      (plain ciphertext nonce other : Bytes) (w w' later : World D)
      → m.encrypt plain w ≡ (ok (ciphertext, nonce), w')
      → (m.decrypt ciphertext nonce later).0 ≡ ok other
      → other ≡ plain

-- `FileManager` as a `Manager`. What `Close` does to the record is in `File.close`.
unfoldable pub file_manager : {D : Type 0} → Aes → FileManager → Manager D
file_manager aes m = record {
  encrypt = File.encrypt aes m;
  decrypt = λ ciphertext nonce. return (File.decrypt aes m ciphertext nonce);
  close = return (ok tt);
}

module _ {aes : Aes} (good : IsAead aes) {D : Type 0} (m : FileManager) where
  decrypt-encrypted :
      (plain ciphertext nonce other : Bytes) (w w' : World D)
      → File.encrypt aes m plain w ≡ (ok (ciphertext, nonce), w')
      → File.decrypt aes m ciphertext nonce ≡ ok other
      → other ≡ plain
  decrypt-encrypted plain ciphertext nonce other w w' e d = elim (Option-cases m.aead) [
    | inl missing ↦ ground (arith, encrypt_no_cipher aes m plain w missing)
    | inr (a, held) ↦ elim (Bool-cases (leb 12 (length w.entropy))) [
      | inr short ↦ ground (arith, encrypt_short aes m plain w)
      | inl enough ↦
          let (c, n, e', d') = decrypt-encrypt good m plain w held (ground arith) in
          ground (arith, e', d')
    ]
  ]

  -- The manager of a key file keeps the contract, if the cipher does.
  pub file_manager-IsManager : IsManager (file_manager {D = D} aes m)
  unfolding file_manager
  file_manager-IsManager = record {
    honest = λ plain c n other w w' later e d. decrypt-encrypted plain c n other w w' e d;
  }
