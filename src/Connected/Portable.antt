-- ===== src/Connected/Portable.antt =====
-- The manager of a key file makes bytes of bytes.
use kms_golang.Base.{
  Bytes, Option-cases, Bool-cases, leb, inl, inr, ok, ok_injective, IsBytes, All-take, length,
  length-take, ◌<◌, ◌≡◌, sym, ap, ◌∙◌, arith,
}
use mathlib.Core.Path.{subst}
use kms_golang.Go.World.{World}
use kms_golang.Go.Gcm.{Aes, IsAead}
use kms_golang.Kms.File
use kms_golang.Kms.File.{FileManager}
use kms_golang.Kms.File.Cipher.{next_nonce, encrypt_lem, encrypt_no_cipher, encrypt_short}
use kms_golang.Kms.Manager.{file_manager}
use kms_golang.Connected.{IsPortable}

module _ {aes : Aes} (cipher : IsAead aes) {D : Type 0} (m : FileManager) where
  encrypted-IsBytes :
      (plain ciphertext nonce : Bytes) (w w' : World D)
      → IsBytes plain
      → IsBytes w.entropy
      → File.encrypt aes m plain w ≡ (ok (ciphertext, nonce), w')
      → IsBytes ciphertext × IsBytes nonce × (length nonce ≡ 12)
  encrypted-IsBytes plain ciphertext nonce w w' text random h = elim (Option-cases m.aead) [
    | inl missing ↦ absurd (ground (arith, h, encrypt_no_cipher aes m plain w missing))
    | inr (a, held) ↦ elim (Bool-cases (leb 12 (length w.entropy))) [
      | inr short ↦ absurd (ground (arith, h, short, held, encrypt_short aes m plain w))
      | inl enough ↦
          let n = next_nonce w in
          let pair : Path (Bytes × Bytes) (aes.seal a.key n plain, n) (ciphertext, nonce) =
            ok_injective
              (ap (λ x. x.0) (sym (encrypt_lem aes m plain w held (ground (arith, enough))) ∙ h)) in
          (
            subst IsBytes (ap (λ x. x.0) pair) (cipher.bytes a.key n plain text),
            subst IsBytes (ap (λ x. x.1) pair) (All-take (λ b. b < 256) 12 w.entropy random),
            sym (ap (λ x. length x.1) pair) ∙ ground (arith, enough, length-take 12 w.entropy),
          )
    ]
  ]

  -- The manager of a key file can stand behind the network, if the cipher keeps its contract.
  pub file_manager-IsPortable : IsPortable (file_manager {D = D} aes m)
  unfolding file_manager
  file_manager-IsPortable = record {
    bytes = λ plain c n w w' text random h. encrypted-IsBytes plain c n w w' text random h;
  }
