-- ===== src/Kms/Hsm.antt =====
-- internal/kms/hsm.go: the manager that leaves encryption to a hardware module. Its lock makes one
-- call at a time reach the module, which is the order of the calls in the model.
use kms_golang.Base.{
  String, Bytes, Option, none, some, Result, ok, err, panic, new, ◌≡◌, refl, arith, codes,
}
use kms_golang.Go.World.{World, M, return, wrapping, ◌>>=◌, >>=-eq-ok, wrapping-eq-ok}
use kms_golang.Go.Gcm.{Aead}
use kms_golang.Kms.Manager.{Manager, IsManager}

-- `HSMProvider`.
pub record Provider (D : Type 0) : Type 0 where
  pub get_key : Bytes → M D Bytes
  pub encrypt : Bytes → Bytes → M D (Bytes × Bytes)
  pub decrypt : Bytes → Bytes → Bytes → M D Bytes
  pub close : M D (Unit {0})

-- The contract of a provider: under one key, no ciphertext is decrypted to anything but its plain
-- text.
pub record IsProvider {D : Type 0} (p : Provider D) : Type 0 where
  pub honest :
      (key plain ciphertext nonce other : Bytes) (w w' later : World D)
      → p.encrypt key plain w ≡ (ok (ciphertext, nonce), w')
      → (p.decrypt key ciphertext nonce later).0 ≡ ok other
      → other ≡ plain

pub record HsmManager (D : Type 0) : Type 0 where
  pub provider : Option (Provider D)
  pub key_id : Bytes
  pub aead : Option Aead

abbrev self_test : String
self_test = "HSM self-test failed (check Slot ID and Label): "

-- The self-test encrypts "ping".
unfoldable pub new_hsm_manager : {D : Type 0} → Option (Provider D) → Bytes → M D (HsmManager D)
new_hsm_manager none key_id = return (err (new "HSM provider cannot be nil"))
new_hsm_manager (some p) key_id = do
  _ ← wrapping self_test (p.encrypt key_id (codes "ping"))
  return (ok (record { provider = some p; key_id = key_id; aead = none }))

abbrev nil_pointer {ℓ} : {A : Type ℓ} → Result A
nil_pointer = panic "invalid memory address or nil pointer dereference"

encrypt_by : {D : Type 0} → Option (Provider D) → Bytes → Bytes → M D (Bytes × Bytes)
encrypt_by none key_id plain = return nil_pointer
encrypt_by (some p) key_id plain = p.encrypt key_id plain

decrypt_by : {D : Type 0} → Option (Provider D) → Bytes → Bytes → Bytes → M D Bytes
decrypt_by none key_id ciphertext nonce = return nil_pointer
decrypt_by (some p) key_id ciphertext nonce = p.decrypt key_id ciphertext nonce

close_by : {D : Type 0} → Option (Provider D) → M D (Unit {0})
close_by none = return (ok tt)
close_by (some p) = p.close

unfoldable pub encrypt : {D : Type 0} → HsmManager D → Bytes → M D (Bytes × Bytes)
unfolding encrypt_by
encrypt m = encrypt_by m.provider m.key_id

unfoldable pub decrypt : {D : Type 0} → HsmManager D → Bytes → Bytes → M D Bytes
unfolding decrypt_by
decrypt m = decrypt_by m.provider m.key_id

unfoldable pub close : {D : Type 0} → HsmManager D → M D (Unit {0})
unfolding close_by
close m = close_by m.provider

unfoldable pub hsm_manager : {D : Type 0} → HsmManager D → Manager D
hsm_manager m = record { encrypt = encrypt m; decrypt = decrypt m; close = close m }

module _ {D : Type 0} where
  -- A manager is made only of a provider that has encrypted the self-test under the key, and keeps
  -- that provider and key.
  pub new_hsm_manager_sound :
      (given : Option (Provider D)) (key_id : Bytes) (w w' : World D) {m : HsmManager D}
      → new_hsm_manager given key_id w ≡ (ok m, w')
      → (p : Provider D) × (sealed : Bytes × Bytes) × (given ≡ some p)
        × (p.encrypt key_id (codes "ping") w ≡ (ok sealed, w'))
        × (m ≡ record { provider = some p; key_id = key_id; aead = none })
  unfolding new_hsm_manager
  new_hsm_manager_sound none key_id w w' h = ground arith
  new_hsm_manager_sound (some p) key_id w w' h =
      let (sealed, w1, wrapped_ok, h') =
        >>=-eq-ok (wrapping self_test (p.encrypt key_id (codes "ping"))) _ w h in
      let tested = wrapping-eq-ok self_test (p.encrypt key_id (codes "ping")) w wrapped_ok in
      (p, sealed, refl, ground (arith, tested, h'), ground (arith, h'))

  -- The manager of a hardware module keeps the contract, if the module's provider does.
  pub hsm_manager-IsManager :
      (m : HsmManager D) (p : Provider D)
      → m.provider ≡ some p
      → IsProvider p
      → IsManager (hsm_manager m)
  unfolding hsm_manager encrypt decrypt
  hsm_manager-IsManager m p held good = record {
    honest = λ plain c n other w w' later e d.
        good.honest m.key_id plain c n other w w' later (rw held at e) (rw held at d);
  }
