-- ===== src/Kms/Azure.antt =====
-- internal/kms/hsm_azure.go: the provider for Azure Key Vault, whose constructor never returns one. The
-- library is an argument: a credential, a client of a vault, and a key, of which the code looks only
-- at whether it is an RSA key.
use kms_golang.Base.{
  Bytes, [], Bool, true, false, Option, none, some, Result, ok, err, Error, new, map, ◌>>=◌, ◌≡◌,
  ◌≢◌, ap, arith,
}
use kms_golang.Go.World
use kms_golang.Go.World.{World, M, return, wrapping, read_full}
use kms_golang.Go.Gcm.{Aes, IsAead, Aead, nonce_size, seal, open_sealed}
use kms_golang.Kms.File
use kms_golang.Kms.File.{FileManager}
use kms_golang.Kms.Manager.{file_manager, file_manager-IsManager}
use kms_golang.Kms.Hsm.{Provider, IsProvider}

pub record AzureClient (D : Type 0) : Type 0 where
  pub new_default_credential : M D (Unit {0})
  pub new_client : Bytes → M D (Unit {0})
  pub get_key : Bytes → M D Bool  -- whether the key has a modulus

pub record AzureKeyVaultProvider : Type 0 where
  pub key_name : Bytes
  pub key : Option Bytes
  pub aead : Option Aead

-- What follows the answer of the vault: an error for either kind of key.
after_key : Bool → Result AzureKeyVaultProvider
after_key true = err (new "RSA keys not supported, use AES keys")
after_key false = err (new "Azure Key Vault requires using encrypt/decrypt operations directly")

unfoldable pub new_azure_key_vault_provider :
    {D : Type 0} → AzureClient D → Bytes → Bytes → M D AzureKeyVaultProvider
unfolding after_key
new_azure_key_vault_provider client vault_url key_name =
    World.◌>>=◌ (wrapping "failed to create Azure credential: " client.new_default_credential) (λ _.
      World.◌>>=◌
        (wrapping "failed to create Azure Key Vault client: " (client.new_client vault_url))
        (λ _.
          World.◌>>=◌
            (wrapping "failed to get key from Azure Key Vault: " (client.get_key key_name))
            (λ rsa. return (after_key rsa))))

-- The provider after `Close`, and what the key's memory then holds. The cipher stays.
unfoldable pub close : AzureKeyVaultProvider → AzureKeyVaultProvider × Option Bytes
close p = (record p { key = none }, wiped p.key)
  where
    wiped : Option Bytes → Option Bytes
    wiped none = none
    wiped (some key) = some (map (λ _. 0) key)

abbrev key_of : Option Bytes → Bytes
key_of none = []
key_of (some key) = key

abbrev not_initialized : Error
not_initialized = new "Azure Key Vault provider not properly initialized"

decrypt_with : Aes → Option Aead → Bytes → Bytes → Result Bytes
decrypt_with aes none ciphertext nonce = err not_initialized
decrypt_with aes (some a) ciphertext nonce = open_sealed aes a nonce ciphertext

module _ (aes : Aes) {D : Type 0} where
  encrypt_with : Option Aead → Bytes → M D (Bytes × Bytes)
  encrypt_with none plain = return (err not_initialized)
  encrypt_with (some a) plain =
      World.◌>>=◌ (read_full nonce_size)
        (λ nonce. return (seal aes a nonce plain >>= λ ciphertext. ok (ciphertext, nonce)))

  unfoldable pub encrypt : AzureKeyVaultProvider → Bytes → Bytes → M D (Bytes × Bytes)
  unfolding encrypt_with read_full
  encrypt p key_id plain = encrypt_with p.aead plain

  unfoldable pub decrypt : AzureKeyVaultProvider → Bytes → Bytes → Bytes → M D Bytes
  unfolding decrypt_with
  decrypt p key_id ciphertext nonce = return (decrypt_with aes p.aead ciphertext nonce)

  unfoldable pub azure_provider : AzureKeyVaultProvider → Provider D
  unfolding encrypt decrypt
  azure_provider p = record {
    get_key = λ key_id. return (ok (key_of p.key));
    encrypt = encrypt p;
    decrypt = decrypt p;
    close = return (ok tt);
  }

-- No vault, credential or key makes the constructor return a provider.
pub new_azure_key_vault_provider_refuses :
    {D : Type 0} (client : AzureClient D) (vault_url key_name : Bytes) (w w' : World D)
    (p : AzureKeyVaultProvider)
    → new_azure_key_vault_provider client vault_url key_name w ≢ (ok p, w')
unfolding new_azure_key_vault_provider
new_azure_key_vault_provider_refuses client vault_url key_name w w' p h =
    let (_, w1, _, h1) =
      World.>>=-eq-ok (wrapping "failed to create Azure credential: " client.new_default_credential)
        _ w h in
    let (_, w2, _, h2) =
      World.>>=-eq-ok
        (wrapping "failed to create Azure Key Vault client: " (client.new_client vault_url)) _ w1
        h1 in
    let (rsa, w3, _, h3) =
      World.>>=-eq-ok
        (wrapping "failed to get key from Azure Key Vault: " (client.get_key key_name)) _ w2 h2 in
    no_provider rsa (ap (λ x. x.0) h3)
  where
    no_provider : (rsa : Bool) → after_key rsa ≢ ok p
    no_provider true e = ground (arith, e)
    no_provider false e = ground (arith, e)

module _ {aes : Aes} (good : IsAead aes) {D : Type 0} where
  -- With and without a cipher.
  honest_with :
      (held : Option Aead) (plain ciphertext nonce other : Bytes) (w w' later : World D)
      → encrypt_with aes held plain w ≡ (ok (ciphertext, nonce), w')
      → decrypt_with aes held ciphertext nonce ≡ ok other
      → other ≡ plain
  unfolding encrypt_with decrypt_with file_manager File.encrypt File.decrypt
  honest_with none plain ciphertext nonce other w w' later e d = absurd (ground (arith, d))
  honest_with (some a) plain ciphertext nonce other w w' later e d =
      (file_manager-IsManager good (record { aead = some a; master_key = none })).honest plain
        ciphertext nonce other w w' later e d

  -- Any provider of this type keeps the contract of a provider, if the cipher does, with or without a
  -- cipher of its own.
  pub azure_provider-IsProvider :
      (p : AzureKeyVaultProvider) → IsProvider (azure_provider aes {D = D} p)
  unfolding azure_provider encrypt decrypt
  azure_provider-IsProvider p = record {
    honest = λ key plain ciphertext nonce other w w' later e d.
        honest_with p.aead plain ciphertext nonce other w w' later e d;
  }
