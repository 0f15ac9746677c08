-- ===== src/Kms/Aws.antt =====
-- internal/kms/hsm_aws.go: the provider that takes a data key from AWS KMS and encrypts with it in
-- software. The library is an argument. Each provider asks for a data key of its own.
use kms_golang.Base.{
  ◌==◌, Bytes, Option, none, some, Result, ok, new, require, length, map, ◌>>=◌, ◌>>◌, [],
}
use kms_golang.Go.World
use kms_golang.Go.World.{World, M, return, wrapping, read_full}
use kms_golang.Go.Gcm.{Aes, IsAead, Aead, nonce_size, new_gcm, seal, open_sealed}
use kms_golang.Kms.File
use kms_golang.Kms.File.{FileManager}
use kms_golang.Kms.Manager.{file_manager, file_manager-IsManager}
use kms_golang.Kms.Hsm.{Provider, IsProvider}

-- What the code calls of the library: loading the configuration of a region, and a data key.
pub record AwsClient (D : Type 0) : Type 0 where
  pub load_default_config : Bytes → M D (Unit {0})
  pub generate_data_key : Bytes → M D Bytes

pub record AwsKmsProvider : Type 0 where
  pub key_id : Bytes
  pub data_key : Option Bytes
  pub aead : Aead

with_data_key : Bytes → Bytes → Result AwsKmsProvider
with_data_key key_id data_key = do
  require (length data_key == 32) (new "AWS KMS returned invalid key size")
  aead ← new_gcm data_key
  ok (record { key_id = key_id; data_key = some data_key; aead = aead })

unfoldable pub new_aws_kms_provider :
    {D : Type 0} → AwsClient D → Bytes → Bytes → M D AwsKmsProvider
unfolding with_data_key
new_aws_kms_provider client key_id region =
    World.◌>>=◌ (wrapping "failed to load AWS config: " (client.load_default_config region)) (λ _.
      World.◌>>=◌
        (wrapping "failed to generate data key from AWS KMS: " (client.generate_data_key key_id))
        (λ data_key. return (with_data_key key_id data_key)))

-- The provider after `Close`, and what the key's memory then holds.
unfoldable pub close : AwsKmsProvider → AwsKmsProvider × Option Bytes
close p = (record p { data_key = none }, wiped p.data_key)
  where
    wiped : Option Bytes → Option Bytes
    wiped none = none
    wiped (some key) = some (map (λ _. 0) key)

-- `GetKey` of a closed provider returns an empty key.
abbrev key_of : Option Bytes → Bytes
key_of none = []
key_of (some key) = key

module _ (aes : Aes) (p : AwsKmsProvider) {D : Type 0} where
  unfoldable pub encrypt : Bytes → Bytes → M D (Bytes × Bytes)
  unfolding read_full
  encrypt key_id plain =
      World.◌>>=◌ (read_full nonce_size)
        (λ nonce. return (seal aes p.aead nonce plain >>= λ ciphertext. ok (ciphertext, nonce)))

  unfoldable pub decrypt : Bytes → Bytes → Bytes → M D Bytes
  decrypt key_id ciphertext nonce = return (open_sealed aes p.aead nonce ciphertext)

  unfoldable pub aws_provider : Provider D
  unfolding encrypt decrypt
  aws_provider = record {
    get_key = λ key_id. return (ok (key_of p.data_key));
    encrypt = encrypt;
    decrypt = decrypt;
    close = return (ok tt);
  }

module _ {aes : Aes} (good : IsAead aes) (p : AwsKmsProvider) {D : Type 0} where
  -- The provider keeps the contract of a provider, if the cipher does: it never decrypts what it
  -- encrypted to another text.
  pub aws_provider-IsProvider : IsProvider (aws_provider aes p {D = D})
  unfolding aws_provider encrypt decrypt file_manager File.encrypt File.decrypt
  aws_provider-IsProvider = record {
    honest = λ key plain ciphertext nonce other w w' later e d.
        (file_manager-IsManager good
            (record { aead = some p.aead; master_key = p.data_key })).honest
          plain ciphertext nonce other w w' later e d;
  }
