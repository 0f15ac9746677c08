-- ===== src/Kms/Tests.antt =====
-- Examples for internal/kms.
use kms_golang.Base.{
  Bytes, [], ◌++◌, none, some, Result, ok, codes, IsBytes, All, length, replicate, ◌≡◌, refl, arith,
  ◌%◌, ◌^◌,
}
use kms_golang.Fixtures.{toy_world, toy_provider}
use kms_golang.Go.Base64
use kms_golang.Go.Hex
use kms_golang.Kms.Format.{combine_nonce_and_ciphertext, split_nonce_and_ciphertext, split-combine}
use kms_golang.Kms.Trim.{is_space, bytes_trim_space}
use kms_golang.Kms.Trim.Padding.{IsSpace}
use kms_golang.Kms.Trim.Sound.{IsTrimming, bytes_trim_space-IsTrimming}
use kms_golang.Kms.File.{new_manager_from_file}
use kms_golang.Kms.File.Load.{holding, new_manager_from_file_padded, new_manager_from_file_sound}
use kms_golang.Kms.Hsm.{HsmManager, new_hsm_manager}
use kms_golang.Kms.Aws.{AwsKmsProvider}
use kms_golang.Kms.Config.{Env, getenv_uint}
use kms_golang.Kms.Config.Number.{value, getenv_uint_digits}

-- Nonce and ciphertext in one text.
abbrev nonce : Bytes
nonce = codes "nonce 000001"

abbrev sealed : Bytes
sealed = codes "ÿ!"

abbrev stored : Bytes
stored = codes "bm9uY2UgMDAwMDAxQUI="

split-combine_example :
    split_nonce_and_ciphertext (combine_nonce_and_ciphertext nonce sealed) 12 ≡ ok (nonce, sealed)
split-combine_example = split-combine nonce sealed (ground arith) (ground arith)

stored_split : split_nonce_and_ciphertext stored 12 ≡ ok (nonce, codes "AB")
unfolding split_nonce_and_ciphertext Base64.decode
stored_split = refl

bytes_trim_space-IsTrimming_example :
    IsTrimming (codes " a b \n") (bytes_trim_space (codes " a b \n"))
bytes_trim_space-IsTrimming_example = bytes_trim_space-IsTrimming (codes " a b \n")

-- A key file.
abbrev digits : Bytes
digits = replicate 64 b'1'

abbrev key : Bytes
key = replicate 32 17

abbrev key_file : Bytes → Result Bytes
key_file path = ok ([] ++ (digits ++ codes "\r\n"))

digits-decode : Hex.decode digits ≡ ok key
unfolding Hex.decode
digits-decode = refl

line_end : All IsSpace (codes "\r\n")
unfolding is_space
line_end = (refl, (refl, tt))

new_manager_from_file_padded_example :
    new_manager_from_file key_file (codes "master.key") ≡ ok (holding key)
new_manager_from_file_padded_example =
    new_manager_from_file_padded key_file (codes "master.key") [] digits (codes "\r\n") key refl tt
      line_end digits-decode refl

new_manager_from_file_sound_example :
    (content digits' key' : Bytes) × (key_file (codes "master.key") ≡ ok content)
    × IsTrimming content digits'
    × (Hex.decode digits' ≡ ok key')
    × (length key' ≡ 32)
    × IsBytes key'
    × (holding key ≡ holding key')
new_manager_from_file_sound_example =
    new_manager_from_file_sound key_file (codes "master.key") new_manager_from_file_padded_example

-- The manager of a hardware module.
abbrev module_manager : HsmManager (Unit {0})
module_manager = record { provider = some toy_provider; key_id = codes "key"; aead = none }

module_tested :
    new_hsm_manager (some toy_provider) (codes "key") toy_world ≡ (ok module_manager, toy_world)
unfolding new_hsm_manager
module_tested = refl

-- Environments.
abbrev wide : Bytes
wide = codes "18446744073709551617"

abbrev with_slot : Env
with_slot name = wide

getenv_uint_digits_example : getenv_uint with_slot "KMS_PKCS11_SLOT" 0 ≡ value 0 wide % 2 ^ 64
getenv_uint_digits_example =
    getenv_uint_digits with_slot "KMS_PKCS11_SLOT" 0 (ground arith) (ground arith)

-- A provider with a data key.
abbrev cloud : AwsKmsProvider
cloud = record { key_id = codes "alias/cards"; data_key = some key; aead = record { key = key } }
