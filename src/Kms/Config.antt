-- ===== src/Kms/Config.antt =====
-- internal/kms/manager.go and the stubs of the default build: which manager an environment selects.
-- A variable that is not set reads as the empty text. The debug prints are left out.
pub mod Number
pub mod Selection
pub mod Built
pub mod Hardware
pub mod Tests
use kms_golang.Base.{
  ℕ, ◌+◌, ◌-◌, ◌*◌, ◌%◌, ◌^◌, Bytes, [], ◌∷◌, Bool, leb, ◌&&◌, if◌then◌else◌, Option, none, some,
  String, Result, ok, err, new, with_text, codes, bytes_eq,
}
use kms_golang.Go.World.{M, return, wrapping, ◌>>=◌}
use kms_golang.Go.Gcm.{Aes}
use kms_golang.Kms.File.{FileManager, new_manager_from_file}
use kms_golang.Kms.Manager.{Manager, file_manager}
use kms_golang.Kms.Hsm.{Provider, new_hsm_manager, hsm_manager}

-- `os.Getenv`.
abbrev pub Env : Type 0
Env = String → Bytes

unfoldable pub getenv_default : Env → String → Bytes → Bytes
unfolding bytes_eq
getenv_default env key fallback = if bytes_eq (env key) [] then fallback else env key

abbrev pub is_digit : ℕ → Bool
is_digit c = leb b'0' c && leb c b'9'

-- The loop over the characters; `uint` has 64 bits, and wraps around.
uint_loop : ℕ → Bytes → ℕ → ℕ
uint_loop fallback [] result = result
uint_loop fallback (c ∷ s) result =
    let rest = uint_loop fallback s ((result * 10 + (c - b'0')) % 2 ^ 64) in
    if is_digit c then rest else fallback

parse_uint : ℕ → Bytes → ℕ
unfolding uint_loop
parse_uint fallback [] = fallback
parse_uint fallback (c ∷ s) = uint_loop fallback (c ∷ s) 0

unfoldable pub getenv_uint : Env → String → ℕ → ℕ
unfolding parse_uint
getenv_uint env key fallback = parse_uint fallback (env key)

-- The constructors of the providers that a build holds. Each may return a nil provider.
pub record Providers (D : Type 0) : Type 0 where
  pub new_pkcs11_provider : Bytes → ℕ → Bytes → Bytes → M D (Option (Provider D))
  pub new_aws_kms_provider : Bytes → Bytes → M D (Option (Provider D))
  pub new_azure_key_vault_provider : Bytes → Bytes → M D (Option (Provider D))

-- A build with no tags: hsm_stub.go, hsm_aws_stub.go and hsm_azure_stub.go.
unfoldable pub stubs : {D : Type 0} → Providers D
stubs = record {
  new_pkcs11_provider = λ lib slot pin label.
      return (err (new "PKCS#11 support not compiled (use build tag: pkcs11)"));
  new_aws_kms_provider =
      λ key region. return (err (new "AWS KMS support not compiled (use build tag: aws)"));
  new_azure_key_vault_provider =
      λ url key. return (err (new "Azure Key Vault support not compiled (use build tag: azure)"));
}

abbrev refuse : {D A : Type 0} → String → M D A
refuse message = return (err (new message))

module _ (env : Env) {D : Type 0} (build : Providers D) where
  over_provider : Option (Provider D) → Bytes → M D (Manager D)
  over_provider provider key_id = do
    m ← new_hsm_manager provider key_id
    return (ok (hsm_manager m))

  checked_provider : Option (Provider D) → M D (Manager D)
  checked_provider none =
      refuse
        "provider initialization returned nil pointer without error (Check PKCS11 library path)"
  checked_provider (some p) =
      over_provider (some p) (getenv_default env "KMS_KEY_ID" (codes "default"))

  unfoldable pub new_pkcs11_manager_from_env : M D (Manager D)
  unfolding checked_provider over_provider getenv_uint
  new_pkcs11_manager_from_env =
      let lib = env "KMS_PKCS11_LIB" in
      let slot = getenv_uint env "KMS_PKCS11_SLOT" 0 in
      let pin = env "KMS_PKCS11_PIN" in
      let label = getenv_default env "KMS_PKCS11_KEY_LABEL" (codes "kms-master-key") in
      if bytes_eq lib []
      then refuse "KMS_PKCS11_LIB environment variable is required"
      else wrapping "provider initialization failed: "
          (build.new_pkcs11_provider lib slot pin label)
        >>= checked_provider

  unfoldable pub new_aws_kms_manager_from_env : M D (Manager D)
  unfolding over_provider
  new_aws_kms_manager_from_env =
      let key_id = env "KMS_AWS_KEY_ID" in
      let region = getenv_default env "KMS_AWS_REGION" (codes "us-east-1") in
      if bytes_eq key_id []
      then refuse "KMS_AWS_KEY_ID environment variable is required"
      else build.new_aws_kms_provider key_id region >>= λ provider. over_provider provider key_id

  unfoldable pub new_azure_key_vault_manager_from_env : M D (Manager D)
  unfolding over_provider
  new_azure_key_vault_manager_from_env =
      let url = env "KMS_AZURE_VAULT_URL" in
      let key_name = env "KMS_AZURE_KEY_NAME" in
      if bytes_eq url []
      then refuse "KMS_AZURE_VAULT_URL environment variable is required"
      else if bytes_eq key_name []
      then refuse "KMS_AZURE_KEY_NAME environment variable is required"
      else build.new_azure_key_vault_provider url key_name >>= λ provider.
          over_provider provider key_name

  unfoldable pub new_hsm_manager_from_env : M D (Manager D)
  unfolding new_pkcs11_manager_from_env new_aws_kms_manager_from_env
      new_azure_key_vault_manager_from_env
  new_hsm_manager_from_env =
      let hsm_type = env "KMS_HSM_TYPE" in
      if bytes_eq hsm_type (codes "pkcs11")
      then new_pkcs11_manager_from_env
      else if bytes_eq hsm_type (codes "aws")
      then new_aws_kms_manager_from_env
      else if bytes_eq hsm_type (codes "azure")
      then new_azure_key_vault_manager_from_env
      else return (err (with_text "unsupported HSM type: " hsm_type))

  module _ (aes : Aes) (read_file : Bytes → Result Bytes) where
    -- `NewManagerFromFile`, as a `Manager`.
    from_file : Bytes → M D (Manager D)
    from_file path = do
      m ← return (new_manager_from_file read_file path)
      return (ok (file_manager aes m))

    unfoldable pub new_manager : M D (Manager D)
    unfolding new_hsm_manager_from_env from_file
    new_manager =
        if bytes_eq (env "KMS_HSM_TYPE") []
        then from_file (getenv_default env "KMS_MASTER_KEY_PATH" (codes "master.key"))
        else new_hsm_manager_from_env

    -- cmd/kms-server/main.go makes the same choice before it calls `NewManager`.
    unfoldable pub server_manager : M D (Manager D)
    unfolding new_manager
    server_manager =
        let master_key_path = getenv_default env "KMS_MASTER_KEY_PATH" (codes "master.key") in
        if bytes_eq (env "KMS_HSM_TYPE") [] then from_file master_key_path else new_manager
