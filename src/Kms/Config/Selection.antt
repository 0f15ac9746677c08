-- ===== src/Kms/Config/Selection.antt =====
-- Which manager is made.
use kms_golang.Base.{
  Bytes, [], Result, err, Error, new, with_text, wrapped, if◌then◌else◌, codes, bytes_eq,
  bytes_eq→eq, ◌≡◌, ◌≢◌, arith,
}
use kms_golang.Go.World.{World}
use kms_golang.Go.Gcm.{Aes}
use kms_golang.Kms.Config.{Env, Providers, stubs, new_manager, server_manager}

module _ (env : Env) {D : Type 0} (build : Providers D) where
  -- The server's own choice between a file and a hardware module is that of `NewManager`.
  pub server_manager_lem :
      (aes : Aes) (read_file : Bytes → Result Bytes) (w : World D)
      → server_manager env build aes read_file w ≡ new_manager env build aes read_file w
  unfolding server_manager
  server_manager_lem aes read_file w = ground arith

  -- Where a hardware module is asked for, no file is read in its place: neither the files nor the
  -- software cipher make a difference to the manager or the error.
  pub new_manager_no_fallback :
      (aes aes' : Aes) (files files' : Bytes → Result Bytes) (w : World D)
      → env "KMS_HSM_TYPE" ≢ []
      → new_manager env build aes files w ≡ new_manager env build aes' files' w
  unfolding new_manager
  new_manager_no_fallback aes aes' files files' w asked =
      ground (arith, bytes_eq→eq (env "KMS_HSM_TYPE") [])

-- Why the default build refuses.
abbrev pub stub_error : Env → Error
stub_error env =
    if bytes_eq (env "KMS_HSM_TYPE") (codes "pkcs11")
    then (if bytes_eq (env "KMS_PKCS11_LIB") []
        then new "KMS_PKCS11_LIB environment variable is required"
        else wrapped "provider initialization failed: "
            (new "PKCS#11 support not compiled (use build tag: pkcs11)"))
    else if bytes_eq (env "KMS_HSM_TYPE") (codes "aws")
    then (if bytes_eq (env "KMS_AWS_KEY_ID") []
        then new "KMS_AWS_KEY_ID environment variable is required"
        else new "AWS KMS support not compiled (use build tag: aws)")
    else if bytes_eq (env "KMS_HSM_TYPE") (codes "azure")
    then (if bytes_eq (env "KMS_AZURE_VAULT_URL") []
        then new "KMS_AZURE_VAULT_URL environment variable is required"
        else if bytes_eq (env "KMS_AZURE_KEY_NAME") []
        then new "KMS_AZURE_KEY_NAME environment variable is required"
        else new "Azure Key Vault support not compiled (use build tag: azure)")
    else with_text "unsupported HSM type: " (env "KMS_HSM_TYPE")

-- The default build holds no hardware support: whatever module is asked for, and whatever else the
-- environment sets, the result is the error that says what is missing, and the world is as before.
pub new_manager-stubs :
    (env : Env) {D : Type 0} (aes : Aes) (read_file : Bytes → Result Bytes) (w : World D)
    → env "KMS_HSM_TYPE" ≢ []
    → new_manager env stubs aes read_file w ≡ (err (stub_error env), w)
unfolding new_manager stubs
new_manager-stubs env aes read_file w asked = ground (arith, bytes_eq→eq (env "KMS_HSM_TYPE") [])
