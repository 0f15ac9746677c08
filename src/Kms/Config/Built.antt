-- ===== src/Kms/Config/Built.antt =====
-- The managers that a build makes: hsm_pkcs11.go, hsm_aws.go and hsm_azure.go behind their constructors,
-- and the contract of whatever `NewManager` returns.
use kms_golang.Base.{
  ℕ, Bytes, [], Bool-cases, inl, inr, bytes_eq, codes, Option, none, some, Result, ok, ◌≡◌, ap,
  ok_injective, arith,
}
use mathlib.Core.Path.{subst}
use kms_golang.Go.World
use kms_golang.Go.World.{World, M, return, wrapping}
use kms_golang.Go.Gcm.{Aes, IsAead}
use kms_golang.Kms.File.{new_manager_from_file}
use kms_golang.Kms.Manager.{Manager, IsManager, file_manager, file_manager-IsManager}
use kms_golang.Kms.Hsm.{
  Provider, IsProvider, new_hsm_manager, new_hsm_manager_sound, hsm_manager, hsm_manager-IsManager,
}
use kms_golang.Kms.Config.{
  Env, getenv_default, getenv_uint, Providers, over_provider, checked_provider,
  new_pkcs11_manager_from_env, new_aws_kms_manager_from_env, new_azure_key_vault_manager_from_env,
  new_hsm_manager_from_env, from_file, new_manager,
}

-- The contract of the constructors of a build: each provider that they return keeps its contract.
pub record IsProviders {D : Type 0} (build : Providers D) : Type 0 where
  pub pkcs11 :
      (lib : Bytes) (slot : ℕ) (pin label : Bytes) (w w' : World D) (p : Provider D)
      → build.new_pkcs11_provider lib slot pin label w ≡ (ok (some p), w')
      → IsProvider p
  pub aws :
      (key region : Bytes) (w w' : World D) (p : Provider D)
      → build.new_aws_kms_provider key region w ≡ (ok (some p), w')
      → IsProvider p
  pub azure :
      (url key : Bytes) (w w' : World D) (p : Provider D)
      → build.new_azure_key_vault_provider url key w ≡ (ok (some p), w')
      → IsProvider p

module _ (env : Env) {D : Type 0} (build : Providers D) where
  over_provider-IsManager :
      (given : Option (Provider D)) (key_id : Bytes) (w w' : World D) {m : Manager D}
      → ((p : Provider D) → given ≡ some p → IsProvider p)
      → over_provider env build given key_id w ≡ (ok m, w')
      → IsManager m
  unfolding over_provider
  over_provider-IsManager given key_id w w' good h =
      let (made, v, h1, h2) =
        World.>>=-eq-ok (new_hsm_manager given key_id) (λ m. return (ok (hsm_manager m))) w h in
      let (p, sealed, held, tested, same) = new_hsm_manager_sound given key_id w v h1 in
      subst IsManager (ok_injective (ap (λ x. x.0) h2))
        (hsm_manager-IsManager made p (ap (λ m. m.provider) same) (good p held))

  checked_provider-IsManager :
      (given : Option (Provider D)) (w w' : World D) {m : Manager D}
      → ((p : Provider D) → given ≡ some p → IsProvider p)
      → checked_provider env build given w ≡ (ok m, w')
      → IsManager m
  unfolding checked_provider
  checked_provider-IsManager none w w' good h = absurd (ground arith)
  checked_provider-IsManager (some p) w w' good h =
      over_provider-IsManager (some p) (getenv_default env "KMS_KEY_ID" (codes "default")) w w' good
        h

module _ (env : Env) {D : Type 0} (build : Providers D) (good : IsProviders build) where
  new_pkcs11-IsManager :
      (w w' : World D) {m : Manager D}
      → new_pkcs11_manager_from_env env build w ≡ (ok m, w')
      → IsManager m
  unfolding new_pkcs11_manager_from_env
  new_pkcs11-IsManager w w' h = elim (Bool-cases (bytes_eq (env "KMS_PKCS11_LIB") [])) [
    | inl missing ↦ absurd (ground (arith, rw missing at h))
    | inr given ↦
        let made =
          build.new_pkcs11_provider (env "KMS_PKCS11_LIB") (getenv_uint env "KMS_PKCS11_SLOT" 0)
            (env "KMS_PKCS11_PIN")
            (getenv_default env "KMS_PKCS11_KEY_LABEL" (codes "kms-master-key")) in
        let (provider, v, wrapped_ok, h1) =
          World.>>=-eq-ok (wrapping "provider initialization failed: " made)
            (checked_provider env build) w (rw given at h) in
        let built = World.wrapping-eq-ok "provider initialization failed: " made w wrapped_ok in
        checked_provider-IsManager env build provider v w'
          (λ p same.
            good.pkcs11 (env "KMS_PKCS11_LIB") (getenv_uint env "KMS_PKCS11_SLOT" 0)
              (env "KMS_PKCS11_PIN")
              (getenv_default env "KMS_PKCS11_KEY_LABEL" (codes "kms-master-key")) w v p
              (rw same at built))
          h1
  ]

  new_aws-IsManager :
      (w w' : World D) {m : Manager D}
      → new_aws_kms_manager_from_env env build w ≡ (ok m, w')
      → IsManager m
  unfolding new_aws_kms_manager_from_env
  new_aws-IsManager w w' h = elim (Bool-cases (bytes_eq (env "KMS_AWS_KEY_ID") [])) [
    | inl missing ↦ absurd (ground (arith, rw missing at h))
    | inr given ↦
        let key = env "KMS_AWS_KEY_ID" in
        let region = getenv_default env "KMS_AWS_REGION" (codes "us-east-1") in
        let (provider, v, built, h1) =
          World.>>=-eq-ok (build.new_aws_kms_provider key region)
            (λ provider. over_provider env build provider key) w (rw given at h) in
        over_provider-IsManager env build provider key v w'
          (λ p same. good.aws key region w v p (rw same at built)) h1
  ]

  new_azure-IsManager :
      (w w' : World D) {m : Manager D}
      → new_azure_key_vault_manager_from_env env build w ≡ (ok m, w')
      → IsManager m
  unfolding new_azure_key_vault_manager_from_env
  new_azure-IsManager w w' h = elim (Bool-cases (bytes_eq (env "KMS_AZURE_VAULT_URL") [])) [
    | inl missing ↦ absurd (ground (arith, rw missing at h))
    | inr given ↦ elim (Bool-cases (bytes_eq (env "KMS_AZURE_KEY_NAME") [])) [
      | inl nameless ↦ absurd (ground (arith, rw (given, nameless) at h))
      | inr named ↦
          let url = env "KMS_AZURE_VAULT_URL" in
          let key = env "KMS_AZURE_KEY_NAME" in
          let (provider, v, built, h1) =
            World.>>=-eq-ok (build.new_azure_key_vault_provider url key)
              (λ provider. over_provider env build provider key) w (rw (given, named) at h) in
          over_provider-IsManager env build provider key v w'
            (λ p same. good.azure url key w v p (rw same at built)) h1
    ]
  ]

  new_hsm-IsManager :
      (w w' : World D) {m : Manager D}
      → new_hsm_manager_from_env env build w ≡ (ok m, w')
      → IsManager m
  unfolding new_hsm_manager_from_env
  new_hsm-IsManager w w' h = elim (Bool-cases (bytes_eq (env "KMS_HSM_TYPE") (codes "pkcs11"))) [
    | inl token ↦ new_pkcs11-IsManager w w' (rw token at h)
    | inr no_token ↦ elim (Bool-cases (bytes_eq (env "KMS_HSM_TYPE") (codes "aws"))) [
      | inl aws ↦ new_aws-IsManager w w' (rw (no_token, aws) at h)
      | inr no_aws ↦ elim (Bool-cases (bytes_eq (env "KMS_HSM_TYPE") (codes "azure"))) [
        | inl azure ↦ new_azure-IsManager w w' (rw (no_token, no_aws, azure) at h)
        | inr other ↦ absurd (ground (arith, rw (no_token, no_aws, other) at h))
      ]
    ]
  ]

  -- Whatever the environment selects, a manager that is returned keeps the contract of a manager, if
  -- the cipher keeps its own and the build's constructors return providers that do: it never
  -- decrypts what it encrypted to another text.
  pub new_manager-IsManager :
      (aes : Aes) (read_file : Bytes → Result Bytes) (w w' : World D) {m : Manager D}
      → IsAead aes
      → new_manager env build aes read_file w ≡ (ok m, w')
      → IsManager m
  unfolding new_manager from_file
  new_manager-IsManager aes read_file w w' cipher h =
      elim (Bool-cases (bytes_eq (env "KMS_HSM_TYPE") [])) [
        | inr asked ↦ new_hsm-IsManager w w' (rw asked at h)
        | inl file ↦
            let path = getenv_default env "KMS_MASTER_KEY_PATH" (codes "master.key") in
            let (made, v, _, h1) =
              World.>>=-eq-ok (return (new_manager_from_file read_file path))
                (λ m. return (ok (file_manager aes m))) w (rw file at h) in
            subst IsManager (ok_injective (ap (λ x. x.0) h1)) (file_manager-IsManager cipher made)
      ]
