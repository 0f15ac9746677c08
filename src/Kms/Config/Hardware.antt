-- ===== src/Kms/Config/Hardware.antt =====
-- A build with the tag pkcs11: hsm_pkcs11.go beside the stubs of the two clouds.
use kms_golang.Base.{
  ℕ, Bytes, Option, some, Result, ok, ◌≡◌, ap, ok_injective, some_injective, arith,
}
use mathlib.Core.Path.{subst}
use kms_golang.Go.World
use kms_golang.Go.World.{World, M, return}
use kms_golang.Go.Gcm.{Aes, IsAead}
use kms_golang.Kms.Manager.{Manager, IsManager}
use kms_golang.Kms.Hsm.{Provider, IsProvider}
use kms_golang.Kms.Pkcs11.{Ctx, new_pkcs11_provider, pkcs11_provider}
use kms_golang.Kms.Pkcs11.Contract.{IsKeyed, pkcs11_provider-IsProvider, new_pkcs11_provider-ctx}
use kms_golang.Kms.Config.{Env, Providers, stubs, new_manager}
use kms_golang.Kms.Config.Built.{IsProviders, new_manager-IsManager}

-- A constructor that returns a pointer to what it has made.
abbrev as_provider : {D A : Type 0} → (A → Provider D) → M D A → M D (Option (Provider D))
as_provider view made = World.◌>>=◌ made (λ a. return (ok (some (view a))))

as_provider-eq-ok :
    {D A : Type 0} (view : A → Provider D) (made : M D A) (w w' : World D) {p : Provider D}
    → as_provider view made w ≡ (ok (some p), w')
    → (a : A) × (v : World D) × (made w ≡ (ok a, v)) × (view a ≡ p)
as_provider-eq-ok view made w w' h =
    let (a, v, made_ok, rest) = World.>>=-eq-ok made (λ a. return (ok (some (view a)))) w h in
    (a, v, made_ok, some_injective (ok_injective (ap (λ x. x.0) rest)))

-- `pkcs11.New` is the argument; the two stubs are those of a build without the tags of the clouds.
unfoldable pub hardware : {D : Type 0} → (Bytes → Option (Ctx D)) → Providers D
unfolding stubs
hardware load = record {
  new_pkcs11_provider = λ lib slot pin label.
      as_provider pkcs11_provider (new_pkcs11_provider load lib slot pin label);
  new_aws_kms_provider = stubs.new_aws_kms_provider;
  new_azure_key_vault_provider = stubs.new_azure_key_vault_provider;
}

module _ {D : Type 0} (load : Bytes → Option (Ctx D))
    (tokens : (lib label : Bytes) (ctx : Ctx D)
      → load lib ≡ some ctx
      → (key : ℕ) × IsKeyed ctx label key) where
  hardware-IsProviders : IsProviders (hardware load)
  unfolding hardware stubs
  hardware-IsProviders = record {
    pkcs11 = λ lib slot pin label w w' p made.
        let (a, v, h, same) =
          as_provider-eq-ok pkcs11_provider (new_pkcs11_provider load lib slot pin label) w w'
            made in
        let (loaded, named) = new_pkcs11_provider-ctx load lib slot pin label w v h in
        let (key, keyed) = tokens lib label a.ctx loaded in
        subst IsProvider same
          (pkcs11_provider-IsProvider a key (subst (λ l. IsKeyed a.ctx l key) named keyed));
    aws = λ key region w w' p made. absurd (ground (arith, made));
    azure = λ url key w w' p made. absurd (ground (arith, made));
  }

  -- In a build with the tag pkcs11, every manager that `NewManager` returns, from a key file or a
  -- token, keeps the contract of a manager: what it decrypts of what it encrypted is what it was
  -- given. It needs a cipher that keeps its contract, and of each token that can be loaded that a
  -- search for a label finds one key only and that it decrypts only what it encrypted.
  pub new_manager-hardware :
      (aes : Aes) (env : Env) (read_file : Bytes → Result Bytes) (w w' : World D) {m : Manager D}
      → IsAead aes
      → new_manager env (hardware load) aes read_file w ≡ (ok m, w')
      → IsManager m
  new_manager-hardware aes env read_file w w' cipher h =
      new_manager-IsManager env (hardware load) hardware-IsProviders aes read_file w w' cipher h
