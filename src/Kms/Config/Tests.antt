-- ===== src/Kms/Config/Tests.antt =====
-- Examples for a build with the tag pkcs11: a token that is nothing but its phase.
use kms_golang.Base.{Bytes, inl, some, ok, err, new, codes, ◌≡◌, refl, arith, some_injective}
use mathlib.Core.Path.{subst}
use kms_golang.Go.World.{World, read_full}
use kms_golang.Fixtures.{toy_aes, toy_aes-IsAead}
use kms_golang.Kms.Manager.{Manager, IsManager}
use kms_golang.Kms.Hsm.{new_hsm_manager, IsProvider}
use kms_golang.Kms.Pkcs11.{Ctx, new_pkcs11_provider, pkcs11_provider}
use kms_golang.Kms.Pkcs11.Phases.{Phase}
use kms_golang.Kms.Pkcs11.Tests.{toy_ctx, provider}
use kms_golang.Kms.Pkcs11.Contract.{IsKeyed, pkcs11_provider-IsProvider}
use kms_golang.Kms.Config.{Env, new_manager, getenv_default}
use kms_golang.Kms.Config.Hardware.{hardware, new_manager-hardware}

-- The token of the other examples, with the PIN that it accepts.
abbrev open_ctx : Ctx Phase
open_ctx = record toy_ctx { login = λ s pin w. (inl tt, record w { device = Phase.logged_in s }) }

toy_ctx-IsKeyed : (label : Bytes) → IsKeyed toy_ctx label 3
toy_ctx-IsKeyed label = record {
  only_key = λ s max w w1 w2 handle rest begun h. ground (arith, h);
  authentic = λ s t nonce plain ciphertext other w w1 w2 v v1 v2 started sealed begun opened.
      ground (arith, sealed, opened);
}

open_ctx-IsKeyed : (label : Bytes) → IsKeyed open_ctx label 3
open_ctx-IsKeyed label = record {
  only_key = λ s max w w1 w2 handle rest begun h. ground (arith, h);
  authentic = λ s t nonce plain ciphertext other w w1 w2 v v1 v2 started sealed begun opened.
      ground (arith, sealed, opened);
}

pkcs11_provider-IsProvider_example : IsProvider (pkcs11_provider provider)
pkcs11_provider-IsProvider_example =
    pkcs11_provider-IsProvider provider 3 (toy_ctx-IsKeyed provider.key_label)

abbrev at_rest : World Phase
at_rest = record { entropy = codes "nonce 000001"; device = Phase.down }

abbrev with_token : Env
with_token name = codes "pkcs11"

token_manager :
    (m : Manager Phase) × (w : World Phase) × (new_manager with_token
        (hardware (λ lib. some open_ctx))
        toy_aes
        (λ path. err (new "no file"))
        at_rest
      ≡ (ok m, w))
unfolding new_manager hardware new_pkcs11_provider pkcs11_provider new_hsm_manager read_full
    getenv_default
token_manager = (_, _, refl)

new_manager-hardware_example : IsManager token_manager.0
new_manager-hardware_example =
    new_manager-hardware (λ lib. some open_ctx)
      (λ lib label ctx loaded.
        (3, subst (λ c. IsKeyed c label 3) (some_injective loaded) (open_ctx-IsKeyed label)))
      toy_aes with_token (λ path. err (new "no file")) at_rest token_manager.1 toy_aes-IsAead
      token_manager.2
