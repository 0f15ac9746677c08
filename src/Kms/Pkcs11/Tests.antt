-- ===== src/Kms/Pkcs11/Tests.antt =====
-- Examples for hsm_pkcs11.go: a token that is nothing but its phase, with one key.
use kms_golang.Base.{
  ℕ, [], ◌∷◌, some, Error, new, codes, ◌⊎◌, inl, inr, ◌≡◌, ◌≢◌, refl, ap, ◌∙◌, arith,
}
use kms_golang.Go.World.{World}
use kms_golang.Kms.Pkcs11.{Call, Ctx, Pkcs11Provider, new_pkcs11_provider}
use kms_golang.Kms.Pkcs11.Phases.{
  Phase, down, up, in_session, logged_in, searching, encrypting, decrypting, Ends, IsReady, IsToken,
}
use kms_golang.Kms.Pkcs11.Opening.{new_pkcs11_provider-Ends}

abbrev to : {A : Type 0} → Phase → A → Call Phase A
to next a w = (inl a, record w { device = next })

abbrev moved : Phase → World Phase → World Phase
moved next w = record w { device = next }

abbrev pub toy_ctx : Ctx Phase
toy_ctx = record {
  initialize = to up tt;
  finalize = moved down;
  get_slot_list = to up (7 ∷ []);
  get_token_info = λ slot. to up (codes "KMS Token");
  open_session = λ slot. to (in_session 1) 1;
  close_session = λ s. moved up;
  login = λ s pin w. (inr (new "CKR_PIN_INCORRECT"), w);
  logout = λ s. moved (in_session s);
  find_objects_init = λ s label. to (searching s) tt;
  find_objects = λ s max. to (searching s) (3 ∷ []);
  find_objects_final = λ s. moved (logged_in s);
  encrypt_init = λ s nonce handle. to (encrypting s) tt;
  encrypt = λ s plain. to (logged_in s) plain;
  decrypt_init = λ s nonce handle. to (decrypting s) tt;
  decrypt = λ s ciphertext. to (logged_in s) ciphertext;
}

abbrev handle_of : ℕ ⊎ Error → ℕ
handle_of (inl s) = s
handle_of (inr e) = 0

session_valid : (x : ℕ ⊎ Error) {s : ℕ} → handle_of x ≢ 0 → x ≡ inl s → s ≢ 0
session_valid x valid h zero = valid (ap handle_of h ∙ zero)

toy_ctx-IsToken : IsToken toy_ctx (λ d. d)
toy_ctx-IsToken = record {
  initialize = λ w h. refl;
  finalize = λ w h. refl;
  get_slot_list = λ w h. refl;
  get_token_info = λ slot w h. refl;
  open_session = λ slot w h. refl;
  valid_session = λ slot s w w' h.
      session_valid (toy_ctx.open_session slot w).0 (ground arith) (ap (λ x. x.0) h);
  close_session = λ s w h. refl;
  login = λ s pin w h. h;
  logout = λ s w h. refl;
  find_objects_init = λ s label w h. refl;
  find_objects = λ s max w h. refl;
  find_objects_final = λ s w h. refl;
  encrypt_init = λ s nonce handle w h. refl;
  encrypt = λ s plain w h. refl;
  decrypt_init = λ s nonce handle w h. refl;
  decrypt = λ s ciphertext w h. refl;
}

abbrev at_rest : World Phase
at_rest = record { entropy = codes "nonce 000001"; device = down }

-- The wrong PIN: the token is down again.
new_pkcs11_provider-Ends_example :
    Ends
      (λ d. d)
      (IsReady (λ d. d))
      down
      (new_pkcs11_provider
        (λ lib. some toy_ctx)
        (codes "lib.so")
        0
        (codes "0000")
        (codes "key")
        at_rest)
new_pkcs11_provider-Ends_example =
    new_pkcs11_provider-Ends toy_ctx-IsToken (λ lib. some toy_ctx) (codes "lib.so") 0 (codes "0000")
      (codes "key") at_rest refl refl

abbrev pub provider : Pkcs11Provider Phase
provider = record {
  ctx = toy_ctx;
  session = 1;
  slot_id = 7;
  pin = codes "1234";
  key_label = codes "key";
}

abbrev ready : World Phase
ready = record { entropy = codes "nonce 000001"; device = logged_in 1 }
