-- ===== src/Kms/Pkcs11/Phases.antt =====
-- What the library of hsm_pkcs11.go documents of its calls, in each phase of a token.
use kms_golang.Base.{ℕ, Bytes, Result, ok, err, panic, Error, ◌⊎◌, inl, inr, ◌≡◌, ◌≢◌, refl}
use kms_golang.Go.World.{World, M}
use kms_golang.Kms.Pkcs11.{Ctx, Pkcs11Provider, or_fail}

-- The phases of a token, with the session.
pub data Phase : Type 0 where
  down up : Phase
  in_session logged_in searching encrypting decrypting : ℕ → Phase

module _ {D : Type 0} (phase : D → Phase) where
  -- A call ends in the phase of its value, or, after an error, in a given phase.
  abbrev pub Leaves : {A : Type 0} → (A → Phase) → Phase → (A ⊎ Error) × World D → Type 0
  Leaves good bad (inl a, w) = phase w.device ≡ good a
  Leaves good bad (inr e, w) = phase w.device ≡ bad

  -- An operation of the program ends well, or, after an error, in a given phase. A panic does neither.
  abbrev pub Ends : {A : Type 0} → (A → World D → Type 0) → Phase → Result A × World D → Type 0
  Ends good bad (ok a, w) = good a w
  Ends good bad (err e, w) = phase w.device ≡ bad
  Ends good bad (panic s, w) = ⊥

  -- A provider whose session is open and logged in.
  abbrev pub IsReady : Pkcs11Provider D → World D → Type 0
  IsReady p w = (p.session ≢ 0) × (phase w.device ≡ logged_in p.session)

  -- Whatever the value, the token is in the phase.
  abbrev pub In : {A : Type 0} → Phase → A → World D → Type 0
  In at a w = phase w.device ≡ at

-- What PKCS#11 documents. A failed call leaves the phase as it was, but the one that ends an
-- encryption or a decryption ends it in either case. The handle 0 is no session. Finalizing is
-- described only where no session is open.
pub record IsToken {D : Type 0} (ctx : Ctx D) (phase : D → Phase) : Type 0 where
  pub initialize :
      (w : World D) → phase w.device ≡ down → Leaves phase (λ _. up) down (ctx.initialize w)
  pub finalize : (w : World D) → phase w.device ≡ up → phase (ctx.finalize w).device ≡ down
  pub get_slot_list :
      (w : World D) → phase w.device ≡ up → Leaves phase (λ _. up) up (ctx.get_slot_list w)
  pub get_token_info :
      (slot : ℕ) (w : World D)
      → phase w.device ≡ up
      → Leaves phase (λ _. up) up (ctx.get_token_info slot w)
  pub open_session :
      (slot : ℕ) (w : World D)
      → phase w.device ≡ up
      → Leaves phase in_session up (ctx.open_session slot w)
  pub valid_session : (slot s : ℕ) (w w' : World D) → ctx.open_session slot w ≡ (inl s, w') → s ≢ 0
  pub close_session :
      (s : ℕ) (w : World D)
      → phase w.device ≡ in_session s
      → phase (ctx.close_session s w).device ≡ up
  pub login :
      (s : ℕ) (pin : Bytes) (w : World D)
      → phase w.device ≡ in_session s
      → Leaves phase (λ _. logged_in s) (in_session s) (ctx.login s pin w)
  pub logout :
      (s : ℕ) (w : World D)
      → phase w.device ≡ logged_in s
      → phase (ctx.logout s w).device ≡ in_session s
  pub find_objects_init :
      (s : ℕ) (label : Bytes) (w : World D)
      → phase w.device ≡ logged_in s
      → Leaves phase (λ _. searching s) (logged_in s) (ctx.find_objects_init s label w)
  pub find_objects :
      (s max : ℕ) (w : World D)
      → phase w.device ≡ searching s
      → Leaves phase (λ _. searching s) (searching s) (ctx.find_objects s max w)
  pub find_objects_final :
      (s : ℕ) (w : World D)
      → phase w.device ≡ searching s
      → phase (ctx.find_objects_final s w).device ≡ logged_in s
  pub encrypt_init :
      (s : ℕ) (nonce : Bytes) (handle : ℕ) (w : World D)
      → phase w.device ≡ logged_in s
      → Leaves phase (λ _. encrypting s) (logged_in s) (ctx.encrypt_init s nonce handle w)
  pub encrypt :
      (s : ℕ) (plain : Bytes) (w : World D)
      → phase w.device ≡ encrypting s
      → Leaves phase (λ _. logged_in s) (logged_in s) (ctx.encrypt s plain w)
  pub decrypt_init :
      (s : ℕ) (nonce : Bytes) (handle : ℕ) (w : World D)
      → phase w.device ≡ logged_in s
      → Leaves phase (λ _. decrypting s) (logged_in s) (ctx.decrypt_init s nonce handle w)
  pub decrypt :
      (s : ℕ) (ciphertext : Bytes) (w : World D)
      → phase w.device ≡ decrypting s
      → Leaves phase (λ _. logged_in s) (logged_in s) (ctx.decrypt s ciphertext w)

module _ {D : Type 0} (phase : D → Phase) {A B : Type 0} (mid : A → Phase) (after : Phase)
    (good : B → World D → Type 0) (bad : Phase) where
  -- A step that fails cleans up, and one that succeeds goes on.
  pub or_fail-Ends :
      (message : Error → Error) (clean : World D → World D) (next : A → M D B)
      (x : (A ⊎ Error) × World D)
      → Leaves phase mid after x
      → ((w : World D) → phase w.device ≡ after → phase (clean w).device ≡ bad)
      → ((a : A) (w : World D)
          → x ≡ (inl a, w)
          → phase w.device ≡ mid a
          → Ends phase good bad (next a w))
      → Ends phase good bad (or_fail message clean next x)
  or_fail-Ends message clean next (inl a, w) at cleaned rest = rest a w refl at
  or_fail-Ends message clean next (inr e, w) at cleaned rest = cleaned w at
