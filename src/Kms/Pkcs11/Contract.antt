-- ===== src/Kms/Pkcs11/Contract.antt =====
-- The provider over a token keeps the contract of a provider.
use kms_golang.Base.{
  ℕ, Bytes, List, [], ◌∷◌, Result, ok, err, panic, Error, wrapped, ◌⊎◌, inl, inr, ◌≡◌, refl, sym,
  ap, ◌∙◌, arith, Option, none, some, ok_injective,
}
use kms_golang.Go.World.{World, M, read_full}
use kms_golang.Kms.Hsm.{IsProvider}
use kms_golang.Kms.Pkcs11.{
  initialized, listed, with_slots, with_slot, logged_in_provider, find_slot, target_slot,
  new_pkcs11_provider, as_is, Ctx, Pkcs11Provider, or_fail, keep_world, and_then, first_object,
  ended_search, find_key_handle, encrypt_with_nonce, decrypt_with_handle, encrypt, decrypt,
  pkcs11_provider,
}

-- What AES-GCM on a token promises, and what the program relies on of its objects: a search that was
-- begun for the label finds first the one key that has it, and a decryption under a key and a nonce that succeeds gives the text
-- that was encrypted under them to the same ciphertext.
pub record IsKeyed {D : Type 0} (ctx : Ctx D) (label : Bytes) (key : ℕ) : Type 0 where
  pub only_key :
      (s max : ℕ) (w w1 w2 : World D) (handle : ℕ) (rest : List ℕ)
      → ctx.find_objects_init s label w ≡ (inl tt, w1)
      → ctx.find_objects s max w1 ≡ (inl (handle ∷ rest), w2)
      → handle ≡ key
  pub authentic :
      (s t : ℕ) (nonce plain ciphertext other : Bytes) (w w1 w2 v v1 v2 : World D)
      → ctx.encrypt_init s nonce key w ≡ (inl tt, w1)
      → ctx.encrypt s plain w1 ≡ (inl ciphertext, w2)
      → ctx.decrypt_init t nonce key v ≡ (inl tt, v1)
      → ctx.decrypt t ciphertext v1 ≡ (inl other, v2)
      → other ≡ plain

module _ {D A B : Type 0} where
  -- Inversion of a call, and of an operation, that succeeds.
  pub or_fail-eq-ok :
      (message : Error → Error) (clean : World D → World D) (next : A → M D B)
      (x : (A ⊎ Error) × World D) {b : B} {w' : World D}
      → or_fail message clean next x ≡ (ok b, w')
      → (a : A) × (w : World D) × (x ≡ (inl a, w)) × (next a w ≡ (ok b, w'))
  or_fail-eq-ok message clean next (inl a, w) h = (a, w, refl, h)
  or_fail-eq-ok message clean next (inr e, w) h = absurd (ground arith)

module _ {D : Type 0} (p : Pkcs11Provider D) {A B : Type 0} where
  and_then-eq-ok :
      (message : Error → Error) (next : A → M D B) (x : Result A × World D) {b : B} {w' : World D}
      → and_then p message next x ≡ (ok b, w')
      → (a : A) × (w : World D) × (x ≡ (ok a, w)) × (next a w ≡ (ok b, w'))
  unfolding and_then
  and_then-eq-ok message next (ok a, w) h = (a, w, refl, h)
  and_then-eq-ok message next (err e, w) h = absurd (ground arith)
  and_then-eq-ok message next (panic s, w) h = absurd (ground arith)

module _ {D : Type 0} (p : Pkcs11Provider D) (key : ℕ) (good : IsKeyed p.ctx p.key_label key) where
  ended_search-eq-ok :
      (x : Result ℕ × World D) {handle : ℕ} {w' : World D}
      → ended_search p x ≡ (ok handle, w')
      → (w : World D) × (x ≡ (ok handle, w))
  unfolding ended_search
  ended_search-eq-ok (r, w) h = (w, ap (λ r. (r, w)) (ap (λ x. x.0) h))

  first_object-key :
      (objects : List ℕ) (w : World D) {handle : ℕ} {w' : World D}
      → first_object p objects w ≡ (ok handle, w')
      → (rest : List ℕ) × (objects ≡ handle ∷ rest)
  unfolding first_object
  first_object-key [] w h = absurd (ground arith)
  first_object-key (x ∷ rest) w h = (rest, ap (λ n. n ∷ rest) (ok_injective (ap (λ y. y.0) h)))

  -- A search that succeeds finds the key.
  find_key_handle-key :
      (w : World D) {handle : ℕ} {w' : World D}
      → find_key_handle p w ≡ (ok handle, w')
      → handle ≡ key
  unfolding find_key_handle
  find_key_handle-key w {handle} h =
      let (_, v, begun, h1) =
        or_fail-eq-ok (as_is p) keep_world
          (λ _ v.
            ended_search p
              (or_fail (as_is p) keep_world (first_object p) (p.ctx.find_objects p.session 1 v)))
          (p.ctx.find_objects_init p.session p.key_label w) h in
      let (u, h2) =
        ended_search-eq-ok
          (or_fail (as_is p) keep_world (first_object p) (p.ctx.find_objects p.session 1 v)) h1 in
      let (objects, t, found, h3) =
        or_fail-eq-ok (as_is p) keep_world (first_object p) (p.ctx.find_objects p.session 1 v) h2 in
      let (rest, same) = first_object-key objects t h3 in
      good.only_key p.session 1 w v t handle rest begun (found ∙ ap (λ o. (inl o, t)) same)

  -- An encryption that succeeds has called the token with the nonce that it returns.
  encrypt-called :
      (key_id plain ciphertext nonce : Bytes) (w w' : World D)
      → encrypt p key_id plain w ≡ (ok (ciphertext, nonce), w')
      → (w1 w2 w3 : World D) × (p.ctx.encrypt_init p.session nonce key w1 ≡ (inl tt, w2))
        × (p.ctx.encrypt p.session plain w2 ≡ (inl ciphertext, w3))
  unfolding encrypt encrypt_with_nonce
  encrypt-called key_id plain ciphertext nonce w w' h =
      let (handle, v, found, h1) =
        and_then-eq-ok p (as_is p)
          (λ handle v.
            and_then p (wrapped "failed to generate nonce: ")
              (λ nonce. encrypt_with_nonce p plain nonce handle) (read_full 12 v))
          (find_key_handle p w) h in
      let (drawn, u, read, h2) =
        and_then-eq-ok p (wrapped "failed to generate nonce: ")
          (λ nonce. encrypt_with_nonce p plain nonce handle) (read_full 12 v) h1 in
      let (_, t, started, h3) =
        or_fail-eq-ok (wrapped "encrypt init failed: ") keep_world
          (λ _ v.
            or_fail (wrapped "encrypt execution failed: ") keep_world
              (λ ciphertext u. (ok (ciphertext, drawn), u)) (p.ctx.encrypt p.session plain v))
          (p.ctx.encrypt_init p.session drawn handle u) h2 in
      let (sealed, r, made, h4) =
        or_fail-eq-ok (wrapped "encrypt execution failed: ") keep_world
          (λ ciphertext u. (ok (ciphertext, drawn), u)) (p.ctx.encrypt p.session plain t) h3 in
      let pair : Path (Bytes × Bytes) (sealed, drawn) (ciphertext, nonce) =
        ok_injective (ap (λ x. x.0) h4) in
      let handle_key = find_key_handle-key w found in
      (
        u,
        t,
        r,
        ap (λ n. p.ctx.encrypt_init p.session n key u) (sym (ap (λ x. x.1) pair))
            ∙ ap (λ k. p.ctx.encrypt_init p.session drawn k u) (sym handle_key)
            ∙ started,
        made ∙ ap (λ c. (inl c, r)) (ap (λ x. x.0) pair),
      )

  decrypt-called :
      (key_id ciphertext nonce plain : Bytes) (w w' : World D)
      → decrypt p key_id ciphertext nonce w ≡ (ok plain, w')
      → (w1 w2 w3 : World D) × (p.ctx.decrypt_init p.session nonce key w1 ≡ (inl tt, w2))
        × (p.ctx.decrypt p.session ciphertext w2 ≡ (inl plain, w3))
  unfolding decrypt decrypt_with_handle
  decrypt-called key_id ciphertext nonce plain w w' h =
      let (handle, v, found, h1) =
        and_then-eq-ok p (as_is p) (decrypt_with_handle p ciphertext nonce) (find_key_handle p w)
          h in
      let (_, t, started, h2) =
        or_fail-eq-ok (wrapped "decrypt init failed: ") keep_world
          (λ _ v.
            or_fail (wrapped "decrypt execution failed: ") keep_world (λ plain u. (ok plain, u))
              (p.ctx.decrypt p.session ciphertext v))
          (p.ctx.decrypt_init p.session nonce handle v) h1 in
      let (opened, r, made, h3) =
        or_fail-eq-ok (wrapped "decrypt execution failed: ") keep_world (λ plain u. (ok plain, u))
          (p.ctx.decrypt p.session ciphertext t) h2 in
      let handle_key = find_key_handle-key w found in
      (
        v,
        t,
        r,
        ap (λ k. p.ctx.decrypt_init p.session nonce k v) (sym handle_key) ∙ started,
        made ∙ ap (λ c. (inl c, r)) (ok_injective (ap (λ x. x.0) h3)),
      )

  -- The provider over a token keeps the contract of a provider, if a search of the token for the label
  -- of the provider finds one key only and the token decrypts under a key and a nonce only what it encrypted under them: what
  -- is decrypted, in whatever session and after whatever other calls, is what was encrypted.
  pub pkcs11_provider-IsProvider : IsProvider (pkcs11_provider p)
  unfolding pkcs11_provider
  pkcs11_provider-IsProvider = record {
    honest = λ key_id plain ciphertext nonce other w w' later e d.
        let (w1, w2, w3, started, made) = encrypt-called key_id plain ciphertext nonce w w' e in
        let answer = decrypt p key_id ciphertext nonce later in
        let (v1, v2, v3, begun, opened) =
          decrypt-called key_id ciphertext nonce other later answer.1 (ap (λ r. (r, answer.1)) d) in
        good.authentic p.session p.session nonce plain ciphertext other w1 w2 w3 v1 v2 v3 started
          made begun opened;
  }

-- The provider that the constructor returns speaks to the library that was loaded.
module _ {D : Type 0} (ctx : Ctx D) (slot_id : ℕ) (pin key_label : Bytes) where
  -- The provider speaks to the library, and looks for the label.
  abbrev IsOver : Pkcs11Provider D → Type 0
  IsOver p = (ctx ≡ p.ctx) × (key_label ≡ p.key_label)

  logged_in-ctx :
      (slot session : ℕ) (w w' : World D) {p : Pkcs11Provider D}
      → logged_in_provider ctx slot pin key_label session w ≡ (ok p, w')
      → IsOver p
  unfolding logged_in_provider
  logged_in-ctx slot session w w' h =
      let (_, v, _, h1) =
        or_fail-eq-ok (wrapped "failed to login to PKCS#11: ")
          (λ v. ctx.finalize (ctx.close_session session v))
          (λ _ v. (
            ok (record {
              ctx = ctx;
              session = session;
              slot_id = slot;
              pin = pin;
              key_label = key_label;
            }),
            v,
          ))
          (ctx.login session pin w) h in
      let made = ok_injective (ap (λ x. x.0) h1) in
      (ap (λ p. p.ctx) made, ap (λ p. p.key_label) made)

  with_slot-ctx :
      (target : Option ℕ) (w w' : World D) {p : Pkcs11Provider D}
      → with_slot ctx pin key_label target w ≡ (ok p, w')
      → IsOver p
  unfolding with_slot
  with_slot-ctx none w w' h = absurd (ground (arith, h))
  with_slot-ctx (some slot) w w' h =
      let (session, v, _, h1) =
        or_fail-eq-ok (wrapped "failed to open PKCS#11 session on slot: ") ctx.finalize
          (logged_in_provider ctx slot pin key_label) (ctx.open_session slot w) h in
      logged_in-ctx slot session v w' h1

  listed-ctx :
      (w w' : World D) {p : Pkcs11Provider D}
      → listed ctx slot_id pin key_label w ≡ (ok p, w')
      → IsOver p
  unfolding listed with_slots
  listed-ctx w w' h =
      let (slots, v, _, h1) =
        or_fail-eq-ok (wrapped "failed to get slot list: ") ctx.finalize
          (with_slots ctx slot_id pin key_label) (ctx.get_slot_list w) h in
      let (found, u) = find_slot ctx slots slot_id v in
      with_slot-ctx (target_slot found slots) u w' h1

initialized-ctx :
    {D : Type 0} (slot_id : ℕ) (pin key_label : Bytes) (loaded : Option (Ctx D)) (w w' : World D)
    {p : Pkcs11Provider D}
    → initialized slot_id pin key_label loaded w ≡ (ok p, w')
    → (loaded ≡ some p.ctx) × (key_label ≡ p.key_label)
unfolding initialized
initialized-ctx slot_id pin key_label none w w' h = absurd (ground (arith, h))
initialized-ctx slot_id pin key_label (some ctx) w w' h =
    let (_, v, _, h1) =
      or_fail-eq-ok (wrapped "failed to initialize PKCS#11: ") keep_world
        (λ _. listed ctx slot_id pin key_label) (ctx.initialize w) h in
    let (same, label) = listed-ctx ctx slot_id pin key_label v w' h1 in (ap some same, label)

pub new_pkcs11_provider-ctx :
    {D : Type 0} (load : Bytes → Option (Ctx D)) (lib : Bytes) (slot_id : ℕ) (pin key_label : Bytes)
    (w w' : World D) {p : Pkcs11Provider D}
    → new_pkcs11_provider load lib slot_id pin key_label w ≡ (ok p, w')
    → (load lib ≡ some p.ctx) × (key_label ≡ p.key_label)
unfolding new_pkcs11_provider
new_pkcs11_provider-ctx load lib slot_id pin key_label w w' h =
    initialized-ctx slot_id pin key_label (load lib) w w' h
