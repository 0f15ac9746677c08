-- ===== src/Kms/Pkcs11/Sessions.antt =====
-- The session of a provider: its operations make the calls in the right phases.
use kms_golang.Base.{
  ℕ, ◌==◌, Bytes, List, [], ◌∷◌, Result, ok, err, panic, Error, wrapped, inl, inr, ◌≡◌, ◌≢◌, arith,
  Bool-cases, leb, length,
}
use kms_golang.Go.World.{World, M, read_full}
use kms_golang.Kms.Pkcs11.{
  Pkcs11Provider, or_fail, keep_world, as_is, first_object, ended_search, find_key_handle,
  encrypt_with_nonce, and_then, encrypt, decrypt_with_handle, decrypt, close,
}
use kms_golang.Kms.Pkcs11.Phases.{
  Phase, down, logged_in, searching, encrypting, decrypting, Ends, IsToken, or_fail-Ends, In,
}

module _ {D : Type 0} {phase : D → Phase} (p : Pkcs11Provider D) (token : IsToken p.ctx phase) where
  and_then-Ends :
      {A B : Type 0} (good : A → World D → Type 0) (last : B → World D → Type 0) (bad : Phase)
      (message : Error → Error) (next : A → M D B) (x : Result A × World D)
      → Ends phase good bad x
      → ((a : A) (w : World D) → good a w → Ends phase last bad (next a w))
      → Ends phase last bad (and_then p message next x)
  unfolding and_then
  and_then-Ends good last bad message next (ok a, w) at rest = rest a w at
  and_then-Ends good last bad message next (err e, w) at rest = at
  and_then-Ends good last bad message next (panic s, w) at rest = absurd at

  ended_search-Ends :
      (x : Result ℕ × World D)
      → Ends phase (In phase (searching p.session)) (searching p.session) x
      → Ends phase (In phase (logged_in p.session)) (logged_in p.session) (ended_search p x)
  unfolding ended_search
  ended_search-Ends (ok handle, w) at = token.find_objects_final p.session w at
  ended_search-Ends (err e, w) at = token.find_objects_final p.session w at
  ended_search-Ends (panic s, w) at = at

  first_object-Ends :
      (objects : List ℕ) (w : World D)
      → phase w.device ≡ searching p.session
      → Ends phase (In phase (searching p.session)) (searching p.session) (first_object p objects w)
  unfolding first_object
  first_object-Ends [] w at = at
  first_object-Ends (handle ∷ rest) w at = at

  -- The search for the key is ended on every way out.
  find_key_handle-Ends :
      (w : World D)
      → phase w.device ≡ logged_in p.session
      → Ends phase (In phase (logged_in p.session)) (logged_in p.session) (find_key_handle p w)
  unfolding find_key_handle
  find_key_handle-Ends w at =
      or_fail-Ends phase (λ _. searching p.session) (logged_in p.session)
        (In phase (logged_in p.session)) (logged_in p.session) (as_is p) keep_world _
        (p.ctx.find_objects_init p.session p.key_label w)
        (token.find_objects_init p.session p.key_label w at) (λ v h. h)
        (λ _ v e h.
          ended_search-Ends
            (or_fail (as_is p) keep_world (first_object p) (p.ctx.find_objects p.session 1 v))
            (or_fail-Ends phase (λ _. searching p.session) (searching p.session)
              (In phase (searching p.session)) (searching p.session) (as_is p) keep_world
              (first_object p) (p.ctx.find_objects p.session 1 v)
              (token.find_objects p.session 1 v h) (λ u k. k)
              (λ objects u d k. first_object-Ends objects u k)))

  read_full-Ends :
      (n : ℕ) (w : World D)
      → phase w.device ≡ logged_in p.session
      → Ends phase (In phase (logged_in p.session)) (logged_in p.session) (read_full n w)
  unfolding read_full
  read_full-Ends n w at = elim (Bool-cases (leb n (length w.entropy))) [
    | inl enough ↦ rw enough at
    | inr short ↦ rw short at
  ]

  encrypt_with_nonce-Ends :
      (plain nonce : Bytes) (handle : ℕ) (w : World D)
      → phase w.device ≡ logged_in p.session
      → Ends phase
          (In phase (logged_in p.session))
          (logged_in p.session)
          (encrypt_with_nonce p plain nonce handle w)
  unfolding encrypt_with_nonce
  encrypt_with_nonce-Ends plain nonce handle w at =
      or_fail-Ends phase (λ _. encrypting p.session) (logged_in p.session)
        (In phase (logged_in p.session)) (logged_in p.session) (wrapped "encrypt init failed: ")
        keep_world _ (p.ctx.encrypt_init p.session nonce handle w)
        (token.encrypt_init p.session nonce handle w at) (λ v h. h)
        (λ _ v e h.
          or_fail-Ends phase (λ _. logged_in p.session) (logged_in p.session)
            (In phase (logged_in p.session)) (logged_in p.session)
            (wrapped "encrypt execution failed: ") keep_world _ (p.ctx.encrypt p.session plain v)
            (token.encrypt p.session plain v h) (λ u k. k) (λ ciphertext u d k. k))

  decrypt_with_handle-Ends :
      (ciphertext nonce : Bytes) (handle : ℕ) (w : World D)
      → phase w.device ≡ logged_in p.session
      → Ends phase
          (In phase (logged_in p.session))
          (logged_in p.session)
          (decrypt_with_handle p ciphertext nonce handle w)
  unfolding decrypt_with_handle
  decrypt_with_handle-Ends ciphertext nonce handle w at =
      or_fail-Ends phase (λ _. decrypting p.session) (logged_in p.session)
        (In phase (logged_in p.session)) (logged_in p.session) (wrapped "decrypt init failed: ")
        keep_world _ (p.ctx.decrypt_init p.session nonce handle w)
        (token.decrypt_init p.session nonce handle w at) (λ v h. h)
        (λ _ v e h.
          or_fail-Ends phase (λ _. logged_in p.session) (logged_in p.session)
            (In phase (logged_in p.session)) (logged_in p.session)
            (wrapped "decrypt execution failed: ") keep_world _
            (p.ctx.decrypt p.session ciphertext v) (token.decrypt p.session ciphertext v h)
            (λ u k. k) (λ plain u d k. k))

  encrypt-Ends :
      (key_id plain : Bytes) (w : World D)
      → phase w.device ≡ logged_in p.session
      → Ends phase (In phase (logged_in p.session)) (logged_in p.session) (encrypt p key_id plain w)
  unfolding encrypt
  encrypt-Ends key_id plain w at =
      and_then-Ends (In phase (logged_in p.session)) (In phase (logged_in p.session))
        (logged_in p.session) (as_is p) _ (find_key_handle p w) (find_key_handle-Ends w at)
        (λ handle v h.
          and_then-Ends (In phase (logged_in p.session)) (In phase (logged_in p.session))
            (logged_in p.session) (wrapped "failed to generate nonce: ") _ (read_full 12 v)
            (read_full-Ends 12 v h) (λ nonce u k. encrypt_with_nonce-Ends plain nonce handle u k))

  decrypt-Ends :
      (key_id ciphertext nonce : Bytes) (w : World D)
      → phase w.device ≡ logged_in p.session
      → Ends phase
          (In phase (logged_in p.session))
          (logged_in p.session)
          (decrypt p key_id ciphertext nonce w)
  unfolding decrypt
  decrypt-Ends key_id ciphertext nonce w at =
      and_then-Ends (In phase (logged_in p.session)) (In phase (logged_in p.session))
        (logged_in p.session) (as_is p) _ (find_key_handle p w) (find_key_handle-Ends w at)
        (λ handle v h. decrypt_with_handle-Ends ciphertext nonce handle v h)

  close_finalizes :
      (w : World D)
      → p.session ≢ 0
      → phase w.device ≡ logged_in p.session
      → phase (close p w).1.device ≡ down
  unfolding close
  close_finalizes w valid at = elim (Bool-cases (p.session == 0)) [
    | inl zero ↦ absurd (ground (arith, zero))
    | inr some_session ↦ rw some_session (
        token.finalize (p.ctx.close_session p.session (p.ctx.logout p.session w))
          (token.close_session p.session (p.ctx.logout p.session w) (token.logout p.session w at)))
  ]

  -- With a library that keeps its contract and a session that is logged in, encryption and
  -- decryption leave it logged in and nothing under way, whether they succeed or fail, and
  -- closing leaves the token down.
  pub session_kept :
      (key_id plain ciphertext nonce : Bytes) (w : World D)
      → p.session ≢ 0
      → phase w.device ≡ logged_in p.session
      → Ends phase (In phase (logged_in p.session)) (logged_in p.session) (encrypt p key_id plain w)
        × Ends phase
            (In phase (logged_in p.session))
            (logged_in p.session)
            (decrypt p key_id ciphertext nonce w)
        × (phase (close p w).1.device ≡ down)
  session_kept key_id plain ciphertext nonce w valid at = (
    encrypt-Ends key_id plain w at,
    decrypt-Ends key_id ciphertext nonce w at,
    close_finalizes w valid at,
  )
