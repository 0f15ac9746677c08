-- ===== src/Http/Refusal.antt =====
-- Requests that the single-item handlers refuse, and calls of the service that fail.
use kms_golang.Base.{
  Bytes, [], none, some, Option, Result, panic, Bool-cases, bytes_eq, inl, inr, ◌⊎◌, refl, ok, err,
  Error, new, wrapped, bytes_eq→eq, eq→bytes_eq, ◌≡◌, ◌≢◌, arith,
}
use kms_golang.Go.Base64
use kms_golang.Go.World.{World, M}
use kms_golang.Kms.Format.{split_nonce_and_ciphertext, aes_gcm_nonce_size}
use kms_golang.Http.{
  EncryptRequest, DecryptRequest, HttpServer, respond_error, create_context, encrypt_handler,
  decrypt_handler, Response, call_decrypt, or_bad_request,
}

module _ {D : Type 0} (s : HttpServer D) (auth : Bytes) (w : World D) where
  -- In the combined format a text that does not split is answered with status 400 and the reason,
  -- and the service is not called.
  pub decrypt_handler_split :
      (req : DecryptRequest) (e : Error)
      → req.encrypted ≢ []
      → split_nonce_and_ciphertext req.encrypted aes_gcm_nonce_size ≡ err e
      → decrypt_handler s auth (some req) w
        ≡ (respond_error 400 (wrapped "invalid encrypted format: " e), w)
  unfolding decrypt_handler
  decrypt_handler_split req e full bad = ground (arith, bad, bytes_eq→eq req.encrypted [])

  -- In the legacy format a ciphertext that is not base64 is answered with status 400, whatever the
  -- nonce, and the service is not called.
  pub decrypt_handler_ciphertext :
      (req : DecryptRequest) (e : Error)
      → req.encrypted ≡ []
      → Base64.decode req.ciphertext ≡ err e
      → decrypt_handler s auth (some req) w
        ≡ (respond_error 400 (new "invalid ciphertext encoding"), w)
  unfolding decrypt_handler
  decrypt_handler_ciphertext req e empty bad =
      ground (arith, bad, eq→bytes_eq req.encrypted [] empty)

  -- In the legacy format a nonce that is not base64 is answered with status 400 if the ciphertext is,
  -- and the service is not called.
  pub decrypt_handler_nonce :
      (req : DecryptRequest) (c : Bytes) (e : Error)
      → req.encrypted ≡ []
      → Base64.decode req.ciphertext ≡ ok c
      → Base64.decode req.nonce ≡ err e
      → decrypt_handler s auth (some req) w ≡ (respond_error 400 (new "invalid nonce encoding"), w)
  unfolding decrypt_handler
  decrypt_handler_nonce req c e empty good bad =
      ground (arith, good, bad, eq→bytes_eq req.encrypted [] empty)

  -- A text that is not empty is sent to the service, and a call that fails is answered with status
  -- 500 and the error of the call.
  pub encrypt_handler_fails :
      (req : EncryptRequest) (e : Error) (w' : World D)
      → req.plaintext ≢ []
      → s.grpc_client.encrypt
          (create_context s.token auth)
          (record { plaintext = req.plaintext; key_id = req.key_id })
          w
        ≡ (err e, w')
      → encrypt_handler s auth (some req) w ≡ (respond_error 500 e, w')
  unfolding encrypt_handler
  encrypt_handler_fails req e w' full failed = ground (arith, failed, bytes_eq→eq req.plaintext [])

-- A request that is answered with an error, of status 400 or 500, in the world as it was.
abbrev pub IsTurnedAway : {D : Type 0} → World D → Response × World D → Type 0
IsTurnedAway w x = (e : Error) × ((x ≡ (respond_error 400 e, w)) ⊎ (x ≡ (respond_error 500 e, w)))

module _ {D : Type 0} (s : HttpServer D) (auth : Bytes) (w : World D) where
  -- Every call of the service fails without an effect.
  abbrev pub Refuses : {A B : Type 0} → (Option Bytes → A → M D B) → Type 0
  Refuses {A} call =
      (req : A) → (e : Error) × (call (create_context s.token auth) req w ≡ (err e, w))

  pub encrypt_handler-turned :
      (body : Option EncryptRequest)
      → Refuses s.grpc_client.encrypt
      → IsTurnedAway w (encrypt_handler s auth body w)
  unfolding encrypt_handler
  encrypt_handler-turned none refuses = (_, inl refl)
  encrypt_handler-turned (some req) refuses =
      let (e, refused) = refuses (record { plaintext = req.plaintext; key_id = req.key_id }) in
      elim (Bool-cases (bytes_eq req.plaintext [])) [
        | inl empty ↦ (new "plaintext is required", inl (rw empty refl))
        | inr full ↦ (e, inr (rw (full, refused) refl))
      ]

  call_decrypt-turned :
      (key_id : Bytes) (parts : Bytes × Bytes)
      → Refuses s.grpc_client.decrypt
      → IsTurnedAway w (call_decrypt s auth key_id parts w)
  unfolding call_decrypt respond_error
  call_decrypt-turned key_id (nonce, ciphertext) refuses =
      let (e, refused) =
        refuses (record { ciphertext = ciphertext; nonce = nonce; key_id = key_id }) in
      (e, inr (rw refused refl))

  or_bad_request-turned :
      {A : Type 0} (message : Error → Error) (x : Result A)
      (then_do : A → World D → Response × World D)
      → ((a : A) → IsTurnedAway w (then_do a w))
      → IsTurnedAway w (or_bad_request s auth message x then_do w)
  unfolding or_bad_request
  or_bad_request-turned message (ok a) then_do turned = turned a
  or_bad_request-turned message (err e) then_do turned = (message e, inl refl)
  or_bad_request-turned message (panic p) then_do turned = (new p, inr refl)

  pub decrypt_handler-turned :
      (body : Option DecryptRequest)
      → Refuses s.grpc_client.decrypt
      → IsTurnedAway w (decrypt_handler s auth body w)
  unfolding decrypt_handler
  decrypt_handler-turned none refuses = (_, inl refl)
  decrypt_handler-turned (some req) refuses = elim (Bool-cases (bytes_eq req.encrypted [])) [
    | inr combined ↦ rw combined (
        or_bad_request-turned (wrapped "invalid encrypted format: ")
          (split_nonce_and_ciphertext req.encrypted aes_gcm_nonce_size)
          (call_decrypt s auth req.key_id) (λ parts. call_decrypt-turned req.key_id parts refuses))
    | inl parts ↦ rw parts (
        or_bad_request-turned (λ _. new "invalid ciphertext encoding")
          (Base64.decode req.ciphertext)
          (λ ciphertext.
            or_bad_request s auth (λ _. new "invalid nonce encoding") (Base64.decode req.nonce)
              (λ nonce. call_decrypt s auth req.key_id (nonce, ciphertext)))
          (λ ciphertext.
            or_bad_request-turned (λ _. new "invalid nonce encoding") (Base64.decode req.nonce)
              (λ nonce. call_decrypt s auth req.key_id (nonce, ciphertext))
              (λ nonce. call_decrypt-turned req.key_id (nonce, ciphertext) refuses)))
  ]
