-- ===== src/Http/Single.antt =====
-- The handlers of a single item.
use kms_golang.Base.{
  Bytes, [], ◌∷◌, ◌++◌, false, Option, some, Result, ok, err, panic, bytes_eq, bytes_eq→eq, ◌≡◌,
  ◌≢◌, refl, sym, ap, ◌∙◌, arith, length, IsBytes, Bool-cases, inl, inr,
}
use mathlib.Core.Path.{subst}
use kms_golang.Go.Base64.RoundTrip.{decode-encode, encode-cons}
use kms_golang.Go.World.{World}
use kms_golang.Kms.Format.{combine_nonce_and_ciphertext, split-combine, split_nonce_and_ciphertext}
use kms_golang.Proto
use kms_golang.Client.{IsClient, IsByteClient}
use kms_golang.Http.{
  EncryptRequest, EncryptResponse, DecryptRequest, encrypted, decrypted, Response, HttpServer,
  respond_ok, respond_error, create_context, encoded, encrypt_handler, decrypt_handler, answered,
}

module _ {D : Type 0} (s : HttpServer D) where
  -- The two ways to ask for the decryption of what the service returned: both parts in base64, or
  -- one text as the ETL worker stores it.
  abbrev pub legacy : Proto.EncryptResponse → DecryptRequest
  legacy r = record {
    ciphertext = (encoded r).ciphertext;
    nonce = (encoded r).nonce;
    encrypted = [];
    key_id = [];
  }

  abbrev pub combined : Proto.EncryptResponse → DecryptRequest
  combined r = record {
    ciphertext = [];
    nonce = [];
    encrypted = combine_nonce_and_ciphertext r.nonce r.ciphertext;
    key_id = [];
  }

  abbrev pub asked : Proto.EncryptResponse → Proto.DecryptRequest
  asked r = record { ciphertext = r.ciphertext; nonce = r.nonce; key_id = [] }

  -- The answer of the service to a decryption, as a response.
  abbrev pub service_answer : Bytes → Proto.DecryptRequest → World D → Response × World D
  service_answer auth req w =
      answered (λ r. decrypted r.plaintext)
        (s.grpc_client.decrypt (create_context s.token auth) req w)

  legacy_forwarded :
      (auth : Bytes) (r : Proto.EncryptResponse) (w : World D)
      → IsBytes r.ciphertext
      → IsBytes r.nonce
      → decrypt_handler s auth (some (legacy r)) w ≡ service_answer auth (asked r) w
  unfolding decrypt_handler
  legacy_forwarded auth r w hc hn =
      rw (decode-encode r.ciphertext hc, decode-encode r.nonce hn) refl

  combined-ne-nil :
      (nonce ciphertext : Bytes)
      → length nonce ≡ 12
      → combine_nonce_and_ciphertext nonce ciphertext ≢ []
  unfolding combine_nonce_and_ciphertext
  combined-ne-nil [] ciphertext size = absurd (omega arith)
  combined-ne-nil (a ∷ nonce) ciphertext size = encode-cons a (nonce ++ ciphertext)

  combined_forwarded :
      (auth : Bytes) (r : Proto.EncryptResponse) (w : World D)
      → IsBytes r.ciphertext
      → IsBytes r.nonce
      → length r.nonce ≡ 12
      → decrypt_handler s auth (some (combined r)) w ≡ service_answer auth (asked r) w
  unfolding decrypt_handler
  combined_forwarded auth r w hc hn size =
      let text = combine_nonce_and_ciphertext r.nonce r.ciphertext in
      let split : split_nonce_and_ciphertext text 12 ≡ ok (r.nonce, r.ciphertext) =
        subst (λ n. split_nonce_and_ciphertext text n ≡ ok (r.nonce, r.ciphertext)) size
          (split-combine r.nonce r.ciphertext hn hc) in
      elim (Bool-cases (bytes_eq text [])) [
        | inl empty ↦ absurd (combined-ne-nil r.nonce r.ciphertext size (bytes_eq→eq text [] empty))
        | inr full ↦ rw (full, split) refl
      ]

decrypted_injective : {p q : Bytes} → decrypted p ≡ decrypted q → p ≡ q
decrypted_injective h = cc

encrypted_injective : {p q : EncryptResponse} → encrypted p ≡ encrypted q → p ≡ q
encrypted_injective h = cc

answered-decrypted :
    {D : Type 0} (x : Result Proto.DecryptResponse × World D) (plain : Bytes) (last : World D)
    → answered (λ r. decrypted r.plaintext) x ≡ (respond_ok (decrypted plain), last)
    → (a : Proto.DecryptResponse) × (x ≡ (ok a, last)) × (a.plaintext ≡ plain)
unfolding respond_error
answered-decrypted (ok a, w) plain last h =
    (a, ap (λ v. (ok a, v)) (ap (λ x. x.1) h), decrypted_injective (ap (λ x. x.0.body) h))
answered-decrypted (err e, w) plain last h = absurd (ground arith)
answered-decrypted (panic p, w) plain last h = absurd (ground arith)

answered-encrypted :
    {D : Type 0} (x : Result Proto.EncryptResponse × World D) (e : EncryptResponse) (last : World D)
    → answered (λ r. encrypted (encoded r)) x ≡ (respond_ok (encrypted e), last)
    → (r : Proto.EncryptResponse) × (x ≡ (ok r, last)) × (encoded r ≡ e)
unfolding respond_error
answered-encrypted (ok r, w) e last h =
    (r, ap (λ v. (ok r, v)) (ap (λ x. x.1) h), encrypted_injective (ap (λ x. x.0.body) h))
answered-encrypted (err x, w) e last h = absurd (ground arith)
answered-encrypted (panic p, w) e last h = absurd (ground arith)

module _ {D : Type 0} (s : HttpServer D) where
  -- Through the gateway, with a service that keeps its contract: if a text of bytes was encrypted with
  -- status 200 and what the response holds is decrypted with status 200, at any later time and
  -- with any token, the answer is that text.
  pub decrypt_handler-encrypt_handler :
      (auth auth' : Bytes) (req : EncryptRequest) (e : EncryptResponse) (answer : Bytes)
      (w w' later last : World D)
      → IsByteClient s.grpc_client
      → IsBytes req.plaintext
      → IsBytes w.entropy
      → encrypt_handler s auth (some req) w ≡ (respond_ok (encrypted e), w')
      → decrypt_handler s auth'
          (some
            (record { ciphertext = e.ciphertext; nonce = e.nonce; encrypted = []; key_id = [] }))
          later
        ≡ (respond_ok (decrypted answer), last)
      → answer ≡ req.plaintext
  unfolding encrypt_handler
  decrypt_handler-encrypt_handler auth auth' req e answer w w' later last service text random sealed
        opened =
      elim (Bool-cases (bytes_eq req.plaintext [])) [
        | inl empty ↦ ground (arith, empty)
        | inr full ↦
            let sent : Proto.EncryptRequest = record {
              plaintext = req.plaintext;
              key_id = req.key_id;
            } in
            let (r, called, same) =
              answered-encrypted (s.grpc_client.encrypt (create_context s.token auth) sent w) e w'
                (encrypt_answered full sealed) in
            let (hc, hn, _) =
              service.bytes (create_context s.token auth) sent r w w' text random called in
            let (a, answered_ok, plain) =
              answered-decrypted
                (s.grpc_client.decrypt (create_context s.token auth') (asked s r) later) answer last
                (sym (legacy_forwarded s auth' r later hc hn) ∙ legacy_opened r same opened) in
            sym plain
            ∙ service.honest (create_context s.token auth) (create_context s.token auth') sent r []
                a w w' later last called answered_ok
      ]
    where
      encrypt_answered :
          bytes_eq req.plaintext [] ≡ false
          → encrypt_handler s auth (some req) w ≡ (respond_ok (encrypted e), w')
          → answered
              (λ r. encrypted (encoded r))
              (s.grpc_client.encrypt
                (create_context s.token auth)
                (record { plaintext = req.plaintext; key_id = req.key_id })
                w)
            ≡ (respond_ok (encrypted e), w')
      encrypt_answered full h = ground arith

      legacy_opened :
          (r : Proto.EncryptResponse)
          → encoded r ≡ e
          → decrypt_handler s auth'
              (some (record {
                ciphertext = e.ciphertext;
                nonce = e.nonce;
                encrypted = [];
                key_id = [];
              }))
              later
            ≡ (respond_ok (decrypted answer), last)
          → decrypt_handler s auth' (some (legacy s r)) later
            ≡ (respond_ok (decrypted answer), last)
      legacy_opened r same h =
          subst
            (λ (x : EncryptResponse).
              decrypt_handler s auth'
                (some (record {
                  ciphertext = x.ciphertext;
                  nonce = x.nonce;
                  encrypted = [];
                  key_id = [];
                }))
                later
              ≡ (respond_ok (decrypted answer), last))
            (sym same) h

module _ {D : Type 0} (s : HttpServer D) (service : IsClient s.grpc_client) where
  -- With a service that keeps its contract, what the ETL worker stores is decrypted by the
  -- gateway to the text that the service encrypted, whenever the answer has status 200.
  pub decrypt_handler-combine :
      (ctx : Option Bytes) (auth : Bytes) (req : Proto.EncryptRequest) (r : Proto.EncryptResponse)
      (answer : Bytes) (w w' later last : World D)
      → s.grpc_client.encrypt ctx req w ≡ (ok r, w')
      → decrypt_handler s auth (some (combined s r)) later ≡ (respond_ok (decrypted answer), last)
      → answer ≡ req.plaintext
  decrypt_handler-combine ctx auth req r answer w w' later last called opened =
      let (hc, hn, size) = service.bytes ctx req r w w' called in
      let (a, answered_ok, plain) =
        answered-decrypted (s.grpc_client.decrypt (create_context s.token auth) (asked s r) later)
          answer last (sym (combined_forwarded s auth r later hc hn size) ∙ opened) in
      sym plain
      ∙ service.honest ctx (create_context s.token auth) req r [] a w w' later last called
          answered_ok
