-- ===== src/Etl/Verify.antt =====
-- `verifyRecord`: a stored row is split, decrypted and compared with the card that it came from.
use kms_golang.Base.{
  Bytes, [], Bool, true, false, Option, none, some, Result, ok, err, panic, Error, new, wrapped,
  bytes_eq, bytes_eq→eq, eq→bytes_eq, ◌≡◌, ◌≢◌, ◌↔◌, refl, sym, ap, ◌∙◌, arith,
}
use mathlib.Core.Path.{subst}
use kms_golang.Go.World.{World}
use kms_golang.Kms.Format.{aes_gcm_nonce_size, split_nonce_and_ciphertext, split-combine}
use kms_golang.Proto.{EncryptResponse, DecryptResponse}
use kms_golang.Client.{KmsClient, IsClient}
use kms_golang.Etl.{CardRecord, EncryptedRecord, VerificationRecord, outgoing}
use kms_golang.Etl.Encrypt.{stored, IsMade}

-- The decrypted text, the comparison and the error of one field.
pub record Field : Type 0 where
  pub decrypted : Bytes
  pub same : Bool
  pub error : Option Error

abbrev failed_with : Error → Field
failed_with e = record { decrypted = []; same = false; error = some e }

compared : {D : Type 0} → Bytes → Result DecryptResponse × World D → Field × World D
compared original (ok r, w) =
    (record { decrypted = r.plaintext; same = bytes_eq r.plaintext original; error = none }, w)
compared original (err e, w) = (failed_with (wrapped "Decrypt error: " e), w)
compared original (panic p, w) = (failed_with (wrapped "Decrypt error: " (new p)), w)

-- The record of a card and its row, from what was found for the two fields.
abbrev pub verification_of : CardRecord → EncryptedRecord → Field → Field → VerificationRecord
verification_of original encrypted pan cvv = record {
  source_id = original.id;
  original_pan = original.card_no;
  original_cvv = original.cvv;
  encrypted_pan = encrypted.encrypted_pan;
  encrypted_cvv = encrypted.encrypted_cvv;
  decrypted_pan = pan.decrypted;
  decrypted_cvv = cvv.decrypted;
  pan_match = pan.same;
  cvv_match = cvv.same;
  pan_error = pan.error;
  cvv_error = cvv.error;
  other_data = original.other_data;
}

module _ {D : Type 0} (client : KmsClient D) (token : Bytes) where
  decrypt_split : Bytes → Result (Bytes × Bytes) → World D → Field × World D
  decrypt_split original (ok (nonce, ciphertext)) w = compared original (
      client.decrypt (outgoing token)
        (record { ciphertext = ciphertext; nonce = nonce; key_id = [] }) w)
  decrypt_split original (err e) w = (failed_with (wrapped "Split error: " e), w)
  decrypt_split original (panic p) w = (failed_with (wrapped "Split error: " (new p)), w)

  unfoldable pub verify_field : Bytes → Bytes → World D → Field × World D
  unfolding decrypt_split compared
  verify_field original encrypted =
      decrypt_split original (split_nonce_and_ciphertext encrypted aes_gcm_nonce_size)

  unfoldable pub verify_record :
      CardRecord → EncryptedRecord → World D → VerificationRecord × World D
  unfolding verify_field
  verify_record original encrypted w =
      let (pan, w1) = verify_field original.card_no encrypted.encrypted_pan w in
      let (cvv, w2) = verify_field original.cvv encrypted.encrypted_cvv w1 in
      (verification_of original encrypted pan cvv, w2)

  compared_same :
      (original : Bytes) (x : Result DecryptResponse × World D)
      → (compared original x).0.error ≡ none
      → ((compared original x).0.same ≡ true) ↔ ((compared original x).0.decrypted ≡ original)
  unfolding compared
  compared_same original (ok r, w) h =
      (bytes_eq→eq r.plaintext original, eq→bytes_eq r.plaintext original)
  compared_same original (err e, w) h = absurd (ground arith)
  compared_same original (panic p, w) h = absurd (ground arith)

  compared_error :
      (original : Bytes) (x : Result DecryptResponse × World D)
      → (compared original x).0.error ≢ none
      → (compared original x).0.same ≡ false
  unfolding compared
  compared_error original (ok r, w) h = absurd (h refl)
  compared_error original (err e, w) h = refl
  compared_error original (panic p, w) h = refl

  compared_honest :
      (original : Bytes) (x : Result DecryptResponse × World D)
      → ((r : DecryptResponse) (w : World D) → x ≡ (ok r, w) → r.plaintext ≡ original)
      → (compared original x).0.error ≡ none
      → (compared original x).0.same ≡ true
  unfolding compared
  compared_honest original (ok r, w) honest h = eq→bytes_eq r.plaintext original (honest r w refl)
  compared_honest original (err e, w) honest h = absurd (ground arith)
  compared_honest original (panic p, w) honest h = absurd (ground arith)

  decrypt_split_same :
      (original : Bytes) (parts : Result (Bytes × Bytes)) (w : World D)
      → (decrypt_split original parts w).0.error ≡ none
      → ((decrypt_split original parts w).0.same ≡ true)
        ↔ ((decrypt_split original parts w).0.decrypted ≡ original)
  unfolding decrypt_split
  decrypt_split_same original (ok (nonce, ciphertext)) w h =
      compared_same original
        (client.decrypt (outgoing token)
          (record { ciphertext = ciphertext; nonce = nonce; key_id = [] }) w)
        h
  decrypt_split_same original (err e) w h = absurd (ground arith)
  decrypt_split_same original (panic p) w h = absurd (ground arith)

  decrypt_split_error :
      (original : Bytes) (parts : Result (Bytes × Bytes)) (w : World D)
      → (decrypt_split original parts w).0.error ≢ none
      → (decrypt_split original parts w).0.same ≡ false
  unfolding decrypt_split
  decrypt_split_error original (ok (nonce, ciphertext)) w h =
      compared_error original
        (client.decrypt (outgoing token)
          (record { ciphertext = ciphertext; nonce = nonce; key_id = [] }) w)
        h
  decrypt_split_error original (err e) w h = refl
  decrypt_split_error original (panic p) w h = refl

  -- If the card number of a row was decrypted without an error, then the flag of the match says
  -- whether it is the card number that the row came from.
  pub verify_record_pan :
      (original : CardRecord) (encrypted : EncryptedRecord) (w : World D)
      → (verify_record original encrypted w).0.pan_error ≡ none
      → ((verify_record original encrypted w).0.pan_match ≡ true)
        ↔ ((verify_record original encrypted w).0.decrypted_pan ≡ original.card_no)
  unfolding verify_record verify_field
  verify_record_pan original encrypted w h =
      decrypt_split_same original.card_no
        (split_nonce_and_ciphertext encrypted.encrypted_pan aes_gcm_nonce_size) w h

  -- A security code that could not be split or decrypted is never reported as a match.
  pub verify_record_cvv_error :
      (original : CardRecord) (encrypted : EncryptedRecord) (w : World D)
      → (verify_record original encrypted w).0.cvv_error ≢ none
      → (verify_record original encrypted w).0.cvv_match ≡ false
  unfolding verify_record verify_field
  verify_record_cvv_error original encrypted w h =
      decrypt_split_error original.cvv
        (split_nonce_and_ciphertext encrypted.encrypted_cvv aes_gcm_nonce_size)
        (verify_field original.card_no encrypted.encrypted_pan w).1 h

  -- What a client stored as one field is found to match by any later decryption that succeeds.
  split_honest :
      IsClient client
      → (plaintext : Bytes) (r : EncryptResponse) (w w' later : World D)
      → client.encrypt (outgoing token) (record { plaintext = plaintext; key_id = [] }) w
        ≡ (ok r, w')
      → (decrypt_split plaintext (ok (r.nonce, r.ciphertext)) later).0.error ≡ none
      → (decrypt_split plaintext (ok (r.nonce, r.ciphertext)) later).0.same ≡ true
  unfolding decrypt_split
  split_honest service plaintext r w w' later sealed =
      compared_honest plaintext
        (client.decrypt (outgoing token)
          (record { ciphertext = r.ciphertext; nonce = r.nonce; key_id = [] }) later)
        (λ answer last.
          service.honest (outgoing token) (outgoing token)
            (record { plaintext = plaintext; key_id = [] }) r [] answer w w' later last sealed)

  pub split_stored :
      IsClient client
      → (plaintext : Bytes) (r : EncryptResponse) (w w' : World D)
      → client.encrypt (outgoing token) (record { plaintext = plaintext; key_id = [] }) w
        ≡ (ok r, w')
      → split_nonce_and_ciphertext (stored r) aes_gcm_nonce_size ≡ ok (r.nonce, r.ciphertext)
  split_stored service plaintext r w w' sealed =
      let (bytes, nonce, twelve) =
        service.bytes (outgoing token) (record { plaintext = plaintext; key_id = [] }) r w w'
          sealed in
      subst (λ n. split_nonce_and_ciphertext (stored r) n ≡ ok (r.nonce, r.ciphertext)) twelve
        (split-combine r.nonce r.ciphertext nonce bytes)

  field_honest :
      IsClient client
      → (plaintext : Bytes) (r : EncryptResponse) (w w' later : World D) (encrypted : Bytes)
      → client.encrypt (outgoing token) (record { plaintext = plaintext; key_id = [] }) w
        ≡ (ok r, w')
      → stored r ≡ encrypted
      → (verify_field plaintext encrypted later).0.error ≡ none
      → (verify_field plaintext encrypted later).0.same ≡ true
  unfolding verify_field
  field_honest service plaintext r w w' later encrypted sealed same =
      subst
        (λ parts.
          (decrypt_split plaintext parts later).0.error ≡ none
          → (decrypt_split plaintext parts later).0.same ≡ true)
        (sym (split_stored service plaintext r w w' sealed)
          ∙ ap (λ e. split_nonce_and_ciphertext e aes_gcm_nonce_size) same)
        (split_honest service plaintext r w w' later sealed)

  -- With a service that keeps its contract, a field of a row that was made of a card is found to match
  -- unless there is an error.
  pub verify_field-IsMade :
      IsClient client
      → (c : CardRecord) (sent : EncryptedRecord) (later : World D) → IsMade client token c sent
      → (verify_field c.card_no sent.encrypted_pan later).0.error ≡ none
      → (verify_field c.card_no sent.encrypted_pan later).0.same ≡ true
  verify_field-IsMade service c sent later (pan, cvv, (w, w', sealed), _, same) clean =
      field_honest service c.card_no pan w w' later sent.encrypted_pan sealed
        (ap (λ x. x.encrypted_pan) same) clean

  pub verify_field-IsMade_cvv :
      IsClient client
      → (c : CardRecord) (sent : EncryptedRecord) (later : World D) → IsMade client token c sent
      → (verify_field c.cvv sent.encrypted_cvv later).0.error ≡ none
      → (verify_field c.cvv sent.encrypted_cvv later).0.same ≡ true
  verify_field-IsMade_cvv service c sent later (pan, cvv, _, (w, w', sealed), same) clean =
      field_honest service c.cvv cvv w w' later sent.encrypted_cvv sealed
        (ap (λ x. x.encrypted_cvv) same) clean
