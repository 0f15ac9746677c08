-- ===== src/Etl/Encrypt.antt =====
-- `worker`: each job is encrypted by two calls of the service and becomes one row, or counts as one
-- error. A timeout shows as an error of the call.
use kms_golang.Base.{
  some_injective, ℕ, ◌+◌, ◌^◌, ◌<◌, ◌≤◌, Bytes, List, [], ◌∷◌, ◌++◌, Option, none, some, Result, ok,
  err, panic, length, length-append, ◌≡◌, ap, refl, arith,
}
use kms_golang.Go.World.{World}
use kms_golang.Kms.Format.{combine_nonce_and_ciphertext}
use kms_golang.Proto.{EncryptResponse}
use kms_golang.Client.{KmsClient}
use kms_golang.Etl.{CardRecord, EncryptedRecord, outgoing, add_u64}

-- `CombineNonceAndCiphertext(resp.Nonce, resp.Ciphertext)`
abbrev pub stored : EncryptResponse → Bytes
stored r = combine_nonce_and_ciphertext r.nonce r.ciphertext

abbrev pub row : CardRecord → EncryptResponse → EncryptResponse → EncryptedRecord
row r pan cvv = record {
  source_id = r.id;
  encrypted_pan = stored pan;
  encrypted_cvv = stored cvv;
  other_data = r.other_data;
}

module _ {D : Type 0} (client : KmsClient D) (token : Bytes) where
  after_cvv :
      CardRecord
      → EncryptResponse
      → Result EncryptResponse × World D
      → Option EncryptedRecord × World D
  after_cvv r pan (ok cvv, w) = (some (row r pan cvv), w)
  after_cvv r pan (err e, w) = (none, w)
  after_cvv r pan (panic p, w) = (none, w)

  after_pan : CardRecord → Result EncryptResponse × World D → Option EncryptedRecord × World D
  after_pan r (ok pan, w) =
      after_cvv r pan
        (client.encrypt (outgoing token) (record { plaintext = r.cvv; key_id = [] }) w)
  after_pan r (err e, w) = (none, w)
  after_pan r (panic p, w) = (none, w)

  -- One round of the loop: the row that is sent on, or none.
  unfoldable pub encrypt_record : CardRecord → World D → Option EncryptedRecord × World D
  unfolding after_pan after_cvv
  encrypt_record r w =
      after_pan r
        (client.encrypt (outgoing token) (record { plaintext = r.card_no; key_id = [] }) w)

-- What a worker leaves behind: the rows that it has sent, and the shared count of errors.
pub record Sent (D : Type 0) : Type 0 where
  pub rows : List EncryptedRecord
  pub errors : ℕ
  pub world : World D

abbrev pub count_row : {D : Type 0} → Sent D → Option EncryptedRecord × World D → Sent D
count_row s (some row, w) = record { rows = s.rows ++ row ∷ []; errors = s.errors; world = w }
count_row s (none, w) = record { rows = s.rows; errors = add_u64 s.errors 1; world = w }

count_row_one :
    {D : Type 0} (s : Sent D) (x : Option EncryptedRecord × World D)
    → s.errors + 1 < 2 ^ 64
    → let t = count_row s x in
      (length t.rows + t.errors ≡ length s.rows + s.errors + 1) × (t.errors ≤ s.errors + 1)
count_row_one s (some r, w) fits = omega (arith, length-append s.rows (r ∷ []))
count_row_one s (none, w) fits = omega arith

module _ {D : Type 0} (client : KmsClient D) (token : Bytes) where
  -- A response of the service to a call with a text.
  abbrev pub IsEncryption : Bytes → EncryptResponse → Type 0
  IsEncryption text r =
      (w w' : World D) × (client.encrypt (outgoing token) (record { plaintext = text; key_id = [] })
          w
        ≡ (ok r, w'))

  -- A row that holds the responses to the two fields of a card, and its other fields.
  abbrev pub IsMade : CardRecord → EncryptedRecord → Type 0
  IsMade c sent =
      (pan cvv : EncryptResponse) × IsEncryption c.card_no pan
      × IsEncryption c.cvv cvv
      × (row c pan cvv ≡ sent)

  -- The two responses behind a row, where `x` is the result of the first call.
  abbrev pub IsRow :
      CardRecord → Result EncryptResponse × World D → EncryptedRecord → World D → Type 0
  IsRow r x sent w' =
      (pan cvv : EncryptResponse) × (w1 : World D) × (x ≡ (ok pan, w1))
      × (client.encrypt (outgoing token) (record { plaintext = r.cvv; key_id = [] }) w1
          ≡ (ok cvv, w'))
      × (row r pan cvv ≡ sent)

  unfoldable pub worker : List CardRecord → Sent D → Sent D
  unfolding encrypt_record
  worker [] s = s
  worker (r ∷ jobs) s = worker jobs (count_row s (encrypt_record client token r s.world))

  -- Every job ends as one row or as one error: the two counts grow by the number of jobs, as long as
  -- the counter of errors does not reach 2 ^ 64.
  pub worker_accounts :
      (jobs : List CardRecord) (s : Sent D)
      → s.errors + length jobs < 2 ^ 64
      → let t = worker jobs s in length t.rows + t.errors ≡ length s.rows + s.errors + length jobs
  unfolding worker
  worker_accounts [] s fits = omega arith
  worker_accounts (r ∷ jobs) s fits =
      let x = encrypt_record client token r s.world in
      let (grown, few) = count_row_one s x (omega arith) in
      omega (arith, worker_accounts jobs (count_row s x) (omega (arith, few)), grown)

  after_cvv-IsRow :
      (r : CardRecord) (pan : EncryptResponse) (x : Result EncryptResponse × World D)
      {sent : EncryptedRecord} {w' : World D}
      → after_cvv client token r pan x ≡ (some sent, w')
      → (cvv : EncryptResponse) × (x ≡ (ok cvv, w')) × (row r pan cvv ≡ sent)
  unfolding after_cvv
  after_cvv-IsRow r pan (ok cvv, w) h =
      (cvv, ap (λ v. (ok cvv, v)) (ap (λ y. y.1) h), some_injective (ap (λ y. y.0) h))
  after_cvv-IsRow r pan (err e, w) h = absurd (ground arith)
  after_cvv-IsRow r pan (panic p, w) h = absurd (ground arith)

  after_pan-IsRow :
      (r : CardRecord) (x : Result EncryptResponse × World D) {sent : EncryptedRecord}
      {w' : World D}
      → after_pan client token r x ≡ (some sent, w')
      → IsRow r x sent w'
  unfolding after_pan
  after_pan-IsRow r (ok pan, w) h =
      let (cvv, called, same) =
        after_cvv-IsRow r pan
          (client.encrypt (outgoing token) (record { plaintext = r.cvv; key_id = [] }) w) h in
      (pan, cvv, w, refl, called, same)
  after_pan-IsRow r (err e, w) h = absurd (ground arith)
  after_pan-IsRow r (panic p, w) h = absurd (ground arith)

  -- A row comes from two calls that succeeded, the first with the card number and the second with the
  -- security code, and holds what they returned and the identifier and other data of the card.
  pub encrypt_record_sound :
      (r : CardRecord) (w w' : World D) {sent : EncryptedRecord}
      → encrypt_record client token r w ≡ (some sent, w')
      → IsRow r
          (client.encrypt (outgoing token) (record { plaintext = r.card_no; key_id = [] }) w)
          sent
          w'
  unfolding encrypt_record
  encrypt_record_sound r w w' h =
      after_pan-IsRow r
        (client.encrypt (outgoing token) (record { plaintext = r.card_no; key_id = [] }) w) h

  pub encrypt_record-IsMade :
      (r : CardRecord) (w w' : World D) {sent : EncryptedRecord}
      → encrypt_record client token r w ≡ (some sent, w')
      → IsMade r sent
  encrypt_record-IsMade r w w' h =
      let (pan, cvv, w1, first, second, same) = encrypt_record_sound r w w' h in
      (pan, cvv, (w, w1, first), (w1, w', second), same)
