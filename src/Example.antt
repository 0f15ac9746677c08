-- ===== src/Example.antt =====
-- examples/decrypt-single-field.go: stored rows are decrypted and shown with their numbers masked. The
-- database and the connection are arguments; `manualDecodeExample`, which nothing calls, is left out.
pub mod Shown
pub mod Tests
use kms_golang.Base.{
  ℕ, ◌-◌, Bytes, String, List, [], ◌∷◌, ◌++◌, Bool, true, false, ltb, if◌then◌else◌, Option, none,
  some, Result, ok, err, panic, Error, new, wrapped, codes, bytes_eq, length, drop, map,
}
use kms_golang.Go.World.{World, M}
use kms_golang.Kms.Format.{aes_gcm_nonce_size, split_nonce_and_ciphertext}
use kms_golang.Proto.{DecryptResponse}
use kms_golang.Client.{KmsClient}
use kms_golang.Etl.{Query, outgoing}

-- The three columns of a row; `id` is an int by its bit pattern.
pub record Row : Type 0 where
  pub id : ℕ
  pub encrypted_pan : Bytes
  pub encrypted_cvv : Bytes

pub record Line : Type 0 where
  pub id : ℕ
  pub masked_pan : Bytes
  pub cvv_status : Bytes

abbrev pub mask : Bytes → Bytes
mask plain =
    if ltb 4 (length plain) then codes "****" ++ drop (length plain - 4) plain else codes "****"

abbrev pub shown_pan : Result DecryptResponse → Bytes
shown_pan (ok r) = mask r.plaintext
shown_pan _ = codes "ERROR"

abbrev pub shown_cvv : Result DecryptResponse → Bytes
shown_cvv (ok r) = codes "OK"
shown_cvv _ = codes "ERROR"

unfoldable pub row_query : Bytes → Bytes
unfolding bytes_eq
row_query driver =
    if bytes_eq driver (codes "mysql")
    then codes "SELECT id, encrypted_pan, encrypted_cvv FROM encrypted_cards LIMIT 5"
    else codes "SELECT TOP 5 id, encrypted_pan, encrypted_cvv FROM encrypted_cards"

module _ {D : Type 0} (client : KmsClient D) (token : Bytes) where
  -- Both calls are made, also where the first fails.
  unfoldable show_parts : Row → Bytes × Bytes → Bytes × Bytes → World D → Line × World D
  show_parts r (pan_nonce, pan) (cvv_nonce, cvv) w =
      let (pan_resp, w1) =
        client.decrypt (outgoing token)
          (record { ciphertext = pan; nonce = pan_nonce; key_id = [] }) w in
      let (cvv_resp, w2) =
        client.decrypt (outgoing token)
          (record { ciphertext = cvv; nonce = cvv_nonce; key_id = [] }) w1 in
      (record { id = r.id; masked_pan = shown_pan pan_resp; cvv_status = shown_cvv cvv_resp }, w2)

  -- A row with a field that cannot be split is passed over.
  unfoldable show_split :
      Row → Result (Bytes × Bytes) → Result (Bytes × Bytes) → World D → Option Line × World D
  unfolding show_parts
  show_split r (ok pan) (ok cvv) w = let (l, w1) = show_parts r pan cvv w in (some l, w1)
  show_split r _ _ w = (none, w)

  unfoldable pub show_row : Row → World D → Option Line × World D
  unfolding show_split
  show_row r =
      show_split r (split_nonce_and_ciphertext r.encrypted_pan aes_gcm_nonce_size)
        (split_nonce_and_ciphertext r.encrypted_cvv aes_gcm_nonce_size)

  abbrev push : Option Line → List Line → List Line
  push none lines = lines
  push (some l) lines = l ∷ lines

  -- The loop over the rows.
  unfoldable pub show_rows : List (Option Row) → World D → List Line × World D
  unfolding show_row
  show_rows [] w = ([], w)
  show_rows (none ∷ rows) w = show_rows rows w
  show_rows (some r ∷ rows) w =
      let (l, w1) = show_row r w in let (ls, w2) = show_rows rows w1 in (push l ls, w2)

-- How the process ends.
pub data Exit : Type 0 where
  usage : Exit  -- with status 1
  fatal : Error → Exit
  shown : List Line → Exit

-- `sql.Open`, `db.Ping` and `grpc.Dial`.
pub record Outside (D : Type 0) : Type 0 where
  pub open_db : Bytes → Bytes → Result (Bytes → Query D Row)
  pub ping : M D (Unit {0})
  pub dial : Bytes → Result (KmsClient D)

module _ {D : Type 0} (token : Bytes) (outside : Outside D) where
  queried : KmsClient D → Result (List (Option Row)) × World D → Exit × World D
  unfolding show_rows
  queried client (ok rows, w) = let (ls, w1) = show_rows client token rows w in (shown ls, w1)
  queried client (err e, w) = (fatal (wrapped "Failed to query: " e), w)
  queried client (panic p, w) = (fatal (new p), w)

  dialled : Bytes → (Bytes → Query D Row) → Result (KmsClient D) → World D → Exit × World D
  dialled driver db (ok client) w = queried client (db (row_query driver) w)
  dialled driver db (err e) w = (fatal (wrapped "Failed to dial KMS: " e), w)
  dialled driver db (panic p) w = (fatal (new p), w)

  pinged : Bytes → Bytes → (Bytes → Query D Row) → Result (Unit {0}) × World D → Exit × World D
  pinged driver addr db (ok tt, w) = dialled driver db (outside.dial addr) w
  pinged driver addr db (err e, w) = (fatal (wrapped "Failed to ping DB: " e), w)
  pinged driver addr db (panic p, w) = (fatal (new p), w)

  opened : Bytes → Bytes → Result (Bytes → Query D Row) → World D → Exit × World D
  opened driver addr (ok db) w = pinged driver addr db (outside.ping w)
  opened driver addr (err e) w = (fatal (wrapped "Failed to open DB: " e), w)
  opened driver addr (panic p) w = (fatal (new p), w)

  -- `main`, with the arguments after the program's name.
  unfoldable pub main : List Bytes → World D → Exit × World D
  unfolding opened pinged dialled queried row_query
  main (driver ∷ dsn ∷ addr ∷ rest) w = opened driver addr (outside.open_db driver dsn) w
  main _ w = (usage, w)
