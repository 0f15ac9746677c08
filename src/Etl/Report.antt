-- ===== src/Etl/Report.antt =====
-- The rows of `exportToExcel`, and the lines of `runSafeVerification`. The headers and the
-- summary are in the module Workbook; the spreadsheet library is left out.
pub mod Filled
pub mod Masked
pub mod Workbook
use kms_golang.Base.{
  ℕ, ◌-◌, Bytes, List, [], ◌∷◌, ◌++◌, Bool, true, false, not, ◌&&◌, ◌||◌, ltb, if◌then◌else◌,
  Option, none, some, Result, ok, err, panic, Error, new, codes, length, drop, replicate,
}
use kms_golang.Go.World.{World}
use kms_golang.Kms.Format.{aes_gcm_nonce_size, split_nonce_and_ciphertext}
use kms_golang.Proto.{DecryptResponse}
use kms_golang.Client.{KmsClient}
use kms_golang.Etl.{VerificationRecord}
use kms_golang.Etl.Matches.{is_clean}
use kms_golang.Etl.Mask.{mask_pan, mask_cvv, bool_to_yes_no, shortened}

pub data Cell : Type 0 where
  number : ℕ → Cell
  text : Bytes → Cell
  message : Option Error → Cell
  rate : (part whole : ℕ) → Cell  -- the text of `%.2f%%`

-- The fill of a row: #C6EFCE, #FFC7CE, #FFEB9C, or none.
pub data Colour : Type 0 where
  green red yellow unfilled : Colour

unfoldable pub row_colour : VerificationRecord → Colour
row_colour v =
    if v.pan_match && (v.cvv_match && (is_clean v.pan_error && is_clean v.cvv_error))
    then green
    else if not (is_clean v.pan_error) || not (is_clean v.cvv_error)
    then red
    else if not v.pan_match || not v.cvv_match
    then yellow
    else unfilled

-- The cells A to L of the row of a record.
unfoldable pub row_cells : Bool → VerificationRecord → List Cell
unfolding mask_pan mask_cvv shortened bool_to_yes_no
row_cells mask_data v =
    number v.source_id
    ∷ text (mask_pan v.original_pan)
    ∷ text (shortened v.encrypted_pan)
    ∷ text (if mask_data then mask_pan v.decrypted_pan else v.decrypted_pan)
    ∷ text (bool_to_yes_no v.pan_match)
    ∷ message v.pan_error
    ∷ text (mask_cvv v.original_cvv)
    ∷ text (shortened v.encrypted_cvv)
    ∷ text (if mask_data then mask_cvv v.decrypted_cvv else v.decrypted_cvv)
    ∷ text (bool_to_yes_no v.cvv_match)
    ∷ message v.cvv_error
    ∷ text v.other_data
    ∷ []

-- A line of the safe verification: the identifier, the failure if there is one, and the last column.
pub record Line : Type 0 where
  pub source_id : ℕ
  pub failure : Option Error
  pub masked : Bytes

unfoldable pub masked_inline : Bytes → Bytes
masked_inline plain =
    if ltb 4 (length plain)
    then replicate (length plain - 4) b'*' ++ drop (length plain - 4) plain
    else codes "****"

module _ {D : Type 0} (client : KmsClient D) (token : Bytes) where
  unfoldable pub line_of : ℕ → Result DecryptResponse × World D → Line × World D
  line_of id (ok r, w) =
      (record { source_id = id; failure = none; masked = masked_inline r.plaintext }, w)
  line_of id (err e, w) = (record { source_id = id; failure = some e; masked = codes "ERROR" }, w)
  line_of id (panic p, w) =
      (record { source_id = id; failure = some (new p); masked = codes "ERROR" }, w)

  unfoldable pub line_split : ℕ → Result (Bytes × Bytes) → World D → Line × World D
  line_split id (ok (nonce, ciphertext)) w = line_of id (
      client.decrypt (some (codes "Bearer " ++ token))
        (record { ciphertext = ciphertext; nonce = nonce; key_id = [] }) w)
  line_split id (err e) w = (record { source_id = id; failure = some e; masked = codes "ERROR" }, w)
  line_split id (panic p) w =
      (record { source_id = id; failure = some (new p); masked = codes "ERROR" }, w)

  -- The token is sent even where it is empty.
  unfoldable pub safe_line : ℕ → Bytes → World D → Line × World D
  unfolding line_split line_of masked_inline
  safe_line id encrypted_pan =
      line_split id (split_nonce_and_ciphertext encrypted_pan aes_gcm_nonce_size)
