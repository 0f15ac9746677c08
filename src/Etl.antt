-- ===== src/Etl.antt =====
-- cmd/etl-worker/main.go: the job that encrypts the cards of one database into another, verifies
-- them, and reports. An identifier is an int64 by its bit pattern. The logs and the flags are
-- left out.
pub mod Mask
pub mod Matches
pub mod Encrypt
pub mod Verify
pub mod Insert
pub mod Writer
pub mod Pairing
pub mod Pipeline
pub mod Job
pub mod Report
pub mod Tests
use kms_golang.Go.World.{M}
use kms_golang.Base.{
  ℕ, ◌+◌, ◌%◌, ◌^◌, Bytes, List, [], ◌∷◌, ◌++◌, Bool, Option, none, some, Error, bytes_eq,
  if◌then◌else◌, codes, count, map,
}

pub record CardRecord : Type 0 where
  pub id : ℕ
  pub card_no : Bytes
  pub cvv : Bytes
  pub other_data : Bytes

pub record EncryptedRecord : Type 0 where
  pub source_id : ℕ
  pub encrypted_pan : Bytes
  pub encrypted_cvv : Bytes
  pub other_data : Bytes

-- An empty error text is `none`.
pub record VerificationRecord : Type 0 where
  pub source_id : ℕ
  pub original_pan : Bytes
  pub original_cvv : Bytes
  pub encrypted_pan : Bytes
  pub encrypted_cvv : Bytes
  pub decrypted_pan : Bytes
  pub decrypted_cvv : Bytes
  pub pan_match : Bool
  pub cvv_match : Bool
  pub pan_error : Option Error
  pub cvv_error : Option Error
  pub other_data : Bytes

-- `metadata.AppendToOutgoingContext`, where there is a token.
abbrev pub outgoing : Bytes → Option Bytes
outgoing token = if bytes_eq token [] then none else some (codes "Bearer " ++ token)

-- `atomic.Uint64`.
abbrev pub add_u64 : ℕ → ℕ → ℕ
add_u64 a b = (a + b) % 2 ^ 64

-- `db.Query` and the rows behind it: `none` is a row that Scan fails for.
abbrev pub Query : Type 0 → Type 0 → Type 0
Query D A = M D (List (Option A))

-- The rows that are scanned; the others are logged and passed over.
abbrev pub scanned {ℓ} : {A : Type ℓ} → List (Option A) → List A
scanned [] = []
scanned (none ∷ rows) = scanned rows
scanned (some a ∷ rows) = a ∷ scanned rows

-- How often an identifier stands among cards and among rows.
abbrev pub cards_with : ℕ → List CardRecord → ℕ
cards_with j cards = count j (map (λ c. c.id) cards)

abbrev pub rows_with : ℕ → List EncryptedRecord → ℕ
rows_with j rows = count j (map (λ r. r.source_id) rows)
