-- ===== src/Etl/Pairing.antt =====
-- `verifyAllDataWithContext`: the stored rows are put into a map by their identifier, and a card that
-- has none, or whose verification ran out of time, has a record that says so. The goroutines are in
-- the module Parallel. Cancellation of the whole run, and the time limits on collecting, are left out.
pub mod Loaded
pub mod Outcome
pub mod Parallel
use kms_golang.Base.{
  ℕ, ◌==◌, Bytes, String, List, [], ◌∷◌, Bool, true, false, if◌then◌else◌, Option, none, some,
  Error, new,
}
use kms_golang.Go.World.{World}
use kms_golang.Client.{KmsClient}
use kms_golang.Etl.{CardRecord, EncryptedRecord, VerificationRecord}
use kms_golang.Etl.Verify.{verify_record}

-- `map[int64]EncryptedRecord`.
abbrev pub Rows : Type 0
Rows = ℕ → Option EncryptedRecord

abbrev pub no_rows : Rows
no_rows id = none

-- `encryptedMap[rec.SourceID] = rec`
abbrev pub put : Rows → EncryptedRecord → Rows
put m r id = if id == r.source_id then some r else m id

unfoldable pub load_rows : List EncryptedRecord → Rows → Rows
load_rows [] m = m
load_rows (r ∷ rows) m = load_rows rows (put m r)

abbrev pub not_found : String
not_found = "Encrypted record not found"

abbrev pub timed_out : String
timed_out = "Timeout after 15s (record may be stuck)"

-- The record of a card that was not compared.
abbrev pub not_verified : String → CardRecord → VerificationRecord
not_verified message c = record {
  source_id = c.id;
  original_pan = c.card_no;
  original_cvv = c.cvv;
  encrypted_pan = [];
  encrypted_cvv = [];
  decrypted_pan = [];
  decrypted_cvv = [];
  pan_match = false;
  cvv_match = false;
  pan_error = some (new message);
  cvv_error = some (new message);
  other_data = c.other_data;
}
