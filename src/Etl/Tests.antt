-- ===== src/Etl/Tests.antt =====
-- Examples for the ETL job.
use kms_golang.Base.{
  ◌==◌, Bool, inl, inr, sym, ◌∙◌, ◌<◌, List, [], ◌∷◌, ◌++◌, true, none, some, new, codes, All,
  length, ◌≡◌, refl, arith,
}
use kms_golang.Fixtures.{toy_client, toy_world, later_world}
use kms_golang.Proto
use kms_golang.Etl.{CardRecord, EncryptedRecord, VerificationRecord}
use kms_golang.Etl.Matches.{summary}
use kms_golang.Etl.Encrypt.{row, encrypt_record, Sent}
use kms_golang.Etl.Insert.{Exec}
use kms_golang.Etl.Verify.{verify_record}
use kms_golang.Etl.Pairing.Loaded.{IsKeyed}
use kms_golang.Etl.Report.{row_cells}
use kms_golang.Etl.Report.Filled.{green_rows, green_rows-summary}
use kms_golang.Etl.Report.Masked.{IsAlike, row_cells-IsAlike}
use kms_golang.Etl.Writer.Order.{insert_all, IsFull, all_rows, batch_writer_in_order}
use kms_golang.Etl.Writer.{Counters, insert_counted, batch_size, batch_writer}

abbrev pub card : CardRecord
card = record { id = 1; card_no = codes "4111111111111111"; cvv = codes "123"; other_data = [] }

abbrev pub pan_answer : Proto.EncryptResponse
pan_answer = record { ciphertext = codes "4111111111111111"; nonce = codes "nonce 000001" }

abbrev pub cvv_answer : Proto.EncryptResponse
cvv_answer = record { ciphertext = codes "123"; nonce = codes "nonce 000001" }

abbrev pub sent : EncryptedRecord
sent = row card pan_answer cvv_answer

card_encrypted : encrypt_record toy_client [] card toy_world ≡ (some sent, toy_world)
unfolding encrypt_record
card_encrypted = refl

abbrev nothing_sent : Sent (Unit {0})
nothing_sent = record { rows = []; errors = 0; world = toy_world }

-- A database that accepts every statement.
abbrev pub accept : Exec (Unit {0})
accept query params w = (none, w)

-- A database that refuses every statement.
abbrev pub refuse : Exec (Unit {0})
refuse query params w = (some (new "constraint violated"), w)

abbrev fresh : Counters (Unit {0})
fresh = record { processed = 0; errors = 0; world = toy_world }

batch_writer_in_order_example :
    (full : List (List EncryptedRecord)) × (last : List EncryptedRecord) × All IsFull full
    × (length last < batch_size)
    × (all_rows full ++ last ≡ sent ∷ sent ∷ [])
    × (batch_writer refuse (codes "sqlite") (sent ∷ sent ∷ []) fresh
        ≡ insert_counted refuse
            (codes "sqlite")
            last
            (insert_all refuse (codes "sqlite") full fresh))
batch_writer_in_order_example =
    batch_writer_in_order refuse (codes "sqlite") (sent ∷ sent ∷ []) fresh

abbrev verified : VerificationRecord
verified = (verify_record toy_client [] card sent later_world).0

-- The whole job with two cards, the second of which is verified too late.
abbrev other_card : CardRecord
other_card = record {
  id = 2;
  card_no = codes "5500000000000004";
  cvv = codes "999";
  other_data = [];
}

abbrev cards : List CardRecord
cards = card ∷ other_card ∷ []

cards-IsKeyed : IsKeyed cards
cards-IsKeyed c d (inl p) (inl q) same = p ∙ sym q
cards-IsKeyed c d (inl p) (inr (inl q)) same = absurd (ground (arith, p, q, same))
cards-IsKeyed c d (inr (inl p)) (inl q) same = absurd (ground (arith, p, q, same))
cards-IsKeyed c d (inr (inl p)) (inr (inl q)) same = p ∙ sym q
cards-IsKeyed c d (inl p) (inr (inr none_left)) same = elim none_left [ ]
cards-IsKeyed c d (inr (inl p)) (inr (inr none_left)) same = elim none_left [ ]
cards-IsKeyed c d (inr (inr none_left)) _ same = elim none_left [ ]

abbrev second_late : CardRecord → Bool
second_late c = c.id == 2

-- The report.
abbrev matched : VerificationRecord
matched = record {
  source_id = 1;
  original_pan = codes "4111111111111111";
  original_cvv = codes "123";
  encrypted_pan = [];
  encrypted_cvv = [];
  decrypted_pan = codes "4111111111111111";
  decrypted_cvv = codes "123";
  pan_match = true;
  cvv_match = true;
  pan_error = none;
  cvv_error = none;
  other_data = [];
}

abbrev alike : VerificationRecord
alike = record matched {
  original_pan = codes "5500000000001111";
  original_cvv = codes "9999";
  decrypted_pan = codes "5500000000001111";
  decrypted_cvv = codes "9999";
}

matched-IsAlike : IsAlike matched alike
matched-IsAlike = record {
  source_id = refl;
  original_pan = (refl, refl);
  decrypted_pan = (refl, refl);
  original_cvv = inr (ground arith, ground arith);
  decrypted_cvv = inr (ground arith, ground arith);
  encrypted_pan = refl;
  encrypted_cvv = refl;
  pan_match = refl;
  cvv_match = refl;
  pan_error = refl;
  cvv_error = refl;
  other_data = refl;
}

row_cells-IsAlike_example : row_cells true matched ≡ row_cells true alike
row_cells-IsAlike_example = row_cells-IsAlike matched alike matched-IsAlike

green_rows-summary_example : green_rows (matched ∷ []) ≡ (summary (matched ∷ [])).perfect_matches
green_rows-summary_example = green_rows-summary (matched ∷ [])
