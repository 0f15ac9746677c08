-- ===== src/Etl/Writer/Order.antt =====
-- How `batchWriter` cuts the rows that it receives into batches.
use kms_golang.Base.{
  ◌<◌, ◌≤◌, Bytes, List, [], ◌∷◌, ◌++◌, leb, length, length-append, Bool-cases, inl, inr, All, ◌≡◌,
  refl, sym, ap, arith, append_assoc, append-nil, ◌∙◌,
}
use kms_golang.Etl.{EncryptedRecord}
use kms_golang.Etl.Insert.{Exec}
use kms_golang.Etl.Writer.{
  Counters, Writer, batch_size, insert_counted, flush, flush_if_full, receive, receive_all,
  batch_writer,
}

-- The rows of a list of batches.
abbrev pub all_rows : List (List EncryptedRecord) → List EncryptedRecord
all_rows [] = []
all_rows (batch ∷ batches) = batch ++ all_rows batches

abbrev pub IsFull : List EncryptedRecord → Type 0
IsFull batch = length batch ≡ batch_size

module _ {D : Type 0} (exec : Exec D) (driver : Bytes) where
  -- The insertion of one batch after the other.
  abbrev pub insert_all : List (List EncryptedRecord) → Counters D → Counters D
  insert_all [] c = c
  insert_all (batch ∷ batches) c = insert_all batches (insert_counted exec driver batch c)

  -- How the rows of a loop were cut: full batches that were inserted, and what was left in the buffer.
  record IsCut (results : List EncryptedRecord) (s t : Writer D) : Type 0 where
    full : List (List EncryptedRecord)
    are_full : All IsFull full
    in_order : all_rows full ++ t.batch ≡ s.batch ++ results
    inserted : t.counters ≡ insert_all full s.counters
    few : length t.batch < batch_size

  -- What follows a test of the buffer, from what follows a buffer that is not full.
  after_test :
      (results : List EncryptedRecord) (s : Writer D)
      → length s.batch ≤ batch_size
      → ((t : Writer D)
          → length t.batch < batch_size
          → IsCut results t (receive_all exec driver results t))
      → IsCut results s (receive_all exec driver results (flush_if_full exec driver s))
  unfolding flush_if_full flush
  after_test results s short next = elim (Bool-cases (leb batch_size (length s.batch))) [
    | inr room ↦ rw room (next s (ground arith))
    | inl full ↦
        let cut = next (flush exec driver s) (omega arith) in
        rw full (record {
          full = s.batch ∷ cut.full;
          are_full = (ground arith, cut.are_full);
          in_order =
              append_assoc s.batch (all_rows cut.full)
                (receive_all exec driver results (flush exec driver s)).batch
              ∙ ap (λ rows. s.batch ++ rows) cut.in_order;
          inserted = cut.inserted;
          few = cut.few;
        })
  ]

  receive_all-IsCut :
      (results : List EncryptedRecord) (s : Writer D)
      → length s.batch < batch_size
      → IsCut results s (receive_all exec driver results s)
  unfolding receive_all receive
  receive_all-IsCut [] s few = record {
    full = [];
    are_full = tt;
    in_order = sym (append-nil s.batch);
    inserted = refl;
    few = few;
  }
  receive_all-IsCut (r ∷ results) s few =
      let added : Writer D = record { batch = s.batch ++ r ∷ []; counters = s.counters } in
      let cut =
        after_test results added (omega (arith, length-append s.batch (r ∷ [])))
          (λ t room. receive_all-IsCut results t room) in
      record {
        full = cut.full;
        are_full = cut.are_full;
        in_order = cut.in_order ∙ append_assoc s.batch (r ∷ []) results;
        inserted = cut.inserted;
        few = cut.few;
      }

  -- The writer inserts all rows that it receives, in the order in which it receives them, in batches
  -- of exactly 500 rows and a last one of fewer.
  pub batch_writer_in_order :
      (results : List EncryptedRecord) (c : Counters D)
      → (full : List (List EncryptedRecord)) × (last : List EncryptedRecord) × All IsFull full
        × (length last < batch_size)
        × (all_rows full ++ last ≡ results)
        × (batch_writer exec driver results c ≡ insert_counted exec driver last (insert_all full c))
  unfolding batch_writer flush
  batch_writer_in_order results c =
      let start : Writer D = record { batch = []; counters = c } in
      let cut = receive_all-IsCut results start (omega arith) in
      (
        cut.full,
        (receive_all exec driver results start).batch,
        cut.are_full,
        cut.few,
        cut.in_order,
        ap (insert_counted exec driver (receive_all exec driver results start).batch) cut.inserted,
      )
