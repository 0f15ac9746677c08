-- ===== src/Etl/Job/Encryption.antt =====
-- `feedRecords` and `runETL`: the connection is tested, the pipeline runs to its end, and the two
-- counters are reported.
use kms_golang.Base.{
  Run, String, ℕ, ◌+◌, ◌^◌, ◌<◌, ◌==◌, Bytes, List, [], Bool, true, ltb, ◌&&◌, Option, Result, ok,
  err, panic, Error, codes, length, ◌↔◌, ◌≡◌, refl, sym, All, arith,
}
use mathlib.Core.Path.{subst}
use kms_golang.Go.World.{World, M}
use kms_golang.Proto.{EncryptResponse}
use kms_golang.Client.{KmsClient}
use kms_golang.Etl.Pairing.Loaded.{Among, All-Among, IsFrom}
use kms_golang.Etl.Pipeline.Origin.{Run-IsFrom_within}
use kms_golang.Etl.{CardRecord, EncryptedRecord, Query, scanned, outgoing}
use kms_golang.Etl.Insert.{Exec}
use kms_golang.Etl.Pipeline.{Pipeline, started, plain, Step, delivered}
use kms_golang.Etl.Pipeline.Accounts.{Run-counted}

-- feedRecords reads nothing where the query fails.
unfoldable pub rows_to_feed :
    {D : Type 0} → Result (List (Option CardRecord)) × World D → List (Option CardRecord) × World D
rows_to_feed (ok rows, w) = (rows, w)
rows_to_feed (err e, w) = ([], w)
rows_to_feed (panic p, w) = ([], w)

-- What `runETL` prints at its end; `all_failed` is the warning.
pub record Report : Type 0 where
  pub total : ℕ
  pub errors : ℕ
  pub all_failed : Bool

unfoldable pub report : ℕ → ℕ → Report
report total errors = record {
  total = total;
  errors = errors;
  all_failed = ltb 0 errors && total == 0;
}

abbrev pub test_connection : {D : Type 0} → KmsClient D → Bytes → M D EncryptResponse
test_connection client token = client.encrypt (outgoing token) (plain (codes "test"))

-- The cards that an encryption reads after a connection test that left the world `w'`.
abbrev pub cards_read : {D : Type 0} → Query D CardRecord → World D → List CardRecord
cards_read source w' = scanned (rows_to_feed (source w')).0

fed-Among :
    {D : Type 0} (cards : List CardRecord) (x : Result (List (Option CardRecord)) × World D)
    → ((w' : World D) (rows : List (Option CardRecord)) → x ≡ (ok rows, w') → scanned rows ≡ cards)
    → All (λ c. Among c cards) (scanned (rows_to_feed x).0)
unfolding rows_to_feed
fed-Among cards (ok rows, w) same =
    subst (All (λ c. Among c cards)) (sym (same w rows refl)) (All-Among cards cards (λ c h. h))
fed-Among cards (err e, w) same = tt
fed-Among cards (panic p, w) same = tt

module _ {D : Type 0} (client : KmsClient D) (token : Bytes) (source : Query D CardRecord)
    (exec : Exec D) (driver : Bytes) where
  -- The runs of `runETL` from a world: the error that ends the process, or the report, with the world
  -- that is left.
  pub data RunEtl (w : World D) : Result Report → World D → Type 0 where
    test_failed :
        (e : Error) (w' : World D)
        → test_connection client token w ≡ (err e, w')
        → RunEtl w (err e) w'
    test_panicked :
        (p : String) (w' : World D)
        → test_connection client token w ≡ (panic p, w')
        → RunEtl w (panic p) w'
    completed :
        (r : EncryptResponse) (w' : World D) {p : Pipeline D}
        → test_connection client token w ≡ (ok r, w')
        → (run : Run
            (Step client token exec driver)
            (started (rows_to_feed (source w')).0 (rows_to_feed (source w')).1)
            p)
        → p.ended ≡ true
        → RunEtl w
            (ok (report p.writer.counters.processed p.writer.counters.errors))
            p.writer.counters.world

  -- The rows that the writer received in a run.
  abbrev pub written :
      {w : World D} {end : Result Report} {last : World D}
      → RunEtl w end last
      → List EncryptedRecord
  written (test_failed e w' h) = []
  written (test_panicked p w' h) = []
  written (completed r w' test run closed) = delivered client token exec driver run

  -- They were made of the cards of the source, if it delivers those.
  pub written-IsFrom :
      (cards : List CardRecord)
      → ((w w' : World D) (rows : List (Option CardRecord))
          → source w ≡ (ok rows, w')
          → scanned rows ≡ cards)
      → {w : World D} {end : Result Report} {last : World D} (run : RunEtl w end last)
      → All (IsFrom client token cards) (written run)
  written-IsFrom cards same (test_failed e w' h) = tt
  written-IsFrom cards same (test_panicked p w' h) = tt
  written-IsFrom cards same (completed r w' test run closed) =
      Run-IsFrom_within client token exec driver (rows_to_feed (source w')).0
        (rows_to_feed (source w')).1 cards run (fed-Among cards (source w') (same w'))

  -- The report of a run of the encryption: the two figures are together the number of the cards
  -- that the source delivered, and the warning is printed exactly if there were cards and none was
  -- stored, if there are fewer than 2 ^ 64 cards. A report is given only after a connection test
  -- that succeeded.
  pub RunEtl_sound :
      (w last : World D) {result : Report}
      → RunEtl w (ok result) last
      → ((w' : World D) → length (cards_read source w') < 2 ^ 64)
      → (r : EncryptResponse) × (w' : World D) × (test_connection client token w ≡ (ok r, w'))
        × (result.total + result.errors ≡ length (cards_read source w'))
        × ((result.all_failed ≡ true) ↔ ((0 < length (cards_read source w')) × (result.total ≡ 0)))
  unfolding report
  RunEtl_sound w last (completed r w' h run closed) fits =
      let (rows, w1) = rows_to_feed (source w') in
      let sum = Run-counted client token exec driver rows w1 (fits w') run closed in
      (
        r,
        w',
        h,
        sum,
        (
          λ warned. (ground (arith, warned, sum), ground (arith, warned)),
          λ (some_card, no_row). ground (arith, sum),
        ),
      )
