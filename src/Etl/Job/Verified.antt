-- ===== src/Etl/Job/Verified.antt =====
-- `runETLWithVerification`: the cards are encrypted, all stored rows are verified, and the results are
-- exported. The databases and the export are arguments; the limit of thirty minutes on the whole
-- verification is left out.
use kms_golang.Base.{
  Run, String, ℕ, zero, suc, Bytes, List, [], ◌∷◌, Bool, true, false, Option, Result, ok, err,
  panic, Error, wrapped, count, map, All, ◌⊎◌, inl, inr, ◌≡◌, refl,
}
use mathlib.Core.Path.{subst}
use kms_golang.Go.World.{World, M}
use kms_golang.Client.{KmsClient, IsClient}
use kms_golang.Etl.{CardRecord, EncryptedRecord, VerificationRecord, Query, scanned, cards_with}
use kms_golang.Etl.Insert.{Exec}
use kms_golang.Etl.Pairing.{no_rows, load_rows}
use kms_golang.Etl.Pairing.Loaded.{IsKeyed, IsFrom, Among, All-among}
use kms_golang.Etl.Pairing.Outcome.{IsReported}
use kms_golang.Etl.Pairing.Parallel.{Gathering, gathering, Step, IsGathered}
use kms_golang.Etl.Pairing.Parallel.Bounds.{Run-ids}
use kms_golang.Etl.Pairing.Parallel.Outcome.{Run-IsReported}
use kms_golang.Etl.Job.Encryption.{Report, RunEtl, written, written-IsFrom}

-- `SELECT COUNT(*)`; the verification stops at a count of none, and not at an error.
unfoldable pub goes_on : Result ℕ → Bool
goes_on (ok zero) = false
goes_on (ok (suc n)) = true
goes_on (err e) = true
goes_on (panic p) = true

-- Nothing is exported where there are no results.
unfoldable pub export_results :
    {D : Type 0}
    → (List VerificationRecord → M D (Unit {0}))
    → List VerificationRecord
    → M D (Unit {0})
export_results export [] w = (ok tt, w)
export_results export (v ∷ results) w = export (v ∷ results) w

-- The databases of the job.
pub record Databases (D : Type 0) : Type 0 where
  pub source : Query D CardRecord
  pub ordered_source : Query D CardRecord  -- ORDER BY id
  pub exec : Exec D
  pub count_stored : M D ℕ
  pub stored : Query D EncryptedRecord

module _ {D : Type 0} (client : KmsClient D) (token driver : Bytes) (db : Databases D)
    (export : List VerificationRecord → M D (Unit {0})) where
  -- The runs of `verifyAllDataWithContext` from a world: either query may end the process.
  pub data RunVerification (w : World D) : Result (List VerificationRecord) → World D → Type 0 where
    stored_failed :
        (e : Error) (w' : World D)
        → db.stored w ≡ (err e, w')
        → RunVerification w (err (wrapped "Failed to query encrypted data: " e)) w'
    stored_panicked :
        (p : String) (w' : World D) → db.stored w ≡ (panic p, w') → RunVerification w (panic p) w'
    source_failed :
        (rows : List (Option EncryptedRecord)) (e : Error) (w1 w' : World D)
        → db.stored w ≡ (ok rows, w1)
        → db.ordered_source w1 ≡ (err e, w')
        → RunVerification w (err (wrapped "Failed to query original data: " e)) w'
    source_panicked :
        (rows : List (Option EncryptedRecord)) (p : String) (w1 w' : World D)
        → db.stored w ≡ (ok rows, w1)
        → db.ordered_source w1 ≡ (panic p, w')
        → RunVerification w (panic p) w'
    gathered :
        (rows : List (Option EncryptedRecord)) (cards : List (Option CardRecord)) (w1 w2 : World D)
        (p : Gathering D)
        → db.stored w ≡ (ok rows, w1)
        → db.ordered_source w1 ≡ (ok cards, w2)
        → Run
            (Step client token (load_rows (scanned rows) no_rows))
            (gathering (scanned cards) w2)
            p
        → IsGathered p
        → RunVerification w (ok p.results) p.world

  -- The runs of `runETLWithVerification`: the error that ends the process, or the results of the
  -- verification, which are none where nothing was stored.
  pub data CheckedJob (w : World D) : Result (List VerificationRecord) → World D → Type 0 where
    etl_failed :
        (e : Error) (w' : World D)
        → RunEtl client token db.source db.exec driver w (err e) w'
        → CheckedJob w (err e) w'
    etl_panicked :
        (p : String) (w' : World D)
        → RunEtl client token db.source db.exec driver w (panic p) w'
        → CheckedJob w (panic p) w'
    nothing_stored :
        (r : Report) (w1 : World D)
        → RunEtl client token db.source db.exec driver w (ok r) w1
        → goes_on (db.count_stored w1).0 ≡ false
        → CheckedJob w (ok []) (db.count_stored w1).1
    verification_failed :
        (r : Report) (w1 w' : World D) (e : Error)
        → RunEtl client token db.source db.exec driver w (ok r) w1
        → goes_on (db.count_stored w1).0 ≡ true
        → RunVerification (db.count_stored w1).1 (err e) w'
        → CheckedJob w (err e) w'
    verification_panicked :
        (r : Report) (w1 w' : World D) (p : String)
        → RunEtl client token db.source db.exec driver w (ok r) w1
        → goes_on (db.count_stored w1).0 ≡ true
        → RunVerification (db.count_stored w1).1 (panic p) w'
        → CheckedJob w (panic p) w'
    export_failed :
        (r : Report) (w1 w2 w' : World D) (results : List VerificationRecord) (e : Error)
        → RunEtl client token db.source db.exec driver w (ok r) w1
        → goes_on (db.count_stored w1).0 ≡ true
        → RunVerification (db.count_stored w1).1 (ok results) w2
        → export_results export results w2 ≡ (err e, w')
        → CheckedJob w (err (wrapped "Failed to export to Excel: " e)) w'
    export_panicked :
        (r : Report) (w1 w2 w' : World D) (results : List VerificationRecord) (p : String)
        → RunEtl client token db.source db.exec driver w (ok r) w1
        → goes_on (db.count_stored w1).0 ≡ true
        → RunVerification (db.count_stored w1).1 (ok results) w2
        → export_results export results w2 ≡ (panic p, w')
        → CheckedJob w (panic p) w'
    finished :
        (r : Report) (w1 w2 w' : World D) (results : List VerificationRecord)
        → RunEtl client token db.source db.exec driver w (ok r) w1
        → goes_on (db.count_stored w1).0 ≡ true
        → RunVerification (db.count_stored w1).1 (ok results) w2
        → export_results export results w2 ≡ (ok tt, w')
        → CheckedJob w (ok results) w'

  -- The rows that the writer received in a run of the job.
  abbrev pub written_by :
      {w : World D} {end : Result (List VerificationRecord)} {last : World D}
      → CheckedJob w end last
      → List EncryptedRecord
  written_by (etl_failed e w' etl) = written client token db.source db.exec driver etl
  written_by (etl_panicked p w' etl) = written client token db.source db.exec driver etl
  written_by (nothing_stored r w1 etl _) = written client token db.source db.exec driver etl
  written_by (verification_failed r w1 w' e etl _ _) =
      written client token db.source db.exec driver etl
  written_by (verification_panicked r w1 w' p etl _ _) =
      written client token db.source db.exec driver etl
  written_by (export_failed r w1 w2 w' results e etl _ _ _) =
      written client token db.source db.exec driver etl
  written_by (export_panicked r w1 w2 w' results p etl _ _ _) =
      written client token db.source db.exec driver etl
  written_by (finished r w1 w2 w' results etl _ _ _) =
      written client token db.source db.exec driver etl

  -- What the job relies on of the databases: the source delivers the same cards at every query, and
  -- the table holds no other rows than those that were written.
  pub record IsFaithful (cards : List CardRecord) (rows : List EncryptedRecord) : Type 0 where
    pub source :
        (w w' : World D) (read : List (Option CardRecord))
        → db.source w ≡ (ok read, w')
        → scanned read ≡ cards
    pub ordered :
        (w w' : World D) (read : List (Option CardRecord))
        → db.ordered_source w ≡ (ok read, w')
        → scanned read ≡ cards
    pub stored :
        (w w' : World D) (read : List (Option EncryptedRecord))
        → db.stored w ≡ (ok read, w')
        → All (λ r. Among r rows) (scanned read)

  RunVerification-IsReported :
      (cards : List CardRecord) (written : List EncryptedRecord) (w last : World D)
      {results : List VerificationRecord}
      → IsClient client
      → IsKeyed cards
      → IsFaithful cards written
      → All (IsFrom client token cards) written
      → RunVerification w (ok results) last
      → All IsReported results
        × ((j : ℕ) → count j (map (λ v. v.source_id) results) ≡ cards_with j cards)
  RunVerification-IsReported cards written w last service keyed faithful made
        (gathered rows source w1 w2 p got read run end) =
      let run' =
        subst
          (λ cards.
            Run (Step client token (load_rows (scanned rows) no_rows)) (gathering cards w2) p)
          (faithful.ordered w1 w2 source read) run in
      let from =
        All-among (IsFrom client token cards) written (scanned rows) made
          (faithful.stored w w1 rows got) in
      (
        Run-IsReported client token (scanned rows) cards w2 service keyed from run',
        λ j. Run-ids cards w2 run' end j,
      )

  -- The whole job, encryption and verification: with a service that keeps its contract, a source that
  -- delivers the same cards with different identifiers at every query, and a table that holds only
  -- rows that the writer of this run received. A run that does not end the process, and whose
  -- verification is not cut off by a limit on the whole of it, either finds nothing stored, or reports each card of the source once, and each field of each record is a match
  -- or has an error: a wrong value is never found without an error, however the goroutines of both
  -- parts are scheduled and whatever fails.
  pub whole_job_sound :
      (cards : List CardRecord) (w last : World D) {results : List VerificationRecord}
      (job : CheckedJob w (ok results) last)
      → IsClient client
      → IsKeyed cards
      → IsFaithful cards (written_by job)
      → (results ≡ [])
        ⊎ (All IsReported results
            × ((j : ℕ) → count j (map (λ v. v.source_id) results) ≡ cards_with j cards))
  whole_job_sound cards w last (nothing_stored r w1 etl none_stored) service keyed faithful =
      inl refl
  whole_job_sound cards w last (finished r w1 w2 w' results etl some_stored verified exported)
        service keyed faithful =
      let rows = written client token db.source db.exec driver etl in
      inr (
        RunVerification-IsReported cards rows (db.count_stored w1).1 w2 service keyed faithful
          (written-IsFrom client token db.source db.exec driver cards faithful.source etl) verified)
