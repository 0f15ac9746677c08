-- ===== src/Etl/Job/Tests.antt =====
-- Examples for the whole job: one card, which is encrypted, stored and verified, and one row of the
-- source that cannot be scanned.
use kms_golang.Base.{
  Run, here, next, steps, ℕ, ◌+◌, ◌^◌, ◌<◌, ◌≤◌, Bytes, List, [], ◌∷◌, true, none, some, ok, codes,
  length, count, map, All, ◌⊎◌, inl, inr, ◌↔◌, ◌≡◌, refl, sym, ap, ◌∙◌, ok_injective, arith,
}
use mathlib.Core.Path.{subst}
use kms_golang.Go.World.{World, M}
use kms_golang.Fixtures.{toy_client, toy_client-IsClient, toy_world, later_world}
use kms_golang.Proto.{EncryptResponse}
use kms_golang.Client.{AuthClient}
use kms_golang.Etl.{CardRecord, VerificationRecord, Query, scanned, cards_with}
use kms_golang.Etl.Tests.{card, sent, accept}
use kms_golang.Etl.Pipeline.{after_pan, after_cvv}
use kms_golang.Etl.Pipeline.Tests.{source, whole}
use kms_golang.Etl.Pairing.Loaded.{IsKeyed, Among}
use kms_golang.Etl.Pairing.{no_rows, load_rows}
use kms_golang.Etl.Pairing.Outcome.{IsReported}
use kms_golang.Etl.Pairing.Parallel.{
  Gathering, gathering, Step, launch, check_pan, check_cvv, collect, IsGathered,
}
use kms_golang.Etl.Pairing.Parallel.Bounds.{semaphore_bounded}
use kms_golang.Etl.Pairing.Parallel.Ending.{Run_gathers}
use kms_golang.Etl.Report.{Line}
use kms_golang.Etl.Report.Masked.{IsSafe}
use kms_golang.Etl.Job.{AppConfig, choose_token, Origin, choose_token_sound}
use kms_golang.Etl.Job.Encryption.{
  rows_to_feed, Report, RunEtl, completed, cards_read, test_connection, RunEtl_sound,
}
use kms_golang.Etl.Job.Safe.{StoredPan, run_safe_verification, run_safe_verification-IsSafe}
use kms_golang.Etl.Job.Verified.{
  goes_on, export_results, Databases, gathered, CheckedJob, finished, IsFaithful, written_by,
  whole_job_sound,
}

-- A login that answers with a token.
abbrev toy_login : AuthClient (Unit {0})
toy_login req w = (ok (record { token = codes "token" }), w)

abbrev config : AppConfig
config = record {
  kms_addr = codes "127.0.0.1:50051";
  bearer_token = [];
  username = codes "demo";
  password = codes "demo123";
  source_driver = codes "mysql";
  source_dsn = [];
  dest_driver = codes "sqlite";
  dest_dsn = [];
}

choose_token_sound_example : Origin toy_login [] config toy_world (codes "token") toy_world
unfolding choose_token
choose_token_sound_example = choose_token_sound toy_login [] config toy_world toy_world refl

-- The encryption, with a database that stores the row.
abbrev pub toy_source : Query (Unit {0}) CardRecord
toy_source w = (ok source, w)

pub toy_etl :
    (r : Report) × (w : World (Unit {0})) × RunEtl toy_client [] toy_source accept
      (codes "sqlite")
      toy_world
      (ok r)
      w
unfolding rows_to_feed
toy_etl = (_, _, completed _ toy_world refl whole.1 whole.2)

RunEtl_sound_example :
    (r : EncryptResponse) × (w' : World (Unit {0})) × (test_connection toy_client [] toy_world
      ≡ (ok r, w'))
    × (toy_etl.0.total + toy_etl.0.errors ≡ length (cards_read toy_source w'))
    × ((toy_etl.0.all_failed ≡ true)
        ↔ ((0 < length (cards_read toy_source w')) × (toy_etl.0.total ≡ 0)))
unfolding rows_to_feed
RunEtl_sound_example =
    RunEtl_sound toy_client [] toy_source accept (codes "sqlite") toy_world toy_etl.1 toy_etl.2
      (λ w'. small w')
  where
    small : (w' : World (Unit {0})) → length (cards_read toy_source w') < 2 ^ 64
    small w' = omega arith

-- The safe verification of a row that is no base64.
abbrev toy_pans : Bytes → Query (Unit {0}) StoredPan
toy_pans query w =
    (ok (some (record { source_id = 1; encrypted_pan = codes "no base64" }) ∷ none ∷ []), w)

run_safe_verification-IsSafe_example :
    (lines : List Line) × (last : World (Unit {0})) × (run_safe_verification toy_client [] toy_pans
        (codes "mysql")
        later_world
      ≡ (ok lines, last))
    × All IsSafe lines
    × (map (λ l. l.source_id) lines ≡ 1 ∷ [])
run_safe_verification-IsSafe_example =
    run_safe_verification-IsSafe toy_client [] toy_pans (codes "mysql") later_world later_world refl

-- The verification of the row, which two goroutine steps check.
abbrev pub ToyCheck : World (Unit {0}) → Gathering (Unit {0}) → Type 0
ToyCheck w = Run (Step toy_client [] (load_rows (sent ∷ []) no_rows)) (gathering (card ∷ []) w)

checked_pan : (p : Gathering (Unit {0})) × ToyCheck toy_world p
unfolding load_rows
checked_pan = (
  _,
  next (next here (launch card [] sent refl refl (omega arith) refl))
      (check_pan [] card sent [] _ _ refl refl refl),
)

pub checked : (w : World (Unit {0})) → (p : Gathering (Unit {0})) × ToyCheck w p × IsGathered p
unfolding load_rows
checked w = (
  _,
  next
      (next
        (next (next here (launch card [] sent refl refl (omega arith) refl))
          (check_pan [] card sent [] _ _ refl refl refl))
        (check_cvv [] card sent _ [] _ _ refl refl refl))
      (collect _ [] refl refl),
  record { pending = refl; running = refl; channel = refl },
)

semaphore_bounded_example : (length checked_pan.0.running ≤ 10) × (length checked_pan.0.channel ≤ 1)
semaphore_bounded_example = semaphore_bounded (card ∷ []) toy_world checked_pan.1

Run_gathers_example :
    (last : Gathering (Unit {0})) × (rest : Run
      (Step toy_client [] (load_rows (sent ∷ []) no_rows))
      checked_pan.0
      last)
    × IsGathered last
    × (steps checked_pan.1 + steps rest ≤ 5)
    × ((j : ℕ) → count j (map (λ v. v.source_id) last.results) ≡ cards_with j (card ∷ []))
Run_gathers_example =
    Run_gathers toy_client [] (load_rows (sent ∷ []) no_rows) (card ∷ []) toy_world checked_pan.1

-- The whole job, with databases that hold the card and its row.
abbrev pub toy_databases : Databases (Unit {0})
toy_databases = record {
  source = toy_source;
  ordered_source = toy_source;
  exec = accept;
  count_stored = λ w. (ok 1, w);
  stored = λ w. (ok (some sent ∷ []), w);
}

abbrev pub toy_export : List VerificationRecord → M (Unit {0}) (Unit {0})
toy_export results w = (ok tt, w)

-- What the verification leaves.
abbrev pub verified : Gathering (Unit {0})
verified = (checked toy_etl.1).0

toy_job :
    CheckedJob toy_client []
      (codes "sqlite")
      toy_databases
      toy_export
      toy_world
      (ok verified.results)
      verified.world
unfolding goes_on export_results checked
toy_job =
    finished toy_etl.0 toy_etl.1 verified.world verified.world verified.results toy_etl.2 refl
      (gathered (some sent ∷ []) source toy_etl.1 toy_etl.1 verified refl refl (checked toy_etl.1).1
        (checked toy_etl.1).2)
      refl

pub card-IsKeyed : IsKeyed (card ∷ [])
card-IsKeyed c d (inl p) (inl q) same = p ∙ sym q
card-IsKeyed c d (inl p) (inr none_left) same = elim none_left [ ]
card-IsKeyed c d (inr none_left) _ same = elim none_left [ ]

-- The row of the table is the one that was written.
toy-IsFaithful :
    IsFaithful toy_client []
      (codes "sqlite")
      toy_databases
      toy_export
      (card ∷ [])
      (written_by toy_client [] (codes "sqlite") toy_databases toy_export toy_job)
unfolding after_pan after_cvv goes_on export_results checked toy_etl toy_job whole
toy-IsFaithful = record {
  source = λ w w' rows got. ap scanned (sym (ok_injective (ap (λ x. x.0) got)));
  ordered = λ w w' rows got. ap scanned (sym (ok_injective (ap (λ x. x.0) got)));
  stored = λ w w' rows got.
      subst
        (λ rows.
          All
            (λ r.
              Among r (written_by toy_client [] (codes "sqlite") toy_databases toy_export toy_job))
            (scanned rows))
        (ok_injective (ap (λ x. x.0) got)) (inl refl, tt);
}

whole_job_sound_example :
    (verified.results ≡ [])
    ⊎ (All IsReported verified.results
        × ((j : ℕ) → count j (map (λ v. v.source_id) verified.results) ≡ cards_with j (card ∷ [])))
whole_job_sound_example =
    whole_job_sound toy_client [] (codes "sqlite") toy_databases toy_export (card ∷ []) toy_world
      verified.world toy_job toy_client-IsClient card-IsKeyed toy-IsFaithful
