-- ===== src/Etl/Pipeline/Tests.antt =====
-- Examples for the pipeline: one card and one row that cannot be scanned.
use kms_golang.Base.{
  Run, here, next, steps, ◌+◌, ◌≤◌, List, [], ◌∷◌, true, Option, none, some, codes, ◌≡◌, refl,
  arith,
}
use kms_golang.Fixtures.{toy_client, toy_world}
use kms_golang.Etl.{CardRecord}
use kms_golang.Etl.Tests.{card, accept}
use kms_golang.Etl.Pipeline.{
  Pipeline, started, after_pan, after_cvv, Step, skip, feed, take, call_pan, call_cvv, send,
  collect, finish,
}
use kms_golang.Etl.Pipeline.Accounts.{Run-counted}
use kms_golang.Etl.Pipeline.Progress.{Run_ends}

abbrev pub source : List (Option CardRecord)
source = some card ∷ none ∷ []

abbrev pub ToyRun : Pipeline (Unit {0}) → Type 0
ToyRun = Run (Step toy_client [] accept (codes "sqlite")) (started source toy_world)

-- The worker has made both calls, and holds a row.
half_way : (p : Pipeline (Unit {0})) × ToyRun p
unfolding after_pan after_cvv
half_way = (
  _,
  next
      (next
        (next (next here (feed card (none ∷ []) refl (omega arith) refl))
          (take card [] refl (omega arith) refl))
        (call_pan [] card [] _ _ refl refl refl))
      (call_cvv [] card _ [] _ _ refl refl refl),
)

-- The card is encrypted, and the database accepts the row.
unfoldable pub whole : (p : Pipeline (Unit {0})) × ToyRun p × (p.ended ≡ true)
unfolding after_pan after_cvv
whole = (
  _,
  next
      (next
        (next
          (next
            (next
              (next
                (next (next here (feed card (none ∷ []) refl (omega arith) refl))
                  (take card [] refl (omega arith) refl))
                (call_pan [] card [] _ _ refl refl refl))
              (call_cvv [] card _ [] _ _ refl refl refl))
            (send [] card _ [] refl (omega arith) refl))
          (skip [] refl refl))
        (collect _ [] refl refl))
      (finish refl refl refl refl refl refl),
  refl,
)

Run_ends_example :
    (last : Pipeline (Unit {0})) × (rest : Run
      (Step toy_client [] accept (codes "sqlite"))
      half_way.0
      last)
    × (last.ended ≡ true)
    × (steps half_way.1 + steps rest ≤ 13)
Run_ends_example = Run_ends toy_client [] accept (codes "sqlite") source toy_world half_way.1

Run-counted_example : whole.0.writer.counters.processed + whole.0.writer.counters.errors ≡ 1
Run-counted_example =
    Run-counted toy_client [] accept (codes "sqlite") source toy_world (omega arith) whole.1 whole.2
