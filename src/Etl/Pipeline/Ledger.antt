-- ===== src/Etl/Pipeline/Ledger.antt =====
-- Where each card of the source is, by its identifier.
use kms_golang.Base.{ℕ, ◌+◌, List, [], ◌∷◌, Option, none, some, count, map}
use kms_golang.Go.World.{World}
use kms_golang.Etl.{CardRecord, scanned, cards_with, rows_with}
use kms_golang.Etl.Pipeline.{Task, fresh, half, ready, Pipeline}

abbrev task_id : Task → ℕ
task_id (fresh c) = c.id
task_id (half c pan) = c.id
task_id (ready c sent) = sent.source_id

abbrev tasks_with : ℕ → List Task → ℕ
tasks_with j busy = count j (map task_id busy)

-- The cards that are on their way, or still to be read.
abbrev pub tracked : {D : Type 0} → ℕ → Pipeline D → ℕ
tracked j p =
    cards_with j (scanned p.unread)
    + cards_with j p.jobs
    + tasks_with j p.busy
    + rows_with j p.results

-- What a call leaves: a worker that holds the card, or the card among those given up.
abbrev kept : ℕ → CardRecord → Option Task → ℕ
kept j c none = 0
kept j c (some t) = count j (task_id t ∷ [])
