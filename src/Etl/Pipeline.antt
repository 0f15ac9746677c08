-- ===== src/Etl/Pipeline.antt =====
-- `runETL` between the connection test and the report: the goroutines that read the source, encrypt
-- and write, and the two channels between them, as a step relation. A step is one receive or send of
-- a channel, one call of the service, or one round of the writer, and any goroutine that can go on
-- may be the next. The scheduler, and the order of the workers that wait for a channel, are left
-- open.
pub mod Accounts
pub mod Progress
pub mod Origin
pub mod Ledger
pub mod Tests
use kms_golang.Base.{
  ℕ, ◌<◌, Run, here, next, Bytes, List, [], ◌∷◌, ◌++◌, Bool, true, false, Option, none, some,
  Result, ok, err, panic, length, ◌≡◌,
}
use kms_golang.Go.World.{World}
use kms_golang.Proto.{EncryptRequest, EncryptResponse}
use kms_golang.Client.{KmsClient}
use kms_golang.Etl.{CardRecord, EncryptedRecord, outgoing, add_u64}
use kms_golang.Etl.Encrypt.{row}
use kms_golang.Etl.Insert.{Exec}
use kms_golang.Etl.Writer.{Counters, Writer, receive, flush}

-- `make(chan CardRecord, 100)` and `make(chan EncryptedRecord, 100)`.
abbrev pub channel_size : ℕ
channel_size = 100

-- `WorkerCount`.
abbrev pub worker_count : ℕ
worker_count = 20

-- A worker that holds a card: before the call with the card number, before the call with the
-- security code, and before the send.
pub data Task : Type 0 where
  fresh : CardRecord → Task
  half : CardRecord → EncryptResponse → Task
  ready : CardRecord → EncryptedRecord → Task

pub record Pipeline (D : Type 0) : Type 0 where
  pub unread : List (Option CardRecord)  -- the rows that feedRecords has not scanned, `none` where Scan fails
  pub jobs : List CardRecord
  pub busy : List Task  -- the workers that hold a card
  pub results : List EncryptedRecord
  pub writer : Writer D  -- batchWriter, the shared counters and the world
  pub ended : Bool  -- batchWriter has returned

-- The counters and the world before the first goroutine runs.
abbrev pub started : {D : Type 0} → List (Option CardRecord) → World D → Pipeline D
started rows w = record {
  unread = rows;
  jobs = [];
  busy = [];
  results = [];
  writer = record { batch = []; counters = record { processed = 0; errors = 0; world = w } };
  ended = false;
}

-- What a worker holds after a call: nothing, if the call has failed.
unfoldable pub after_pan : CardRecord → Result EncryptResponse → Option Task
after_pan r (ok pan) = some (half r pan)
after_pan r (err e) = none
after_pan r (panic p) = none

unfoldable pub after_cvv : CardRecord → EncryptResponse → Result EncryptResponse → Option Task
after_cvv r pan (ok cvv) = some (ready r (row r pan cvv))
after_cvv r pan (err e) = none
after_cvv r pan (panic p) = none

-- `errorCount.Add(1)` for a worker that holds nothing.
abbrev pub settle :
    {D : Type 0} → Pipeline D → List Task → List Task → Option Task → World D → Pipeline D
settle p before after (some t) w = record p {
  busy = before ++ t ∷ after;
  writer = record {
    batch = p.writer.batch;
    counters = record {
      processed = p.writer.counters.processed;
      errors = p.writer.counters.errors;
      world = w;
    };
  };
}
settle p before after none w = record p {
  busy = before ++ after;
  writer = record {
    batch = p.writer.batch;
    counters = record {
      processed = p.writer.counters.processed;
      errors = add_u64 p.writer.counters.errors 1;
      world = w;
    };
  };
}

abbrev pub plain : Bytes → EncryptRequest
plain text = record { plaintext = text; key_id = [] }

abbrev pub given_up : CardRecord → Option Task → List CardRecord
given_up r none = r ∷ []
given_up r (some t) = []

module _ {D : Type 0} (client : KmsClient D) (token : Bytes) (exec : Exec D) (driver : Bytes) where
  pub data Step (p q : Pipeline D) : Type 0 where
    -- feedRecords: a row that is not scanned, and a card that is sent.
    skip :
        (rest : List (Option CardRecord))
        → p.unread ≡ none ∷ rest
        → q ≡ record p { unread = rest }
        → Step p q
    feed :
        (r : CardRecord) (rest : List (Option CardRecord))
        → p.unread ≡ some r ∷ rest
        → length p.jobs < channel_size
        → q ≡ record p { unread = rest; jobs = p.jobs ++ r ∷ [] }
        → Step p q
    -- worker: a card that is received, the two calls, and a row that is sent.
    take :
        (r : CardRecord) (rest : List CardRecord)
        → p.jobs ≡ r ∷ rest
        → length p.busy < worker_count
        → q ≡ record p { jobs = rest; busy = fresh r ∷ p.busy }
        → Step p q
    call_pan :
        (before : List Task) (r : CardRecord) (after : List Task) (x : Result EncryptResponse)
        (w : World D)
        → p.busy ≡ before ++ fresh r ∷ after
        → client.encrypt (outgoing token) (plain r.card_no) p.writer.counters.world ≡ (x, w)
        → q ≡ settle p before after (after_pan r x) w
        → Step p q
    call_cvv :
        (before : List Task) (r : CardRecord) (pan : EncryptResponse) (after : List Task)
        (x : Result EncryptResponse) (w : World D)
        → p.busy ≡ before ++ half r pan ∷ after
        → client.encrypt (outgoing token) (plain r.cvv) p.writer.counters.world ≡ (x, w)
        → q ≡ settle p before after (after_cvv r pan x) w
        → Step p q
    send :
        (before : List Task) (r : CardRecord) (sent : EncryptedRecord) (after : List Task)
        → p.busy ≡ before ++ ready r sent ∷ after
        → length p.results < channel_size
        → q ≡ record p { busy = before ++ after; results = p.results ++ sent ∷ [] }
        → Step p q
    -- batchWriter: a row that is received, and the end of the channel, which is closed when all
    -- workers have returned.
    collect :
        (sent : EncryptedRecord) (rest : List EncryptedRecord)
        → p.results ≡ sent ∷ rest
        → q ≡ record p { results = rest; writer = receive exec driver sent p.writer }
        → Step p q
    finish :
        p.unread ≡ []
        → p.jobs ≡ []
        → p.busy ≡ []
        → p.results ≡ []
        → p.ended ≡ false
        → q ≡ record p { writer = flush exec driver p.writer; ended = true }
        → Step p q

  -- The rows that the writer has received in a run, in order.
  abbrev pub delivered_by : {p q : Pipeline D} → Step p q → List EncryptedRecord
  delivered_by (collect sent rest _ _) = sent ∷ []
  delivered_by _ = []

  abbrev pub delivered : {p q : Pipeline D} → Run Step p q → List EncryptedRecord
  delivered here = []
  delivered (next run st) = delivered run ++ delivered_by st

  abbrev pub dropped_by : {p q : Pipeline D} → Step p q → List CardRecord
  dropped_by (call_pan before r after x w _ _ _) = given_up r (after_pan r x)
  dropped_by (call_cvv before r pan after x w _ _ _) = given_up r (after_cvv r pan x)
  dropped_by _ = []

  -- The cards that a run has given up, since a call failed.
  abbrev pub dropped : {p q : Pipeline D} → Run Step p q → List CardRecord
  dropped here = []
  dropped (next run st) = dropped run ++ dropped_by st
