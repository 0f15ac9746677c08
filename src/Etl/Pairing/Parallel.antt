-- ===== src/Etl/Pairing/Parallel.antt =====
-- `verifyAllDataWithContext`: the loop over the cards, the goroutines that it starts, and the one that
-- collects, as a step relation. A goroutine makes two calls of the service and sends one record, or
-- its time runs out first; the call that it leaves behind may still reach the service. The channel
-- has room for every record, so that no send waits.
pub mod Bounds
pub mod Outcome
pub mod Ending
use kms_golang.Base.{ℕ, suc, ◌<◌, Bytes, List, [], ◌∷◌, ◌++◌, Option, none, some, length, ◌≡◌}
use kms_golang.Go.World.{World}
use kms_golang.Client.{KmsClient}
use kms_golang.Etl.{CardRecord, EncryptedRecord, VerificationRecord}
use kms_golang.Etl.Verify.{Field, verify_field, verification_of}
use kms_golang.Etl.Pairing.{Rows, not_verified, not_found, timed_out}

-- `verifyWorkerCount`: WorkerCount, but 10 at most.
abbrev pub verify_worker_count : ℕ
verify_worker_count = 10

-- A goroutine: before the call for the card number, and before that for the security code.
pub data Check : Type 0 where
  at_pan : CardRecord → EncryptedRecord → Check
  at_cvv : CardRecord → EncryptedRecord → Field → Check

abbrev pub card_of : Check → CardRecord
card_of (at_pan c r) = c
card_of (at_cvv c r pan) = c

pub record Gathering (D : Type 0) : Type 0 where
  pub pending : List CardRecord  -- the cards that the loop has not reached
  pub running : List Check  -- the goroutines, each with a place of the semaphore
  pub late : List Check  -- calls that nobody waits for
  pub channel : List VerificationRecord
  pub results : List VerificationRecord
  pub world : World D

abbrev pub gathering : {D : Type 0} → List CardRecord → World D → Gathering D
gathering cards w = record {
  pending = cards;
  running = [];
  late = [];
  channel = [];
  results = [];
  world = w;
}

module _ {D : Type 0} (client : KmsClient D) (token : Bytes) (rows : Rows) where
  -- The world after the next call of a goroutine.
  unfoldable pub after_call : Check → World D → World D
  after_call (at_pan c r) w = (verify_field client token c.card_no r.encrypted_pan w).1
  after_call (at_cvv c r pan) w = (verify_field client token c.cvv r.encrypted_cvv w).1

  pub data Step (p q : Gathering D) : Type 0 where
    missing :
        (c : CardRecord) (rest : List CardRecord)
        → p.pending ≡ c ∷ rest
        → rows c.id ≡ none
        → q ≡ record p { pending = rest; channel = p.channel ++ not_verified not_found c ∷ [] }
        → Step p q
    launch :
        (c : CardRecord) (rest : List CardRecord) (r : EncryptedRecord)
        → p.pending ≡ c ∷ rest
        → rows c.id ≡ some r
        → length p.running < verify_worker_count
        → q ≡ record p { pending = rest; running = at_pan c r ∷ p.running }
        → Step p q
    check_pan :
        (before : List Check) (c : CardRecord) (r : EncryptedRecord) (after : List Check)
        (found : Field) (w : World D)
        → p.running ≡ before ++ at_pan c r ∷ after
        → verify_field client token c.card_no r.encrypted_pan p.world ≡ (found, w)
        → q ≡ record p { running = before ++ at_cvv c r found ∷ after; world = w }
        → Step p q
    check_cvv :
        (before : List Check) (c : CardRecord) (r : EncryptedRecord) (pan : Field)
        (after : List Check) (found : Field) (w : World D)
        → p.running ≡ before ++ at_cvv c r pan ∷ after
        → verify_field client token c.cvv r.encrypted_cvv p.world ≡ (found, w)
        → q ≡ record p {
          running = before ++ after;
          channel = p.channel ++ verification_of c r pan found ∷ [];
          world = w;
        }
        → Step p q
    time_out :
        (before : List Check) (t : Check) (after : List Check)
        → p.running ≡ before ++ t ∷ after
        → q ≡ record p {
          running = before ++ after;
          late = t ∷ p.late;
          channel = p.channel ++ not_verified timed_out (card_of t) ∷ [];
        }
        → Step p q
    late_call :
        (before : List Check) (t : Check) (after : List Check)
        → p.late ≡ before ++ t ∷ after
        → q ≡ record p { late = before ++ after; world = after_call t p.world }
        → Step p q
    collect :
        (v : VerificationRecord) (rest : List VerificationRecord)
        → p.channel ≡ v ∷ rest
        → q ≡ record p { channel = rest; results = p.results ++ v ∷ [] }
        → Step p q

-- The collector has all records, or the channel is closed.
pub record IsGathered {D : Type 0} (p : Gathering D) : Type 0 where
  pub pending : p.pending ≡ []
  pub running : p.running ≡ []
  pub channel : p.channel ≡ []
