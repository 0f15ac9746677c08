-- ===== src/Etl/Writer.antt =====
-- `batchWriter`: the rows that the workers send are collected into batches of at most 500, and a
-- batch is inserted when it is full and when the channel is closed. The counters are shared with the
-- workers and wrap at 2 ^ 64.
pub mod Order
use kms_golang.Base.{
  ℕ, ◌+◌, ◌^◌, ◌<◌, ◌≤◌, Bytes, List, [], ◌∷◌, ◌++◌, leb, if◌then◌else◌, Option, none, some, Error,
  length, length-append, Bool-cases, inl, inr, All, ◌≡◌, refl, sym, ap, arith, append_assoc,
  append-nil, ◌∙◌,
}
use kms_golang.Go.World.{World}
use kms_golang.Etl.{EncryptedRecord, add_u64}
use kms_golang.Etl.Insert.{Exec, insert_batch}

abbrev pub batch_size : ℕ
batch_size = 500

-- `processedCount`, `errorCount` and the world with the database.
pub record Counters (D : Type 0) : Type 0 where
  pub processed : ℕ
  pub errors : ℕ
  pub world : World D

pub record Writer (D : Type 0) : Type 0 where
  pub batch : List EncryptedRecord
  pub counters : Counters D

count_batch : {D : Type 0} → ℕ → Counters D → Option Error × World D → Counters D
count_batch n c (some e, w) = record {
  processed = c.processed;
  errors = add_u64 c.errors n;
  world = w;
}
count_batch n c (none, w) = record {
  processed = add_u64 c.processed n;
  errors = c.errors;
  world = w;
}

count_batch_sum :
    {D : Type 0} (n : ℕ) (c : Counters D) (x : Option Error × World D)
    → c.processed + c.errors + n < 2 ^ 64
    → (count_batch n c x).processed + (count_batch n c x).errors ≡ c.processed + c.errors + n
unfolding count_batch
count_batch_sum n c (some e, w) fits = omega arith
count_batch_sum n c (none, w) fits = omega arith

module _ {D : Type 0} (exec : Exec D) (driver : Bytes) where
  -- What `flush` does with the counters.
  unfoldable pub insert_counted : List EncryptedRecord → Counters D → Counters D
  unfolding insert_batch count_batch
  insert_counted [] c = c
  insert_counted (r ∷ batch) c =
      count_batch (length (r ∷ batch)) c (insert_batch exec driver (r ∷ batch) c.world)

  unfoldable pub flush : Writer D → Writer D
  unfolding insert_counted
  flush s = record { batch = []; counters = insert_counted s.batch s.counters }

  unfoldable flush_if_full : Writer D → Writer D
  unfolding flush
  flush_if_full s = if leb batch_size (length s.batch) then flush s else s

  unfoldable pub receive : EncryptedRecord → Writer D → Writer D
  unfolding flush_if_full
  receive r s = flush_if_full (record { batch = s.batch ++ r ∷ []; counters = s.counters })

  unfoldable pub receive_all : List EncryptedRecord → Writer D → Writer D
  unfolding receive
  receive_all [] s = s
  receive_all (r ∷ results) s = receive_all results (receive r s)

  unfoldable pub batch_writer : List EncryptedRecord → Counters D → Counters D
  unfolding receive_all flush
  batch_writer results c =
      (flush (receive_all results (record { batch = []; counters = c }))).counters

  insert_counted_sum :
      (batch : List EncryptedRecord) (c : Counters D)
      → c.processed + c.errors + length batch < 2 ^ 64
      → (insert_counted batch c).processed + (insert_counted batch c).errors
        ≡ c.processed + c.errors + length batch
  unfolding insert_counted
  insert_counted_sum [] c fits = omega arith
  insert_counted_sum (r ∷ batch) c fits =
      count_batch_sum (length (r ∷ batch)) c (insert_batch exec driver (r ∷ batch) c.world) fits

  abbrev pub seen : Writer D → ℕ
  seen s = s.counters.processed + s.counters.errors + length s.batch

  pub flush-seen : (s : Writer D) → seen s < 2 ^ 64 → seen (flush s) ≡ seen s
  unfolding flush
  flush-seen s fits = omega (arith, insert_counted_sum s.batch s.counters fits)

  flush_if_full-seen : (s : Writer D) → seen s < 2 ^ 64 → seen (flush_if_full s) ≡ seen s
  unfolding flush_if_full
  flush_if_full-seen s fits = ground (arith, flush-seen s fits)

  pub receive-seen :
      (r : EncryptedRecord) (s : Writer D) → seen s + 1 < 2 ^ 64 → seen (receive r s) ≡ seen s + 1
  unfolding receive
  receive-seen r s fits =
      let grown = length-append s.batch (r ∷ []) in
      omega (
        arith,
        flush_if_full-seen (record { batch = s.batch ++ r ∷ []; counters = s.counters })
            (omega (arith, grown)),
        grown,
      )

  receive_all-seen :
      (results : List EncryptedRecord) (s : Writer D)
      → seen s + length results < 2 ^ 64
      → seen (receive_all results s) ≡ seen s + length results
  unfolding receive_all
  receive_all-seen [] s fits = omega arith
  receive_all-seen (r ∷ results) s fits =
      let one = receive-seen r s (omega arith) in
      omega (arith, receive_all-seen results (receive r s) (omega (arith, one)), one)

  -- Every row that the writer receives is counted once, as processed or as an error, whatever the
  -- database answers, as long as the counters together stay below 2 ^ 64.
  pub batch_writer_accounts :
      (results : List EncryptedRecord) (c : Counters D)
      → c.processed + c.errors + length results < 2 ^ 64
      → (batch_writer results c).processed + (batch_writer results c).errors
        ≡ c.processed + c.errors + length results
  unfolding batch_writer flush
  batch_writer_accounts results c fits =
      let start : Writer D = record { batch = []; counters = c } in
      let all = receive_all-seen results start (omega arith) in
      omega (arith, flush-seen (receive_all results start) (omega (arith, all)), all)

  -- The buffer never holds a full batch between two rows.
  pub receive-few :
      (r : EncryptedRecord) (s : Writer D)
      → length s.batch < batch_size
      → length (receive r s).batch < batch_size
  unfolding receive flush_if_full flush
  receive-few r s few = ground (arith, length-append s.batch (r ∷ []))
