-- ===== src/Etl/Pipeline/Accounts.antt =====
-- What the counters of the job say at its end, by an invariant of its steps on the cards, the channels,
-- the workers and the buffer.
use kms_golang.Base.{
  Run, Run-keeps, ℕ, ◌+◌, ◌^◌, ◌<◌, ◌≤◌, Bytes, List, [], ◌∷◌, ◌++◌, true, Option, none, some,
  length, length-append, ◌≡◌, refl, ap, arith,
}
use kms_golang.Go.World.{World}
use kms_golang.Client.{KmsClient}
use kms_golang.Etl.{CardRecord, scanned}
use kms_golang.Etl.Insert.{Exec}
use kms_golang.Etl.Writer.{Writer, batch_size, seen, flush, receive-seen, receive-few, flush-seen}
use kms_golang.Etl.Pipeline.{
  Task, Pipeline, started, settle, after_pan, after_cvv, fresh, half, ready, channel_size,
  worker_count, Step, skip, feed, take, call_pan, call_cvv, send, collect, finish,
}

-- The cards that are still to be read, in a channel, or with a worker.
abbrev pub on_the_way : {D : Type 0} → Pipeline D → ℕ
on_the_way p = length (scanned p.unread) + length p.jobs + length p.busy + length p.results

module _ {D : Type 0} (client : KmsClient D) (token : Bytes) (exec : Exec D) (driver : Bytes) where
  pub record IsPipeline (n : ℕ) (p : Pipeline D) : Type 0 where
    pub accounted : on_the_way p + seen exec driver p.writer ≡ n
    pub jobs_few : length p.jobs ≤ channel_size
    pub busy_few : length p.busy ≤ worker_count
    pub results_few : length p.results ≤ channel_size
    pub batch_few : length p.writer.batch < batch_size
    pub drained : p.ended ≡ true → on_the_way p + length p.writer.batch ≡ 0

  started-IsPipeline :
      (rows : List (Option CardRecord)) (w : World D)
      → IsPipeline (length (scanned rows)) (started rows w)
  started-IsPipeline rows w = record {
    accounted = omega arith;
    jobs_few = omega arith;
    busy_few = omega arith;
    results_few = omega arith;
    batch_few = omega arith;
    drained = λ h. absurd (ground (arith, h));
  }

  split_length :
      (before : List Task) (t : Task) (after : List Task)
      → length (before ++ t ∷ after) ≡ length (before ++ after) + 1
  split_length before t after =
      omega (arith, length-append before (t ∷ after), length-append before after)

  settle-IsPipeline :
      {n : ℕ} (p : Pipeline D) (before : List Task) (t : Task) (after : List Task)
      (held : Option Task) (w : World D)
      → n < 2 ^ 64
      → p.busy ≡ before ++ t ∷ after
      → IsPipeline n p
      → IsPipeline n (settle p before after held w)
  settle-IsPipeline p before t after none w fits e h =
      let size = ap length e in
      let cut = split_length before t after in
      record {
        accounted = omega (arith, h.accounted, size, cut);
        jobs_few = h.jobs_few;
        busy_few = omega (arith, h.busy_few, size, cut);
        results_few = h.results_few;
        batch_few = h.batch_few;
        drained = λ closed. omega (arith, h.drained closed, size, cut);
      }
  settle-IsPipeline p before t after (some u) w fits e h =
      let size = ap length e in
      let cut = split_length before t after in
      let new_cut = split_length before u after in
      record {
        accounted = omega (arith, h.accounted, size, cut, new_cut);
        jobs_few = h.jobs_few;
        busy_few = omega (arith, h.busy_few, size, cut, new_cut);
        results_few = h.results_few;
        batch_few = h.batch_few;
        drained = λ closed. omega (arith, h.drained closed, size, cut, new_cut);
      }

  length-flush : (s : Writer D) → length (flush exec driver s).batch ≡ 0
  unfolding flush
  length-flush s = refl

  Step-IsPipeline :
      {n : ℕ} {p q : Pipeline D}
      → n < 2 ^ 64
      → Step client token exec driver p q
      → IsPipeline n p
      → IsPipeline n q
  Step-IsPipeline {p} fits (skip rest e same) h =
      let size = ap (λ rows. length (scanned rows)) e in
      rw same (record {
        accounted = omega (arith, h.accounted, size);
        jobs_few = h.jobs_few;
        busy_few = h.busy_few;
        results_few = h.results_few;
        batch_few = h.batch_few;
        drained = λ closed. omega (arith, h.drained closed, size);
      })
  Step-IsPipeline {p} fits (feed r rest e room same) h =
      let size = ap (λ rows. length (scanned rows)) e in
      let longer = length-append p.jobs (r ∷ []) in
      rw same (record {
        accounted = omega (arith, h.accounted, size, longer);
        jobs_few = omega (arith, longer);
        busy_few = h.busy_few;
        results_few = h.results_few;
        batch_few = h.batch_few;
        drained = λ closed. omega (arith, h.drained closed, size, longer);
      })
  Step-IsPipeline {p} fits (take r rest e room same) h =
      let size = ap length e in
      rw same (record {
        accounted = omega (arith, h.accounted, size);
        jobs_few = omega (arith, h.jobs_few, size);
        busy_few = omega arith;
        results_few = h.results_few;
        batch_few = h.batch_few;
        drained = λ closed. omega (arith, h.drained closed, size);
      })
  Step-IsPipeline {p} fits (call_pan before r after x w e called same) h =
      rw same (settle-IsPipeline p before (fresh r) after (after_pan r x) w fits e h)
  Step-IsPipeline {p} fits (call_cvv before r pan after x w e called same) h =
      rw same (settle-IsPipeline p before (half r pan) after (after_cvv r pan x) w fits e h)
  Step-IsPipeline {p} fits (send before r sent after e room same) h =
      let size = ap length e in
      let cut = split_length before (ready r sent) after in
      let longer = length-append p.results (sent ∷ []) in
      rw same (record {
        accounted = omega (arith, h.accounted, size, cut, longer);
        jobs_few = h.jobs_few;
        busy_few = omega (arith, h.busy_few, size, cut);
        results_few = omega (arith, longer);
        batch_few = h.batch_few;
        drained = λ closed. omega (arith, h.drained closed, size, cut, longer);
      })
  Step-IsPipeline {p} fits (collect sent rest e same) h =
      let size = ap length e in
      let counted = receive-seen exec driver sent p.writer (omega (arith, h.accounted, size)) in
      rw same (record {
        accounted = omega (arith, h.accounted, size, counted);
        jobs_few = h.jobs_few;
        busy_few = h.busy_few;
        results_few = omega (arith, h.results_few, size);
        batch_few = receive-few exec driver sent p.writer h.batch_few;
        drained = λ closed. absurd (omega (arith, h.drained closed, size));
      })
  Step-IsPipeline {p} fits (finish u j b r not_ended same) h =
      let rows = ap (λ rows. length (scanned rows)) u in
      let jobs = ap length j in
      let busy = ap length b in
      let results = ap length r in
      let counted = flush-seen exec driver p.writer (omega (arith, h.accounted)) in
      let empty : length (flush exec driver p.writer).batch ≡ 0 = length-flush p.writer in
      rw same (record {
        accounted = omega (arith, h.accounted, counted);
        jobs_few = h.jobs_few;
        busy_few = h.busy_few;
        results_few = h.results_few;
        batch_few = omega (arith, empty);
        drained = λ closed. omega (arith, empty, rows, jobs, busy, results);
      })

  Run-IsPipeline :
      {n : ℕ} {p q : Pipeline D}
      → n < 2 ^ 64
      → Run (Step client token exec driver) p q
      → IsPipeline n p
      → IsPipeline n q
  Run-IsPipeline {n} fits = Run-keeps (IsPipeline n) (λ p q. Step-IsPipeline fits)

  -- When the writer has returned, nothing is left.
  pub Run-drained :
      (rows : List (Option CardRecord)) (w : World D) {p : Pipeline D}
      → length (scanned rows) < 2 ^ 64
      → Run (Step client token exec driver) (started rows w) p
      → p.ended ≡ true
      → on_the_way p ≡ 0
  Run-drained rows w fits run closed =
      let h = Run-IsPipeline fits run (started-IsPipeline rows w) in omega (arith, h.drained closed)

  -- However the goroutines are scheduled and whatever fails: when the writer has returned, the two
  -- counters together are the number of cards that were scanned, if that is below 2 ^ 64.
  pub Run-counted :
      (rows : List (Option CardRecord)) (w : World D) {p : Pipeline D}
      → length (scanned rows) < 2 ^ 64
      → Run (Step client token exec driver) (started rows w) p
      → p.ended ≡ true
      → p.writer.counters.processed + p.writer.counters.errors ≡ length (scanned rows)
  Run-counted rows w fits run closed =
      let h = Run-IsPipeline fits run (started-IsPipeline rows w) in
      omega (arith, h.accounted, h.drained closed)
