-- ===== src/Etl/Pipeline/Progress.antt =====
-- The job comes to an end, however its goroutines are scheduled.
use kms_golang.Base.{
  Run, steps, runs_end, ℕ, ◌+◌, ◌*◌, ◌<◌, ◌≤◌, Bytes, List, [], ◌∷◌, ◌++◌, Bool, true, false,
  Option, none, some, Result, ok, err, panic, length, length-append, Bool-cases, ◌⊎◌, inl, inr, ◌≡◌,
  refl, ap, arith,
}
use kms_golang.Go.World.{World}
use kms_golang.Proto.{EncryptResponse}
use kms_golang.Client.{KmsClient}
use kms_golang.Etl.{CardRecord, EncryptedRecord}
use kms_golang.Etl.Insert.{Exec}
use kms_golang.Etl.Pipeline.{
  Task, fresh, half, ready, Pipeline, started, after_pan, after_cvv, settle, channel_size, Step,
  skip, feed, take, call_pan, call_cvv, send, collect, finish,
}

-- How many steps a worker, and the whole job, can still make.
abbrev pub task_work : Task → ℕ
task_work (fresh r) = 4
task_work (half r pan) = 3
task_work (ready r sent) = 2

abbrev pub tasks_work : List Task → ℕ
tasks_work [] = 0
tasks_work (t ∷ busy) = task_work t + tasks_work busy

abbrev pub held_work : Option Task → ℕ
held_work none = 0
held_work (some t) = task_work t

-- The writer's last flush.
abbrev left_for : Bool → ℕ
left_for true = 0
left_for false = 1

abbrev pub work : {D : Type 0} → Pipeline D → ℕ
work p =
    6 * length p.unread
    + 5 * length p.jobs
    + tasks_work p.busy
    + length p.results
    + left_for p.ended

tasks_work-append :
    (front back : List Task) → tasks_work (front ++ back) ≡ tasks_work front + tasks_work back
tasks_work-append [] back = omega arith
tasks_work-append (t ∷ front) back = omega (arith, tasks_work-append front back)

settle-work :
    {D : Type 0} (p : Pipeline D) (before after : List Task) (t : Task) (held : Option Task)
    (w : World D)
    → p.busy ≡ before ++ t ∷ after
    → held_work held < task_work t
    → work (settle p before after held w) < work p
settle-work p before after t none w e less =
    omega
      (arith, ap tasks_work e, tasks_work-append before (t ∷ after), tasks_work-append before after)
settle-work p before after t (some u) w e less = omega (
  arith,
  ap tasks_work e,
  tasks_work-append before (t ∷ after),
  tasks_work-append before (u ∷ after),
)

after_pan-work : (r : CardRecord) (x : Result EncryptResponse) → held_work (after_pan r x) < 4
unfolding after_pan
after_pan-work r (ok pan) = omega arith
after_pan-work r (err e) = omega arith
after_pan-work r (panic s) = omega arith

after_cvv-work :
    (r : CardRecord) (pan : EncryptResponse) (x : Result EncryptResponse)
    → held_work (after_cvv r pan x) < 3
unfolding after_cvv
after_cvv-work r pan (ok cvv) = omega arith
after_cvv-work r pan (err e) = omega arith
after_cvv-work r pan (panic s) = omega arith

module _ {D : Type 0} (client : KmsClient D) (token : Bytes) (exec : Exec D) (driver : Bytes) where
  abbrev Next : Pipeline D → Pipeline D → Type 0
  Next = Step client token exec driver

  -- Every step does a part of the work.
  Step-work : {p q : Pipeline D} → Next p q → work q < work p
  Step-work {p} (skip rest e same) = rw same (omega (arith, ap length e))
  Step-work {p} (feed r rest e room same) =
      rw same (omega (arith, ap length e, length-append p.jobs (r ∷ [])))
  Step-work {p} (take r rest e room same) = rw same (omega (arith, ap length e))
  Step-work {p} (call_pan before r after x w e called same) =
      rw same (settle-work p before after (fresh r) (after_pan r x) w e (after_pan-work r x))
  Step-work {p} (call_cvv before r pan after x w e called same) =
      rw same
        (settle-work p before after (half r pan) (after_cvv r pan x) w e (after_cvv-work r pan x))
  Step-work {p} (send before r sent after e room same) = rw same (
      omega (
        arith,
        ap tasks_work e,
        tasks_work-append before (ready r sent ∷ after),
        tasks_work-append before after,
        length-append p.results (sent ∷ []),
      ))
  Step-work {p} (collect sent rest e same) = rw same (omega (arith, ap length e))
  Step-work {p} (finish _ _ _ _ not_ended same) =
      rw same (let one : left_for p.ended ≡ 1 = ap left_for not_ended in omega (arith, one))

  -- A worker that holds a card goes on, unless it waits for a full channel.
  worker_goes :
      (p : Pipeline D) (t : Task) (rest : List Task)
      → p.busy ≡ t ∷ rest
      → length p.results < channel_size
      → (q : Pipeline D) × Next p q
  worker_goes p (fresh r) rest e room = (_, call_pan [] r rest _ _ e refl refl)
  worker_goes p (half r pan) rest e room = (_, call_cvv [] r pan rest _ _ e refl refl)
  worker_goes p (ready r sent) rest e room = (_, send [] r sent rest e room refl)

  feeder_goes :
      (p : Pipeline D) (row : Option CardRecord) (rest : List (Option CardRecord))
      → p.unread ≡ row ∷ rest
      → length p.jobs < channel_size
      → (q : Pipeline D) × Next p q
  feeder_goes p none rest e room = (_, skip rest e refl)
  feeder_goes p (some r) rest e room = (_, feed r rest e room refl)

  -- No deadlock: a job that has not ended can go on.
  pub Step_exists : (p : Pipeline D) → p.ended ≡ false → (q : Pipeline D) × Next p q
  Step_exists p not_ended = go p.results p.busy p.jobs p.unread refl refl refl refl
    where
      go :
          (results : List EncryptedRecord) (busy : List Task) (jobs : List CardRecord)
          (unread : List (Option CardRecord))
          → p.results ≡ results
          → p.busy ≡ busy
          → p.jobs ≡ jobs
          → p.unread ≡ unread
          → (q : Pipeline D) × Next p q
      go (sent ∷ rest) busy jobs unread e b j u = (_, collect sent rest e refl)
      go [] (t ∷ rest) jobs unread e b j u =
          worker_goes p t rest b (let n = ap length e in omega (arith, n))
      go [] [] (r ∷ rest) unread e b j u =
          (_, take r rest j (let n = ap length b in omega (arith, n)) refl)
      go [] [] [] (row ∷ rest) e b j u =
          feeder_goes p row rest u (let n = ap length j in omega (arith, n))
      go [] [] [] [] e b j u = (_, finish u j b e not_ended refl)

  ended_or_step : (p : Pipeline D) → (p.ended ≡ true) ⊎ ((q : Pipeline D) × Next p q)
  ended_or_step p = elim (Bool-cases p.ended) [
    | inl closed ↦ inl closed
    | inr not_ended ↦ inr (Step_exists p not_ended)
  ]

  -- However the goroutines have been scheduled so far, and whatever the service and the database
  -- answer, the job can go on until the writer returns, and then it has made at most six steps for
  -- each row of the source and one more. It is never stuck and never runs forever.
  pub Run_ends :
      (rows : List (Option CardRecord)) (w : World D) {p : Pipeline D}
      (run : Run (Step client token exec driver) (started rows w) p)
      → (last : Pipeline D) × (rest : Run (Step client token exec driver) p last) × (last.ended
          ≡ true)
        × (steps run + steps rest ≤ 6 * length rows + 1)
  Run_ends rows w run =
      let (last, rest, closed, few) =
        runs_end work (λ p q. Step-work) (λ p. p.ended ≡ true) ended_or_step run in
      (last, rest, closed, omega (arith, few))
