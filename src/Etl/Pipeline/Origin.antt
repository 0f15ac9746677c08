-- ===== src/Etl/Pipeline/Origin.antt =====
-- What becomes of each card of the source.
use kms_golang.Base.{
  Run, here, next, Bytes, List, [], ◌∷◌, ◌++◌, Option, none, some, Result, ok, err, panic, All,
  All-append, All-split, ◌≡◌, refl, sym,
}
use mathlib.Core.Path.{subst}
use kms_golang.Go.World.{World}
use kms_golang.Proto.{EncryptResponse}
use kms_golang.Client.{KmsClient}
use kms_golang.Etl.{CardRecord, outgoing, scanned}
use kms_golang.Etl.Encrypt.{IsEncryption, IsMade}
use kms_golang.Etl.Insert.{Exec}
use kms_golang.Etl.Pairing.Loaded.{Among, IsFrom, All-Among}
use kms_golang.Etl.Pipeline.{
  Task, fresh, half, ready, Pipeline, started, after_pan, after_cvv, settle, plain, Step, skip,
  feed, take, call_pan, call_cvv, send, collect, finish, delivered_by, delivered,
}

module _ {D : Type 0} (client : KmsClient D) (token : Bytes) (exec : Exec D) (driver : Bytes)
    (all : List CardRecord) where
  abbrev Source : CardRecord → Type 0
  Source c = Among c all

  -- What a worker holds comes from a card of the source.
  abbrev IsTask : Task → Type 0
  IsTask (fresh c) = Source c
  IsTask (half c pan) = Source c × IsEncryption client token c.card_no pan
  IsTask (ready c sent) = Source c × IsMade client token c sent

  abbrev Held : Option Task → Type 0
  Held none = Unit
  Held (some t) = IsTask t

  record IsHonest (p : Pipeline D) : Type 0 where
    unread : All Source (scanned p.unread)
    jobs : All Source p.jobs
    busy : All IsTask p.busy
    results : All (IsFrom client token all) p.results

  after_pan-Held :
      (c : CardRecord) (x : Result EncryptResponse) (w w' : World D)
      → Source c
      → client.encrypt (outgoing token) (plain c.card_no) w ≡ (x, w')
      → Held (after_pan c x)
  unfolding after_pan
  after_pan-Held c (ok pan) w w' mine called = (mine, (w, w', called))
  after_pan-Held c (err e) w w' mine called = tt
  after_pan-Held c (panic s) w w' mine called = tt

  after_cvv-Held :
      (c : CardRecord) (pan : EncryptResponse) (x : Result EncryptResponse) (w w' : World D)
      → IsTask (half c pan)
      → client.encrypt (outgoing token) (plain c.cvv) w ≡ (x, w')
      → Held (after_cvv c pan x)
  unfolding after_cvv
  after_cvv-Held c pan (ok cvv) w w' (mine, first) called =
      (mine, (pan, cvv, first, (w, w', called), refl))
  after_cvv-Held c pan (err e) w w' held called = tt
  after_cvv-Held c pan (panic s) w w' held called = tt

  settle-IsHonest :
      (p : Pipeline D) (before after : List Task) (held : Option Task) (w : World D)
      → IsHonest p
      → All IsTask before
      → All IsTask after
      → Held held
      → IsHonest (settle p before after held w)
  settle-IsHonest p before after none w h hb ha good = record {
    unread = h.unread;
    jobs = h.jobs;
    busy = All-append IsTask before after hb ha;
    results = h.results;
  }
  settle-IsHonest p before after (some t) w h hb ha good = record {
    unread = h.unread;
    jobs = h.jobs;
    busy = All-append IsTask before (t ∷ after) hb (good, ha);
    results = h.results;
  }

  split_busy :
      (p : Pipeline D) (before : List Task) (t : Task) (after : List Task)
      → p.busy ≡ before ++ t ∷ after
      → IsHonest p
      → All IsTask before × IsTask t × All IsTask after
  split_busy p before t after e h = All-split IsTask before after (subst (All IsTask) e h.busy)

  Step-IsHonest :
      {p q : Pipeline D}
      → (st : Step client token exec driver p q) → IsHonest p
      → IsHonest q × All (IsFrom client token all) (delivered_by client token exec driver st)
  Step-IsHonest {p} (skip rest e same) h = (
    subst IsHonest (sym same) (record {
      unread = subst (λ rows. All Source (scanned rows)) e h.unread;
      jobs = h.jobs;
      busy = h.busy;
      results = h.results;
    }),
    tt,
  )
  Step-IsHonest {p} (feed c rest e room same) h =
      let (mine, others) = subst (λ rows. All Source (scanned rows)) e h.unread in
      (
        subst IsHonest (sym same) (record {
          unread = others;
          jobs = All-append Source p.jobs (c ∷ []) h.jobs (mine, tt);
          busy = h.busy;
          results = h.results;
        }),
        tt,
      )
  Step-IsHonest {p} (take c rest e room same) h =
      let (mine, others) = subst (All Source) e h.jobs in
      (
        subst IsHonest (sym same) (record {
          unread = h.unread;
          jobs = others;
          busy = (mine, h.busy);
          results = h.results;
        }),
        tt,
      )
  Step-IsHonest {p} (call_pan before c after x w e called same) h =
      let (hb, mine, ha) = split_busy p before (fresh c) after e h in
      (
        subst IsHonest (sym same) (
            settle-IsHonest p before after (after_pan c x) w h hb ha
              (after_pan-Held c x p.writer.counters.world w mine called)),
        tt,
      )
  Step-IsHonest {p} (call_cvv before c pan after x w e called same) h =
      let (hb, mine, ha) = split_busy p before (half c pan) after e h in
      (
        subst IsHonest (sym same) (
            settle-IsHonest p before after (after_cvv c pan x) w h hb ha
              (after_cvv-Held c pan x p.writer.counters.world w mine called)),
        tt,
      )
  Step-IsHonest {p} (send before c sent after e room same) h =
      let (hb, (mine, made), ha) = split_busy p before (ready c sent) after e h in
      (
        subst IsHonest (sym same) (record {
          unread = h.unread;
          jobs = h.jobs;
          busy = All-append IsTask before after hb ha;
          results =
              All-append (IsFrom client token all) p.results (sent ∷ []) h.results
                ((c, mine, made), tt);
        }),
        tt,
      )
  Step-IsHonest {p} (collect sent rest e same) h =
      let (mine, others) = subst (All (IsFrom client token all)) e h.results in
      (
        subst IsHonest (sym same)
            (record { unread = h.unread; jobs = h.jobs; busy = h.busy; results = others }),
        (mine, tt),
      )
  Step-IsHonest {p} (finish u j b r not_ended same) h = (
    subst IsHonest (sym same)
        (record { unread = h.unread; jobs = h.jobs; busy = h.busy; results = h.results }),
    tt,
  )

  Run-IsHonest :
      {p q : Pipeline D} (run : Run (Step client token exec driver) p q)
      → IsHonest p
      → IsHonest q × All (IsFrom client token all) (delivered client token exec driver run)
  Run-IsHonest here h = (h, tt)
  Run-IsHonest (next run st) h =
      let (before, rows) = Run-IsHonest run h in
      let (after, new_rows) = Step-IsHonest st before in
      (
        after,
        All-append (IsFrom client token all) (delivered client token exec driver run)
            (delivered_by client token exec driver st) rows new_rows,
      )

module _ {D : Type 0} (client : KmsClient D) (token : Bytes) (exec : Exec D) (driver : Bytes)
    (rows : List (Option CardRecord)) (w : World D) where
  -- Every row that the writer receives was made of a card of the source: it holds the responses of
  -- the service to that card's number and to its security code, and its identifier and other data.
  pub Run-IsFrom :
      {p : Pipeline D} (run : Run (Step client token exec driver) (started rows w) p)
      → All (IsFrom client token (scanned rows)) (delivered client token exec driver run)
  Run-IsFrom run =
      (Run-IsHonest client token exec driver (scanned rows) run (record {
        unread = All-Among (scanned rows) (scanned rows) (λ c h. h);
        jobs = tt;
        busy = tt;
        results = tt;
      })).1

  -- The same for a list that holds the cards of the source.
  pub Run-IsFrom_within :
      (cards : List CardRecord) {p : Pipeline D}
      (run : Run (Step client token exec driver) (started rows w) p)
      → All (λ c. Among c cards) (scanned rows)
      → All (IsFrom client token cards) (delivered client token exec driver run)
  Run-IsFrom_within cards run inside =
      (Run-IsHonest client token exec driver cards run
        (record { unread = inside; jobs = tt; busy = tt; results = tt })).1
