-- ===== src/Http/Batch/Pool.antt =====
-- The workers of a batch, as a step relation: any of them may take the next item of the channel, if
-- it is not busy, and any call under way may end. `f i` is what the call for item `i` returns in the
-- run that is looked at: there is one call for each item.
use kms_golang.Base.{
  Run, here, next, steps, Run-keeps, runs_end, appended, Bool-cases, ◌⊎◌, inl, inr, ℕ, zero, suc,
  ◌+◌, ◌*◌, ◌<◌, ◌≤◌, List, [], ◌∷◌, ◌++◌, length, length-append, map, count, count-append,
  Enumerates, one_if, ltb, leb, ◌&&◌, ap, sym, ◌∙◌, ◌≡◌, refl, arith,
}
use mathlib.Core.List.{map-append}
use kms_golang.Http.Batch.{Outcome}

pub record Pool : Type 0 where
  pub queue : List ℕ  -- the items left in workChan
  pub busy : List ℕ  -- the items that a worker holds
  pub done : List (ℕ × Outcome)  -- what resultChan has received

-- `workers` is the number of goroutines.
pub data Step (workers : ℕ) (f : ℕ → Outcome) (p q : Pool) : Type 0 where
  take :
      (i : ℕ) (rest : List ℕ)
      → p.queue ≡ i ∷ rest
      → length p.busy < workers
      → q ≡ record { queue = rest; busy = i ∷ p.busy; done = p.done }
      → Step workers f p q
  finish :
      (before : List ℕ) (i : ℕ) (after : List ℕ)
      → p.busy ≡ before ++ i ∷ after
      → q ≡ record { queue = p.queue; busy = before ++ after; done = p.done ++ (i, f i) ∷ [] }
      → Step workers f p q

-- The pool when all `n` items have been sent and no worker has started.
abbrev pub indices : ℕ → ℕ → List ℕ
indices k zero = []
indices k (suc n) = k ∷ indices (suc k) n

abbrev pub filled : ℕ → Pool
filled n = record { queue = indices 0 n; busy = []; done = [] }

abbrev pub ended : Pool → List ℕ
ended p = map (λ x. x.0) p.done

-- The work left: two steps for an item in the channel, one for a call under way.
abbrev pub work : Pool → ℕ
work p = 2 * length p.queue + length p.busy

-- What holds of the pool at every moment: each item stands once in the channel, with a worker or
-- among the results, each result is that of its item's call, and no more workers are busy than there
-- are.
pub record IsPool (workers : ℕ) (f : ℕ → Outcome) (n : ℕ) (p : Pool) : Type 0 where
  pub once : (j : ℕ) → count j p.queue + count j p.busy + count j (ended p) ≡ one_if (ltb j n)
  pub own : p.done ≡ map (λ i. (i, f i)) (ended p)
  pub few : length p.busy ≤ workers

count-indices : (j k n : ℕ) → count j (indices k n) ≡ one_if (leb k j && ltb j (k + n))
count-indices j k zero = ground arith
count-indices j k (suc n) = ground (arith, count-indices j (suc k) n)

filled-IsPool : (workers : ℕ) (f : ℕ → Outcome) (n : ℕ) → IsPool workers f n (filled n)
filled-IsPool workers f n = record {
  once = λ j. ground (arith, count-indices j 0 n);
  own = refl;
  few = omega arith;
}

map-append_one :
    (f : ℕ → Outcome) (done : List (ℕ × Outcome)) (i : ℕ)
    → map (λ x. x.0) (done ++ (i, f i) ∷ []) ≡ map (λ x. x.0) done ++ i ∷ []
map-append_one f [] i = refl
map-append_one f (x ∷ done) i = ap (λ r. x.0 ∷ r) (map-append_one f done i)

module _ {workers : ℕ} {f : ℕ → Outcome} {n : ℕ} where
  Step-IsPool : {p q : Pool} → Step workers f p q → IsPool workers f n p → IsPool workers f n q
  Step-IsPool {p} (take i rest e room same) h =
      let queue = λ (j : ℕ). ap (count j) e in
      rw same
        (record { once = λ j. omega (arith, queue j, h.once j); own = h.own; few = omega arith })
  Step-IsPool {p} (finish before i after e same) h =
      let busy = λ (j : ℕ). ap (count j) e in
      let moved = λ (j : ℕ). ap (count j) (map-append_one f p.done i) in
      let size = ap length e in
      rw same (record {
        once = λ j. omega (
          arith,
          busy j,
          moved j,
          h.once j,
          count-append j before after,
          count-append j before (i ∷ after),
          count-append j (ended p) (i ∷ []),
        );
        own = rw (map-append_one f p.done i) (
            ap (λ d. d ++ (i, f i) ∷ []) h.own
            ∙ sym (map-append (λ k. (k, f k)) (ended p) (i ∷ [])));
        few =
            omega
              (arith, size, h.few, length-append before after, length-append before (i ∷ after));
      })

  Run-IsPool : {p q : Pool} → Run (Step workers f) p q → IsPool workers f n p → IsPool workers f n q
  Run-IsPool = Run-keeps (IsPool workers f n) (λ p q. Step-IsPool)

module _ {workers : ℕ} {f : ℕ → Outcome} where
  -- Every step does a part of the work.
  Step-work : {p q : Pool} → Step workers f p q → work p ≡ work q + 1
  Step-work {p} (take i rest e room same) = let size = ap length e in rw same (omega (arith, size))
  Step-work {p} (finish before i after e same) =
      let size = ap length e in
      rw same (omega (arith, size, length-append before after, length-append before (i ∷ after)))

  steps-work : {p q : Pool} (r : Run (Step workers f) p q) → steps r + work q ≡ work p
  steps-work here = omega arith
  steps-work (next r st) = omega (arith, steps-work r, Step-work st)

-- A pool with work left and a worker is never stuck.
pub Step_exists :
    (workers : ℕ) (f : ℕ → Outcome) (p : Pool)
    → 0 < workers
    → 0 < work p
    → (q : Pool) × Step workers f p q
Step_exists workers f p some_worker left = go p.queue p.busy refl refl
  where
    go : (queue busy : List ℕ) → p.queue ≡ queue → p.busy ≡ busy → (q : Pool) × Step workers f p q
    go [] [] e e' = absurd (omega (arith, ap length e, ap length e'))
    go queue (i ∷ after) e e' = (_, finish [] i after e' refl)
    go (i ∷ rest) [] e e' =
        let idle : length p.busy ≡ 0 = ap length e' in (_, take i rest e (omega arith) refl)

length-nil : (xs : List ℕ) → length xs ≡ 0 → xs ≡ []
length-nil [] h = refl
length-nil (x ∷ xs) h = absurd (omega arith)

-- However the workers share the items: when no work is left, there is one result for each item, and
-- it is what the item's call returned.
pub Run-done :
    (workers : ℕ) (f : ℕ → Outcome) (n : ℕ) {p : Pool}
    → Run (Step workers f) (filled n) p
    → work p ≡ 0
    → Enumerates (ended p) n × (p.done ≡ map (λ i. (i, f i)) (ended p))
Run-done workers f n {p} run empty =
    let h = Run-IsPool {n = n} run (filled-IsPool workers f n) in
    let no_queue = length-nil p.queue (omega arith) in
    let no_busy = length-nil p.busy (omega arith) in
    (λ j. omega (arith, h.once j, ap (count j) no_queue, ap (count j) no_busy), h.own)

-- At no moment are more workers busy than there are.
pub Run-few :
    (workers : ℕ) (f : ℕ → Outcome) (n : ℕ) {p : Pool}
    → Run (Step workers f) (filled n) p
    → length p.busy ≤ workers
Run-few workers f n run = (Run-IsPool {n = n} run (filled-IsPool workers f n)).few

length-indices : (k n : ℕ) → length (indices k n) ≡ n
length-indices k zero = refl
length-indices k (suc n) = ap suc (length-indices (suc k) n)

-- In every run from the filled pool the steps made and the work left are two for each item, so
-- that no run is longer.
pub Run-length :
    (workers : ℕ) (f : ℕ → Outcome) (n : ℕ) {p : Pool}
    → (r : Run (Step workers f) (filled n) p) → steps r + work p ≡ 2 * n
Run-length workers f n r = omega (arith, steps-work r, length-indices 0 n)

-- However the workers have shared the items so far, they can go on until every call has ended, if
-- there is a worker, and then have made two steps for each item: there is one result for each item,
-- and it is what the item's call returned.
pub Run_answers :
    (workers : ℕ) (f : ℕ → Outcome) (n : ℕ) {p : Pool} (run : Run (Step workers f) (filled n) p)
    → 0 < workers
    → (last : Pool) × (rest : Run (Step workers f) p last) × (steps run + steps rest ≤ 2 * n)
      × Enumerates (ended last) n
      × (last.done ≡ map (λ i. (i, f i)) (ended last))
Run_answers workers f n {p} run some_worker =
    let (last, rest, empty, few) =
      runs_end work (λ p q st. omega (arith, Step-work st)) (λ q. work q ≡ 0) end_or_step run in
    let (once, own) = Run-done workers f n (appended run rest) empty in
    (last, rest, omega (arith, few, length-indices 0 n), once, own)
  where
    end_or_step : (q : Pool) → (work q ≡ 0) ⊎ ((r : Pool) × Step workers f q r)
    end_or_step q = elim (Bool-cases (ltb 0 (work q))) [
      | inl left ↦ inr (Step_exists workers f q some_worker (ground arith))
      | inr empty ↦ inl (ground arith)
    ]
