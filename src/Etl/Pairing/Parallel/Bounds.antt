-- ===== src/Etl/Pairing/Parallel/Bounds.antt =====
-- How many goroutines run and records wait, and that each card is reported once, in whatever order
-- the goroutines end.
use kms_golang.Base.{
  Run, Run-keeps, ℕ, ◌+◌, ◌≤◌, Bytes, List, [], ◌∷◌, ◌++◌, length, length-append, count, map,
  count-map-append, ◌≡◌, refl, ap, ◌∙◌, arith,
}
use kms_golang.Go.World.{World}
use kms_golang.Client.{KmsClient}
use kms_golang.Etl.{CardRecord, VerificationRecord, cards_with}
use kms_golang.Etl.Verify.{verification_of}
use kms_golang.Etl.Pairing.{Rows, not_verified, not_found, timed_out}
use kms_golang.Etl.Pairing.Parallel.{
  verify_worker_count, Check, at_pan, at_cvv, card_of, Gathering, gathering, Step, missing, launch,
  check_pan, check_cvv, time_out, late_call, collect, IsGathered,
}

abbrev records_with : ℕ → List VerificationRecord → ℕ
records_with j records = count j (map (λ v. v.source_id) records)

abbrev checks_with : ℕ → List Check → ℕ
checks_with j checks = count j (map (λ t. (card_of t).id) checks)

abbrev tracked : {D : Type 0} → ℕ → Gathering D → ℕ
tracked j p =
    cards_with j p.pending
    + checks_with j p.running
    + records_with j p.channel
    + records_with j p.results

abbrev on_the_way : {D : Type 0} → Gathering D → ℕ
on_the_way p = length p.pending + length p.running + length p.channel + length p.results

checks_with-split :
    (j : ℕ) (before : List Check) (t : Check) (after : List Check)
    → checks_with j (before ++ t ∷ after)
      ≡ checks_with j (before ++ after) + count j ((card_of t).id ∷ [])
checks_with-split j before t after = omega (
  arith,
  count-map-append j (λ t. (card_of t).id) before (t ∷ after),
  count-map-append j (λ t. (card_of t).id) before after,
)

split_length :
    {A : Type 0} (before : List A) (t : A) (after : List A)
    → length (before ++ t ∷ after) ≡ length (before ++ after) + 1
split_length before t after =
    omega (arith, length-append before (t ∷ after), length-append before after)

-- No more goroutines than the semaphore admits, and no more records than cards.
record IsBounded {D : Type 0} (n : ℕ) (p : Gathering D) : Type 0 where
  few : length p.running ≤ verify_worker_count
  all : on_the_way p ≡ n

module _ {D : Type 0} {client : KmsClient D} {token : Bytes} {rows : Rows} where
  Step-tracked :
      (j : ℕ) {p q : Gathering D} → Step client token rows p q → tracked j p ≡ tracked j q
  Step-tracked j {p} (missing c rest e m same) = rw same (
      omega (
        arith,
        ap (cards_with j) e,
        count-map-append j (λ v. v.source_id) p.channel (not_verified not_found c ∷ []),
      ))
  Step-tracked j {p} (launch c rest r e m room same) = rw same (omega (arith, ap (cards_with j) e))
  Step-tracked j {p} (check_pan before c r after found w e called same) = rw same (
      omega (
        arith,
        ap (checks_with j) e,
        checks_with-split j before (at_pan c r) after,
        checks_with-split j before (at_cvv c r found) after,
      ))
  Step-tracked j {p} (check_cvv before c r pan after found w e called same) = rw same (
      omega (
        arith,
        ap (checks_with j) e,
        checks_with-split j before (at_cvv c r pan) after,
        count-map-append j (λ v. v.source_id) p.channel (verification_of c r pan found ∷ []),
      ))
  Step-tracked j {p} (time_out before t after e same) = rw same (
      omega (
        arith,
        ap (checks_with j) e,
        checks_with-split j before t after,
        count-map-append j (λ v. v.source_id) p.channel (not_verified timed_out (card_of t) ∷ []),
      ))
  Step-tracked j {p} (late_call before t after e same) = rw same refl
  Step-tracked j {p} (collect v rest e same) = rw same (
      omega
        (arith, ap (records_with j) e, count-map-append j (λ v. v.source_id) p.results (v ∷ [])))

  Run-tracked :
      (j : ℕ) {p q : Gathering D} → Run (Step client token rows) p q → tracked j p ≡ tracked j q
  Run-tracked j {p} run =
      Run-keeps (λ q. tracked j p ≡ tracked j q) (λ q r st h. h ∙ Step-tracked j st) run refl

  Step-IsBounded :
      {n : ℕ} {p q : Gathering D} → Step client token rows p q → IsBounded n p → IsBounded n q
  Step-IsBounded {p} (missing c rest e m same) h = rw same (record {
    few = h.few;
    all =
        omega (arith, h.all, ap length e, length-append p.channel (not_verified not_found c ∷ []));
  })
  Step-IsBounded {p} (launch c rest r e m room same) h =
      rw same (record { few = omega arith; all = omega (arith, h.all, ap length e) })
  Step-IsBounded {p} (check_pan before c r after found w e called same) h =
      let size = ap length e in
      let cut = split_length before (at_pan c r) after in
      let new_cut = split_length before (at_cvv c r found) after in
      rw same (record {
        few = omega (arith, h.few, size, cut, new_cut);
        all = omega (arith, h.all, size, cut, new_cut);
      })
  Step-IsBounded {p} (check_cvv before c r pan after found w e called same) h =
      let size = ap length e in
      let cut = split_length before (at_cvv c r pan) after in
      rw same (record {
        few = omega (arith, h.few, size, cut);
        all =
            omega (
              arith,
              h.all,
              size,
              cut,
              length-append p.channel (verification_of c r pan found ∷ []),
            );
      })
  Step-IsBounded {p} (time_out before t after e same) h =
      let size = ap length e in
      let cut = split_length before t after in
      rw same (record {
        few = omega (arith, h.few, size, cut);
        all = omega (
          arith,
          h.all,
          size,
          cut,
          length-append p.channel (not_verified timed_out (card_of t) ∷ []),
        );
      })
  Step-IsBounded {p} (late_call before t after e same) h =
      rw same (record { few = h.few; all = h.all })
  Step-IsBounded {p} (collect v rest e same) h = rw same (record {
    few = h.few;
    all = omega (arith, h.all, ap length e, length-append p.results (v ∷ []));
  })

  Run-IsBounded :
      {n : ℕ} {p q : Gathering D} → Run (Step client token rows) p q → IsBounded n p → IsBounded n q
  Run-IsBounded {n} = Run-keeps (IsBounded n) (λ p q. Step-IsBounded)

  -- At no moment do more than ten goroutines hold a place of the semaphore, calls that were left behind
  -- by a timeout not counted, and the channel never holds more records than there are cards: with its
  -- room for twice as many, no send waits.
  pub semaphore_bounded :
      (cards : List CardRecord) (w : World D) {p : Gathering D}
      → Run (Step client token rows) (gathering cards w) p
      → (length p.running ≤ 10) × (length p.channel ≤ length cards)
  semaphore_bounded cards w run =
      let h : IsBounded (length cards) _ =
        Run-IsBounded run (record { few = omega arith; all = omega arith }) in
      (h.few, omega (arith, h.all))

  -- When all records have been collected, the cards have one record each, whatever the order.
  pub Run-ids :
      (cards : List CardRecord) (w : World D) {p : Gathering D}
      → Run (Step client token rows) (gathering cards w) p
      → IsGathered p
      → (j : ℕ) → count j (map (λ v. v.source_id) p.results) ≡ count j (map (λ c. c.id) cards)
  Run-ids cards w {p} run end j = omega (
    arith,
    Run-tracked j run,
    ap (cards_with j) end.pending,
    ap (checks_with j) end.running,
    ap (records_with j) end.channel,
  )
