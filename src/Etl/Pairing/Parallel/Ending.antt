-- ===== src/Etl/Pairing/Parallel/Ending.antt =====
-- How the verification of all data goes on, and its end.
use kms_golang.Base.{
  Run, appended, steps, runs_end, count, map, ℕ, ◌+◌, ◌*◌, ◌<◌, ◌≤◌, Bytes, List, [], ◌∷◌, ◌++◌,
  Option-cases, length, length-append, ◌⊎◌, inl, inr, ◌≡◌, refl, ap, arith,
}
use kms_golang.Go.World.{World}
use kms_golang.Client.{KmsClient}
use kms_golang.Etl.{CardRecord, VerificationRecord, cards_with}
use kms_golang.Etl.Pairing.{Rows}
use kms_golang.Etl.Pairing.Parallel.{
  Check, at_pan, at_cvv, Gathering, gathering, Step, missing, launch, check_pan, check_cvv,
  time_out, late_call, collect, IsGathered,
}
use kms_golang.Etl.Pairing.Parallel.Bounds.{Run-ids}

abbrev check_work : Check → ℕ
check_work (at_pan c r) = 4
check_work (at_cvv c r pan) = 3

abbrev checks_work : List Check → ℕ
checks_work [] = 0
checks_work (t ∷ checks) = check_work t + checks_work checks

-- How many steps there can still be.
abbrev work : {D : Type 0} → Gathering D → ℕ
work p = 5 * length p.pending + checks_work p.running + length p.late + length p.channel

checks_work-append :
    (front back : List Check) → checks_work (front ++ back) ≡ checks_work front + checks_work back
checks_work-append [] back = omega arith
checks_work-append (t ∷ front) back = omega (arith, checks_work-append front back)

check_work_least : (t : Check) → 3 ≤ check_work t
check_work_least (at_pan c r) = omega arith
check_work_least (at_cvv c r pan) = omega arith

module _ {D : Type 0} (client : KmsClient D) (token : Bytes) (rows : Rows) where
  abbrev Next : Gathering D → Gathering D → Type 0
  Next = Step client token rows

  Step-work : {p q : Gathering D} → Next p q → work q < work p
  Step-work {p} (missing c rest e m same) =
      rw same (omega (arith, ap length e, length-append p.channel (_ ∷ [])))
  Step-work {p} (launch c rest r e m room same) = rw same (omega (arith, ap length e))
  Step-work {p} (check_pan before c r after found w e called same) = rw same (
      omega (
        arith,
        ap checks_work e,
        checks_work-append before (at_pan c r ∷ after),
        checks_work-append before (at_cvv c r found ∷ after),
      ))
  Step-work {p} (check_cvv before c r pan after found w e called same) = rw same (
      omega (
        arith,
        ap checks_work e,
        checks_work-append before (at_cvv c r pan ∷ after),
        checks_work-append before after,
        length-append p.channel (_ ∷ []),
      ))
  Step-work {p} (time_out before t after e same) = rw same (
      omega (
        arith,
        ap checks_work e,
        checks_work-append before (t ∷ after),
        checks_work-append before after,
        check_work_least t,
        length-append p.channel (_ ∷ []),
      ))
  Step-work {p} (late_call before t after e same) =
      rw same
        (omega (arith, ap length e, length-append before (t ∷ after), length-append before after))
  Step-work {p} (collect v rest e same) = rw same (omega (arith, ap length e))

  goroutine_goes :
      (p : Gathering D) (t : Check) (rest : List Check)
      → p.running ≡ t ∷ rest
      → (q : Gathering D) × Next p q
  goroutine_goes p (at_pan c r) rest e = (_, check_pan [] c r rest _ _ e refl refl)
  goroutine_goes p (at_cvv c r pan) rest e = (_, check_cvv [] c r pan rest _ _ e refl refl)

  loop_goes :
      (p : Gathering D) (c : CardRecord) (rest : List CardRecord)
      → p.pending ≡ c ∷ rest
      → p.running ≡ []
      → (q : Gathering D) × Next p q
  loop_goes p c rest e idle = elim (Option-cases (rows c.id)) [
    | inl absent ↦ (_, missing c rest e absent refl)
    | inr (r, found) ↦
        (_, launch c rest r e found (let n = ap length idle in omega (arith, n)) refl)
  ]

  -- A verification whose records have not all been collected goes on.
  Step_exists : (p : Gathering D) → IsGathered p ⊎ ((q : Gathering D) × Next p q)
  Step_exists p = go p.channel p.running p.pending refl refl refl
    where
      go :
          (channel : List VerificationRecord) (running : List Check) (pending : List CardRecord)
          → p.channel ≡ channel
          → p.running ≡ running
          → p.pending ≡ pending
          → IsGathered p ⊎ ((q : Gathering D) × Next p q)
      go (v ∷ rest) running pending e r w = inr (_, collect v rest e refl)
      go [] (t ∷ rest) pending e r w = inr (goroutine_goes p t rest r)
      go [] [] (c ∷ rest) e r w = inr (loop_goes p c rest w r)
      go [] [] [] e r w = inl (record { pending = w; running = r; channel = e })

  -- The limits on the whole of it aside, however the verification has gone so far, and whatever the service answers and whichever
  -- goroutines run out of time, it can go on until nothing is pending, running or uncollected. Then it
  -- has made at most five steps for each card, and the collected results have as many records with an
  -- identifier as there are cards with it: a card whose time ran out is reported as well.
  pub Run_gathers :
      (cards : List CardRecord) (w : World D) {p : Gathering D}
      (run : Run (Step client token rows) (gathering cards w) p)
      → (last : Gathering D) × (rest : Run (Step client token rows) p last) × IsGathered last
        × (steps run + steps rest ≤ 5 * length cards)
        × ((j : ℕ) → count j (map (λ v. v.source_id) last.results) ≡ cards_with j cards)
  Run_gathers cards w run =
      let (last, rest, end, few) = runs_end work (λ p q. Step-work) IsGathered Step_exists run in
      (last, rest, end, omega (arith, few), λ j. Run-ids cards w (appended run rest) end j)
