-- ===== src/Base/Runs.antt =====
-- Runs of a step relation: what every step keeps holds after a run, and a relation whose every step
-- does a part of some work has runs that end.
use Prim.Native.Nat.{ℕ, zero, suc, ◌+◌, ◌<◌, ◌≤◌}
use mathlib.Core.Logic.{◌⊎◌, inl, inr}
use native.Mathlib.Omega.{arith}

pub data Run {ℓ κ} {S : Type ℓ} (R : S → S → Type κ) (p : S) : S → Type (ℓ ⊔ κ) where
  here : Run R p p
  next : {q r : S} → Run R p q → R q r → Run R p r

module _ {ℓ κ} {S : Type ℓ} {R : S → S → Type κ} where
  -- The number of steps of a run.
  abbrev pub steps : {p q : S} → Run R p q → ℕ
  steps here = 0
  steps (next run st) = suc (steps run)

  prepend : {p q r : S} → R p q → Run R q r → Run R p r
  prepend st here = next here st
  prepend st (next run last) = next (prepend st run) last

  pub appended : {p q r : S} → Run R p q → Run R q r → Run R p r
  appended run here = run
  appended run (next rest st) = next (appended run rest) st

  pub Run-keeps {μ} :
      (P : S → Type μ) → ((p q : S) → R p q → P p → P q) → {p q : S} → Run R p q → P p → P q
  Run-keeps P step here h = h
  Run-keeps P step (next run st) h = step _ _ st (Run-keeps P step run h)

  module _ (work : S → ℕ) (less : (p q : S) → R p q → work q < work p) where
    pub steps-work : {p q : S} (run : Run R p q) → steps run + work q ≤ work p
    steps-work here = omega arith
    steps-work (next run st) = omega (arith, steps-work run, less _ _ st)

    module _ {μ} (End : S → Type μ) (go : (p : S) → End p ⊎ ((q : S) × R p q)) where
      on : (fuel : ℕ) (p : S) → work p ≤ fuel → (last : S) × Run R p last × End last
      on zero p enough = elim (go p) [
        | inl end ↦ (p, here, end)
        | inr (q, st) ↦ absurd (omega (arith, less _ _ st))
      ]
      on (suc fuel) p enough = elim (go p) [
        | inl end ↦ (p, here, end)
        | inr (q, st) ↦
            let (last, run, end) = on fuel q (omega (arith, less _ _ st)) in
            (last, prepend st run, end)
      ]

      -- Every run goes on to an end, and is then no longer than the work at its start.
      pub runs_end :
          {p q : S} (run : Run R p q)
          → (last : S) × (rest : Run R q last) × End last × (steps run + steps rest ≤ work p)
      runs_end {p} {q} run =
          let (last, rest, end) = on (work q) q (omega arith) in
          (last, rest, end, omega (arith, steps-work run, steps-work rest))
