-- ===== src/Etl/Matches.antt =====
-- `countMatches` and the figures of the summary sheet.
use kms_golang.Base.{
  ℕ, ◌+◌, ◌-◌, ◌≤◌, List, [], ◌∷◌, Bool, true, false, ◌&&◌, if◌then◌else◌, Option, none, some,
  Error, length, ◌≡◌, arith, one_if,
}
use kms_golang.Etl.{VerificationRecord}

abbrev pub is_clean : Option Error → Bool
is_clean none = true
is_clean (some e) = false

abbrev pub pan_ok : VerificationRecord → Bool
pan_ok r = r.pan_match && is_clean r.pan_error

abbrev pub cvv_ok : VerificationRecord → Bool
cvv_ok r = r.cvv_match && is_clean r.cvv_error

-- The test in the body of the loop.
abbrev pub counts : Bool → Bool → VerificationRecord → Bool
counts check_pan check_cvv r =
    if check_pan && check_cvv
    then r.pan_match && (r.cvv_match && (is_clean r.pan_error && is_clean r.cvv_error))
    else if check_pan
    then pan_ok r
    else if check_cvv
    then cvv_ok r
    else false

count_from : Bool → Bool → List VerificationRecord → ℕ → ℕ
count_from check_pan check_cvv [] count = count
count_from check_pan check_cvv (r ∷ rs) count =
    count_from check_pan check_cvv rs (if counts check_pan check_cvv r then count + 1 else count)

unfoldable pub count_matches : List VerificationRecord → Bool → Bool → ℕ
unfolding count_from
count_matches results check_pan check_cvv = count_from check_pan check_cvv results 0

-- The figures of the summary sheet; `errors` is a difference.
pub record Summary : Type 0 where
  pub total : ℕ
  pub perfect_matches : ℕ
  pub pan_matches : ℕ
  pub cvv_matches : ℕ
  pub errors : ℕ

unfoldable pub summary : List VerificationRecord → Summary
summary results = record {
  total = length results;
  perfect_matches = count_matches results true true;
  pan_matches = count_matches results true false;
  cvv_matches = count_matches results false true;
  errors = length results - count_matches results true true;
}

-- The number of records that pass a test.
abbrev pub passing : (VerificationRecord → Bool) → List VerificationRecord → ℕ
passing test [] = 0
passing test (r ∷ rs) = one_if (test r) + passing test rs

count_from-passing :
    (p c : Bool) (rs : List VerificationRecord) (count : ℕ)
    → count_from p c rs count ≡ count + passing (counts p c) rs
unfolding count_from
count_from-passing p c [] count = omega arith
count_from-passing p c (r ∷ rs) count =
    ground (arith, count_from-passing p c rs count, count_from-passing p c rs (count + 1))

pub count_matches-passing :
    (rs : List VerificationRecord) (p c : Bool) → count_matches rs p c ≡ passing (counts p c) rs
unfolding count_matches
count_matches-passing rs p c = omega (arith, count_from-passing p c rs 0)

passing-le :
    (test : VerificationRecord → Bool) (rs : List VerificationRecord) → passing test rs ≤ length rs
passing-le test [] = omega arith
passing-le test (r ∷ rs) = ground (arith, passing-le test rs)

passing_bounds :
    (rs : List VerificationRecord)
    → (passing (counts true true) rs ≤ passing (counts true false) rs)
      × (passing (counts true true) rs ≤ passing (counts false true) rs)
      × (passing (counts true false) rs + passing (counts false true) rs
          ≤ length rs + passing (counts true true) rs)
passing_bounds [] = omega arith
passing_bounds (r ∷ rs) = ground (arith, passing_bounds rs)

-- The figures of a summary fit together: a perfect match is a match of both fields, so there are no
-- more perfect matches than matches of either, and every record that is not perfect is an error: the
-- difference is exact.
pub summary_consistent :
    (results : List VerificationRecord)
    → let s = summary results in
      (s.perfect_matches ≤ s.pan_matches)
      × (s.perfect_matches ≤ s.cvv_matches)
      × (s.pan_matches + s.cvv_matches ≤ s.total + s.perfect_matches)
      × (s.errors + s.perfect_matches ≡ s.total)
unfolding summary
summary_consistent results = omega (
  arith,
  passing_bounds results,
  passing-le (counts true true) results,
  count_matches-passing results true true,
  count_matches-passing results true false,
  count_matches-passing results false true,
)
