-- ===== src/Etl/Report/Filled.antt =====
-- What the colour of a row says.
use kms_golang.Base.{ℕ, ◌+◌, List, [], ◌∷◌, true, one_if, ◌≡◌, ◌≢◌, refl, sym, ◌∙◌, arith}
use kms_golang.Etl.{VerificationRecord}
use kms_golang.Etl.Matches.{counts, passing, count_matches-passing, summary}
use kms_golang.Etl.Report.{Colour, green, red, yellow, unfilled, row_colour}

abbrev one_if_green : Colour → ℕ
one_if_green green = 1
one_if_green red = 0
one_if_green yellow = 0
one_if_green unfilled = 0

abbrev pub green_rows : List VerificationRecord → ℕ
green_rows [] = 0
green_rows (v ∷ results) = one_if_green (row_colour v) + green_rows results

green-counts : (v : VerificationRecord) → one_if_green (row_colour v) ≡ one_if (counts true true v)
unfolding row_colour
green-counts v = ground arith

green_rows-passing :
    (results : List VerificationRecord) → green_rows results ≡ passing (counts true true) results
green_rows-passing [] = refl
green_rows-passing (v ∷ results) = omega (arith, green-counts v, green_rows-passing results)

-- The green rows of the sheet are as many as the perfect matches of the summary.
pub green_rows-summary :
    (results : List VerificationRecord) → green_rows results ≡ (summary results).perfect_matches
unfolding summary
green_rows-summary results =
    green_rows-passing results ∙ sym (count_matches-passing results true true)

-- No row is left without a colour.
pub row_colour-filled : (v : VerificationRecord) → row_colour v ≢ unfilled
unfolding row_colour
row_colour-filled v = ground arith
