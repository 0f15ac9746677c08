-- ===== src/Etl/Pairing/Outcome.antt =====
-- What the verification of all data reports.
use kms_golang.Base.{Bool, true, inl, inr, ◌⊎◌, Option, none, some, Error, ◌≡◌, ◌≢◌, refl, arith}
use kms_golang.Etl.{VerificationRecord}

-- Each field is a match, or has an error.
abbrev pub IsReported : VerificationRecord → Type 0
IsReported v =
    ((v.pan_match ≡ true) ⊎ (v.pan_error ≢ none)) × ((v.cvv_match ≡ true) ⊎ (v.cvv_error ≢ none))

pub match_or_error :
    (same : Bool) (error : Option Error)
    → (error ≡ none → same ≡ true)
    → (same ≡ true) ⊎ (error ≢ none)
match_or_error same none h = inl (h refl)
match_or_error same (some e) h = inr (ground arith)
