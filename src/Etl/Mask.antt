-- ===== src/Etl/Mask.antt =====
-- `maskPAN`, `maskCVV` and the other texts of the report.
use kms_golang.Base.{
  ℕ, zero, suc, ◌-◌, ◌≤◌, ◌<◌, Bytes, [], ◌∷◌, ◌++◌, Bool, true, false, leb, ltb, if◌then◌else◌,
  codes, bytes_eq, length, take, drop, replicate, length-append, length-replicate, length-drop,
  take-append_length, drop-append_length, All, ◌≡◌, ◌≢◌, refl, arith, sym, ap, ◌∙◌,
}
use mathlib.Core.Path.{subst}

unfoldable pub mask_pan : Bytes → Bytes
mask_pan pan =
    if leb (length pan) 4
    then codes "****"
    else replicate (length pan - 4) b'*' ++ drop (length pan - 4) pan

unfoldable pub mask_cvv : Bytes → Bytes
unfolding bytes_eq
mask_cvv cvv = if bytes_eq cvv [] then [] else codes "***"

unfoldable pub bool_to_yes_no : Bool → Bytes
bool_to_yes_no true = codes "Yes"
bool_to_yes_no false = codes "No"

-- `if len(s) > 50 { s = s[:50] + "..." }`
unfoldable pub shortened : Bytes → Bytes
shortened s = if ltb 50 (length s) then take 50 s ++ codes "..." else s

-- The last four digits of a card number.
abbrev pub last_four : Bytes → Bytes
last_four pan = drop (length pan - 4) pan

abbrev pub IsStar : ℕ → Type 0
IsStar c = c ≡ b'*'

All-replicate : (n : ℕ) → All IsStar (replicate n b'*')
All-replicate zero = tt
All-replicate (suc n) = (refl, All-replicate n)

-- A masked card number of more than four digits is as long as the number, ends in its last four, and
-- is made of asterisks before them.
pub mask_pan_shape :
    (pan : Bytes)
    → 4 < length pan
    → (length (mask_pan pan) ≡ length pan)
      × (drop (length pan - 4) (mask_pan pan) ≡ last_four pan)
      × All IsStar (take (length pan - 4) (mask_pan pan))
unfolding mask_pan
mask_pan_shape pan long =
    let n = length pan - 4 in
    let stars = replicate n b'*' in
    let size : length stars ≡ n = length-replicate n b'*' in
    let e : mask_pan pan ≡ stars ++ last_four pan = ground arith in
    (
      ap length e ∙ omega (arith, length-append stars (last_four pan), size, length-drop n pan),
      ap (drop n) e
          ∙ subst (λ k. drop k (stars ++ last_four pan) ≡ last_four pan) size
              (drop-append_length stars (last_four pan)),
      subst (All IsStar)
          (sym (
            ap (take n) e
            ∙ subst (λ k. take k (stars ++ last_four pan) ≡ stars) size
                (take-append_length stars (last_four pan))))
          (All-replicate n),
    )

-- The mask tells nothing else: two numbers with the same length and the same last four digits have
-- the same mask.
pub mask_pan_hides :
    (p q : Bytes) → length p ≡ length q → last_four p ≡ last_four q → mask_pan p ≡ mask_pan q
unfolding mask_pan
mask_pan_hides p q size last i =
    if leb (size i) 4 then codes "****" else replicate (size i - 4) b'*' ++ last i

-- A number of at most four digits is masked without a trace of it.
pub mask_pan_short : (p q : Bytes) → length p ≤ 4 → length q ≤ 4 → mask_pan p ≡ mask_pan q
unfolding mask_pan
mask_pan_short p q hp hq = ground arith

-- A masked security code tells only whether there was one.
pub mask_cvv_hides :
    (p q : Bytes) → p ≢ [] → q ≢ [] → (mask_cvv p ≡ mask_cvv q) × (mask_cvv [] ≡ [])
unfolding mask_cvv
mask_cvv_hides [] q hp hq = absurd (hp refl)
mask_cvv_hides (x ∷ p) [] hp hq = absurd (hq refl)
mask_cvv_hides (x ∷ p) (y ∷ q) hp hq = (refl, refl)
