-- ===== src/Kms/Trim/Sound.antt =====
-- What `bytesTrimSpace` returns, for every text.
use native.Mathlib.Nat.{zero-add, suc-add}
use kms_golang.Base.{
  ℕ, zero, suc, ◌+◌, ◌-◌, ◌≤◌, ◌<◌, Bytes, [], ◌∷◌, ◌++◌, length, get_or, take, drop, ◌≡◌, refl,
  sym, ◌∙◌, ap, arith, All, length-take, length-drop, take-append-drop,
}
use mathlib.Core.Path.{subst}
use kms_golang.Kms.Trim.{slice, trim_start, trim_end, bytes_trim_space}
use kms_golang.Kms.Trim.Bounds.{trim_start-IsFront, trim_end-IsBack}
use kms_golang.Kms.Trim.Padding.{IsSpace, IsNotSpace}

All-take :
    (b : Bytes) (n : ℕ)
    → ((k : ℕ) → k < n → k < length b → IsSpace (get_or b k 0))
    → All IsSpace (take n b)
All-take b zero h = tt
All-take [] (suc n) h = tt
All-take (x ∷ b) (suc n) h =
    (h 0 (omega arith) (omega arith), All-take b n (λ k i j. h (suc k) (omega arith) (omega arith)))

All-drop :
    (b : Bytes) (n : ℕ)
    → ((k : ℕ) → n ≤ k → k < length b → IsSpace (get_or b k 0))
    → All IsSpace (drop n b)
All-drop [] zero h = tt
All-drop (x ∷ b) zero h = (
  h 0 (omega arith) (omega arith),
  All-drop b zero (λ k i j. h (suc k) (omega arith) (omega arith)),
)
All-drop [] (suc n) h = tt
All-drop (x ∷ b) (suc n) h = All-drop b n (λ k i j. h (suc k) (omega arith) (omega arith))

get_or-drop : (b : Bytes) (n i : ℕ) → get_or (drop n b) i 0 ≡ get_or b (n + i) 0
get_or-drop b zero i = rw zero-add
get_or-drop [] (suc n) i = refl
get_or-drop (x ∷ b) (suc n) i = rw suc-add (get_or-drop b n i)

get_or-take : (b : Bytes) (n i : ℕ) → i < n → get_or (take n b) i 0 ≡ get_or b i 0
get_or-take b zero i h = absurd (omega arith)
get_or-take [] (suc n) i h = refl
get_or-take (x ∷ b) (suc n) zero h = refl
get_or-take (x ∷ b) (suc n) (suc i) h = get_or-take b n i (omega arith)

drop-drop : (b : Bytes) (m n : ℕ) → drop n (drop m b) ≡ drop (m + n) b
drop-drop b zero n = rw zero-add
drop-drop [] (suc m) zero = rw suc-add
drop-drop [] (suc m) (suc n) = rw suc-add
drop-drop (x ∷ b) (suc m) n = rw suc-add (drop-drop b m n)

-- What a text is made of: two pads of spaces, and a middle that neither begins nor ends with one.
pub record IsTrimming (b middle : Bytes) : Type 0 where
  pub front : Bytes
  pub back : Bytes
  pub parts : b ≡ front ++ (middle ++ back)
  pub front_spaces : All IsSpace front
  pub back_spaces : All IsSpace back
  pub begins : 0 < length middle → IsNotSpace (get_or middle 0 0)
  pub ends : 0 < length middle → IsNotSpace (get_or middle (length middle - 1) 0)

module _ (b : Bytes) where
  abbrev middle : Bytes
  middle = slice b (trim_start b) (trim_end b)

  ordered : (trim_start b ≤ trim_end b) × (trim_end b ≤ length b)
  ordered = let g = trim_end-IsBack b in (g.from, g.to)

  length-middle : length middle ≡ trim_end b - trim_start b
  length-middle = omega (
    arith,
    ordered,
    length-take (trim_end b - trim_start b) (drop (trim_start b) b),
    length-drop (trim_start b) b,
  )

  get_or-middle : (k : ℕ) → k < length middle → get_or middle k 0 ≡ get_or b (trim_start b + k) 0
  get_or-middle k lt =
      get_or-take (drop (trim_start b) b) (trim_end b - trim_start b) k
        (omega (arith, length-middle))
      ∙ get_or-drop b (trim_start b) k

  parts : b ≡ take (trim_start b) b ++ (middle ++ drop (trim_end b) b)
  parts =
      let s = trim_start b in
      let n = trim_end b - s in
      let e : s + n ≡ trim_end b = omega (arith, ordered) in
      sym (
        ap (λ r. take s b ++ (middle ++ r)) (ap (λ k. drop k b) (sym e) ∙ sym (drop-drop b s n))
        ∙ (ap (λ r. take s b ++ r) (take-append-drop n (drop s b)) ∙ take-append-drop s b))

  middle-IsTrimming : IsTrimming b middle
  middle-IsTrimming =
      let f = trim_start-IsFront b in
      let g = trim_end-IsBack b in
      record {
        front = take (trim_start b) b;
        back = drop (trim_end b) b;
        parts = parts;
        front_spaces = All-take b (trim_start b) (λ k i j. f.spaces k (omega arith) i);
        back_spaces = All-drop b (trim_end b) (λ k i j. g.spaces k i j);
        begins = λ pos.
            let e : trim_start b + 0 ≡ trim_start b = omega arith in
            rw (get_or-middle 0 pos, e) (f.stops (omega (arith, length-middle, ordered)));
        ends = λ pos.
            let e : trim_start b + (length middle - 1) ≡ trim_end b - 1 =
              omega (arith, length-middle, ordered) in
            rw (get_or-middle (length middle - 1) (omega arith)) (
              subst (λ k. IsNotSpace (get_or b k 0)) (sym e)
                (g.stops (omega (arith, length-middle))));
      }

  -- For every text, the result is what is left when a front and a back made of the four spaces are
  -- taken off, and it neither begins nor ends with such a space.
  pub bytes_trim_space-IsTrimming : IsTrimming b (bytes_trim_space b)
  unfolding bytes_trim_space
  bytes_trim_space-IsTrimming = middle-IsTrimming
