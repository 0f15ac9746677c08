-- ===== src/Base/Sums.antt =====
-- Counting in lists of numbers, and sums over a list and over a range.
use Prim.Native.Nat.{ℕ, zero, suc, ◌+◌, ◌*◌, ◌<◌, ◌≤◌}
use mathlib.Core.Bool.{Bool, true, false}
use mathlib.Core.List.{List, [], ◌∷◌, ◌++◌, map, map-append}
use mathlib.Core.Logic.{inl, inr}
use mathlib.Core.Path.{◌≡◌, refl, sym, ◌∙◌, ap}
use native.Mathlib.Omega.{arith}
use kms_golang.Base.Lists.{get_elem?}
use kms_golang.Base.Tests.{◌==◌, ltb, Bool-cases, some_injective}

abbrev pub one_if : Bool → ℕ
one_if true = 1
one_if false = 0

abbrev pub count : ℕ → List ℕ → ℕ
count a [] = 0
count a (x ∷ xs) = one_if (x == a) + count a xs

pub count-append :
    (n : ℕ) (front back : List ℕ) → count n (front ++ back) ≡ count n front + count n back
count-append n [] back = omega arith
count-append n (x ∷ front) back = omega (arith, count-append n front back)

pub count-map-append {ℓ} :
    {A : Type ℓ} (j : ℕ) (f : A → ℕ) (xs ys : List A)
    → count j (map f (xs ++ ys)) ≡ count j (map f xs) + count j (map f ys)
count-map-append j f xs ys =
    ap (count j) (map-append f xs ys) ∙ count-append j (map f xs) (map f ys)

abbrev pub sum_of : (ℕ → ℕ) → List ℕ → ℕ
sum_of g [] = 0
sum_of g (x ∷ xs) = g x + sum_of g xs

-- The sum of `g` below `n`.
abbrev pub sum_below : (ℕ → ℕ) → ℕ → ℕ
sum_below g zero = 0
sum_below g (suc n) = sum_below g n + g n

-- Every number below `n` stands in the list once, and no other does.
abbrev pub Enumerates : List ℕ → ℕ → Type 0
Enumerates xs n = (j : ℕ) → count j xs ≡ one_if (ltb j n)

-- A number that is not below `n` adds nothing to a weighted sum below `n`.
weighted_skip :
    (c g : ℕ → ℕ) (x n : ℕ)
    → n ≤ x
    → sum_below (λ j. (one_if (x == j) + c j) * g j) n ≡ sum_below (λ j. c j * g j) n
weighted_skip c g x zero h = refl
weighted_skip c g x (suc n) h =
    let e : one_if (x == n) ≡ 0 = ground arith in
    rw (e) (omega (arith, weighted_skip c g x n (omega arith)))

weighted_add :
    (c g : ℕ → ℕ) (x n : ℕ)
    → x < n
    → sum_below (λ j. (one_if (x == j) + c j) * g j) n ≡ g x + sum_below (λ j. c j * g j) n
weighted_add c g x zero h = absurd (omega arith)
weighted_add c g x (suc n) h = elim (Bool-cases (x == n)) [
  | inl same ↦
      let e : x ≡ n = ground arith in
      let g_same : g x ≡ g n = ap g e in
      rw same (omega (arith, weighted_skip c g x n (omega arith), g_same))
  | inr other ↦ rw other (omega (arith, weighted_add c g x n (ground arith)))
]

-- A sum over a list of numbers below `n` is the sum over the range, weighted by how often each
-- number stands in the list.
pub sum_of-count :
    (g : ℕ → ℕ) (xs : List ℕ) (n : ℕ)
    → ((j : ℕ) → n ≤ j → count j xs ≡ 0)
    → sum_of g xs ≡ sum_below (λ j. count j xs * g j) n
sum_of-count g [] n h = zeros n
  where
    zeros : (n : ℕ) → 0 ≡ sum_below (λ j. 0 * g j) n
    zeros zero = refl
    zeros (suc n) = omega (arith, zeros n)
sum_of-count g (x ∷ xs) n h =
    let below : x < n = elim (Bool-cases (ltb x n)) [
      | inl lt ↦ ground arith
      | inr ge ↦ absurd (ground (arith, h x))
    ] in
    let ih = sum_of-count g xs n (λ j ge. omega (arith, h j ge)) in
    sym (weighted_add (λ j. count j xs) g x n below ∙ sym (ap (λ k. g x + k) ih))

sum_below-ext :
    (g k : ℕ → ℕ) (n : ℕ) → ((j : ℕ) → j < n → g j ≡ k j) → sum_below g n ≡ sum_below k n
sum_below-ext g k zero h = refl
sum_below-ext g k (suc n) h =
    omega (arith, sum_below-ext g k n (λ j lt. h j (omega arith)), h n (omega arith))

-- A sum over an enumeration of a range is the sum over the range.
pub sum_of-Enumerates :
    (g : ℕ → ℕ) (xs : List ℕ) (n : ℕ) → Enumerates xs n → sum_of g xs ≡ sum_below g n
sum_of-Enumerates g xs n h =
    sum_of-count g xs n (λ j ge. ground (arith, h j))
    ∙ sum_below-ext (λ j. count j xs * g j) g n
        (λ j lt. let e : count j xs ≡ 1 = ground (arith, h j) in rw e (omega arith))

-- Two lists with the same element at each place are the same list.
pub get_elem?-ext {ℓ} :
    {A : Type ℓ} (xs ys : List A) → ((i : ℕ) → get_elem? xs i ≡ get_elem? ys i) → xs ≡ ys
get_elem?-ext [] [] h = refl
get_elem?-ext [] (y ∷ ys) h = cc (h 0)
get_elem?-ext (x ∷ xs) [] h = cc (h 0)
get_elem?-ext (x ∷ xs) (y ∷ ys) h =
    let first : x ≡ y = some_injective (h 0) in
    let rest = get_elem?-ext xs ys (λ i. h (suc i)) in cc
