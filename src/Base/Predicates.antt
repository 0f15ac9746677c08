-- ===== src/Base/Predicates.antt =====
-- A predicate of every element of a list, and the bytes.
use Prim.Native.Nat.{ℕ, zero, suc, ◌<◌}
use mathlib.Core.List.{List, [], ◌∷◌, ◌++◌}
use kms_golang.Base.Tests.{Bytes}
use kms_golang.Base.Lists.{take}

module _ {ℓ κ} {A : Type ℓ} (P : A → Type κ) where
  abbrev pub All : List A → Type κ
  All [] = Unit
  All (x ∷ xs) = P x × All xs

  pub All-append : (xs ys : List A) → All xs → All ys → All (xs ++ ys)
  All-append [] ys _ hy = hy
  All-append (x ∷ xs) ys (px, hx) hy = (px, All-append xs ys hx hy)

  pub All-take : (n : ℕ) (xs : List A) → All xs → All (take n xs)
  All-take zero xs h = tt
  All-take (suc n) [] h = tt
  All-take (suc n) (x ∷ xs) (px, h) = (px, All-take n xs h)

  pub All-split : (xs : List A) {x : A} (ys : List A) → All (xs ++ x ∷ ys) → All xs × P x × All ys
  All-split [] ys (px, hy) = (tt, px, hy)
  All-split (z ∷ xs) ys (pz, h) = let (hx, px, hy) = All-split xs ys h in ((pz, hx), px, hy)

-- Every element is a byte.
abbrev pub IsBytes : Bytes → Type 0
IsBytes = All (λ b. b < 256)
