-- ===== src/Go/World.antt =====
-- Effects. An operation reads and changes a world: the bytes that the random source will deliver,
-- and the state of whatever device or service stands behind it.
use kms_golang.Base.{
  ℕ, Bytes, String, Result, wrap_err, ok, err, panic, new, leb, if◌then◌else◌, length, ◌≡◌, refl,
  arith, take, drop,
}

pub record World (D : Type 0) : Type 0 where
  pub entropy : Bytes
  pub device : D

-- A fallible operation on the world.
abbrev pub M : Type 0 → Type 0 → Type 0
M D A = World D → Result A × World D

abbrev continue : {D A B : Type 0} → (A → M D B) → Result A × World D → Result B × World D
continue f (ok a, w) = f a w
continue f (err e, w) = (err e, w)
continue f (panic s, w) = (panic s, w)

infixl 5 ◌>>=◌ ◌>>◌
abbrev pub ◌>>=◌ : {D A B : Type 0} → M D A → (A → M D B) → M D B
◌>>=◌ m f w = continue f (m w)

abbrev pub ◌>>◌ : {D A B : Type 0} → M D A → M D B → M D B
m >> k = m >>= λ _. k

abbrev pub return : {D A : Type 0} → Result A → M D A
return r w = (r, w)

-- `io.ReadFull(rand.Reader, make([]byte, n))`: a source with too few bytes left is an error.
unfoldable pub read_full : {D : Type 0} → ℕ → M D Bytes
read_full n w =
    if leb n (length w.entropy)
    then (ok (take n w.entropy), record w { entropy = drop n w.entropy })
    else (err (new "unexpected EOF"), w)

-- `if err != nil { return fmt.Errorf("prefix: %w", err) }` after an effect.
abbrev wrap_pair : {D A : Type 0} → String → Result A × World D → Result A × World D
wrap_pair prefix (r, w) = (wrap_err prefix r, w)

abbrev pub wrapping : {D A : Type 0} → String → M D A → M D A
wrapping prefix m w = wrap_pair prefix (m w)

-- Inversion of an operation that succeeds: its first part does, and the rest goes on from there.
continue-eq-ok :
    {D A B : Type 0} (f : A → M D B) (x : Result A × World D) {b : B} {w'' : World D}
    → continue f x ≡ (ok b, w'')
    → (a : A) × (w' : World D) × (x ≡ (ok a, w')) × (f a w' ≡ (ok b, w''))
continue-eq-ok f (ok a, w) h = (a, w, refl, h)
continue-eq-ok f (err e, w) h = ground arith
continue-eq-ok f (panic s, w) h = ground arith

pub >>=-eq-ok :
    {D A B : Type 0} (m : M D A) (f : A → M D B) (w : World D) {b : B} {w'' : World D}
    → (m >>= f) w ≡ (ok b, w'')
    → (a : A) × (w' : World D) × (m w ≡ (ok a, w')) × (f a w' ≡ (ok b, w''))
>>=-eq-ok m f w = continue-eq-ok f (m w)

wrap-eq-ok :
    {D A : Type 0} (prefix : String) (x : Result A × World D) {a : A} {w' : World D}
    → wrap_pair prefix x ≡ (ok a, w')
    → x ≡ (ok a, w')
wrap-eq-ok prefix (ok a, w) h = h
wrap-eq-ok prefix (err e, w) h = ground arith
wrap-eq-ok prefix (panic s, w) h = ground arith

pub wrapping-eq-ok :
    {D A : Type 0} (prefix : String) (m : M D A) (w : World D) {a : A} {w' : World D}
    → wrapping prefix m w ≡ (ok a, w')
    → m w ≡ (ok a, w')
wrapping-eq-ok prefix m w h = wrap-eq-ok prefix (m w) h

-- The same, where the second part does not look at the first's value.
pub >>-eq-ok :
    {D A B : Type 0} (m : M D A) (k : M D B) (w : World D) {b : B} {w'' : World D}
    → (m >> k) w ≡ (ok b, w'')
    → (w' : World D) × (k w' ≡ (ok b, w''))
>>-eq-ok m k w h = let (a, w', first, rest) = continue-eq-ok (λ _. k) (m w) h in (w', rest)
