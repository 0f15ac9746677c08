-- ===== src/Base/Errors.antt =====
-- Go's `(value, error)` results, and panics. An error keeps how it was built, in place of its text; the
-- position that `base64` adds to its message is left out.
use Prim.Native.Nat.{ℕ}
use Prim.Native.String.{String}
use mathlib.Core.Bool.{Bool, true, false}
use mathlib.Core.Path.{◌≡◌, refl}
use kms_golang.Base.Tests.{Bytes}

-- The status codes of gRPC that the program uses.
pub data Code : Type 0 where
  unauthenticated internal : Code

pub data Error : Type 0 where
  new : String → Error  -- errors.New
  with_text : String → Bytes → Error  -- errors.New(prefix + text)
  wrapped : String → Error → Error  -- fmt.Errorf("prefix: %w", err)
  too_short : (expected got : ℕ) → Error  -- "combined data too short: …"
  status : Code → Error → Error  -- status.Error, status.Errorf
  foreign : Bytes → Error  -- from a library, a device or the network

pub data Result {ℓ} (A : Type ℓ) : Type ℓ where
  ok : A → Result A
  panic : String → Result A  -- ends the process, or the request where a server recovers
  err : Error → Result A

-- The next statement, after a result that is not an error.
infixl 5 ◌>>=◌
abbrev pub ◌>>=◌ {ℓ κ} : {A : Type ℓ} {B : Type κ} → Result A → (A → Result B) → Result B
panic s >>= next = panic s
err e >>= next = err e
ok value >>= next = next value

-- `if err != nil { return nil, fmt.Errorf("prefix: %w", err) }`
abbrev pub wrap_err {ℓ} : {A : Type ℓ} → String → Result A → Result A
wrap_err prefix (ok a) = ok a
wrap_err prefix (err e) = err (wrapped prefix e)
wrap_err prefix (panic s) = panic s

-- Inversion of a successful bind.
pub >>=-eq-ok {ℓ κ} :
    {A : Type ℓ} {B : Type κ} (first : Result A) (next : A → Result B) {last : B}
    → (first >>= next) ≡ ok last
    → (value : A) × (first ≡ ok value) × (next value ≡ ok last)
>>=-eq-ok (panic s) next h = cc
>>=-eq-ok (err e) next h = cc
>>=-eq-ok (ok value) next h = (value, refl, h)

pub ok_injective {ℓ} : {A : Type ℓ} {a b : A} → ok a ≡ ok b → a ≡ b
ok_injective h = cc

pub wrap_err_ok {ℓ} :
    {A : Type ℓ} (prefix : String) (r : Result A) {a : A} → wrap_err prefix r ≡ ok a → r ≡ ok a
wrap_err_ok prefix (ok a) h = h
wrap_err_ok prefix (err e) h = cc
wrap_err_ok prefix (panic s) h = cc

-- `if !test { return err }`
abbrev pub require : Bool → Error → Result (Unit {0})
require false e = err e
require true e = ok tt

infixl 5 ◌>>◌
abbrev pub ◌>>◌ {ℓ} : {B : Type ℓ} → Result (Unit {0}) → Result B → Result B
test >> last = test >>= λ passed. last
