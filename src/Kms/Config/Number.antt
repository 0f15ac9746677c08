-- ===== src/Kms/Config/Number.antt =====
-- What `getenvUint` reads.
use kms_golang.Base.{
  ℕ, ◌+◌, ◌-◌, ◌*◌, ◌%◌, ◌^◌, ◌<◌, Bytes, [], ◌∷◌, true, false, ◌≡◌, ◌≢◌, refl, arith, All, ◌⊎◌,
  ◌∙◌, String,
}
use kms_golang.Kms.Config.{Env, is_digit, uint_loop, parse_uint, getenv_uint}

abbrev pub IsDigit : ℕ → Type 0
IsDigit c = is_digit c ≡ true

-- The number that digits spell behind `n`, with no bound.
abbrev pub value : ℕ → Bytes → ℕ
value n [] = n
value n (c ∷ s) = value (n * 10 + (c - b'0')) s

value-mod : (s : Bytes) (n : ℕ) → value (n % 2 ^ 64) s % 2 ^ 64 ≡ value n s % 2 ^ 64
value-mod [] n = omega arith
value-mod (c ∷ s) n =
    let d = c - b'0' in
    value-mod_step s d n (value-mod s (n * 10 + d)) (value-mod s (n % 2 ^ 64 * 10 + d))
  where
    value-mod_step :
        (s : Bytes) (d n : ℕ)
        → value ((n * 10 + d) % 2 ^ 64) s % 2 ^ 64 ≡ value (n * 10 + d) s % 2 ^ 64
        → value ((n % 2 ^ 64 * 10 + d) % 2 ^ 64) s % 2 ^ 64 ≡ value (n % 2 ^ 64 * 10 + d) s % 2 ^ 64
        → value (n % 2 ^ 64 * 10 + d) s % 2 ^ 64 ≡ value (n * 10 + d) s % 2 ^ 64
    value-mod_step s d n h k =
        let e : (n % 2 ^ 64 * 10 + d) % 2 ^ 64 ≡ (n * 10 + d) % 2 ^ 64 = omega arith in cc

uint_loop-value :
    (fallback : ℕ) (s : Bytes) (n : ℕ)
    → n < 2 ^ 64
    → All IsDigit s
    → uint_loop fallback s n ≡ value n s % 2 ^ 64
unfolding uint_loop
uint_loop-value fallback [] n fits h = omega arith
uint_loop-value fallback (c ∷ s) n fits h = rw h.0 (
    uint_loop-value fallback s ((n * 10 + (c - b'0')) % 2 ^ 64) (omega arith) h.1
    ∙ value-mod s (n * 10 + (c - b'0')))

-- Some character is no digit.
abbrev pub HasOther : Bytes → Type 0
HasOther [] = ⊥
HasOther (c ∷ s) = (is_digit c ≡ false) ⊎ HasOther s

uint_loop-HasOther :
    (fallback : ℕ) (s : Bytes) (n : ℕ) → HasOther s → uint_loop fallback s n ≡ fallback
unfolding uint_loop
uint_loop-HasOther fallback [] n h = absurd h
uint_loop-HasOther fallback (c ∷ s) n h =
    ground (arith, uint_loop-HasOther fallback s ((n * 10 + (c - b'0')) % 2 ^ 64))

parse_uint-digits :
    (fallback : ℕ) (s : Bytes) → s ≢ [] → All IsDigit s → parse_uint fallback s ≡ value 0 s % 2 ^ 64
unfolding parse_uint
parse_uint-digits fallback [] full digits = absurd (full refl)
parse_uint-digits fallback (c ∷ s) full digits =
    uint_loop-value fallback (c ∷ s) 0 (omega arith) digits

parse_uint-HasOther : (fallback : ℕ) (s : Bytes) → HasOther s → parse_uint fallback s ≡ fallback
unfolding parse_uint
parse_uint-HasOther fallback [] other = refl
parse_uint-HasOther fallback (c ∷ s) other = uint_loop-HasOther fallback (c ∷ s) 0 other

-- A variable that is not empty and holds only digits is read as the number that they spell, modulo
-- 2 ^ 64: a number that does not fit wraps around in silence.
pub getenv_uint_digits :
    (env : Env) (key : String) (fallback : ℕ)
    → env key ≢ []
    → All IsDigit (env key)
    → getenv_uint env key fallback ≡ value 0 (env key) % 2 ^ 64
unfolding getenv_uint
getenv_uint_digits env key fallback full digits = parse_uint-digits fallback (env key) full digits

-- A variable that holds anything but digits gives the default, wherever the other character stands.
pub getenv_uint_other :
    (env : Env) (key : String) (fallback : ℕ)
    → HasOther (env key)
    → getenv_uint env key fallback ≡ fallback
unfolding getenv_uint
getenv_uint_other env key fallback other = parse_uint-HasOther fallback (env key) other
