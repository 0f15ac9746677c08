-- ===== src/Kms/Trim/Padding.antt =====
-- Trimming a text that stands between spaces.
use kms_golang.Base.{
  ℕ, zero, suc, ◌+◌, ◌-◌, ◌≤◌, ◌<◌, Bytes, [], ◌∷◌, ◌++◌, true, false, length, get_or, ◌≡◌, refl,
  arith, ◌∙◌, All, length-append, take-append_length, drop-append_length,
}
use native.Mathlib.Nat.{zero-add, suc-add}
use kms_golang.Kms.Trim.{is_space, slice, trim_start, trim_end, bytes_trim_space}
use kms_golang.Kms.Trim.Bounds.{trim_start-IsFront, trim_end-IsBack}

abbrev pub IsSpace : ℕ → Type 0
IsSpace c = is_space c ≡ true

abbrev pub IsNotSpace : ℕ → Type 0
IsNotSpace c = is_space c ≡ false

get_or-append_front :
    (xs ys : Bytes) (i : ℕ) → i < length xs → get_or (xs ++ ys) i 0 ≡ get_or xs i 0
get_or-append_front [] ys i h = absurd (omega arith)
get_or-append_front (x ∷ xs) ys zero h = refl
get_or-append_front (x ∷ xs) ys (suc i) h = get_or-append_front xs ys i (omega arith)

get_or-append_back : (xs ys : Bytes) (i : ℕ) → get_or (xs ++ ys) (length xs + i) 0 ≡ get_or ys i 0
get_or-append_back [] ys i = rw zero-add
get_or-append_back (x ∷ xs) ys i = rw suc-add (get_or-append_back xs ys i)

pub All-get_or :
    (P : ℕ → Type 0) (xs : Bytes) (i : ℕ) → All P xs → i < length xs → P (get_or xs i 0)
All-get_or P [] i h lt = absurd (omega arith)
All-get_or P (x ∷ xs) zero h lt = h.0
All-get_or P (x ∷ xs) (suc i) h lt = All-get_or P xs i h.1 (omega arith)

-- Where the parts of a padded text stand.
record IsPadded (b : Bytes) (m n : ℕ) : Type 0 where
  fits : m + n ≤ length b
  some_core : 0 < n
  before : (k : ℕ) → k < m → IsSpace (get_or b k 0)
  after : (k : ℕ) → m + n ≤ k → k < length b → IsSpace (get_or b k 0)
  first : IsNotSpace (get_or b m 0)
  last : IsNotSpace (get_or b (m + n - 1) 0)

module _ {b : Bytes} {m n : ℕ} (p : IsPadded b m n) where
  trim_start-eq : trim_start b ≡ m
  trim_start-eq =
      let f = trim_start-IsFront b in
      ground (arith, p, f.from, f.to, f.spaces m, f.stops, p.before (trim_start b), p.first)

  trim_end-eq : trim_end b ≡ m + n
  trim_end-eq =
      let g = trim_end-IsBack b in
      ground (
        arith,
        trim_start-eq,
        g.from,
        g.to,
        g.spaces (m + n - 1),
        g.stops,
        p.fits,
        p.some_core,
        p.after (trim_end b - 1),
        p.last,
      )

  trim-slice : bytes_trim_space b ≡ slice b m (m + n)
  unfolding bytes_trim_space
  trim-slice = rw (trim_end-eq, trim_start-eq)

module _ (front core back : Bytes) where
  abbrev padded : Bytes
  padded = front ++ (core ++ back)

  padded_before : All IsSpace front → (k : ℕ) → k < length front → IsSpace (get_or padded k 0)
  padded_before h k lt =
      rw (get_or-append_front front (core ++ back) k lt) (All-get_or IsSpace front k h lt)

  padded_core : (k : ℕ) → k < length core → get_or padded (length front + k) 0 ≡ get_or core k 0
  padded_core k lt = get_or-append_back front (core ++ back) k ∙ get_or-append_front core back k lt

  padded_back : (k : ℕ) → get_or padded (length front + (length core + k)) 0 ≡ get_or back k 0
  padded_back k =
      get_or-append_back front (core ++ back) (length core + k) ∙ get_or-append_back core back k

  length-padded : length padded ≡ length front + (length core + length back)
  length-padded = omega (arith, length-append front (core ++ back), length-append core back)

  padded_after :
      All IsSpace back
      → (k : ℕ) → length front + length core ≤ k
      → k < length padded
      → IsSpace (get_or padded k 0)
  padded_after h k ge lt =
      let j = k - (length front + length core) in
      let e : length front + (length core + j) ≡ k = omega arith in
      rw (← e) (rw (padded_back j) (All-get_or IsSpace back j h (omega (arith, length-padded))))

  padded-IsPadded :
      All IsSpace front
      → All IsSpace back
      → 0 < length core
      → IsNotSpace (get_or core 0 0)
      → IsNotSpace (get_or core (length core - 1) 0)
      → IsPadded padded (length front) (length core)
  padded-IsPadded hf hb pos h0 hl = record {
    fits = omega (arith, length-padded);
    some_core = pos;
    before = padded_before hf;
    after = padded_after hb;
    first =
        let e : length front + 0 ≡ length front = omega arith in
        rw (← e) (rw (padded_core 0 pos) h0);
    last =
        let e : length front + (length core - 1) ≡ length front + length core - 1 = omega arith in
        rw (← e) (rw (padded_core (length core - 1) (omega arith)) hl);
  }

  slice-padded : slice padded (length front) (length front + length core) ≡ core
  slice-padded =
      let e : length front + length core - length front ≡ length core = omega arith in
      rw (e, drop-append_length front (core ++ back)) (take-append_length core back)

  -- White space before and after a text is dropped, and nothing else: the text is any that does
  -- not itself begin or end with one of the four spaces.
  pub trim-padded :
      All IsSpace front
      → All IsSpace back
      → 0 < length core
      → IsNotSpace (get_or core 0 0)
      → IsNotSpace (get_or core (length core - 1) 0)
      → bytes_trim_space (front ++ (core ++ back)) ≡ core
  trim-padded hf hb pos h0 hl = trim-slice (padded-IsPadded hf hb pos h0 hl) ∙ slice-padded
