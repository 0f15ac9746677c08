-- ===== src/Kms/Trim.antt =====
-- internal/kms/crypto.go, `bytesTrimSpace`: two loops over indices. Go would panic on an index out
-- of range; both loops test the range first.
pub mod Bounds
pub mod Padding
pub mod Sound
use kms_golang.Base.{
  ℕ, zero, suc, ◌+◌, ◌-◌, Bytes, [], ◌∷◌, ltb, ◌==◌, ◌||◌, ◌&&◌, not, Bool, true, false,
  if◌then◌else◌, length, take, drop, get_or, codes, ◌≡◌, refl,
}

unfoldable pub is_space : ℕ → Bool
is_space c = c == b' ' || c == 10 || c == 13 || c == 9

-- `for start < len(b) { if … { break }; start++ }`
unfoldable pub skip_front : ℕ → Bytes → ℕ → ℕ
unfolding is_space
skip_front zero b start = start
skip_front (suc fuel) b start =
    let next = skip_front fuel b (start + 1) in
    if ltb start (length b) && is_space (get_or b start 0) then next else start

-- `for end > start { if … { break }; end-- }`
unfoldable pub skip_back : ℕ → Bytes → ℕ → ℕ → ℕ
unfolding is_space
skip_back zero b start end = end
skip_back (suc fuel) b start end =
    let next = skip_back fuel b start (end - 1) in
    if ltb start end && is_space (get_or b (end - 1) 0) then next else end

-- `b[i:j]`
abbrev pub slice : Bytes → ℕ → ℕ → Bytes
slice b i j = take (j - i) (drop i b)

-- Neither loop makes more rounds than `b` has bytes.
abbrev pub trim_start : Bytes → ℕ
trim_start b = skip_front (length b) b 0

abbrev pub trim_end : Bytes → ℕ
trim_end b = skip_back (length b) b (trim_start b) (length b)

unfoldable pub bytes_trim_space : Bytes → Bytes
unfolding skip_front skip_back
bytes_trim_space b = slice b (trim_start b) (trim_end b)
