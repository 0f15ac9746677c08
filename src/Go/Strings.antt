-- ===== src/Go/Strings.antt =====
-- What the program uses of package `strings`.
use kms_golang.Base.{
  ℕ, zero, suc, ◌+◌, ◌-◌, Bytes, List, [], ◌∷◌, ◌++◌, leb, ◌==◌, ◌&&◌, ◌||◌, if◌then◌else◌, Bool,
  true, false, codes, ◌≡◌, refl, length, take, drop, bytes_eq,
}
use mathlib.Core.List.{reverse}

unfoldable pub has_prefix : Bytes → Bytes → Bool
unfolding bytes_eq
has_prefix s prefix = leb (length prefix) (length s) && bytes_eq (take (length prefix) s) prefix

unfoldable pub has_suffix : Bytes → Bytes → Bool
unfolding bytes_eq
has_suffix s suffix =
    leb (length suffix) (length s) && bytes_eq (drop (length s - length suffix) s) suffix

-- `strings.TrimPrefix`.
unfoldable pub trim_prefix : Bytes → Bytes → Bytes
unfolding has_prefix
trim_prefix s prefix = if has_prefix s prefix then drop (length prefix) s else s

abbrev lower : ℕ → ℕ
lower c = if leb b'A' c && leb c b'Z' then c + 32 else c

-- `strings.ToLower` on ASCII letters. Other letters are left as they are: the program only asks
-- whether the result starts with "bearer ", and no other letter has one of these as its lower case.
unfoldable pub to_lower : Bytes → Bytes
to_lower [] = []
to_lower (c ∷ s) = lower c ∷ to_lower s

-- The encodings of `unicode.IsSpace`, beyond ASCII.
abbrev wide_spaces : List Bytes
wide_spaces =
    (0xc2 ∷ 0x85 ∷ [])
    ∷ (0xc2 ∷ 0xa0 ∷ [])
    ∷ (0xe1 ∷ 0x9a ∷ 0x80 ∷ [])
    ∷ (0xe2 ∷ 0x80 ∷ 0x80 ∷ [])
    ∷ (0xe2 ∷ 0x80 ∷ 0x81 ∷ [])
    ∷ (0xe2 ∷ 0x80 ∷ 0x82 ∷ [])
    ∷ (0xe2 ∷ 0x80 ∷ 0x83 ∷ [])
    ∷ (0xe2 ∷ 0x80 ∷ 0x84 ∷ [])
    ∷ (0xe2 ∷ 0x80 ∷ 0x85 ∷ [])
    ∷ (0xe2 ∷ 0x80 ∷ 0x86 ∷ [])
    ∷ (0xe2 ∷ 0x80 ∷ 0x87 ∷ [])
    ∷ (0xe2 ∷ 0x80 ∷ 0x88 ∷ [])
    ∷ (0xe2 ∷ 0x80 ∷ 0x89 ∷ [])
    ∷ (0xe2 ∷ 0x80 ∷ 0x8a ∷ [])
    ∷ (0xe2 ∷ 0x80 ∷ 0xa8 ∷ [])
    ∷ (0xe2 ∷ 0x80 ∷ 0xa9 ∷ [])
    ∷ (0xe2 ∷ 0x80 ∷ 0xaf ∷ [])
    ∷ (0xe2 ∷ 0x81 ∷ 0x9f ∷ [])
    ∷ (0xe3 ∷ 0x80 ∷ 0x80 ∷ [])
    ∷ []

abbrev is_ascii_space : ℕ → Bool
is_ascii_space c = leb 9 c && leb c 13 || c == 32

-- The length of the first of some encodings that a text begins with, 0 if there is none.
first_match : List Bytes → Bytes → ℕ
unfolding has_prefix
first_match [] s = 0
first_match (e ∷ es) s = if has_prefix s e then length e else first_match es s

abbrev reversed : List Bytes → List Bytes
reversed [] = []
reversed (e ∷ es) = reverse e ∷ reversed es

-- Drops spaces from the front of a text; `fuel` is its length.
trim_front : List Bytes → ℕ → Bytes → Bytes
unfolding first_match
trim_front wide zero s = s
trim_front wide (suc fuel) [] = []
trim_front wide (suc fuel) (c ∷ s) =
    let narrow = trim_front wide fuel s in
    let other = trim_front wide fuel (drop (first_match wide (c ∷ s)) (c ∷ s)) in
    if is_ascii_space c then narrow else if first_match wide (c ∷ s) == 0 then c ∷ s else other

-- `strings.TrimSpace`: the back is trimmed as the front of the reversed text.
unfoldable pub trim_space : Bytes → Bytes
unfolding trim_front
trim_space s =
    let front = trim_front wide_spaces (length s) s in
    reverse (trim_front (reversed wide_spaces) (length front) (reverse front))

trimmed : trim_space (codes " \t tok en" ++ 0xe3 ∷ 0x80 ∷ 0x80 ∷ 32 ∷ []) ≡ codes "tok en"
unfolding trim_space
trimmed = refl

prefixes :
    (has_prefix (codes "Bearer x") (codes "Bearer ") ≡ true)
    × (has_prefix (codes "Bear") (codes "Bearer ") ≡ false)
    × (has_suffix (codes "/kms.Auth/Login") (codes "/Login") ≡ true)
    × (to_lower (codes "BeArEr ") ≡ codes "bearer ")
unfolding has_prefix has_suffix to_lower
prefixes = (refl, refl, refl, refl)
