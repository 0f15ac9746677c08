-- ===== src/Go/Hex.antt =====
-- `hex.DecodeString`, and the verb %x of `fmt`.
pub mod RoundTrip
use kms_golang.Base.{
  ℕ, ◌+◌, ◌-◌, ◌*◌, ◌/◌, ◌%◌, ◌<◌, ltb, Bytes, [], ◌∷◌, leb, ◌&&◌, if◌then◌else◌, Option, none,
  some, Result, ok, err, new, with_text, ◌≡◌, ◌≢◌, arith, All, IsBytes, length, ◌>>=◌, >>=-eq-ok,
  ok_injective,
}

-- `reverseHexTable`: `none` stands for 0xff.
unfoldable pub digit_value : ℕ → Option ℕ
digit_value c =
    if leb b'0' c && leb c b'9'
    then some (c - b'0')
    else if leb b'a' c && leb c b'f'
    then some (c - b'a' + 10)
    else if leb b'A' c && leb c b'F'
    then some (c - b'A' + 10)
    else none

abbrev or_invalid : ℕ → Option ℕ → Result ℕ
or_invalid c none = err (with_text "encoding/hex: invalid byte: " (c ∷ []))
or_invalid c (some v) = ok v

unfoldable pub decode : Bytes → Result Bytes
unfolding digit_value
decode [] = ok []
decode (p ∷ []) = do
  _ ← or_invalid p (digit_value p)
  err (new "encoding/hex: odd length hex string")
decode (p ∷ q ∷ rest) = do
  a ← or_invalid p (digit_value p)
  b ← or_invalid q (digit_value q)
  more ← decode rest
  ok ((a * 16 + b) ∷ more)

abbrev pub digit : ℕ → ℕ
digit v = if ltb v 10 then v + b'0' else v - 10 + b'a'

unfoldable pub encode : Bytes → Bytes
encode [] = []
encode (b ∷ bs) = digit (b / 16) ∷ digit (b % 16) ∷ encode bs

abbrev pub IsHexDigit : ℕ → Type 0
IsHexDigit c = digit_value c ≢ none

digit_value_lt : (c v : ℕ) → digit_value c ≡ some v → v < 16
unfolding digit_value
digit_value_lt c v h = ground arith

or_invalid_ok : (c : ℕ) (o : Option ℕ) {v : ℕ} → or_invalid c o ≡ ok v → o ≡ some v
or_invalid_ok c none h = cc
or_invalid_ok c (some v) h = cc

-- A text that decodes holds two digits for each byte, and nothing else.
pub decode_digits :
    (s : Bytes) {key : Bytes}
    → decode s ≡ ok key
    → All IsHexDigit s × (length s ≡ 2 * length key) × IsBytes key
unfolding decode
decode_digits [] h = ground arith
decode_digits (p ∷ []) h = ground arith
decode_digits (p ∷ q ∷ rest) h =
    let (a, ea, ha) = >>=-eq-ok (or_invalid p (digit_value p)) _ h in
    let (b, eb, hb) = >>=-eq-ok (or_invalid q (digit_value q)) _ ha in
    let (more, em, hm) = >>=-eq-ok (decode rest) _ hb in
    let ih = decode_digits rest em in
    let same = ok_injective hm in
    ground (
      arith,
      digit_value_lt p a (or_invalid_ok p (digit_value p) ea),
      digit_value_lt q b (or_invalid_ok q (digit_value q) eb),
      ih,
      same,
    )
