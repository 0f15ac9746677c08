-- ===== src/Go/Base64.antt =====
-- `base64.StdEncoding`: what `EncodeToString` and `DecodeString` do. The decoder skips line breaks,
-- wants its padding, and does not check the bits that the padding leaves over.
pub mod RoundTrip
use kms_golang.Base.{
  ℕ, ◌+◌, ◌-◌, ◌*◌, ◌/◌, ◌%◌, Bytes, [], ◌∷◌, ltb, leb, ◌==◌, ◌&&◌, ◌||◌, if◌then◌else◌, Option,
  none, some, true, false, Result, ok, err, foreign, codes,
}

abbrev pub pad : ℕ
pad = b'='

-- The alphabet.
unfoldable pub digit : ℕ → ℕ
digit v =
    if ltb v 26
    then b'A' + v
    else if ltb v 52
    then b'a' + (v - 26)
    else if ltb v 62
    then b'0' + (v - 52)
    else if v == 62
    then b'+'
    else b'/'

-- `decodeMap`: `none` is 0xFF.
unfoldable pub digit_value : ℕ → Option ℕ
digit_value c =
    if leb b'A' c && leb c b'Z'
    then some (c - b'A')
    else if leb b'a' c && leb c b'z'
    then some (c - b'a' + 26)
    else if leb b'0' c && leb c b'9'
    then some (c - b'0' + 52)
    else if c == b'+'
    then some 62
    else if c == b'/'
    then some 63
    else none

unfoldable pub encode : Bytes → Bytes
encode [] = []
encode (a ∷ []) = digit (a / 4) ∷ digit (a % 4 * 16) ∷ pad ∷ pad ∷ []
encode (a ∷ b ∷ []) = digit (a / 4) ∷ digit (a % 4 * 16 + b / 16) ∷ digit (b % 16 * 4) ∷ pad ∷ []
encode (a ∷ b ∷ c ∷ rest) =
    digit (a / 4)
    ∷ digit (a % 4 * 16 + b / 16)
    ∷ digit (b % 16 * 4 + c / 64)
    ∷ digit (c % 64)
    ∷ encode rest

unfoldable pub strip_breaks : Bytes → Bytes
strip_breaks [] = []
strip_breaks (c ∷ s) = if c == 10 || c == 13 then strip_breaks s else c ∷ strip_breaks s

-- One, two or three bytes of four sextets.
abbrev pub one_byte : ℕ → ℕ → ℕ
one_byte u v = u * 4 + v / 16

abbrev pub two_byte : ℕ → ℕ → ℕ
two_byte v w = v % 16 * 16 + w / 4

abbrev pub three_byte : ℕ → ℕ → ℕ
three_byte w x = w % 4 * 64 + x

infixl 5 ◌>>=◌
abbrev pub ◌>>=◌ {ℓ κ} : {A : Type ℓ} {B : Type κ} → Option A → (A → Option B) → Option B
none >>= f = none
some a >>= f = f a

-- A quantum that ends in padding is the last one.
abbrev pub last : Bytes → Bytes → Option Bytes
last [] out = some out
last (_ ∷ _) out = none

abbrev pub quantum : ℕ → ℕ → ℕ → ℕ → Bytes → Option Bytes → Option Bytes
quantum a b c d rest decoded = do
  u ← digit_value a
  v ← digit_value b
  if c == pad then (if d == pad then last rest (one_byte u v ∷ []) else none) else do
    w ← digit_value c
    if d == pad then last rest (one_byte u v ∷ two_byte v w ∷ []) else do
      x ← digit_value d
      more ← decoded
      some (one_byte u v ∷ two_byte v w ∷ three_byte w x ∷ more)

unfoldable pub decode_quanta : Bytes → Option Bytes
decode_quanta [] = some []
decode_quanta (a ∷ b ∷ c ∷ d ∷ rest) = quantum a b c d rest (decode_quanta rest)
decode_quanta _ = none

abbrev or_corrupt : Option Bytes → Result Bytes
or_corrupt none = err (foreign (codes "illegal base64 data"))
or_corrupt (some b) = ok b

unfoldable pub decode : Bytes → Result Bytes
unfolding decode_quanta strip_breaks digit_value
decode s = or_corrupt (decode_quanta (strip_breaks s))
