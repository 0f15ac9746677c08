-- ===== src/Go/Base64/RoundTrip.antt =====
-- Decoding what was encoded.
use kms_golang.Base.{
  ℕ, ◌+◌, ◌*◌, ◌/◌, ◌%◌, ◌<◌, Bytes, [], ◌∷◌, some, ok, ◌≡◌, ◌≢◌, refl, arith, IsBytes,
}
use kms_golang.Go.Base64.{pad, digit, digit_value, encode, strip_breaks, decode_quanta, decode}

digit_value-digit : (v : ℕ) → v < 64 → digit_value (digit v) ≡ some v
unfolding digit digit_value
digit_value-digit v h = ground arith

pub digit_plain : (v : ℕ) → (digit v ≢ pad) × (digit v ≢ 10) × (digit v ≢ 13)
unfolding digit
digit_plain v = ground arith

strip_breaks-encode : (bs : Bytes) → strip_breaks (encode bs) ≡ encode bs
unfolding strip_breaks encode
strip_breaks-encode [] = refl
strip_breaks-encode (a ∷ []) = ground (arith, digit_plain (a / 4), digit_plain (a % 4 * 16))
strip_breaks-encode (a ∷ b ∷ []) =
    ground (arith, digit_plain (a / 4), digit_plain (a % 4 * 16 + b / 16), digit_plain (b % 16 * 4))
strip_breaks-encode (a ∷ b ∷ c ∷ r) = ground (
  arith,
  digit_plain (a / 4),
  digit_plain (a % 4 * 16 + b / 16),
  digit_plain (b % 16 * 4 + c / 64),
  digit_plain (c % 64),
  strip_breaks-encode r,
)

decode_quanta-encode : (bs : Bytes) → IsBytes bs → decode_quanta (encode bs) ≡ some bs
unfolding decode_quanta encode
decode_quanta-encode [] h = refl
decode_quanta-encode (a ∷ []) h =
    ground (arith, digit_value-digit (a / 4), digit_value-digit (a % 4 * 16))
decode_quanta-encode (a ∷ b ∷ []) h = ground (
  arith,
  digit_value-digit (a / 4),
  digit_value-digit (a % 4 * 16 + b / 16),
  digit_value-digit (b % 16 * 4),
  digit_plain (b % 16 * 4),
)
decode_quanta-encode (a ∷ b ∷ c ∷ r) (ha, (hb, (hc, hr))) = ground (
  arith,
  digit_value-digit (a / 4),
  digit_value-digit (a % 4 * 16 + b / 16),
  digit_value-digit (b % 16 * 4 + c / 64),
  digit_value-digit (c % 64),
  digit_plain (b % 16 * 4 + c / 64),
  digit_plain (c % 64),
  decode_quanta-encode r hr,
)

-- Every byte sequence is decoded from its encoding.
pub decode-encode : (bs : Bytes) → IsBytes bs → decode (encode bs) ≡ ok bs
unfolding decode
decode-encode bs h = rw (strip_breaks-encode bs) (rw (decode_quanta-encode bs h))

-- Only the empty sequence has an empty encoding.
pub encode-cons : (a : ℕ) (bs : Bytes) → encode (a ∷ bs) ≢ []
unfolding encode
encode-cons a [] = cc
encode-cons a (b ∷ []) = cc
encode-cons a (b ∷ c ∷ rest) = cc
