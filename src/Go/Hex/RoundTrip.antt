-- ===== src/Go/Hex/RoundTrip.antt =====
-- What %x writes, `hex.DecodeString` reads.
use kms_golang.Base.{ℕ, ◌/◌, ◌%◌, ◌<◌, Bytes, [], ◌∷◌, some, ok, IsBytes, ◌≡◌, refl, ap, arith}
use kms_golang.Go.Hex.{digit, digit_value, decode, encode}

digit_value-digit : (v : ℕ) → v < 16 → digit_value (digit v) ≡ some v
unfolding digit_value
digit_value-digit v h = ground arith

pub decode-encode : (bs : Bytes) → IsBytes bs → decode (encode bs) ≡ ok bs
unfolding decode encode
decode-encode [] h = refl
decode-encode (b ∷ bs) (small, rest) =
    let high : b / 16 < 16 = omega arith in
    let low : b % 16 < 16 = omega arith in
    rw (digit_value-digit (b / 16) high, digit_value-digit (b % 16) low, decode-encode bs rest)
      (ap (λ n. ok (n ∷ bs)) (omega arith))
