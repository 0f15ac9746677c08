-- ===== src/Kms/Format.antt =====
-- internal/kms/encryption_format.go: nonce and ciphertext in one text.
use kms_golang.Base.{
  ℕ, ◌+◌, ◌<◌, Bytes, ◌++◌, Result, ok, err, too_short, wrap_err, ◌>>=◌, ltb, if◌then◌else◌, length,
  take, drop, ◌≡◌, arith, IsBytes, All-append, >>=-eq-ok, wrap_err_ok, take-append_length,
  drop-append_length, take-append-drop, length-append, length-take,
}
use kms_golang.Go.Base64
use kms_golang.Go.Base64.RoundTrip.{decode-encode}

abbrev pub aes_gcm_nonce_size : ℕ
aes_gcm_nonce_size = 12

unfoldable pub combine_nonce_and_ciphertext : Bytes → Bytes → Bytes
combine_nonce_and_ciphertext nonce ciphertext = Base64.encode (nonce ++ ciphertext)

-- `combined[:n]` and `combined[n:]`, of a slice that is long enough.
abbrev split_at : Bytes → ℕ → Result (Bytes × Bytes)
split_at combined n =
    if ltb (length combined) n
    then err (too_short n (length combined))
    else ok (take n combined, drop n combined)

unfoldable pub split_nonce_and_ciphertext : Bytes → ℕ → Result (Bytes × Bytes)
split_nonce_and_ciphertext combined_base64 size = do
  combined ← wrap_err "failed to decode base64: " (Base64.decode combined_base64)
  split_at combined size

split_at-append : (nonce text : Bytes) → split_at (nonce ++ text) (length nonce) ≡ ok (nonce, text)
split_at-append nonce text =
    ground (
      arith,
      length-append nonce text,
      take-append_length nonce text,
      drop-append_length nonce text,
    )

decode-combine :
    (nonce ciphertext : Bytes)
    → IsBytes nonce
    → IsBytes ciphertext
    → Base64.decode (combine_nonce_and_ciphertext nonce ciphertext) ≡ ok (nonce ++ ciphertext)
unfolding combine_nonce_and_ciphertext
decode-combine nonce ciphertext hn hc = decode-encode _ (All-append _ nonce ciphertext hn hc)

-- Splitting what was combined gives the nonce and the ciphertext back, for every nonce and
-- ciphertext made of bytes, if the split is told the nonce's length.
pub split-combine :
    (nonce ciphertext : Bytes)
    → IsBytes nonce
    → IsBytes ciphertext
    → split_nonce_and_ciphertext (combine_nonce_and_ciphertext nonce ciphertext) (length nonce)
      ≡ ok (nonce, ciphertext)
unfolding split_nonce_and_ciphertext
split-combine nonce ciphertext hn hc =
    rw (decode-combine nonce ciphertext hn hc) (split_at-append nonce ciphertext)

-- What was combined is refused with both lengths if it is shorter than the nonce that the split is
-- told of.
pub split-combine_short :
    (nonce ciphertext : Bytes) (size : ℕ)
    → IsBytes nonce
    → IsBytes ciphertext
    → length nonce + length ciphertext < size
    → split_nonce_and_ciphertext (combine_nonce_and_ciphertext nonce ciphertext) size
      ≡ err (too_short size (length nonce + length ciphertext))
unfolding split_nonce_and_ciphertext
split-combine_short nonce ciphertext size hn hc short =
    rw (decode-combine nonce ciphertext hn hc) (ground (arith, length-append nonce ciphertext))

-- A split that succeeds has a nonce of the size asked for, and the nonce followed by the ciphertext
-- is all that was encoded.
pub split_sound :
    (s : Bytes) (size : ℕ) {nonce ciphertext : Bytes}
    → split_nonce_and_ciphertext s size ≡ ok (nonce, ciphertext)
    → (length nonce ≡ size) × (Base64.decode s ≡ ok (nonce ++ ciphertext))
unfolding split_nonce_and_ciphertext
split_sound s size {nonce} {ciphertext} h =
    let (combined, wrapped_ok, h') = >>=-eq-ok (wrap_err _ (Base64.decode s)) _ h in
    let decoded = wrap_err_ok _ (Base64.decode s) wrapped_ok in
    ground (arith, h', decoded, take-append-drop size combined, length-take size combined)
