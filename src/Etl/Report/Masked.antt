-- ===== src/Etl/Report/Masked.antt =====
-- What a report gives away of the data that it masks.
use kms_golang.Base.{
  ℕ, Bytes, [], ◌++◌, true, none, some, Result, ok, err, panic, length, codes, ◌⊎◌, inl, inr, ◌≡◌,
  ◌≢◌, refl, ap, arith,
}
use kms_golang.Go.World.{World}
use kms_golang.Kms.Format.{aes_gcm_nonce_size, split_nonce_and_ciphertext}
use kms_golang.Proto.{DecryptResponse}
use kms_golang.Client.{KmsClient}
use kms_golang.Etl.{VerificationRecord}
use kms_golang.Etl.Mask.{mask_pan, mask_cvv, last_four, mask_pan_hides, mask_cvv_hides}
use kms_golang.Etl.Report.{row_cells, Line, masked_inline, line_of, line_split, safe_line}

-- Card numbers of the same length with the same last four digits.
abbrev pub IsAlikePan : Bytes → Bytes → Type 0
IsAlikePan p q = (length p ≡ length q) × (last_four p ≡ last_four q)

-- Security codes that are both there or both missing.
abbrev pub IsAlikeCvv : Bytes → Bytes → Type 0
IsAlikeCvv p q = (p ≡ q) ⊎ ((p ≢ []) × (q ≢ []))

-- Records that differ in nothing but the hidden parts of their card numbers and security codes.
pub record IsAlike (v u : VerificationRecord) : Type 0 where
  pub source_id : v.source_id ≡ u.source_id
  pub original_pan : IsAlikePan v.original_pan u.original_pan
  pub decrypted_pan : IsAlikePan v.decrypted_pan u.decrypted_pan
  pub original_cvv : IsAlikeCvv v.original_cvv u.original_cvv
  pub decrypted_cvv : IsAlikeCvv v.decrypted_cvv u.decrypted_cvv
  pub encrypted_pan : v.encrypted_pan ≡ u.encrypted_pan
  pub encrypted_cvv : v.encrypted_cvv ≡ u.encrypted_cvv
  pub pan_match : v.pan_match ≡ u.pan_match
  pub cvv_match : v.cvv_match ≡ u.cvv_match
  pub pan_error : v.pan_error ≡ u.pan_error
  pub cvv_error : v.cvv_error ≡ u.cvv_error
  pub other_data : v.other_data ≡ u.other_data

mask_cvv-IsAlikeCvv : (p q : Bytes) → IsAlikeCvv p q → mask_cvv p ≡ mask_cvv q
mask_cvv-IsAlikeCvv p q (inl same) = ap mask_cvv same
mask_cvv-IsAlikeCvv p q (inr (hp, hq)) = (mask_cvv_hides p q hp hq).0

-- With the option to mask, the row of a record tells of the card numbers only their lengths and
-- last four digits, and of the security codes only whether there are any: records that agree in
-- these and in all else have the same row.
pub row_cells-IsAlike :
    (v u : VerificationRecord) → IsAlike v u → row_cells true v ≡ row_cells true u
unfolding row_cells
row_cells-IsAlike v u a =
    let op = mask_pan_hides v.original_pan u.original_pan a.original_pan.0 a.original_pan.1 in
    let dp = mask_pan_hides v.decrypted_pan u.decrypted_pan a.decrypted_pan.0 a.decrypted_pan.1 in
    let oc = mask_cvv-IsAlikeCvv v.original_cvv u.original_cvv a.original_cvv in
    let dc = mask_cvv-IsAlikeCvv v.decrypted_cvv u.decrypted_cvv a.decrypted_cvv in
    rw
      (
        a.source_id, op, dp, oc, dc, a.encrypted_pan, a.encrypted_cvv, a.pan_match, a.cvv_match,
        a.pan_error, a.cvv_error, a.other_data,
      )
      refl

-- The mask that the safe verification writes out is that of the report.
pub masked_inline-mask_pan : (plain : Bytes) → masked_inline plain ≡ mask_pan plain
unfolding masked_inline mask_pan
masked_inline-mask_pan plain = ground arith

-- What a line may show: the word ERROR with a failure, or a masked number without one.
abbrev pub IsSafe : Line → Type 0
IsSafe l =
    ((l.failure ≢ none) × (l.masked ≡ codes "ERROR"))
    ⊎ ((l.failure ≡ none) × (plain : Bytes) × (l.masked ≡ mask_pan plain))

module _ {D : Type 0} (client : KmsClient D) (token : Bytes) where
  line_of-IsSafe :
      (id : ℕ) (x : Result DecryptResponse × World D) → IsSafe (line_of client token id x).0
  unfolding line_of
  line_of-IsSafe id (ok r, w) = inr (refl, r.plaintext, masked_inline-mask_pan r.plaintext)
  line_of-IsSafe id (err e, w) = inl (ground arith, refl)
  line_of-IsSafe id (panic p, w) = inl (ground arith, refl)

  line_split-IsSafe :
      (id : ℕ) (parts : Result (Bytes × Bytes)) (w : World D)
      → IsSafe (line_split client token id parts w).0
  unfolding line_split
  line_split-IsSafe id (ok (nonce, ciphertext)) w = line_of-IsSafe id (
      client.decrypt (some (codes "Bearer " ++ token))
        (record { ciphertext = ciphertext; nonce = nonce; key_id = [] }) w)
  line_split-IsSafe id (err e) w = inl (ground arith, refl)
  line_split-IsSafe id (panic p) w = inl (ground arith, refl)

  -- Whatever is stored and whatever the service answers, a line of the safe verification shows the
  -- word ERROR with a failure, or a masked number: never more than the last four digits of one.
  pub safe_line-IsSafe :
      (id : ℕ) (encrypted_pan : Bytes) (w : World D)
      → IsSafe (safe_line client token id encrypted_pan w).0
  unfolding safe_line
  safe_line-IsSafe id encrypted_pan w =
      line_split-IsSafe id (split_nonce_and_ciphertext encrypted_pan aes_gcm_nonce_size) w
