-- ===== src/Etl/Job/Safe.antt =====
-- `runSafeVerification`: a few stored rows are decrypted and written out with their numbers masked.
use kms_golang.Base.{
  ℕ, Bytes, List, [], ◌∷◌, ◌++◌, ◌||◌, if◌then◌else◌, Option, none, some, Result, ok, err, panic,
  wrapped, codes, bytes_eq, map, All, ◌≡◌, refl, ap, ◌∙◌,
}
use kms_golang.Go.World.{World, M}
use kms_golang.Kms.Format.{aes_gcm_nonce_size, split_nonce_and_ciphertext}
use kms_golang.Proto.{DecryptResponse}
use kms_golang.Client.{KmsClient}
use kms_golang.Etl.{Query, scanned}
use kms_golang.Etl.Report.{Line, safe_line, line_split, line_of}
use kms_golang.Etl.Report.Masked.{IsSafe, safe_line-IsSafe}

unfoldable pub safe_query : Bytes → Bytes
unfolding bytes_eq
safe_query driver =
    if bytes_eq driver (codes "mysql") || bytes_eq driver (codes "postgres")
    then codes "SELECT source_id, encrypted_pan FROM encrypted_cards LIMIT 5"
    else codes "SELECT TOP 5 source_id, encrypted_pan FROM encrypted_cards"

-- The two columns of a row.
pub record StoredPan : Type 0 where
  pub source_id : ℕ
  pub encrypted_pan : Bytes

module _ {D : Type 0} (client : KmsClient D) (token : Bytes) where
  -- The loop.
  unfoldable safe_lines : List (Option StoredPan) → World D → List Line × World D
  unfolding safe_line
  safe_lines [] w = ([], w)
  safe_lines (none ∷ rows) w = safe_lines rows w
  safe_lines (some r ∷ rows) w =
      let (l, w1) = safe_line client token r.source_id r.encrypted_pan w in
      let (ls, w2) = safe_lines rows w1 in (l ∷ ls, w2)

  after_query : Result (List (Option StoredPan)) × World D → Result (List Line) × World D
  unfolding safe_lines
  after_query (ok rows, w) = let (ls, w1) = safe_lines rows w in (ok ls, w1)
  after_query (err e, w) = (err (wrapped "Failed to query encrypted data: " e), w)
  after_query (panic p, w) = (panic p, w)

  unfoldable pub run_safe_verification : (Bytes → Query D StoredPan) → Bytes → M D (List Line)
  unfolding after_query safe_query
  run_safe_verification db driver w = after_query (db (safe_query driver) w)

  line_of-id :
      (id : ℕ) (x : Result DecryptResponse × World D) → (line_of client token id x).0.source_id ≡ id
  unfolding line_of
  line_of-id id (ok r, w) = refl
  line_of-id id (err e, w) = refl
  line_of-id id (panic p, w) = refl

  line_split-id :
      (id : ℕ) (parts : Result (Bytes × Bytes)) (w : World D)
      → (line_split client token id parts w).0.source_id ≡ id
  unfolding line_split
  line_split-id id (ok (nonce, ciphertext)) w = line_of-id id (
      client.decrypt (some (codes "Bearer " ++ token))
        (record { ciphertext = ciphertext; nonce = nonce; key_id = [] }) w)
  line_split-id id (err e) w = refl
  line_split-id id (panic p) w = refl

  safe_line-id :
      (id : ℕ) (encrypted_pan : Bytes) (w : World D)
      → (safe_line client token id encrypted_pan w).0.source_id ≡ id
  unfolding safe_line
  safe_line-id id encrypted_pan w =
      line_split-id id (split_nonce_and_ciphertext encrypted_pan aes_gcm_nonce_size) w

  safe_lines-IsSafe :
      (rows : List (Option StoredPan)) (w : World D)
      → All IsSafe (safe_lines rows w).0
        × (map (λ l. l.source_id) (safe_lines rows w).0 ≡ map (λ r. r.source_id) (scanned rows))
  unfolding safe_lines
  safe_lines-IsSafe [] w = (tt, refl)
  safe_lines-IsSafe (none ∷ rows) w = safe_lines-IsSafe rows w
  safe_lines-IsSafe (some r ∷ rows) w =
      let x = safe_line client token r.source_id r.encrypted_pan w in
      let (safe, ids) = safe_lines-IsSafe rows x.1 in
      (
        (safe_line-IsSafe client token r.source_id r.encrypted_pan w, safe),
        ap (λ id. id ∷ map (λ l. l.source_id) (safe_lines rows x.1).0)
              (safe_line-id r.source_id r.encrypted_pan w)
            ∙ ap (λ rest. r.source_id ∷ rest) ids,
      )

  -- The safe verification writes one line for each row that it can scan, in order, whatever is stored
  -- and whatever the service answers, and every line is safe to log: it shows the word ERROR with a
  -- failure, or a masked number. It needs only that the query succeeds.
  pub run_safe_verification-IsSafe :
      (db : Bytes → Query D StoredPan) (driver : Bytes) (w w' : World D)
      {rows : List (Option StoredPan)}
      → db (safe_query driver) w ≡ (ok rows, w')
      → (lines : List Line) × (last : World D) × (run_safe_verification db driver w
          ≡ (ok lines, last))
        × All IsSafe lines
        × (map (λ l. l.source_id) lines ≡ map (λ r. r.source_id) (scanned rows))
  unfolding run_safe_verification after_query
  run_safe_verification-IsSafe db driver w w' {rows} h =
      let (safe, ids) = safe_lines-IsSafe rows w' in
      ((safe_lines rows w').0, (safe_lines rows w').1, ap after_query h, safe, ids)
