-- ===== src/Example/Shown.antt =====
-- What is shown of the rows that the ETL job has made.
use kms_golang.Base.{
  Bytes, List, [], ◌∷◌, Option, none, some, Result, ok, err, panic, codes, All, ◌⊎◌, inl, inr, ◌≡◌,
  refl, sym, ap, ◌∙◌, ◌++◌, ◌<◌, ◌≤◌, ◌-◌, length, take, drop, ltb, Bool-cases, arith, length-take,
  length-drop, take-append-drop,
}
use mathlib.Core.Path.{subst}
use kms_golang.Go.World.{World}
use kms_golang.Kms.Format.{aes_gcm_nonce_size, split_nonce_and_ciphertext}
use kms_golang.Proto.{EncryptResponse, DecryptResponse}
use kms_golang.Client.{KmsClient, IsClient}
use kms_golang.Etl.{CardRecord, outgoing, scanned}
use kms_golang.Etl.Encrypt.{stored, IsEncryption}
use kms_golang.Etl.Verify.{split_stored}
use kms_golang.Example.{Row, Line, mask, shown_pan, show_parts, show_split, show_row, show_rows}

-- Four asterisks and the last four characters of a longer number, or four asterisks only.
abbrev pub IsMasked : Bytes → Bytes → Type 0
IsMasked number shown =
    ((front last : Bytes) × (number ≡ front ++ last)
      × (0 < length front)
      × (length last ≡ 4)
      × (shown ≡ codes "****" ++ last))
    ⊎ ((length number ≤ 4) × (shown ≡ codes "****"))

mask-IsMasked : (number : Bytes) → IsMasked number (mask number)
mask-IsMasked number = elim (Bool-cases (ltb 4 (length number))) [
  | inl long ↦
      let k = length number - 4 in
      inl (
        take k number,
        drop k number,
        sym (take-append-drop k number),
        ground (arith, long, length-take k number),
        ground (arith, long, length-drop k number),
        rw long refl,
      )
  | inr short ↦ inr (ground (arith, short), rw short refl)
]

module _ {D : Type 0} (client : KmsClient D) (token : Bytes) where
  -- A row whose two fields hold the responses of the service to those of a card.
  abbrev pub IsStored : CardRecord → Row → Type 0
  IsStored c r =
      (pan cvv : EncryptResponse) × IsEncryption client token c.card_no pan
      × IsEncryption client token c.cvv cvv
      × (stored pan ≡ r.encrypted_pan)
      × (stored cvv ≡ r.encrypted_cvv)

  abbrev pub IsMade : Row → Type 0
  IsMade r = (c : CardRecord) × IsStored c r

  -- The line of such a row: ERROR, or four asterisks and the end of the card's own number.
  abbrev pub IsLine : Row → Line → Type 0
  IsLine r l =
      (l.id ≡ r.id)
      × ((l.masked_pan ≡ codes "ERROR")
          ⊎ ((c : CardRecord) × IsStored c r × IsMasked c.card_no l.masked_pan))

  -- One line for each row, in order.
  abbrev pub AreLines : List Row → List Line → Type 0
  AreLines [] [] = Unit
  AreLines (r ∷ rows) (l ∷ lines) = IsLine r l × AreLines rows lines
  AreLines _ _ = ⊥

module _ {D : Type 0} (client : KmsClient D) (token : Bytes) (service : IsClient client) where
  shown_pan-honest :
      (plain : Bytes) (x : Result DecryptResponse)
      → ((r : DecryptResponse) → x ≡ ok r → r.plaintext ≡ plain)
      → (shown_pan x ≡ codes "ERROR") ⊎ IsMasked plain (shown_pan x)
  shown_pan-honest plain (ok r) honest =
      inr (subst (λ p. IsMasked p (mask r.plaintext)) (honest r refl) (mask-IsMasked r.plaintext))
  shown_pan-honest plain (err e) honest = inl refl
  shown_pan-honest plain (panic p) honest = inl refl

  show_row-IsLine :
      (r : Row) (w : World D)
      → IsMade client token r
      → (l : Line) × (w' : World D) × (show_row client token r w ≡ (some l, w'))
        × IsLine client token r l
  unfolding show_row show_split show_parts
  show_row-IsLine r w (c, (pan, cvv, (v, v', sealed), (u, u', sealed_cvv), same, same_cvv)) =
      let split =
        ap (λ s. split_nonce_and_ciphertext s aes_gcm_nonce_size) (sym same)
        ∙ split_stored client token service c.card_no pan v v' sealed in
      let split_cvv =
        ap (λ s. split_nonce_and_ciphertext s aes_gcm_nonce_size) (sym same_cvv)
        ∙ split_stored client token service c.cvv cvv u u' sealed_cvv in
      let answer =
        client.decrypt (outgoing token)
          (record { ciphertext = pan.ciphertext; nonce = pan.nonce; key_id = [] }) w in
      let shown = shown_pan-honest c.card_no answer.0 (λ found h.
        service.honest (outgoing token) (outgoing token)
          (record { plaintext = c.card_no; key_id = [] }) pan [] found v v' w answer.1 sealed
          (ap (λ x. (x, answer.1)) h)) in
      (
        _,
        _,
        ap
              (λ parts.
                show_split client token r parts
                  (split_nonce_and_ciphertext r.encrypted_cvv aes_gcm_nonce_size) w)
              split
            ∙ ap (λ parts. show_split client token r (ok (pan.nonce, pan.ciphertext)) parts w)
                split_cvv,
        (
          refl,
          elim shown [
            | inl error ↦ inl error
            | inr masked ↦
                inr (c, (pan, cvv, (v, v', sealed), (u, u', sealed_cvv), same, same_cvv), masked)
          ],
        ),
      )

  -- With a service that keeps its contract, the rows that were made of cards are shown as one line
  -- each, in order: with the word ERROR in place of the number, or with four asterisks, and
  -- after them the last four digits of the number of the card that the row was made of where it has
  -- more than four.
  pub show_rows-AreLines :
      (rows : List (Option Row)) (w : World D)
      → All (IsMade client token) (scanned rows)
      → AreLines client token (scanned rows) (show_rows client token rows w).0
  unfolding show_rows
  show_rows-AreLines [] w made = tt
  show_rows-AreLines (none ∷ rows) w made = show_rows-AreLines rows w made
  show_rows-AreLines (some r ∷ rows) w (first, made) =
      let (l, w1, shown, line) = show_row-IsLine r w first in
      rw shown (line, show_rows-AreLines rows w1 made)
