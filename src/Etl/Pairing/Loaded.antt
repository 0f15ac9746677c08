-- ===== src/Etl/Pairing/Loaded.antt =====
-- The rows that are stored, and the cards that they come from.
use kms_golang.Base.{
  some_injective, ℕ, ◌==◌, Bytes, List, [], ◌∷◌, Bool-cases, inl, inr, ◌⊎◌, some, All, ◌≡◌, refl,
  sym, ap, ◌∙◌, arith,
}
use mathlib.Core.Path.{subst}
use kms_golang.Client.{KmsClient}
use kms_golang.Etl.{CardRecord, EncryptedRecord}
use kms_golang.Etl.Encrypt.{IsMade}
use kms_golang.Etl.Pairing.{Rows, put, load_rows}

module _ (P : EncryptedRecord → Type 0) where
  -- Every row of a map has the identifier that it is stored under, and is one that was put in.
  abbrev pub Holds : Rows → Type 0
  Holds m = (id : ℕ) (r : EncryptedRecord) → m id ≡ some r → P r × (r.source_id ≡ id)

  put-Holds : (m : Rows) (r : EncryptedRecord) → Holds m → P r → Holds (put m r)
  put-Holds m r held mine id x found = elim (Bool-cases (id == r.source_id)) [
    | inl same ↦
        let e : r ≡ x = some_injective (rw same at found) in
        (subst P e mine, ap (λ y. y.source_id) (sym e) ∙ ground (arith, same))
    | inr other ↦ held id x (rw other at found)
  ]

  pub load_rows-Holds :
      (rows : List EncryptedRecord) (m : Rows) → All P rows → Holds m → Holds (load_rows rows m)
  unfolding load_rows
  load_rows-Holds [] m mine held = held
  load_rows-Holds (r ∷ rows) m (first, mine) held =
      load_rows-Holds rows (put m r) mine (put-Holds m r held first)

abbrev pub Among : {A : Type 0} → A → List A → Type 0
Among c [] = ⊥
Among c (d ∷ cards) = (c ≡ d) ⊎ Among c cards

Among-All : {A : Type 0} (P : A → Type 0) (x : A) (xs : List A) → All P xs → Among x xs → P x
Among-All P x [] h among = elim among [ ]
Among-All P x (y ∷ xs) (first, rest) (inl same) = subst P (sym same) first
Among-All P x (y ∷ xs) (first, rest) (inr among) = Among-All P x xs rest among

-- What holds of every element of a list holds of the elements of a list of some of them.
pub All-among :
    {A : Type 0} (P : A → Type 0) (xs ys : List A) → All P xs → All (λ y. Among y xs) ys → All P ys
All-among P xs [] h among = tt
All-among P xs (y ∷ ys) h (first, rest) = (Among-All P y xs h first, All-among P xs ys h rest)

-- No two cards have the same identifier.
abbrev pub IsKeyed : List CardRecord → Type 0
IsKeyed cards = (c d : CardRecord) → Among c cards → Among d cards → c.id ≡ d.id → c ≡ d

pub All-Among :
    (cards all : List CardRecord)
    → ((c : CardRecord) → Among c cards → Among c all)
    → All (λ c. Among c all) cards
All-Among [] all inside = tt
All-Among (c ∷ cards) all inside =
    (inside c (inl refl), All-Among cards all (λ d h. inside d (inr h)))

module _ {D : Type 0} (client : KmsClient D) (token : Bytes) (all : List CardRecord) where
  -- A row that was made of one of the cards.
  abbrev pub IsFrom : EncryptedRecord → Type 0
  IsFrom sent = (c : CardRecord) × Among c all × IsMade client token c sent

  pub from_card :
      IsKeyed all
      → (c : CardRecord) (r : EncryptedRecord) → Among c all
      → IsFrom r
      → r.source_id ≡ c.id
      → IsMade client token c r
  from_card keyed c r mine (d, other, made) id =
      let (pan, cvv, _, _, same) = made in
      let e : d ≡ c = keyed d c other mine (ap (λ x. x.source_id) same ∙ id) in
      subst (λ x. IsMade client token x r) e made
