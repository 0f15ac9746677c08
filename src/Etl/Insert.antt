-- ===== src/Etl/Insert.antt =====
-- `insertBatch`: one INSERT statement for a batch of rows. The database is an argument.
use kms_golang.Base.{
  ℕ, zero, suc, Bytes, List, [], ◌∷◌, ◌++◌, if◌then◌else◌, Option, none, Error, codes, bytes_eq,
}
use kms_golang.Go.World.{World}
use kms_golang.Etl.{EncryptedRecord}

-- The parameters of a statement.
pub data Param : Type 0 where
  int64 : ℕ → Param
  text : Bytes → Param

abbrev pub row_params : EncryptedRecord → List Param
row_params r =
    int64 r.source_id ∷ text r.encrypted_pan ∷ text r.encrypted_cvv ∷ text r.other_data ∷ []

abbrev pub insert_head : Bytes → Bytes
insert_head driver =
    if bytes_eq driver (codes "postgres")
    then codes "INSERT INTO encrypted_users (id, credit_card_enc, email_enc, full_name_enc) VALUES "
    else codes
        "INSERT INTO encrypted_cards (source_id, encrypted_pan, encrypted_cvv, other_data) VALUES "

abbrev group : Bytes
group = codes "(?, ?, ?, ?)"

-- What one round of the loop writes: `i` is the row's index.
abbrev comma_before : ℕ → Bytes
comma_before zero = []
comma_before (suc i) = codes ","

-- The loop: the text and the parameters so far.
build : ℕ → List EncryptedRecord → Bytes → List Param → Bytes × List Param
build i [] query params = (query, params)
build i (r ∷ batch) query params =
    build (suc i) batch (query ++ (comma_before i ++ group)) (params ++ row_params r)

unfoldable pub insert_statement : Bytes → List EncryptedRecord → Bytes × List Param
unfolding build bytes_eq
insert_statement driver batch = build 0 batch (insert_head driver) []

-- `db.Exec`: the error, if there is one.
abbrev pub Exec : Type 0 → Type 0
Exec D = Bytes → List Param → World D → Option Error × World D

unfoldable pub insert_batch :
    {D : Type 0} → Exec D → Bytes → List EncryptedRecord → World D → Option Error × World D
unfolding insert_statement
insert_batch exec driver [] w = (none, w)
insert_batch exec driver (r ∷ batch) w =
    let (query, params) = insert_statement driver (r ∷ batch) in exec query params w

-- All rows' parameters, in order.
abbrev pub all_params : List EncryptedRecord → List Param
all_params [] = []
all_params (r ∷ batch) = row_params r ++ all_params batch

abbrev pub question : ℕ
question = b'?'
