-- ===== src/Http/Batch.antt =====
-- cmd/kms-http-server/main.go, `batchEncryptHandler`: a pool of workers takes items from one channel
-- and puts results into another, in any order.
pub mod Pool
pub mod Collect
pub mod Answer
use kms_golang.Base.{
  ℕ, zero, suc, ◌+◌, ◌<◌, ◌≤◌, Bytes, List, [], ◌∷◌, ◌++◌, Bool, ◌==◌, ltb, if◌then◌else◌, not,
  Option, none, some, Error, new, bytes_eq, length, set, replicate, ◌⊎◌, inl, inr, ◌≡◌, map, min,
}
use kms_golang.Proto
use kms_golang.Http.{
  EncryptRequest, EncryptResponse, Response, batch, respond_ok, respond_error, encoded,
}

-- What one call of the service returned.
abbrev pub Outcome : Type 0
Outcome = Proto.EncryptResponse ⊎ Error

abbrev pub max_workers : List EncryptRequest → ℕ
max_workers items = min (length items) 50

-- Collecting the results as they arrive: responses go to their item's place, errors to a list.
abbrev pub Collected : Type 0
Collected = List (Option Proto.EncryptResponse) × List Error

abbrev pub store : Collected → ℕ × Outcome → Collected
store (temp, errors) (i, inl r) = (set temp i (some r), errors)
store (temp, errors) (i, inr e) = (temp, errors ++ e ∷ [])

unfoldable pub collect : List (ℕ × Outcome) → Collected → Collected
collect [] c = c
collect (x ∷ arrivals) c = collect arrivals (store c x)

-- `results`: the place of a failed item holds an empty response.
abbrev pub encoded_or_empty : Option Proto.EncryptResponse → EncryptResponse
encoded_or_empty none = record { ciphertext = []; nonce = [] }
encoded_or_empty (some r) = encoded r

-- The last loop keeps the responses whose ciphertext is not empty.
unfoldable pub filter_empty : List EncryptResponse → List EncryptResponse
unfolding bytes_eq
filter_empty [] = []
filter_empty (r ∷ rs) = if bytes_eq r.ciphertext [] then filter_empty rs else r ∷ filter_empty rs

unfoldable pub batch_response : List EncryptRequest → List (ℕ × Outcome) → Response
unfolding collect filter_empty
batch_response items arrivals =
    let (temp, errors) = collect arrivals (replicate (length items) none, []) in
    respond_ok (batch (filter_empty (map encoded_or_empty temp)) errors)

-- The handler, for a body that decodes to some items and the results of the pool that it starts.
unfoldable pub batch_encrypt_handler : Option (List EncryptRequest) → List (ℕ × Outcome) → Response
unfolding batch_response respond_error
batch_encrypt_handler none arrivals = respond_error 400 (new "invalid request body")
batch_encrypt_handler (some items) arrivals =
    if length items == 0
    then respond_error 400 (new "items array is required")
    else if ltb 1000 (length items)
    then respond_error 400 (new "batch size cannot exceed 1000 items")
    else batch_response items arrivals
