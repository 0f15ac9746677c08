-- ===== src/Http/Batch/Answer.antt =====
-- The answer to a batch.
use kms_golang.Base.{
  Run, ℕ, zero, suc, ◌+◌, ◌<◌, ◌≤◌, Bytes, List, [], ◌∷◌, none, some, Error, length, replicate, map,
  inl, inr, ◌≡◌, ◌≢◌, refl, ap, ◌∙◌, arith, sum_below, Enumerates, bytes_eq→eq,
}
use native.Mathlib.Nat.{zero-add}
use kms_golang.Go.Base64
use kms_golang.Go.Base64.RoundTrip.{encode-cons}
use kms_golang.Http.{EncryptRequest, EncryptResponse, batch, encoded, respond_ok}
use kms_golang.Http.Batch.{
  Outcome, collect, encoded_or_empty, filter_empty, batch_response, max_workers,
  batch_encrypt_handler,
}
use kms_golang.Http.Batch.Collect.{
  arrivals, place_of, failure_of, failure, places, collect-Enumerates, length-errors_Enumerates,
}
use kms_golang.Http.Batch.Pool.{Pool, Step, filled, work, ended, Run-done}

-- The responses of the items from `k` on whose calls succeeded, in the order of the items.
abbrev success_then : Outcome → List EncryptResponse → List EncryptResponse
success_then (inl r) rest = encoded r ∷ rest
success_then (inr e) rest = rest

abbrev pub successes : (ℕ → Outcome) → ℕ → ℕ → List EncryptResponse
successes f k zero = []
successes f k (suc n) = success_then (f k) (successes f (suc k) n)

-- No response of the service has an empty ciphertext: AES-GCM adds a tag of sixteen bytes.
abbrev HasCiphertext : Outcome → Type 0
HasCiphertext (inl r) = r.ciphertext ≢ []
HasCiphertext (inr e) = Unit

encode-ne-nil : (bs : Bytes) → bs ≢ [] → Base64.encode bs ≢ []
encode-ne-nil [] h = absurd (h refl)
encode-ne-nil (b ∷ bs) h = encode-cons b bs

module _ (f : ℕ → Outcome) (full : (i : ℕ) → HasCiphertext (f i)) where
  filter_empty-places :
      (k n : ℕ) → filter_empty (map encoded_or_empty (places f k n)) ≡ successes f k n
  unfolding filter_empty
  filter_empty-places k zero = refl
  filter_empty-places k (suc n) = keep (f k) (full k) (filter_empty-places (suc k) n)
    where
      keep :
          (o : Outcome)
          → HasCiphertext o
          → filter_empty (map encoded_or_empty (places f (suc k) n)) ≡ successes f (suc k) n
          → filter_empty (encoded_or_empty (place_of o) ∷ map encoded_or_empty (places f (suc k) n))
            ≡ success_then o (successes f (suc k) n)
      keep (inl r) nonempty ih = ground (
        arith,
        ih,
        bytes_eq→eq (Base64.encode r.ciphertext) [],
        encode-ne-nil r.ciphertext nonempty,
      )
      keep (inr e) _ ih = ih

  abbrev failures_from : ℕ → ℕ → ℕ
  failures_from k zero = 0
  failures_from k (suc n) = failure_of (f k) + failures_from (suc k) n

  length-success_then :
      (o : Outcome) (rest : List EncryptResponse)
      → length (success_then o rest) + failure_of o ≡ length rest + 1
  length-success_then (inl r) rest = omega arith
  length-success_then (inr e) rest = omega arith

  length-successes : (k n : ℕ) → length (successes f k n) + failures_from k n ≡ n
  length-successes k zero = omega arith
  length-successes k (suc n) =
      omega (arith, length-successes (suc k) n, length-success_then (f k) (successes f (suc k) n))

  failures_from-sum :
      (k n : ℕ) → failures_from k n + sum_below (failure f) k ≡ sum_below (failure f) (k + n)
  failures_from-sum k zero = let e : k + 0 ≡ k = omega arith in rw e (omega arith)
  failures_from-sum k (suc n) =
      let e : suc k + n ≡ k + suc n = omega arith in
      rw (← e) (omega (arith, failures_from-sum (suc k) n))

  batch_response-arrivals :
      (items : List EncryptRequest) (order : List ℕ)
      → Enumerates order (length items)
      → batch_response items (arrivals f order)
        ≡ respond_ok (
            batch
              (successes f 0 (length items))
              (collect (arrivals f order) (replicate (length items) none, [])).1)
  unfolding batch_response
  batch_response-arrivals items order once =
      rw (collect-Enumerates f order (length items) once, filter_empty-places 0 (length items)) refl

  batch_encrypt_handler_accepts :
      (items : List EncryptRequest) (done : List (ℕ × Outcome))
      → 0 < length items
      → length items ≤ 1000
      → batch_encrypt_handler (some items) done ≡ batch_response items done
  unfolding batch_encrypt_handler
  batch_encrypt_handler_accepts items done some_item few = ground arith

  -- A batch of one to a thousand items whose calls have all ended, in whatever order the workers
  -- made them, is answered with status 200 and the responses of the calls that succeeded, in the
  -- order of the items, and with one error for each call that failed, if no call returns an empty
  -- ciphertext.
  pub batch_encrypt_handler-Run :
      (items : List EncryptRequest) {p : Pool}
      → 0 < length items
      → length items ≤ 1000
      → Run (Step (max_workers items) f) (filled (length items)) p
      → work p ≡ 0
      → (errors : List Error) × (batch_encrypt_handler (some items) p.done
          ≡ respond_ok (batch (successes f 0 (length items)) errors))
        × (length (successes f 0 (length items)) + length errors ≡ length items)
  batch_encrypt_handler-Run items {p} some_item few run over =
      let n = length items in
      let order = ended p in
      let (once, own) = Run-done (max_workers items) f n run over in
      (
        (collect (arrivals f order) (replicate n none, [])).1,
        batch_encrypt_handler_accepts items p.done some_item few
            ∙ ap (batch_response items) own
            ∙ batch_response-arrivals items order once,
        omega (
          arith,
          length-errors_Enumerates f order n once,
          length-successes 0 n,
          failures_from-sum 0 n,
          ap (sum_below (failure f)) (zero-add n),
        ),
      )
