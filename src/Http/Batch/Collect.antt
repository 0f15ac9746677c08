-- ===== src/Http/Batch/Collect.antt =====
-- Collecting the results in the order in which the calls ended.
use kms_golang.Base.{
  ℕ, zero, suc, ◌+◌, ◌<◌, ◌≤◌, List, [], ◌∷◌, true, false, ltb, ◌==◌, Option, none, some, length,
  get_elem?, get_elem?-set_self, get_elem?-set_ne, length-set, length-append, length-replicate,
  replicate, map, ◌⊎◌, inl, inr, ◌≡◌, ◌≢◌, refl, sym, ap, ◌∙◌, arith, count, sum_of, sum_below,
  Enumerates, sum_of-Enumerates, get_elem?-ext, Bool-cases,
}
use native.Mathlib.Nat.{zero-add}
use kms_golang.Proto
use kms_golang.Http.Batch.{Outcome, Collected, store, collect}

get_elem?_outside {ℓ} : {A : Type ℓ} (xs : List A) (j : ℕ) → length xs ≤ j → get_elem? xs j ≡ none
get_elem?_outside [] j h = refl
get_elem?_outside (x ∷ xs) zero h = absurd (omega arith)
get_elem?_outside (x ∷ xs) (suc j) h = get_elem?_outside xs j (omega arith)

get_elem?-replicate {ℓ} :
    {A : Type ℓ} (n j : ℕ) {a : A} → j < n → get_elem? (replicate n a) j ≡ some a
get_elem?-replicate zero j h = absurd (omega arith)
get_elem?-replicate (suc n) zero h = refl
get_elem?-replicate (suc n) (suc j) h = get_elem?-replicate n j (omega arith)

ltb→lt : (j n : ℕ) → ltb j n ≡ true → j < n
ltb→lt j n h = ground arith

ge_of : (j n : ℕ) → ltb j n ≡ false → n ≤ j
ge_of j n h = ground arith

abbrev pub place_of : Outcome → Option Proto.EncryptResponse
place_of (inl r) = some r
place_of (inr e) = none

abbrev pub failure_of : Outcome → ℕ
failure_of (inl r) = 0
failure_of (inr e) = 1

module _ (f : ℕ → Outcome) where
  -- The results of the calls that ended in the order given, if the call of item `i` returned `f i`.
  abbrev pub arrivals : List ℕ → List (ℕ × Outcome)
  arrivals = map (λ i. (i, f i))

  abbrev pub place : ℕ → Option Proto.EncryptResponse
  place i = place_of (f i)

  abbrev pub failure : ℕ → ℕ
  failure i = failure_of (f i)

  length-store : (c : Collected) (i : ℕ) (o : Outcome) → length (store c (i, o)).0 ≡ length c.0
  length-store c i (inl r) = length-set c.0 i (some r)
  length-store c i (inr e) = refl

  -- What one result does to the place of item `j`.
  get_elem?-store_ne :
      (c : Collected) (i j : ℕ) (o : Outcome)
      → i ≢ j
      → get_elem? (store c (i, o)).0 j ≡ get_elem? c.0 j
  get_elem?-store_ne c i j (inl r) h = get_elem?-set_ne c.0 (some r) h
  get_elem?-store_ne c i j (inr e) h = refl

  length-collect :
      (order : List ℕ) (c : Collected) → length (collect (arrivals order) c).0 ≡ length c.0
  unfolding collect
  length-collect [] c = refl
  length-collect (i ∷ order) c = length-collect order (store c (i, f i)) ∙ length-store c i (f i)

  -- An item that has not ended keeps its place.
  get_elem?-collect_absent :
      (order : List ℕ) (c : Collected) (j : ℕ)
      → count j order ≡ 0
      → get_elem? (collect (arrivals order) c).0 j ≡ get_elem? c.0 j
  unfolding collect
  get_elem?-collect_absent [] c j h = refl
  get_elem?-collect_absent (i ∷ order) c j h =
      let other : i ≢ j = ground arith in
      get_elem?-collect_absent order (store c (i, f i)) j (omega arith)
      ∙ get_elem?-store_ne c i j (f i) other

  -- A place that is empty or holds the item's own response stays so.
  Holds : Collected → ℕ → Type 0
  Holds c j = get_elem? c.0 j ≡ some (place j)

  store-own :
      (c : Collected) (j : ℕ) (o : Outcome)
      → j < length c.0
      → (get_elem? c.0 j ≡ some none) ⊎ (get_elem? c.0 j ≡ some (place_of o))
      → get_elem? (store c (j, o)).0 j ≡ some (place_of o)
  store-own c j (inl r) lt h = get_elem?-set_self c.0 j (some r) lt
  store-own c j (inr e) lt (inl h) = h
  store-own c j (inr e) lt (inr h) = h

  get_elem?-collect :
      (order : List ℕ) (c : Collected) (j : ℕ)
      → j < length c.0
      → 0 < count j order
      → (get_elem? c.0 j ≡ some none) ⊎ (get_elem? c.0 j ≡ some (place j))
      → get_elem? (collect (arrivals order) c).0 j ≡ some (place j)
  unfolding collect
  get_elem?-collect [] c j lt h own = absurd (omega arith)
  get_elem?-collect (i ∷ order) c j lt h own = elim (Bool-cases (i == j)) [
    | inr other ↦
        let ne : i ≢ j = ground arith in
        let kept = get_elem?-store_ne c i j (f i) ne in
        get_elem?-collect order (store c (i, f i)) j (omega (arith, length-store c i (f i)))
          (ground arith) (rw kept own)
    | inl same ↦
        let e : i ≡ j = ground arith in
        let stored : get_elem? (store c (i, f i)).0 j ≡ some (place j) =
          rw e (store-own c j (f j) lt own) in
        elim (Bool-cases (count j order == 0)) [
          | inl gone ↦ get_elem?-collect_absent order (store c (i, f i)) j (ground arith) ∙ stored
          | inr again ↦
              get_elem?-collect order (store c (i, f i)) j (omega (arith, length-store c i (f i)))
                (ground arith) (inr stored)
        ]
  ]

  -- The response of each item at its place, from place `k` on.
  abbrev pub places : ℕ → ℕ → List (Option Proto.EncryptResponse)
  places k zero = []
  places k (suc n) = place k ∷ places (suc k) n

  get_elem?-places : (k n j : ℕ) → j < n → get_elem? (places k n) j ≡ some (place (k + j))
  get_elem?-places k zero j lt = absurd (omega arith)
  get_elem?-places k (suc n) zero lt = let e : k + 0 ≡ k = omega arith in rw e refl
  get_elem?-places k (suc n) (suc j) lt =
      let e : suc k + j ≡ k + suc j = omega arith in
      get_elem?-places (suc k) n j (omega arith) ∙ ap (λ i. some (place i)) e

  length-places : (k n : ℕ) → length (places k n) ≡ n
  length-places k zero = refl
  length-places k (suc n) = ap suc (length-places (suc k) n)

  abbrev start : ℕ → Collected
  start n = (replicate n none, [])

  -- However the calls end, each once, the collected responses stand in the order of the items.
  pub collect-Enumerates :
      (order : List ℕ) (n : ℕ)
      → Enumerates order n
      → (collect (arrivals order) (replicate n none, [])).0 ≡ places 0 n
  collect-Enumerates order n once =
      get_elem?-ext (collect (arrivals order) (start n)).0 (places 0 n) λ j.
        elim (Bool-cases (ltb j n)) [
          | inl lt ↦
              get_elem?-collect order (start n) j
                (omega (
                  arith,
                  length-replicate {A = Option Proto.EncryptResponse} n none,
                  ltb→lt j n lt,
                ))
                (ground (arith, once j)) (inl (get_elem?-replicate n j (ground arith)))
              ∙ sym (get_elem?-places 0 n j (ground arith) ∙ ap (λ i. some (place i)) (zero-add j))
          | inr ge ↦
              get_elem?_outside (collect (arrivals order) (start n)).0 j (
                omega (
                  arith,
                  length-collect order (start n),
                  length-replicate {A = Option Proto.EncryptResponse} n none,
                  ge_of j n ge,
                ))
              ∙ sym (
                  get_elem?_outside (places 0 n) j (omega (arith, length-places 0 n, ge_of j n ge)))
        ]

  length-errors :
      (order : List ℕ) (c : Collected)
      → length (collect (arrivals order) c).1 ≡ length c.1 + sum_of failure order
  unfolding collect
  length-errors [] c = omega arith
  length-errors (i ∷ order) c =
      omega (arith, length-errors order (store c (i, f i)), length-store_errors c i (f i))
    where
      length-store_errors :
          (c : Collected) (i : ℕ) (o : Outcome)
          → length (store c (i, o)).1 ≡ length c.1 + failure_of o
      length-store_errors c i (inl r) = omega arith
      length-store_errors c i (inr e) = omega (arith, length-append c.1 (e ∷ []))

  -- There is one error for each call that failed.
  pub length-errors_Enumerates :
      (order : List ℕ) (n : ℕ)
      → Enumerates order n
      → length (collect (arrivals order) (replicate n none, [])).1 ≡ sum_below failure n
  length-errors_Enumerates order n once =
      omega (arith, length-errors order (start n), sum_of-Enumerates failure order n once)
