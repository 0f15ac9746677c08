-- ===== src/Kms/Trim/Bounds.antt =====
-- Where the two loops of `bytesTrimSpace` stop.
use kms_golang.Base.{
  ℕ, zero, suc, ◌+◌, ◌-◌, ◌≤◌, ◌<◌, Bytes, true, false, length, get_or, ◌≡◌, arith, ltb, ◌&&◌,
  Bool-cases, inl, inr,
}
use kms_golang.Kms.Trim.{is_space, skip_front, skip_back, trim_start, trim_end}

-- Every byte from `i` up to `j` is a space.
abbrev pub AllSpaces : Bytes → ℕ → ℕ → Type 0
AllSpaces b i j = (k : ℕ) → i ≤ k → k < j → is_space (get_or b k 0) ≡ true

pub record IsFront (b : Bytes) (start t : ℕ) : Type 0 where
  pub from : start ≤ t
  pub to : t ≤ length b
  pub spaces : AllSpaces b start t
  pub stops : t < length b → is_space (get_or b t 0) ≡ false

skip_front-IsFront :
    (fuel : ℕ) (b : Bytes) (start : ℕ)
    → start ≤ length b
    → length b ≤ start + fuel
    → IsFront b start (skip_front fuel b start)
unfolding skip_front
skip_front-IsFront zero b start h enough = record {
  from = omega arith;
  to = omega arith;
  spaces = λ k i j. absurd (omega arith);
  stops = λ lt. absurd (omega arith);
}
skip_front-IsFront (suc fuel) b start h enough =
    elim (Bool-cases (ltb start (length b) && is_space (get_or b start 0))) [
      | inl go ↦
          let ih = skip_front-IsFront fuel b (start + 1) (ground arith) (omega arith) in
          rw go (record {
            from = omega (arith, ih.from);
            to = ih.to;
            spaces = λ k i j. first_or_later b start k (ground arith) i (λ l. ih.spaces k l j);
            stops = ih.stops;
          })
      | inr stop ↦ rw stop (record {
        from = omega arith;
        to = h;
        spaces = λ k i j. absurd (omega arith);
        stops = λ lt. ground arith;
      })
    ]
  where
    first_or_later :
        (b : Bytes) (start k : ℕ)
        → is_space (get_or b start 0) ≡ true
        → start ≤ k
        → (start + 1 ≤ k → is_space (get_or b k 0) ≡ true)
        → is_space (get_or b k 0) ≡ true
    first_or_later b start k here i later = elim (Bool-cases (ltb start k)) [
      | inl lt ↦ later (ground arith)
      | inr ge ↦ let e : start ≡ k = ground arith in rw (← e) here
    ]

pub record IsBack (b : Bytes) (start end t : ℕ) : Type 0 where
  pub from : start ≤ t
  pub to : t ≤ end
  pub spaces : AllSpaces b t end
  pub stops : start < t → is_space (get_or b (t - 1) 0) ≡ false

skip_back-IsBack :
    (fuel : ℕ) (b : Bytes) (start end : ℕ)
    → start ≤ end
    → end ≤ start + fuel
    → IsBack b start end (skip_back fuel b start end)
unfolding skip_back
skip_back-IsBack zero b start end h enough = record {
  from = omega arith;
  to = omega arith;
  spaces = λ k i j. absurd (omega arith);
  stops = λ lt. absurd (omega arith);
}
skip_back-IsBack (suc fuel) b start end h enough =
    elim (Bool-cases (ltb start end && is_space (get_or b (end - 1) 0))) [
      | inl go ↦
          let ih = skip_back-IsBack fuel b start (end - 1) (ground arith) (omega arith) in
          rw go (record {
            from = ih.from;
            to = omega (arith, ih.to);
            spaces = λ k i j. last_or_before b end k (ground arith) j (λ l. ih.spaces k i l);
            stops = ih.stops;
          })
      | inr stop ↦ rw stop (record {
        from = h;
        to = omega arith;
        spaces = λ k i j. absurd (omega arith);
        stops = λ lt. ground arith;
      })
    ]
  where
    last_or_before :
        (b : Bytes) (end k : ℕ)
        → is_space (get_or b (end - 1) 0) ≡ true
        → k < end
        → (k < end - 1 → is_space (get_or b k 0) ≡ true)
        → is_space (get_or b k 0) ≡ true
    last_or_before b end k here j before = elim (Bool-cases (ltb k (end - 1))) [
      | inl lt ↦ before (ground arith)
      | inr ge ↦ let e : end - 1 ≡ k = ground arith in rw (← e) here
    ]

pub trim_start-IsFront : (b : Bytes) → IsFront b 0 (trim_start b)
trim_start-IsFront b = skip_front-IsFront (length b) b 0 (omega arith) (omega arith)

pub trim_end-IsBack : (b : Bytes) → IsBack b (trim_start b) (length b) (trim_end b)
trim_end-IsBack b =
    let front = trim_start-IsFront b in
    skip_back-IsBack (length b) b (trim_start b) (length b) front.to (omega arith)
