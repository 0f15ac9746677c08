-- ===== src/Kms/Pkcs11/Opening.antt =====
-- What `NewPKCS11Provider` leaves open.
use kms_golang.Base.{
  ℕ, ◌==◌, Bytes, List, [], ◌∷◌, Option, none, some, Error, wrapped, ◌⊎◌, inl, inr, ◌≡◌, ◌≢◌,
  Bool-cases,
}
use kms_golang.Go.World.{World}
use kms_golang.Kms.Pkcs11.{
  Ctx, keep_world, try_slot, find_slot, target_slot, logged_in_provider, with_slot, with_slots,
  listed, initialized, new_pkcs11_provider,
}
use kms_golang.Kms.Pkcs11.Phases.{
  Phase, down, up, in_session, logged_in, Leaves, Ends, IsToken, or_fail-Ends, IsReady,
}

module _ {D : Type 0} {ctx : Ctx D} {phase : D → Phase} (token : IsToken ctx phase) where
  try_slot-up :
      (slot slot_id : ℕ) (next : World D → Option ℕ × World D) (x : (Bytes ⊎ Error) × World D)
      → Leaves phase (λ _. up) up x
      → ((w : World D) → phase w.device ≡ up → phase (next w).1.device ≡ up)
      → phase (try_slot ctx slot slot_id next x).1.device ≡ up
  unfolding try_slot
  try_slot-up slot slot_id next (inr e, w) at rest = rest w at
  try_slot-up slot slot_id next (inl info, w) at rest = elim (Bool-cases (slot == slot_id)) [
    | inl same ↦ rw same at
    | inr other ↦ rw other (rest w at)
  ]

  find_slot-up :
      (slots : List ℕ) (slot_id : ℕ) (w : World D)
      → phase w.device ≡ up
      → phase (find_slot ctx slots slot_id w).1.device ≡ up
  unfolding find_slot
  find_slot-up [] slot_id w at = at
  find_slot-up (slot ∷ slots) slot_id w at =
      try_slot-up slot slot_id (find_slot ctx slots slot_id) (ctx.get_token_info slot w)
        (token.get_token_info slot w at) (λ v. find_slot-up slots slot_id v)

  logged_in_provider-Ends :
      (slot : ℕ) (pin label : Bytes) (s : ℕ) (w : World D)
      → s ≢ 0
      → phase w.device ≡ in_session s
      → Ends phase (IsReady phase) down (logged_in_provider ctx slot pin label s w)
  unfolding logged_in_provider
  logged_in_provider-Ends slot pin label s w valid at =
      or_fail-Ends phase (λ _. logged_in s) (in_session s) (IsReady phase) down
        (wrapped "failed to login to PKCS#11: ") (λ v. ctx.finalize (ctx.close_session s v)) _
        (ctx.login s pin w) (token.login s pin w at)
        (λ v h. token.finalize (ctx.close_session s v) (token.close_session s v h))
        (λ _ v e h. (valid, h))

  with_slot-Ends :
      (pin label : Bytes) (slot : Option ℕ) (w : World D)
      → phase w.device ≡ up
      → Ends phase (IsReady phase) down (with_slot ctx pin label slot w)
  unfolding with_slot
  with_slot-Ends pin label none w at = token.finalize w at
  with_slot-Ends pin label (some slot) w at =
      or_fail-Ends phase in_session up (IsReady phase) down
        (wrapped "failed to open PKCS#11 session on slot: ") ctx.finalize
        (logged_in_provider ctx slot pin label) (ctx.open_session slot w)
        (token.open_session slot w at) token.finalize
        (λ s v e h. logged_in_provider-Ends slot pin label s v (token.valid_session slot s w v e) h)

  listed-Ends :
      (slot_id : ℕ) (pin label : Bytes) (w : World D)
      → phase w.device ≡ up
      → Ends phase (IsReady phase) down (listed ctx slot_id pin label w)
  unfolding listed with_slots
  listed-Ends slot_id pin label w at =
      or_fail-Ends phase (λ _. up) up (IsReady phase) down (wrapped "failed to get slot list: ")
        ctx.finalize (with_slots ctx slot_id pin label) (ctx.get_slot_list w)
        (token.get_slot_list w at) token.finalize
        (λ slots v e h.
          let found = find_slot ctx slots slot_id v in
          with_slot-Ends pin label (target_slot found.0 slots) found.1
            (find_slot-up slots slot_id v h))

  -- With a library that keeps its contract, in which closing a session and finalizing do their work, a
  -- token that was down is left either with one session, logged in and held by the provider, or down
  -- again: whichever of the calls fails whose error the code looks at, no session stays open and
  -- the token is finalized. The library itself stays loaded.
  pub new_pkcs11_provider-Ends :
      (load : Bytes → Option (Ctx D)) (lib : Bytes) (slot_id : ℕ) (pin label : Bytes) (w : World D)
      → load lib ≡ some ctx
      → phase w.device ≡ down
      → Ends phase (IsReady phase) down (new_pkcs11_provider load lib slot_id pin label w)
  unfolding new_pkcs11_provider initialized
  new_pkcs11_provider-Ends load lib slot_id pin label w loaded at = rw loaded (
      or_fail-Ends phase (λ _. up) down (IsReady phase) down
        (wrapped "failed to initialize PKCS#11: ") keep_world (λ _. listed ctx slot_id pin label)
        (ctx.initialize w) (token.initialize w at) (λ v h. h)
        (λ _ v e h. listed-Ends slot_id pin label v h))
