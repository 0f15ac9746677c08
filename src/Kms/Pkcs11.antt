-- ===== src/Kms/Pkcs11.antt =====
-- internal/kms/hsm_pkcs11.go: the provider over a PKCS#11 token. The token library is an argument,
-- each of its calls a function of the world that returns a value or an error. The mutex makes one
-- call at a time reach the session, which is the order of the calls in the model. The test of `Close`
-- for a nil context is left out: the constructor returns no provider without one.
pub mod Phases
pub mod Opening
pub mod Sessions
pub mod Contract
pub mod Tests
use kms_golang.Base.{
  ℕ, zero, suc, ◌==◌, Bytes, String, List, [], ◌∷◌, Bool, not, if◌then◌else◌, Option, none, some,
  Result, ok, err, panic, Error, new, wrapped, ◌⊎◌, inl, inr,
}
use kms_golang.Go.World.{World, M, read_full}
use kms_golang.Kms.Hsm.{Provider}

-- A call of the library.
abbrev pub Call : Type 0 → Type 0 → Type 0
Call D A = World D → (A ⊎ Error) × World D

-- `pkcs11.Ctx`. A call whose error the code drops is a function of the world alone.
pub record Ctx (D : Type 0) : Type 0 where
  pub initialize : Call D (Unit {0})
  pub finalize : World D → World D
  pub get_slot_list : Call D (List ℕ)
  pub get_token_info : ℕ → Call D Bytes
  pub open_session : ℕ → Call D ℕ
  pub close_session : ℕ → World D → World D
  pub login : ℕ → Bytes → Call D (Unit {0})
  pub logout : ℕ → World D → World D
  pub find_objects_init : ℕ → Bytes → Call D (Unit {0})
  pub find_objects : ℕ → ℕ → Call D (List ℕ)
  pub find_objects_final : ℕ → World D → World D
  pub encrypt_init : ℕ → Bytes → ℕ → Call D (Unit {0})
  pub encrypt : ℕ → Bytes → Call D Bytes
  pub decrypt_init : ℕ → Bytes → ℕ → Call D (Unit {0})
  pub decrypt : ℕ → Bytes → Call D Bytes

pub record Pkcs11Provider (D : Type 0) : Type 0 where
  pub ctx : Ctx D
  pub session : ℕ
  pub slot_id : ℕ
  pub pin : Bytes
  pub key_label : Bytes

-- `if err != nil { …; return nil, fmt.Errorf("…: %w", err) }`: the clean-up and the message.
abbrev pub or_fail :
    {D A B : Type 0}
    → (Error → Error)
    → (World D → World D)
    → (A → M D B)
    → (A ⊎ Error) × World D
    → Result B × World D
or_fail message clean next (inl a, w) = next a w
or_fail message clean next (inr e, w) = (err (message e), clean w)

abbrev pub keep_world : {D : Type 0} → World D → World D
keep_world w = w

-- Without a match, the first slot.
unfoldable pub target_slot : Option ℕ → List ℕ → Option ℕ
target_slot (some slot) slots = some slot
target_slot none [] = none
target_slot none (slot ∷ slots) = some slot

module _ {D : Type 0} (ctx : Ctx D) where
  -- One round of the loop over the slots.
  try_slot : ℕ → ℕ → (World D → Option ℕ × World D) → (Bytes ⊎ Error) × World D → Option ℕ × World D
  try_slot slot slot_id next (inr e, w) = next w
  try_slot slot slot_id next (inl info, w) =
      let later = next w in if slot == slot_id then (some slot, w) else later

  unfoldable pub find_slot : List ℕ → ℕ → World D → Option ℕ × World D
  unfolding try_slot
  find_slot [] slot_id w = (none, w)
  find_slot (slot ∷ slots) slot_id w =
      try_slot slot slot_id (find_slot slots slot_id) (ctx.get_token_info slot w)

  logged_in_provider : ℕ → Bytes → Bytes → ℕ → M D (Pkcs11Provider D)
  logged_in_provider slot pin key_label session w =
      or_fail (wrapped "failed to login to PKCS#11: ")
        (λ v. ctx.finalize (ctx.close_session session v))
        (λ _ v. (
          ok (record {
            ctx = ctx;
            session = session;
            slot_id = slot;
            pin = pin;
            key_label = key_label;
          }),
          v,
        ))
        (ctx.login session pin w)

  with_slot : Bytes → Bytes → Option ℕ → M D (Pkcs11Provider D)
  with_slot pin key_label none w = (err (new "no slots with tokens found"), ctx.finalize w)
  with_slot pin key_label (some slot) w =
      or_fail (wrapped "failed to open PKCS#11 session on slot: ") ctx.finalize
        (logged_in_provider slot pin key_label) (ctx.open_session slot w)

  with_slots : ℕ → Bytes → Bytes → List ℕ → M D (Pkcs11Provider D)
  with_slots slot_id pin key_label slots w =
      let (found, w') = find_slot slots slot_id w in
      with_slot pin key_label (target_slot found slots) w'

  listed : ℕ → Bytes → Bytes → M D (Pkcs11Provider D)
  listed slot_id pin key_label w =
      or_fail (wrapped "failed to get slot list: ") ctx.finalize (with_slots slot_id pin key_label)
        (ctx.get_slot_list w)

module _ {D : Type 0} (slot_id : ℕ) (pin key_label : Bytes) where
  initialized : Option (Ctx D) → M D (Pkcs11Provider D)
  initialized none w = (err (new "failed to load PKCS#11 library"), w)
  initialized (some ctx) w =
      or_fail (wrapped "failed to initialize PKCS#11: ") keep_world
        (λ _. listed ctx slot_id pin key_label) (ctx.initialize w)

-- `pkcs11.New` is an argument; it returns nil for a library that it cannot load.
unfoldable pub new_pkcs11_provider :
    {D : Type 0} → (Bytes → Option (Ctx D)) → Bytes → ℕ → Bytes → Bytes → M D (Pkcs11Provider D)
unfolding initialized listed with_slots with_slot logged_in_provider find_slot target_slot
new_pkcs11_provider load lib slot_id pin key_label = initialized slot_id pin key_label (load lib)

module _ {D : Type 0} (p : Pkcs11Provider D) where
  abbrev as_is : Error → Error
  as_is e = e

  first_object : List ℕ → M D ℕ
  first_object [] w = (err (new "key not found in HSM"), w)
  first_object (handle ∷ rest) w = (ok handle, w)

  -- The deferred `FindObjectsFinal`.
  ended_search : Result ℕ × World D → Result ℕ × World D
  ended_search (r, w) = (r, p.ctx.find_objects_final p.session w)

  unfoldable pub find_key_handle : M D ℕ
  unfolding first_object ended_search
  find_key_handle w =
      or_fail as_is keep_world
        (λ _ v.
          ended_search (or_fail as_is keep_world first_object (p.ctx.find_objects p.session 1 v)))
        (p.ctx.find_objects_init p.session p.key_label w)

  unfoldable pub get_key : Bytes → M D Bytes
  get_key key_id w =
      (err (new "security violation: cannot extract raw CKA_SENSITIVE key from HSM"), w)

  encrypt_with_nonce : Bytes → Bytes → ℕ → M D (Bytes × Bytes)
  encrypt_with_nonce plain nonce handle w =
      or_fail (wrapped "encrypt init failed: ") keep_world
        (λ _ v.
          or_fail (wrapped "encrypt execution failed: ") keep_world
            (λ ciphertext u. (ok (ciphertext, nonce), u)) (p.ctx.encrypt p.session plain v))
        (p.ctx.encrypt_init p.session nonce handle w)

  -- `if err != nil { return …, err }` after a call of the program's own.
  and_then :
      {A B : Type 0} → (Error → Error) → (A → M D B) → Result A × World D → Result B × World D
  and_then message next (ok a, w) = next a w
  and_then message next (err e, w) = (err (message e), w)
  and_then message next (panic s, w) = (panic s, w)

  unfoldable pub encrypt : Bytes → Bytes → M D (Bytes × Bytes)
  unfolding find_key_handle encrypt_with_nonce and_then read_full
  encrypt key_id plain w =
      and_then as_is
        (λ handle v.
          and_then (wrapped "failed to generate nonce: ")
            (λ nonce. encrypt_with_nonce plain nonce handle) (read_full 12 v))
        (find_key_handle w)

  decrypt_with_handle : Bytes → Bytes → ℕ → M D Bytes
  decrypt_with_handle ciphertext nonce handle w =
      or_fail (wrapped "decrypt init failed: ") keep_world
        (λ _ v.
          or_fail (wrapped "decrypt execution failed: ") keep_world (λ plain u. (ok plain, u))
            (p.ctx.decrypt p.session ciphertext v))
        (p.ctx.decrypt_init p.session nonce handle w)

  unfoldable pub decrypt : Bytes → Bytes → Bytes → M D Bytes
  unfolding find_key_handle decrypt_with_handle and_then
  decrypt key_id ciphertext nonce w =
      and_then as_is (decrypt_with_handle ciphertext nonce) (find_key_handle w)

  unfoldable pub close : M D (Unit {0})
  close w =
      let open_closed = p.ctx.close_session p.session (p.ctx.logout p.session w) in
      (ok tt, p.ctx.finalize (if p.session == 0 then w else open_closed))

  unfoldable pub pkcs11_provider : Provider D
  unfolding encrypt decrypt close
  pkcs11_provider = record {
    get_key = get_key;
    encrypt = encrypt;
    decrypt = decrypt;
    close = close;
  }
