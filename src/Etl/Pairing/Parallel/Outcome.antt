-- ===== src/Etl/Pairing/Parallel/Outcome.antt =====
-- What the goroutines report.
use kms_golang.Base.{
  Run, Run-keeps, String, Bytes, List, [], ◌∷◌, ◌++◌, none, inr, ◌⊎◌, ◌≢◌, true, All, All-append,
  All-split, ◌≡◌, sym, ap, arith,
}
use mathlib.Core.Path.{subst}
use kms_golang.Go.World.{World}
use kms_golang.Client.{KmsClient, IsClient}
use kms_golang.Etl.{CardRecord, EncryptedRecord, VerificationRecord}
use kms_golang.Etl.Encrypt.{IsMade}
use kms_golang.Etl.Verify.{
  Field, verify_field, verification_of, verify_field-IsMade, verify_field-IsMade_cvv,
}
use kms_golang.Etl.Pairing.{Rows, no_rows, load_rows, not_verified}
use kms_golang.Etl.Pairing.Loaded.{
  Among, Holds, load_rows-Holds, IsFrom, All-Among, IsKeyed, from_card,
}
use kms_golang.Etl.Pairing.Outcome.{IsReported, match_or_error}
use kms_golang.Etl.Pairing.Parallel.{
  Check, at_pan, at_cvv, card_of, Gathering, gathering, Step, missing, launch, check_pan, check_cvv,
  time_out, late_call, collect,
}

-- A field that matches, or has an error.
abbrev FieldIsReported : Field → Type 0
FieldIsReported f = (f.same ≡ true) ⊎ (f.error ≢ none)

not_verified-IsReported : (message : String) (c : CardRecord) → IsReported (not_verified message c)
not_verified-IsReported message c = (inr (ground arith), inr (ground arith))

module _ {D : Type 0} (client : KmsClient D) (token : Bytes) (all : List CardRecord) where
  abbrev IsSound : Check → Type 0
  IsSound (at_pan c r) = IsMade client token c r
  IsSound (at_cvv c r pan) = IsMade client token c r × FieldIsReported pan

  record IsHonest (p : Gathering D) : Type 0 where
    pending : All (λ c. Among c all) p.pending
    running : All IsSound p.running
    channel : All IsReported p.channel
    results : All IsReported p.results

module _ {D : Type 0} (client : KmsClient D) (token : Bytes) {rows : Rows}
    (service : IsClient client) (all : List CardRecord) (keyed : IsKeyed all)
    (held : Holds (IsFrom client token all) rows) where
  pan_reported :
      (c : CardRecord) (r : EncryptedRecord) (found : Field) (w w' : World D)
      → IsMade client token c r
      → verify_field client token c.card_no r.encrypted_pan w ≡ (found, w')
      → FieldIsReported found
  pan_reported c r found w w' made called =
      let e = ap (λ x. x.0) called in
      match_or_error found.same found.error (
        subst (λ f. f.error ≡ none → f.same ≡ true) e
          (verify_field-IsMade client token service c r w made))

  cvv_reported :
      (c : CardRecord) (r : EncryptedRecord) (found : Field) (w w' : World D)
      → IsMade client token c r
      → verify_field client token c.cvv r.encrypted_cvv w ≡ (found, w')
      → FieldIsReported found
  cvv_reported c r found w w' made called =
      let e = ap (λ x. x.0) called in
      match_or_error found.same found.error (
        subst (λ f. f.error ≡ none → f.same ≡ true) e
          (verify_field-IsMade_cvv client token service c r w made))

  split_running :
      (p : Gathering D) (before : List Check) (t : Check) (after : List Check)
      → p.running ≡ before ++ t ∷ after
      → IsHonest client token all p
      → All (IsSound client token all) before
        × IsSound client token all t
        × All (IsSound client token all) after
  split_running p before t after e h =
      All-split (IsSound client token all) before after
        (subst (All (IsSound client token all)) e h.running)

  with_record :
      (p : Gathering D) (v : VerificationRecord)
      → IsHonest client token all p
      → IsReported v
      → All IsReported (p.channel ++ v ∷ [])
  with_record p v h good = All-append IsReported p.channel (v ∷ []) h.channel (good, tt)

  Step-IsHonest :
      {p q : Gathering D}
      → Step client token rows p q
      → IsHonest client token all p
      → IsHonest client token all q
  Step-IsHonest {p} (missing c rest e m same) h =
      let (mine, others) = subst (All (λ c. Among c all)) e h.pending in
      subst (IsHonest client token all) (sym same) (record {
        pending = others;
        running = h.running;
        channel = with_record p (not_verified _ c) h (not_verified-IsReported _ c);
        results = h.results;
      })
  Step-IsHonest {p} (launch c rest r e m room same) h =
      let (mine, others) = subst (All (λ c. Among c all)) e h.pending in
      let (from, id) = held c.id r m in
      subst (IsHonest client token all) (sym same) (record {
        pending = others;
        running = (from_card client token all keyed c r mine from id, h.running);
        channel = h.channel;
        results = h.results;
      })
  Step-IsHonest {p} (check_pan before c r after found w e called same) h =
      let (hb, made, ha) = split_running p before (at_pan c r) after e h in
      subst (IsHonest client token all) (sym same) (record {
        pending = h.pending;
        running =
            All-append (IsSound client token all) before (at_cvv c r found ∷ after) hb
              ((made, pan_reported c r found p.world w made called), ha);
        channel = h.channel;
        results = h.results;
      })
  Step-IsHonest {p} (check_cvv before c r pan after found w e called same) h =
      let (hb, (made, first), ha) = split_running p before (at_cvv c r pan) after e h in
      subst (IsHonest client token all) (sym same) (record {
        pending = h.pending;
        running = All-append (IsSound client token all) before after hb ha;
        channel =
            with_record p (verification_of c r pan found) h
              (first, cvv_reported c r found p.world w made called);
        results = h.results;
      })
  Step-IsHonest {p} (time_out before t after e same) h =
      let (hb, _, ha) = split_running p before t after e h in
      subst (IsHonest client token all) (sym same) (record {
        pending = h.pending;
        running = All-append (IsSound client token all) before after hb ha;
        channel =
            with_record p (not_verified _ (card_of t)) h (not_verified-IsReported _ (card_of t));
        results = h.results;
      })
  Step-IsHonest {p} (late_call before t after e same) h =
      subst (IsHonest client token all) (sym same) (record {
        pending = h.pending;
        running = h.running;
        channel = h.channel;
        results = h.results;
      })
  Step-IsHonest {p} (collect v rest e same) h =
      let (good, others) = subst (All IsReported) e h.channel in
      subst (IsHonest client token all) (sym same) (record {
        pending = h.pending;
        running = h.running;
        channel = others;
        results = All-append IsReported p.results (v ∷ []) h.results (good, tt);
      })

  Run-IsHonest :
      {p q : Gathering D}
      → Run (Step client token rows) p q
      → IsHonest client token all p
      → IsHonest client token all q
  Run-IsHonest = Run-keeps (IsHonest client token all) (λ p q. Step-IsHonest)

-- Rows that were made of cards with different identifiers are stored, in whatever order, and all
-- data is verified with a service that keeps its contract. At every moment, each field of each
-- record that has been collected is a match, or has an error.
pub Run-IsReported :
    {D : Type 0} (client : KmsClient D) (token : Bytes) (stored : List EncryptedRecord)
    (cards : List CardRecord) (w : World D) {p : Gathering D}
    → IsClient client
    → IsKeyed cards
    → All (IsFrom client token cards) stored
    → Run (Step client token (load_rows stored no_rows)) (gathering cards w) p
    → All IsReported p.results
Run-IsReported client token stored cards w service keyed made run =
    let held =
      load_rows-Holds (IsFrom client token cards) stored no_rows made
        (λ id r h. absurd (ground arith)) in
    (Run-IsHonest client token service cards keyed held run (record {
      pending = All-Among cards cards (λ c h. h);
      running = tt;
      channel = tt;
      results = tt;
    })).results
