-- ===== src/Fixtures.antt =====
-- Small instances of what the program calls and does not define: a cipher, a token library, a client
-- and a hardware module, each with a proof that it keeps its contract.
use kms_golang.Base.{
  ℕ, ◌-◌, ◌*◌, ◌<◌, Bytes, List, [], ◌∷◌, ◌++◌, Bool, true, false, ltb, ◌==◌, ◌&&◌, if◌then◌else◌,
  Option, none, some, Result, ok, err, new, codes, bytes_eq, bytes_eq→eq, length, length-append,
  ok_injective, take, take-append_length, replicate, All-append, IsBytes, ◌≡◌, ◌≢◌, refl, sym, ap,
  ◌∙◌, arith,
}
use mathlib.Core.Path.{subst}
use kms_golang.Go.World.{World}
use kms_golang.Go.Gcm.{Aes, IsAead}
use kms_golang.Go.Strings.{trim_space}
use kms_golang.Kms.Hsm.{Provider, IsProvider}
use kms_golang.Proto
use kms_golang.Client.{KmsClient, IsClient}
use kms_golang.Auth.{Claims, Jwt, second}
use kms_golang.Auth.Issue.{IsJwt}

-- A cipher that appends an empty tag.
abbrev tag : Bytes
tag = replicate 16 0

abbrev pub toy_aes : Aes
toy_aes = record {
  seal = λ key nonce plain. plain ++ tag;
  open_sealed = λ key nonce sealed. some (take (length sealed - 16) sealed);
}

tag-IsBytes : IsBytes tag
tag-IsBytes = ground arith

take_plain : (plain : Bytes) → take (length (plain ++ tag) - 16) (plain ++ tag) ≡ plain
take_plain plain =
    let e : length (plain ++ tag) - 16 ≡ length plain = omega (arith, length-append plain tag) in
    ap (λ n. take n (plain ++ tag)) e ∙ take-append_length plain tag

pub toy_aes-IsAead : IsAead toy_aes
toy_aes-IsAead = record {
  opens = λ key nonce plain. ap some (take_plain plain);
  tagged = λ key nonce plain. length-append plain tag;
  bytes = λ key nonce plain h. All-append (λ b. b < 256) plain tag h tag-IsBytes;
}

-- Twelve random bytes and what follows.
abbrev pub toy_world : World (Unit {0})
toy_world = record { entropy = codes "nonce 000001nonce 000002"; device = tt }

abbrev pub later_world : World (Unit {0})
later_world = record { entropy = []; device = tt }

-- A service that accepts bytes only, and returns them as they are.
abbrev pub all_bytes : Bytes → Bool
all_bytes [] = true
all_bytes (b ∷ bs) = ltb b 256 && all_bytes bs

pub all_bytes-IsBytes : (bs : Bytes) → all_bytes bs ≡ true → IsBytes bs
all_bytes-IsBytes [] h = tt
all_bytes-IsBytes (b ∷ bs) h = (ground arith, all_bytes-IsBytes bs (ground arith))

abbrev pub twelve : Bytes
twelve = codes "nonce 000001"

abbrev sealed_as : Bytes → Result Proto.EncryptResponse
sealed_as plain =
    if all_bytes plain
    then ok (record { ciphertext = plain; nonce = twelve })
    else err (new "not bytes")

abbrev pub toy_client : KmsClient (Unit {0})
toy_client = record {
  encrypt = λ ctx req w. (sealed_as req.plaintext, w);
  decrypt = λ ctx req w. (ok (record { plaintext = req.ciphertext }), w);
}

abbrev IsSealed : Bytes → Proto.EncryptResponse → Type 0
IsSealed plain r = (all_bytes plain ≡ true) × (r.ciphertext ≡ plain) × (r.nonce ≡ twelve)

sealed_as-IsSealed :
    (plain : Bytes) (r : Proto.EncryptResponse) → sealed_as plain ≡ ok r → IsSealed plain r
sealed_as-IsSealed plain r h = ground arith

pub twelve-IsBytes : IsBytes twelve
twelve-IsBytes = ground arith

pub toy_client-IsClient : IsClient toy_client
toy_client-IsClient = record {
  bytes = λ ctx req r w w' h.
      let (good, same, nonce) = sealed_as-IsSealed req.plaintext r (ap (λ x. x.0) h) in
      (
        subst IsBytes (sym same) (all_bytes-IsBytes req.plaintext good),
        subst IsBytes (sym nonce) twelve-IsBytes,
        ap length nonce,
      );
  honest = λ ctx ctx' req r key_id answer w w' later last h d.
      let (good, same, nonce) = sealed_as-IsSealed req.plaintext r (ap (λ x. x.0) h) in
      sym (ap (λ a. a.plaintext) (ok_injective (ap (λ x. x.0) d))) ∙ same;
}

-- A module that hands its key's holder the text itself.
abbrev pub toy_provider : Provider (Unit {0})
toy_provider = record {
  get_key = λ key_id w. (err (new "key not extractable"), w);
  encrypt = λ key_id plain w. (ok (plain, twelve), w);
  decrypt = λ key_id ciphertext nonce w. (ok ciphertext, w);
  close = λ w. (ok tt, w);
}

pub toy_provider-IsProvider : IsProvider toy_provider
toy_provider-IsProvider = record {
  honest = λ key plain ciphertext nonce other w w' later h d. ground arith;
}

-- A token library that signs one set of claims under one secret: those of the user "demo", issued in
-- the first second and good for an hour.
abbrev pub hour : ℕ
hour = 3600 * second

abbrev pub the_claims : Claims
the_claims = record {
  subject = codes "demo";
  issuer = [];
  audience = [];
  issued_at = some 0;
  expires_at = some hour;
  not_before = none;
}

abbrev pub the_secret : Bytes
the_secret = codes "secret"

abbrev pub the_token : Bytes
the_token = codes "token"

abbrev is_number : ℕ → Option ℕ → Bool
is_number n none = false
is_number n (some t) = t == n

abbrev is_absent : Option ℕ → Bool
is_absent none = true
is_absent (some t) = false

abbrev is_empty : List Bytes → Bool
is_empty [] = true
is_empty (a ∷ rest) = false

abbrev known : Claims → Bool
known c =
    bytes_eq c.subject (codes "demo")
    && bytes_eq c.issuer []
    && is_empty c.audience
    && is_number 0 c.issued_at
    && is_number hour c.expires_at
    && is_absent c.not_before

is_number-eq : (n : ℕ) (t : Option ℕ) → is_number n t ≡ true → t ≡ some n
is_number-eq n none h = absurd (ground arith)
is_number-eq n (some t) h = ap some (ground arith)

is_absent-eq : (t : Option ℕ) → is_absent t ≡ true → t ≡ none
is_absent-eq none h = refl
is_absent-eq (some t) h = absurd (ground arith)

is_empty-eq : (xs : List Bytes) → is_empty xs ≡ true → xs ≡ []
is_empty-eq [] h = refl
is_empty-eq (x ∷ xs) h = absurd (ground arith)

known-eq : (c : Claims) → known c ≡ true → c ≡ the_claims
known-eq c h =
    let subject = bytes_eq→eq c.subject (codes "demo") (ground arith) in
    let issuer = bytes_eq→eq c.issuer [] (ground arith) in
    let audience = is_empty-eq c.audience (ground arith) in
    let issued = is_number-eq 0 c.issued_at (ground arith) in
    let expires = is_number-eq hour c.expires_at (ground arith) in
    let before = is_absent-eq c.not_before (ground arith) in
    λ i. record {
      subject = subject i;
      issuer = issuer i;
      audience = audience i;
      issued_at = issued i;
      expires_at = expires i;
      not_before = before i;
    }

abbrev is_text : Bytes → Option Bytes → Bool
is_text text none = false
is_text text (some t) = bytes_eq t text

abbrev pub toy_jwt : Jwt
toy_jwt = record {
  parse_with_claims = λ raw key now.
      if bytes_eq raw the_token && is_text the_secret (key (codes "HS256")) && ltb now hour
      then some (record { valid = true; claims = the_claims })
      else none;
  signed_string = λ claims secret.
      if known claims && bytes_eq secret the_secret
      then ok the_token
      else err (new "unknown claims");
}

toy_signed :
    (claims : Claims) (secret raw : Bytes)
    → toy_jwt.signed_string claims secret ≡ ok raw
    → (claims ≡ the_claims) × (secret ≡ the_secret) × (raw ≡ the_token)
toy_signed claims secret raw h = (
  known-eq claims (ground (arith, h)),
  bytes_eq→eq secret the_secret (ground (arith, h)),
  ground (arith, h),
)

the_token-trimmed : (the_token ≢ []) × (trim_space the_token ≡ the_token)
unfolding trim_space
the_token-trimmed = (ground arith, refl)

some_injective : {a b : ℕ} → some a ≡ some b → a ≡ b
some_injective h = cc

pub toy_jwt-IsJwt : IsJwt toy_jwt
unfolding bytes_eq
toy_jwt-IsJwt = record {
  reads = λ claims secret raw key expiry now portable signed keyed early.
      let (c, s, t) = toy_signed claims secret raw signed in
      let e : hour ≡ expiry = some_injective (sym (ap (λ x. x.expires_at) c) ∙ portable.expires) in
      let k : key (codes "HS256") ≡ some the_secret = keyed ∙ ap some s in
      let lt : ltb now hour ≡ true =
        subst (λ n. ltb now n ≡ true) (sym e) (ground (arith, early)) in
      rw (t, k, lt) (ap (λ x. some (record { valid = true; claims = x })) (sym c));
  trimmed = λ claims secret raw signed.
      let (c, s, t) = toy_signed claims secret raw signed in
      subst (λ x. (x ≢ []) × (trim_space x ≡ x)) (sym t) the_token-trimmed;
}
