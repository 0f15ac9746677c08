-- ===== src/Http/Context.antt =====
-- Which token a request is forwarded with.
use kms_golang.Base.{
  Bytes, List, [], ◌∷◌, ◌++◌, true, not, ◌&&◌, Bool-cases, inl, inr, some, String, ok, codes,
  bytes_eq, bytes_eq→eq, ◌≡◌, ◌≢◌, sym, ap, ◌∙◌, arith, length, take, drop, take-append-drop,
}
use kms_golang.Go.Strings.{has_prefix, trim_prefix, to_lower, trim_space}
use kms_golang.Auth.{bearer_token}
use kms_golang.Http.{create_context}

prefix-drop : (s prefix : Bytes) → has_prefix s prefix ≡ true → prefix ++ drop (length prefix) s ≡ s
unfolding has_prefix
prefix-drop s prefix h =
    let e : take (length prefix) s ≡ prefix =
      bytes_eq→eq (take (length prefix) s) prefix (ground arith) in
    ap (λ p. p ++ drop (length prefix) s) (sym e) ∙ take-append-drop (length prefix) s

-- What is forwarded always begins with "Bearer ".
create_context-scheme :
    (token auth_header : Bytes) {v : Bytes}
    → create_context token auth_header ≡ some v
    → (raw : Bytes) × (codes "Bearer " ++ raw ≡ v)
unfolding create_context
create_context-scheme token auth_header {v} h =
    elim (Bool-cases (not (bytes_eq auth_header []) && has_prefix auth_header (codes "Bearer "))) [
      | inl own ↦ (trim_prefix auth_header (codes "Bearer "), ground (arith, own))
      | inr other ↦ (token, ground (arith, other))
    ]

-- A header in the form "Bearer …" is forwarded as it is, whatever token the gateway has.
pub create_context_own :
    (token auth_header : Bytes)
    → has_prefix auth_header (codes "Bearer ") ≡ true
    → create_context token auth_header ≡ some auth_header
unfolding create_context trim_prefix
create_context_own token auth_header h =
    ground (arith, prefix-drop auth_header (codes "Bearer ") h, bytes_eq→eq auth_header [])

bearer_token-scheme :
    (md : String → List Bytes) (raw v : Bytes) (more : List Bytes)
    → codes "Bearer " ++ raw ≡ v
    → md "authorization" ≡ v ∷ more
    → trim_space (drop 7 v) ≢ []
    → bearer_token (some md) ≡ ok (trim_space (drop 7 v))
unfolding bearer_token has_prefix to_lower bytes_eq
bearer_token-scheme md raw v more e sent full =
    rw (sent, sym e) (ground (arith, bytes_eq→eq (trim_space raw) [], full, e))

-- What the gateway forwards has the form that the server's interceptor reads: the server finds the
-- token behind the scheme, as long as there is one that is not white space.
pub bearer_token-create_context :
    (token auth_header : Bytes) (md : String → List Bytes) (v : Bytes) (more : List Bytes)
    → create_context token auth_header ≡ some v
    → md "authorization" ≡ v ∷ more
    → trim_space (drop 7 v) ≢ []
    → bearer_token (some md) ≡ ok (trim_space (drop 7 v))
unfolding bearer_token
bearer_token-create_context token auth_header md v more h sent full =
    let (raw, e) = create_context-scheme token auth_header h in
    bearer_token-scheme md raw v more e sent full
