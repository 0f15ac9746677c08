-- ===== src/Http/Routes.antt =====
-- cmd/kms-http-server/main.go, `main`: the connection, the four routes and the middleware on them. The
-- router of gorilla/mux is a parameter, and so are the dial, the listener and the decoded bodies.
pub mod Reached
pub mod Tests
use kms_golang.Base.{
  ℕ, ◌==◌, true, false, not, Bool, Bytes, List, [], ◌∷◌, ◌&&◌, if◌then◌else◌, Option, none, some,
  Result, ok, err, panic, Error, new, wrapped, codes, bytes_eq, ◌≡◌, ◌⊎◌,
}
use kms_golang.Go.World.{World, M}
use kms_golang.Client.{KmsClient}
use kms_golang.Kms.Config.{Env, getenv_default}
use kms_golang.Http.{
  HttpServer, EncryptRequest, DecryptRequest, Response, health_handler, encrypt_handler,
  decrypt_handler, cors_middleware,
}
use kms_golang.Http.Batch.{Outcome, batch_encrypt_handler}

pub data Endpoint : Type 0 where
  health_route : Endpoint
  encrypt_route : Endpoint
  batch_route : Endpoint
  decrypt_route : Endpoint

pub record Route : Type 0 where
  pub path : Bytes
  pub handler : Endpoint
  pub method : Bytes

-- `r.HandleFunc(…).Methods(…)`, four times.
abbrev pub route : Endpoint → Route
route health_route = record { path = codes "/health"; handler = health_route; method = codes "GET" }
route encrypt_route = record {
  path = codes "/api/v1/encrypt";
  handler = encrypt_route;
  method = codes "POST";
}
route batch_route = record {
  path = codes "/api/v1/encrypt/batch";
  handler = batch_route;
  method = codes "POST";
}
route decrypt_route = record {
  path = codes "/api/v1/decrypt";
  handler = decrypt_route;
  method = codes "POST";
}

abbrev pub routes : List Route
routes = route health_route ∷ route encrypt_route ∷ route batch_route ∷ route decrypt_route ∷ []

-- What the router finds for a method and a path.
pub data Match : Type 0 where
  found : Route → Match
  method_mismatch : Match
  not_found : Match

-- The router: how it cleans a path, its answer to a path that is not clean, and its answers where no
-- route fits.
pub record Router : Type 0 where
  pub clean_path : Bytes → Bytes
  pub moved_permanently : Bytes → Response
  pub match_route : List Route → Bytes → Bytes → Match
  pub method_not_allowed : Response
  pub page_not_found : Response

unfoldable pub first_match : List Route → Bytes → Bytes → Option Route
first_match [] method path = none
first_match (r ∷ rs) method path =
    if bytes_eq method r.method && bytes_eq path r.path then some r else first_match rs method path

-- The rest of a path after a slash or another character: letters, digits and single slashes.
abbrev plain_from : Bool → Bytes → Bool
plain_from slash [] = true
plain_from slash (c ∷ path) =
    not (c == b'.') && not (slash && (c == b'/')) && plain_from (c == b'/') path

-- A path that begins with a slash, and has no dots and no empty parts.
abbrev pub is_plain : Bytes → Bool
is_plain [] = false
is_plain (c ∷ path) = (c == b'/') && plain_from true path

-- A path without dots and empty parts is clean. Routes are tested in the order in which they were
-- added, and the first that fits is the match.
pub record IsRouter (router : Router) : Type 0 where
  pub cleaned : (path : Bytes) → is_plain path ≡ true → router.clean_path path ≡ path
  pub first :
      (rs : List Route) (method path : Bytes) (r : Route)
      → first_match rs method path ≡ some r
      → router.match_route rs method path ≡ found r
  pub nothing :
      (rs : List Route) (method path : Bytes)
      → first_match rs method path ≡ none
      → (router.match_route rs method path ≡ method_mismatch)
        ⊎ (router.match_route rs method path ≡ not_found)

-- A request, with the body as each of the handlers decodes it.
pub record Request : Type 0 where
  pub method : Bytes
  pub path : Bytes
  pub authorization : Bytes
  pub to_encrypt : Option EncryptRequest
  pub to_decrypt : Option DecryptRequest
  pub items : Option (List EncryptRequest)

-- What the workers of a batch return, and the world after them.
abbrev pub Workers : Type 0 → Type 0
Workers D = World D → List (ℕ × Outcome) × World D

module _ {D : Type 0} (s : HttpServer D) (workers : Workers D) (req : Request) where
  unfoldable pub handle : Endpoint → World D → Response × World D
  handle health_route w = (health_handler, w)
  handle encrypt_route w = encrypt_handler s req.authorization req.to_encrypt w
  handle batch_route w =
      let (arrivals, w') = workers w in (batch_encrypt_handler req.items arrivals, w')
  handle decrypt_route w = decrypt_handler s req.authorization req.to_decrypt w

  -- The middleware of `r.Use` runs where a route is found.
  routed : Router → Match → World D → Response × World D
  routed router (found r) w = cors_middleware req.method (handle r.handler) w
  routed router method_mismatch w = (router.method_not_allowed, w)
  routed router not_found w = (router.page_not_found, w)

  -- A path that is not clean is answered with a redirect, before the routes are looked at.
  unfoldable pub serve_http : Router → World D → Response × World D
  unfolding routed
  serve_http router w =
      if bytes_eq (router.clean_path req.path) req.path
      then routed router (router.match_route routes req.method req.path) w
      else (router.moved_permanently (router.clean_path req.path), w)

-- How the process ends.
pub data Exit : Type 0 where
  fatal : Error → Exit
  stopped : Exit

after_listening : {D : Type 0} → Result (Unit {0}) × World D → Exit × World D
after_listening (ok tt, w) = (stopped, w)
after_listening (err e, w) = (fatal (wrapped "HTTP server failed: " e), w)
after_listening (panic p, w) = (fatal (new p), w)

module _ {D : Type 0} (env : Env) (new_client : Bytes → Result (KmsClient D))
    (listen_and_serve : Bytes → HttpServer D → M D (Unit {0})) where
  connected : Result (KmsClient D) → World D → Exit × World D
  unfolding after_listening
  connected (ok client) w = after_listening (
      listen_and_serve (getenv_default env "KMS_HTTP_ADDR" (codes ":8080"))
        (record { grpc_client = client; token = env "KMS_BEARER_TOKEN" }) w)
  connected (err e) w = (fatal (wrapped "failed to connect to gRPC server: " e), w)
  connected (panic p) w = (fatal (new p), w)

  unfoldable pub main : World D → Exit × World D
  unfolding connected
  main = connected (new_client (getenv_default env "KMS_GRPC_ADDR" (codes "127.0.0.1:50051")))
