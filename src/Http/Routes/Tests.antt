-- ===== src/Http/Routes/Tests.antt =====
-- Examples for the routes of the gateway.
use kms_golang.Base.{
  if◌then◌else◌, true, bytes_eq→eq, Bool-cases, inl, bytes_eq, arith, Bytes, [], Option, none, some,
  codes, ◌≡◌, refl, ap, inr,
}
use kms_golang.Fixtures.{toy_client, toy_world}
use kms_golang.Http.{HttpServer, no_body}
use kms_golang.Http.Routes.{
  Route, Match, found, not_found, Router, IsRouter, is_plain, Request, Workers, first_match,
}
use kms_golang.Http.Routes.Reached.{IsUnrouted, options_unrouted}

-- A router that never tells a wrong method from a wrong path.
abbrev found_or_not : Option Route → Match
found_or_not none = not_found
found_or_not (some r) = found r

abbrev toy_router : Router
toy_router = record {
  clean_path = λ path. if bytes_eq path (codes "//health") then codes "/health" else path;
  moved_permanently = λ path. record { code = 301; headers = []; body = no_body };
  match_route = λ rs method path. found_or_not (first_match rs method path);
  method_not_allowed = record { code = 405; headers = []; body = no_body };
  page_not_found = record { code = 404; headers = []; body = no_body };
}

toy_cleaned : (path : Bytes) → is_plain path ≡ true → toy_router.clean_path path ≡ path
toy_cleaned path plain = elim (Bool-cases (bytes_eq path (codes "//health"))) [
  | inr other ↦ rw other refl
  | inl same ↦ absurd (double_slash (rw (bytes_eq→eq path (codes "//health") same) at plain))
]
  where
    double_slash : is_plain (codes "//health") ≡ true → ⊥
    double_slash h = ground arith

toy_router-IsRouter : IsRouter toy_router
toy_router-IsRouter = record {
  cleaned = λ path plain. toy_cleaned path plain;
  first = λ rs method path r fits. ap found_or_not fits;
  nothing = λ rs method path none_fits. inr (ap found_or_not none_fits);
}

abbrev gateway : HttpServer (Unit {0})
gateway = record { grpc_client = toy_client; token = codes "own" }

abbrev no_workers : Workers (Unit {0})
no_workers w = ([], w)

abbrev request : Bytes → Bytes → Request
request method path = record {
  method = method;
  path = path;
  authorization = [];
  to_encrypt = some (record { plaintext = codes "4111"; key_id = [] });
  to_decrypt = none;
  items = none;
}

abbrev preflight : Request
preflight = request (codes "OPTIONS") (codes "/api/v1/encrypt")

options_unrouted_example : IsUnrouted gateway no_workers preflight toy_router toy_world
options_unrouted_example =
    options_unrouted gateway no_workers preflight toy_router toy_world toy_router-IsRouter refl

abbrev posted : Request
posted = request (codes "POST") (codes "/api/v1/encrypt")
