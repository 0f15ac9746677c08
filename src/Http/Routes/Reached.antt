-- ===== src/Http/Routes/Reached.antt =====
-- Which requests reach a handler of the gateway.
use kms_golang.Base.{Bool-cases, none, codes, bytes_eq, ◌≡◌, refl, sym, inl, inr, ◌⊎◌}
use mathlib.Core.Path.{subst}
use kms_golang.Go.World.{World}
use kms_golang.Http.{HttpServer}
use kms_golang.Http.Routes.{
  Endpoint, health_route, encrypt_route, batch_route, decrypt_route, Router, IsRouter, Request,
  Workers, routes, first_match, serve_http,
}

module _ {D : Type 0} (s : HttpServer D) (workers : Workers D) (req : Request) (router : Router)
    (w : World D) where
  -- What answers where no route fits.
  abbrev pub IsUnrouted : Type 0
  IsUnrouted =
      (serve_http s workers req router w ≡ (router.method_not_allowed, w))
      ⊎ (serve_http s workers req router w ≡ (router.page_not_found, w))
      ⊎ (serve_http s workers req router w
          ≡ (router.moved_permanently (router.clean_path req.path), w))

  unmatched : IsRouter router → first_match routes req.method req.path ≡ none → IsUnrouted
  unfolding serve_http
  unmatched good nothing = elim (Bool-cases (bytes_eq (router.clean_path req.path) req.path)) [
    | inr unclean ↦ inr (inr (rw unclean refl))
    | inl clean ↦ elim (good.nothing routes req.method req.path nothing) [
      | inl mismatch ↦ inl (rw (clean, mismatch) refl)
      | inr missing ↦ inr (inl (rw (clean, missing) refl))
    ]
  ]

  no_options : first_match routes (codes "OPTIONS") req.path ≡ none
  unfolding first_match bytes_eq
  no_options = refl

  -- A request with the method OPTIONS is answered by the router itself, in the world as it was: as a
  -- method that is not allowed, as a path that is not found, or, where the path is not clean, with the
  -- redirect to the clean path. The branch of the middleware that answers OPTIONS with status 200 is
  -- never taken.
  pub options_unrouted : IsRouter router → req.method ≡ codes "OPTIONS" → IsUnrouted
  options_unrouted good options =
      unmatched good (subst (λ m. first_match routes m req.path ≡ none) (sym options) no_options)

  -- The method and the path by which a client asks for each of the four operations.
  abbrev pub Asks : Endpoint → Type 0
  Asks health_route = (req.method ≡ codes "GET") × (req.path ≡ codes "/health")
  Asks encrypt_route = (req.method ≡ codes "POST") × (req.path ≡ codes "/api/v1/encrypt")
  Asks batch_route = (req.method ≡ codes "POST") × (req.path ≡ codes "/api/v1/encrypt/batch")
  Asks decrypt_route = (req.method ≡ codes "POST") × (req.path ≡ codes "/api/v1/decrypt")
