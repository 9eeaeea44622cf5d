-- ===== src/Server/Routes.antt =====
-- internal/server/server.go: what a request does to the services' world.
use go_wallet_ledger.Base.{
  ℕ, String, Bool, ◌≡◌, refl, List, [], ◌∷◌, Option, none, some, ◌==◌, ◌&&◌, split_spaces,
  if◌then◌else◌, Bool-cases, inl, inr, arith, true,
}
use go_wallet_ledger.Models.Auth.{JwtClaims}
use go_wallet_ledger.Store.{Engine}
use go_wallet_ledger.Http.{failure}
use go_wallet_ledger.Auth.{validate_token}
use go_wallet_ledger.Middleware.{auth_middleware, authenticated}
use go_wallet_ledger.Middleware.Roles.{bearer}
use go_wallet_ledger.System.{Call}
use go_wallet_ledger.Server.Combinators.{on_get-Meets, on_post-Meets, when-Meets, serve-Meets}
use go_wallet_ledger.Server.Endpoints.{Grants, Bears, api}
use go_wallet_ledger.Server.Groups.{
  Does, still, Served, missing, wallet_routes-Served, transfer_routes-Served, payment_routes-Served,
  reconciliation_routes-Served, auth_routes-Served,
}
use go_wallet_ledger.Server.{
  Method, Request, Wiring, Process, Handler, protected_routes, is_webhook, api_routes, root_routes,
  ready, route, serve,
}

module _ (e : Engine) (c : Wiring) (r : Request) (path : List String) where
  abbrev claimed : List String → Option JwtClaims
  claimed xs = bearer (validate_token c.jwt) c.secret xs

  -- `AuthMiddleware` hands on the claims of the request's token.
  module _ (next_handler : JwtClaims → Handler) where
    validated-Served :
        (claims : Option JwtClaims)
        → ((a : JwtClaims) → claims ≡ some a → Served e c r path (next_handler a))
        → Served e c r path (λ w. elim claims [
          | none ↦ (failure 401 "invalid token", w)
          | some a ↦ next_handler a w
        ])
    validated-Served none served w = Does.nothing refl
    validated-Served (some a) served w = served a refl w

    authenticated-Served :
        (xs : List String)
        → ((a : JwtClaims) → claimed xs ≡ some a → Served e c r path (next_handler a))
        → Served e c r path (authenticated (validate_token c.jwt) c.secret xs next_handler)
    authenticated-Served [] served w = Does.nothing refl
    authenticated-Served (scheme ∷ []) served w = Does.nothing refl
    authenticated-Served (scheme ∷ token ∷ []) served w = elim (Bool-cases (scheme == "Bearer")) [
      | inl known ↦ rw known (
          validated-Served (validate_token c.jwt token c.secret)
            (λ a valid. served a (rw known valid)) w)
      | inr other ↦ rw other (Does.nothing refl)
    ]
    authenticated-Served (scheme ∷ token ∷ more ∷ xs) served w = Does.nothing refl

    auth_middleware-Served :
        ((a : JwtClaims) → Bears c r a → Served e c r path (next_handler a))
        → Served e c r path
            (auth_middleware (validate_token c.jwt) c.secret r.authorization next_handler)
    unfolding auth_middleware
    auth_middleware-Served served w = elim (Bool-cases (r.authorization == "")) [
      | inl empty ↦ rw empty (Does.nothing refl)
      | inr given ↦ rw given (authenticated-Served (split_spaces r.authorization) served w)
    ]

  protected_routes-Served :
      (group : String) (rest : List String)
      → path ≡ api (group ∷ rest)
      → Served e c r path (protected_routes e c r group rest)
  unfolding protected_routes
  protected_routes-Served group rest at =
      when-Meets (Does e c r path) (still e c r path) group "wallets" _ _
        (λ same.
          auth_middleware-Served _ (λ a bears. wallet_routes-Served e c r path a bears rest cc))
        (when-Meets (Does e c r path) (still e c r path) group "transfers" _ _
          (λ same.
            auth_middleware-Served _ (λ a bears. transfer_routes-Served e c r path a bears rest cc))
          (when-Meets (Does e c r path) (still e c r path) group "payments" _ _
            (λ same.
              auth_middleware-Served _
                (λ a bears. payment_routes-Served e c r path a bears rest cc))
            (when-Meets (Does e c r path) (still e c r path) group "reconciliation" _ _
              (λ same.
                auth_middleware-Served _
                  (λ a bears. reconciliation_routes-Served e c r path a bears rest cc))
              (missing e c r path))))

  webhook_path :
      (group : String) (rest : List String)
      → is_webhook e c group rest ≡ true
      → group ∷ rest ≡ "webhooks" ∷ "payment-provider" ∷ []
  webhook_path group [] h = absurd cc
  webhook_path group (name ∷ []) h =
      let first : group ≡ "webhooks" = ground arith in
      let second : name ≡ "payment-provider" = ground arith in cc
  webhook_path group (x ∷ y ∷ rest) h = absurd cc

  webhook-Served :
      (group : String) (rest : List String) (h k : Handler)
      → (group ∷ rest ≡ "webhooks" ∷ "payment-provider" ∷ [] → Served e c r path h)
      → Served e c r path k
      → Served e c r path (if is_webhook e c group rest then h else k)
  webhook-Served group rest h k served_h served_k w =
      elim (Bool-cases (is_webhook e c group rest)) [
        | inl hit ↦ rw hit (served_h (webhook_path group rest hit) w)
        | inr miss ↦ rw miss (served_k w)
      ]

  api_routes-Served :
      (rest : List String) → path ≡ api rest → Served e c r path (api_routes e c r rest)
  unfolding api_routes
  api_routes-Served [] at = missing e c r path
  api_routes-Served (group ∷ rest) at =
      when-Meets (Does e c r path) (still e c r path) group "auth" _ _
        (λ same. auth_routes-Served e c r path rest cc)
        (webhook-Served group rest _ _
          (λ same. on_post-Meets (Does e c r path) (still e c r path) r.method _ (λ posted w.
            Does.calls (Call.post_webhook r.webhook_signature r.body.webhook)
              (Grants.webhook_taken (cc) posted) refl))
          (protected_routes-Served group rest at))

  ready-Served : path ≡ "ready" ∷ [] → r.method ≡ Method.get → Served e c r path (ready e)
  unfolding ready
  ready-Served at got w = elim (Bool-cases (e.fault w.tick)) [
    | inl down ↦ rw down (Does.pings at got refl)
    | inr up ↦ rw up (Does.pings at got refl)
  ]

  root_routes-Served :
      (name : String) → path ≡ name ∷ [] → Served e c r path (root_routes e c r name)
  root_routes-Served name at =
      when-Meets (Does e c r path) (still e c r path) name "metrics" _ _
        (λ same.
          on_get-Meets (Does e c r path) (still e c r path) r.method _ (λ got. still e c r path))
        (when-Meets (Does e c r path) (still e c r path) name "health" _ _
          (λ same.
            on_get-Meets (Does e c r path) (still e c r path) r.method _ (λ got. still e c r path))
          (when-Meets (Does e c r path) (still e c r path) name "ready" _ _
            (λ same.
              on_get-Meets (Does e c r path) (still e c r path) r.method _
                (λ got. ready-Served (cc) got))
            (missing e c r path)))

  version-Served :
      (first version : String) (rest : List String)
      → path ≡ first ∷ version ∷ rest
      → Served e c r path (route e c r (first ∷ version ∷ rest))
  unfolding route
  version-Served first version rest at w = elim (Bool-cases (first == "api" && version == "v1")) [
    | inl hit ↦
        let is_api : first ≡ "api" = ground arith in
        let is_v1 : version ≡ "v1" = ground arith in rw hit (api_routes-Served rest (cc) w)
    | inr miss ↦ rw miss (Does.nothing refl)
  ]

route-Served :
    (e : Engine) (c : Wiring) (r : Request) (path : List String)
    → Served e c r path (route e c r path)
unfolding route
route-Served e c r [] = missing e c r []
route-Served e c r (name ∷ []) = root_routes-Served e c r (name ∷ []) name refl
route-Served e c r (first ∷ version ∷ rest) =
    version-Served e c r (first ∷ version ∷ rest) first version rest refl

-- Whatever a request asks for, and whatever the rate limiter, CORS and the bearer token make of it,
-- serving it does to the services' world what one call of `perform` does that the table of the endpoints
-- grants to its method, its path and the claims of its bearer token, or nothing, or one ping of the
-- database by `GET /ready`.
pub serve-Does :
    (e : Engine) (c : Wiring) (has_redis fails : Bool) (now : ℕ) (r : Request) (s : Process)
    → Does e c r r.path s.world (serve e c has_redis fails now r s).1.world
serve-Does e c has_redis fails now r s =
    serve-Meets (Does e c r r.path) (still e c r r.path) e c r (route-Served e c r r.path) has_redis
      fails now s
