-- ===== src/Server/Granted.antt =====
-- internal/server/server.go: the router serves the table of the endpoints.
use go_wallet_ledger.Base.{
  String, ◌≡◌, refl, List, [], ◌∷◌, none, some, true, false, ◌==◌, split_spaces, String_discrete,
  ap, subst, Bool-cases, inl, inr, arith,
}
use go_wallet_ledger.Models.Auth.{JwtClaims}
use go_wallet_ledger.Store.{Engine, World}
use go_wallet_ledger.Http.{Response}
use go_wallet_ledger.Wallets.Handler.{handle_freeze_wallet, handle_unfreeze_wallet}
use go_wallet_ledger.Reconciliation.{handle_get_runs}
use go_wallet_ledger.Auth.{validate_token}
use go_wallet_ledger.Middleware.{auth_middleware, authenticated, require_role, has_role}
use go_wallet_ledger.Middleware.Roles.{bearer}
use go_wallet_ledger.System.{Call, perform}
use go_wallet_ledger.Server.Endpoints.{Grants, Bears, Operates}
use go_wallet_ledger.Server.{
  Request, Wiring, Handler, operators, wallet_routes, transfer_routes, payment_routes,
  reconciliation_routes, auth_routes, protected_routes, api_routes, route,
}

text_of : (a : String) → (a == "") ≡ true → a ≡ ""
text_of a h = ground arith

Operates-has_role : (a : JwtClaims) → Operates a → has_role a.role operators ≡ true
Operates-has_role a h = ground arith

require_role_passes :
    (a : JwtClaims) (h : Handler) (w : World)
    → Operates a
    → require_role operators (some a) h w ≡ h w
unfolding require_role
require_role_passes a h w operates = rw (Operates-has_role a operates) refl

module _ (e : Engine) (c : Wiring) (r : Request) where
  parts_pass :
      (xs : List String) (a : JwtClaims) (h : JwtClaims → Handler) (w : World)
      → bearer (validate_token c.jwt) c.secret xs ≡ some a
      → authenticated (validate_token c.jwt) c.secret xs h w ≡ h a w
  parts_pass [] a h w bears = absurd cc
  parts_pass (scheme ∷ []) a h w bears = absurd cc
  parts_pass (scheme ∷ token ∷ []) a h w bears = elim (Bool-cases (scheme == "Bearer")) [
    | inl known ↦
        let valid : validate_token c.jwt token c.secret ≡ some a = rw known at bears in
        rw (known, valid) refl
    | inr other ↦ let bad : none ≡ some a = rw other at bears in absurd cc
  ]
  parts_pass (scheme ∷ token ∷ more ∷ xs) a h w bears = absurd cc

  abbrev Claims : JwtClaims → String → Type 0
  Claims a header = bearer (validate_token c.jwt) c.secret (split_spaces header) ≡ some a

  no-Claims : (a : JwtClaims) → ¬ Claims a ""
  unfolding split_spaces
  no-Claims a h = cc h

  no_header : (a : JwtClaims) → Bears c r a → (r.authorization == "") ≡ false
  no_header a bears = elim (Bool-cases (r.authorization == "")) [
    | inl empty ↦ absurd (no-Claims a (subst (Claims a) (text_of r.authorization empty) bears))
    | inr given ↦ given
  ]

  middleware_passes :
      (a : JwtClaims) (h : JwtClaims → Handler) (w : World)
      → Bears c r a
      → auth_middleware (validate_token c.jwt) c.secret r.authorization h w ≡ h a w
  unfolding auth_middleware
  middleware_passes a h w bears =
      rw (no_header a bears) (parts_pass (split_spaces r.authorization) a h w bears)

  -- The router serves every endpoint of the table: a request to `path` that is granted a call, by its
  -- method, its path and the claims of its bearer token, leaves the services' world as that call does.
  pub route-Grants :
      (path : List String) (call : Call) (w : World)
      → Grants c r path call
      → (route e c r path w).1 ≡ perform e c.crypto c.hmac c.secret call w
  unfolding route api_routes protected_routes wallet_routes transfer_routes payment_routes
      reconciliation_routes auth_routes String_discrete
  route-Grants path call w (Grants.wallets_listed {a = a} at got bears) =
      rw (at, middleware_passes a _ w bears, got) refl
  route-Grants path call w (Grants.wallet_created {a = a} at got bears) =
      rw (at, middleware_passes a _ w bears, got) refl
  route-Grants path call w (Grants.wallet_read {a = a} {id = id} at got bears) =
      rw (at, middleware_passes a _ w bears, got) refl
  route-Grants path call w (Grants.balance_read {a = a} {id = id} at got bears) =
      rw (at, middleware_passes a _ w bears, got) refl
  route-Grants path call w (Grants.transactions_read {a = a} {id = id} at got bears) =
      rw (at, middleware_passes a _ w bears, got) refl
  route-Grants path call w (Grants.wallet_frozen {a = a} {id = id} at got bears operates) =
      rw (at, middleware_passes a _ w bears, got)
        (ap (λ (x : Response × World). x.1)
          (require_role_passes a (handle_freeze_wallet e id) w operates))
  route-Grants path call w (Grants.wallet_unfrozen {a = a} {id = id} at got bears operates) =
      rw (at, middleware_passes a _ w bears, got)
        (ap (λ (x : Response × World). x.1)
          (require_role_passes a (handle_unfreeze_wallet e id) w operates))
  route-Grants path call w (Grants.transferred {a = a} at got bears) =
      rw (at, middleware_passes a _ w bears, got) refl
  route-Grants path call w (Grants.payment_created {a = a} at got bears) =
      rw (at, middleware_passes a _ w bears, got) refl
  route-Grants path call w (Grants.demo_funded {a = a} at got bears) =
      rw (at, middleware_passes a _ w bears, got) refl
  route-Grants path call w (Grants.webhook_forwarded {a = a} at got bears) =
      rw (at, middleware_passes a _ w bears, got) refl
  route-Grants path call w (Grants.runs_read {a = a} at got bears operates) =
      rw (at, middleware_passes a _ w bears, got)
        (ap (λ (x : Response × World). x.1) (require_role_passes a (handle_get_runs e) w operates))
  route-Grants path call w (Grants.webhook_taken at got) = rw (at, got) refl
  route-Grants path call w (Grants.registered at got) = rw (at, got) refl
  route-Grants path call w (Grants.logged_in at got) = rw (at, got) refl
