-- ===== src/Server/Access.antt =====
-- internal/server/server.go: the routes behind the bearer token.
use go_wallet_ledger.Base.{
  String, ◌≡◌, refl, sym, subst, List, [], ◌∷◌, Option, none, some, Bool, true, false, ◌==◌, ◌||◌,
  split_spaces, String_discrete, arith, ◌⊎◌, Bool-cases, inl, inr,
}
use go_wallet_ledger.Models.Auth.{JwtClaims}
use go_wallet_ledger.Store.{Engine, World}
use go_wallet_ledger.Http.{Response, failure}
use go_wallet_ledger.Auth.{validate_token}
use go_wallet_ledger.Middleware.{auth_middleware, authenticated}
use go_wallet_ledger.Middleware.Roles.{bearer}
use go_wallet_ledger.Server.{
  Request, Wiring, Handler, protected_routes, is_webhook, api_routes, route,
}

-- The groups of `/api/v1` that `NewServer` puts behind `AuthMiddleware`.
abbrev pub is_protected : String → Bool
is_protected group =
    group == "wallets" || group == "transfers" || group == "payments" || group == "reconciliation"

module _ (validate : String → String → Option JwtClaims) (secret : String)
    (handler : JwtClaims → Handler) (w : World) where
  validated_401 :
      (claims : Option JwtClaims)
      → claims ≡ none
      → let r = (elim claims as (λ _. Response × World) [
        | none ↦ (failure 401 "invalid token", w)
        | some a ↦ handler a w
      ]) in
        (r.0.status ≡ 401) × (r.1 ≡ w)
  validated_401 none h = (refl, refl)
  validated_401 (some a) h = cc

  authenticated_401 :
      (parts : List String)
      → bearer validate secret parts ≡ none
      → ((authenticated validate secret parts handler w).0.status ≡ 401)
        × ((authenticated validate secret parts handler w).1 ≡ w)
  authenticated_401 [] h = (refl, refl)
  authenticated_401 (scheme ∷ []) h = (refl, refl)
  authenticated_401 (scheme ∷ token ∷ []) h = elim (Bool-cases (scheme == "Bearer")) [
    | inl known ↦ rw known (validated_401 (validate token secret) (rw known at h))
    | inr other ↦ rw other (refl, refl)
  ]
  authenticated_401 (scheme ∷ token ∷ more ∷ parts) h = (refl, refl)

  pub auth_middleware_401 :
      (header : String)
      → bearer validate secret (split_spaces header) ≡ none
      → ((auth_middleware validate secret header handler w).0.status ≡ 401)
        × ((auth_middleware validate secret header handler w).1 ≡ w)
  unfolding auth_middleware
  auth_middleware_401 header h = elim (Bool-cases (header == "")) [
    | inl missing ↦ rw missing (refl, refl)
    | inr given ↦ rw given (authenticated_401 (split_spaces header) h)
  ]

text_of : (a b : String) → (a == b) ≡ true → a ≡ b
text_of a b h = ground arith

protected-cases :
    (group : String)
    → is_protected group ≡ true
    → (group ≡ "wallets")
      ⊎ ((group ≡ "transfers") ⊎ ((group ≡ "payments") ⊎ (group ≡ "reconciliation")))
protected-cases group h = elim (Bool-cases (group == "wallets")) [
  | inl a ↦ inl (text_of group "wallets" a)
  | inr na ↦ elim (Bool-cases (group == "transfers")) [
    | inl b ↦ inr (inl (text_of group "transfers" b))
    | inr nb ↦ elim (Bool-cases (group == "payments")) [
      | inl d ↦ inr (inr (inl (text_of group "payments" d)))
      | inr nd ↦ inr (inr (inr (text_of group "reconciliation" (rw (na, nb, nd) at h))))
    ]
  ]
]

module _ (e : Engine) (c : Wiring) (r : Request) (rest : List String) (w : World)
    (no_token : bearer (validate_token c.jwt) c.secret (split_spaces r.authorization) ≡ none) where
  abbrev Refused401 : String → Type 0
  Refused401 group =
      ((route e c r ("api" ∷ "v1" ∷ group ∷ rest) w).0.status ≡ 401)
      × ((route e c r ("api" ∷ "v1" ∷ group ∷ rest) w).1 ≡ w)

  no_webhook :
      (xs : List String) (group : String)
      → (group == "webhooks") ≡ false
      → is_webhook e c group xs ≡ false
  no_webhook [] group h = refl
  no_webhook (x ∷ []) group h = rw h refl
  no_webhook (x ∷ y ∷ xs) group h = refl

  wallets_401 : Refused401 "wallets"
  unfolding route api_routes protected_routes String_discrete
  wallets_401 =
      rw (no_webhook rest "wallets" refl)
        (auth_middleware_401 (validate_token c.jwt) c.secret _ w r.authorization no_token)

  transfers_401 : Refused401 "transfers"
  unfolding route api_routes protected_routes String_discrete
  transfers_401 =
      rw (no_webhook rest "transfers" refl)
        (auth_middleware_401 (validate_token c.jwt) c.secret _ w r.authorization no_token)

  payments_401 : Refused401 "payments"
  unfolding route api_routes protected_routes String_discrete
  payments_401 =
      rw (no_webhook rest "payments" refl)
        (auth_middleware_401 (validate_token c.jwt) c.secret _ w r.authorization no_token)

  reconciliation_401 : Refused401 "reconciliation"
  unfolding route api_routes protected_routes String_discrete
  reconciliation_401 =
      rw (no_webhook rest "reconciliation" refl)
        (auth_middleware_401 (validate_token c.jwt) c.secret _ w r.authorization no_token)

  every_401 :
      (group : String)
      → (group ≡ "wallets")
        ⊎ ((group ≡ "transfers") ⊎ ((group ≡ "payments") ⊎ (group ≡ "reconciliation")))
      → Refused401 group
  every_401 group (inl h) = subst Refused401 (sym h) wallets_401
  every_401 group (inr (inl h)) = subst Refused401 (sym h) transfers_401
  every_401 group (inr (inr (inl h))) = subst Refused401 (sym h) payments_401
  every_401 group (inr (inr (inr h))) = subst Refused401 (sym h) reconciliation_401

-- A request without a bearer token that validates is answered 401, and changes nothing, whatever its
-- method, its body and the rest of its path, under `/api/v1/wallets`, `/api/v1/transfers`,
-- `/api/v1/payments` and `/api/v1/reconciliation`.
pub route-bearer :
    (e : Engine) (c : Wiring) (r : Request) (group : String) (rest : List String) (w : World)
    → is_protected group ≡ true
    → bearer (validate_token c.jwt) c.secret (split_spaces r.authorization) ≡ none
    → ((route e c r ("api" ∷ "v1" ∷ group ∷ rest) w).0.status ≡ 401)
      × ((route e c r ("api" ∷ "v1" ∷ group ∷ rest) w).1 ≡ w)
route-bearer e c r group rest w guarded no_token =
    every_401 e c r rest w no_token group (protected-cases group guarded)
