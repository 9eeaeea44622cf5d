-- ===== src/Server.antt =====
-- internal/server/server.go: the router, with the `RegisterRoutes` of the handlers, and the middleware
-- around it. The router of chi, which matches the segments of a path, is written out as tests of them;
-- the JWT library is the parameter `jwt`, what the CORS library answers by itself is `preflight`, and
-- the pattern of a route is `pattern`.
pub mod Combinators
pub mod Routes
pub mod Access
pub mod Operators
pub mod Endpoints
pub mod Granted
pub mod Groups
pub mod Anonymous
pub mod Histories
use go_wallet_ledger.Base.{
  ℕ, String, List, [], ◌∷◌, ◌++◌, Option, none, some, Bool, true, false, ◌==◌, ◌&&◌, if◌then◌else◌,
}
use go_wallet_ledger.Models.Auth.{Role, JwtClaims, RegisterRequest, LoginRequest}
use go_wallet_ledger.Models.Wallets.{CreateWalletRequest}
use go_wallet_ledger.Models.Transfers.{CreateTransferRequest}
use go_wallet_ledger.Store.{Engine, World, next}
use go_wallet_ledger.Http.{Response, failure, no_body, message}
use go_wallet_ledger.Auth.{Crypto, Jwt, validate_token, handle_register, handle_login}
use go_wallet_ledger.Middleware.{auth_middleware, require_role}
use go_wallet_ledger.RateLimit.{Cache, rate_limiter, client_ip}
use go_wallet_ledger.Wallets.Handler.{
  handle_create_wallet, handle_get_wallet, handle_get_balance, handle_freeze_wallet,
  handle_unfreeze_wallet, handle_get_transactions, handle_get_wallets,
}
use go_wallet_ledger.Transfers.Handler.{handle_transfer}
use go_wallet_ledger.Payments.Handler.{
  CreatePaymentRequest, RawPayload, handle_create_payment, handle_webhook, handle_demo_fund,
}
use go_wallet_ledger.Reconciliation.{handle_get_runs}

-- `other` is any other method that chi knows.
pub data Method : Type 0 where
  get post other : Method

-- The body, as each of the handlers decodes it.
pub record Decoded : Type 0 where
  pub wallet : Option CreateWalletRequest
  pub transfer : Option CreateTransferRequest
  pub payment : Option CreatePaymentRequest
  pub webhook : Option RawPayload
  pub register : Option RegisterRequest
  pub login : Option LoginRequest

-- A request: the segments of its path and the path as a text, the headers that are read, the address of
-- the connection as chi's `RealIP` leaves it, and the draw of the simulator if it comes to a payment.
pub record Request : Type 0 where
  pub method : Method
  pub path : List String
  pub url : String
  pub authorization : String
  pub idempotency_key : String
  pub webhook_signature : String
  pub real_ip : String
  pub forwarded_for : String
  pub remote_addr : String
  pub body : Decoded
  pub draw : String × Bool

abbrev pub Handler : Type 0
Handler = World → Response × World

abbrev pub not_found : Handler
not_found w = (failure 404 "404 page not found", w)

abbrev pub not_allowed : Handler
not_allowed w = (record { status = 405; body = no_body }, w)

-- `r.Get` and `r.Post` on one pattern.
abbrev pub on_get : Method → Handler → Handler
on_get Method.get h = h
on_get _ h = not_allowed

abbrev pub on_post : Method → Handler → Handler
on_post Method.post h = h
on_post _ h = not_allowed

abbrev pub by_method : Method → Handler → Handler → Handler
by_method Method.get g p = g
by_method Method.post g p = p
by_method Method.other g p = not_allowed

-- The group of the routes for the system and the admins.
abbrev pub operators : List Role
operators = Role.system ∷ Role.admin ∷ []

-- `RegisterRoutes` of internal/wallets/handler.go
unfoldable pub wallet_routes : Engine → JwtClaims → Request → List String → Handler
unfolding require_role handle_create_wallet handle_get_wallet handle_get_balance
    handle_get_transactions handle_get_wallets handle_freeze_wallet handle_unfreeze_wallet
wallet_routes e claims r [] =
    by_method r.method (handle_get_wallets e (some claims))
      (handle_create_wallet e (some claims) r.body.wallet)
wallet_routes e claims r (id ∷ []) = on_get r.method (handle_get_wallet e (some claims) id)
wallet_routes e claims r (id ∷ action ∷ []) =
    if action == "balance"
    then on_get r.method (handle_get_balance e (some claims) id)
    else if action == "transactions"
    then on_get r.method (handle_get_transactions e (some claims) id)
    else if action == "freeze"
    then on_post r.method (require_role operators (some claims) (handle_freeze_wallet e id))
    else if action == "unfreeze"
    then on_post r.method (require_role operators (some claims) (handle_unfreeze_wallet e id))
    else not_found
wallet_routes e claims r _ = not_found

-- `RegisterRoutes` of internal/transfers/handler.go
unfoldable pub transfer_routes : Engine → JwtClaims → Request → List String → Handler
unfolding handle_transfer
transfer_routes e claims r [] =
    on_post r.method (handle_transfer e (some claims) r.idempotency_key r.body.transfer)
transfer_routes e claims r _ = not_found

module _ (hmac : String → String → String) where
  -- `RegisterRoutes` of internal/payments/handler.go
  unfoldable pub payment_routes : Engine → String → JwtClaims → Request → List String → Handler
  unfolding handle_create_payment handle_webhook handle_demo_fund
  payment_routes e secret claims r [] =
      on_post r.method (handle_create_payment e r.draw (some claims) r.body.payment)
  payment_routes e secret claims r (action ∷ []) =
      if action == "demo-fund"
      then on_post r.method (handle_demo_fund e r.draw r.body.payment)
      else if action == "webhook"
      then on_post r.method (handle_webhook hmac e secret r.webhook_signature r.body.webhook)
      else not_found
  payment_routes e secret claims r _ = not_found

-- `RegisterRoutes` of internal/reconciliation/handler.go
unfoldable pub reconciliation_routes : Engine → JwtClaims → Request → List String → Handler
unfolding require_role handle_get_runs
reconciliation_routes e claims r (action ∷ []) =
    if action == "runs"
    then on_get r.method (require_role operators (some claims) (handle_get_runs e))
    else not_found
reconciliation_routes e claims r _ = not_found

-- `RegisterRoutes` of internal/auth/handler.go
unfoldable pub auth_routes : Crypto → Engine → String → Request → List String → Handler
unfolding handle_register handle_login
auth_routes crypto e secret r (action ∷ []) =
    if action == "register"
    then on_post r.method (handle_register crypto e secret r.body.register)
    else if action == "login"
    then on_post r.method (handle_login crypto e secret r.body.login)
    else not_found
auth_routes crypto e secret r _ = not_found

-- `/ready`: `Ping` is a call of the database.
unfoldable pub ready : Engine → Handler
ready e w =
    if e.fault w.tick
    then (failure 503 "Database unavailable", next w)
    else (record { status = 200; body = message "READY" }, next w)

-- What `NewServer` is given besides the engine: the secret of the configuration, the libraries, the
-- text of `/metrics`, what CORS answers by itself, and the pattern of the route that is matched.
pub record Wiring : Type 0 where
  pub secret : String
  pub crypto : Crypto
  pub jwt : Jwt
  pub hmac : String → String → String
  pub metrics_text : World → String
  pub preflight : Request → Option Response
  pub pattern : Request → String

module _ (e : Engine) (c : Wiring) where
  -- The group behind `AuthMiddleware`.
  unfoldable pub protected_routes : Request → String → List String → Handler
  unfolding auth_middleware validate_token wallet_routes transfer_routes payment_routes
      reconciliation_routes
  protected_routes r group rest =
      if group == "wallets"
      then auth_middleware (validate_token c.jwt) c.secret r.authorization
          (λ claims. wallet_routes e claims r rest)
      else if group == "transfers"
      then auth_middleware (validate_token c.jwt) c.secret r.authorization
          (λ claims. transfer_routes e claims r rest)
      else if group == "payments"
      then auth_middleware (validate_token c.jwt) c.secret r.authorization
          (λ claims. payment_routes c.hmac e c.secret claims r rest)
      else if group == "reconciliation"
      then auth_middleware (validate_token c.jwt) c.secret r.authorization
          (λ claims. reconciliation_routes e claims r rest)
      else not_found

  abbrev pub is_webhook : String → List String → Bool
  is_webhook group (name ∷ []) = group == "webhooks" && name == "payment-provider"
  is_webhook group _ = false

  -- `/api/v1`
  unfoldable pub api_routes : Request → List String → Handler
  unfolding auth_routes protected_routes handle_webhook
  api_routes r [] = not_found
  api_routes r (group ∷ rest) =
      if group == "auth"
      then auth_routes c.crypto e c.secret r rest
      else if is_webhook group rest
      then on_post r.method (handle_webhook c.hmac e c.secret r.webhook_signature r.body.webhook)
      else protected_routes r group rest

  -- A path of one segment.
  abbrev pub root_routes : Request → String → Handler
  root_routes r name =
      if name == "metrics"
      then on_get r.method (λ w. (record { status = 200; body = message (c.metrics_text w) }, w))
      else if name == "health"
      then on_get r.method (λ w. (record { status = 200; body = message "OK" }, w))
      else if name == "ready"
      then on_get r.method (ready e)
      else not_found

  -- The routes of `NewServer`.
  unfoldable pub route : Request → List String → Handler
  unfolding api_routes ready
  route r [] = not_found
  route r (name ∷ []) = root_routes r name
  route r (api ∷ version ∷ rest) =
      if api == "api" && version == "v1" then api_routes r rest else not_found

-- What the process keeps: the services' world, the counters of Redis, and the counter
-- `http_requests_total`, as the labels that were counted.
pub record Process : Type 0 where
  pub world : World
  pub cache : Cache
  pub requests_total : List (Method × String × ℕ)

-- The label of the path: the pattern of the route context, or the path itself where that is empty.
abbrev pub path_label : String → Request → String
path_label pattern r = if pattern == "" then r.url else pattern

-- `MetricsMiddleware` around the handler `next`, which leaves the pattern of the route context: it is
-- empty where the request has not come to the router.
unfoldable pub metrics_middleware :
    Request → (Process → Response × String × Process) → Process → Response × Process
metrics_middleware r next s =
    let (response, pattern, s') = next s in
    (
      response,
      record s' {
        requests_total =
            s'.requests_total ++ (r.method, path_label pattern r, response.status) ∷ [];
      },
    )

module _ (e : Engine) (c : Wiring) where
  -- The router, which sets the pattern of the route context.
  abbrev pub routed : Request → World × String → Response × (World × String)
  routed r (w, before) = let (response, w') = route e c r r.path w in (response, (w', c.pattern r))

  -- The rate limiter, which is there if the process has Redis, around the router. `fails` and `now`
  -- are what Redis answers the script with.
  unfoldable pub limited_route : Bool → Bool → ℕ → Request → Process → Response × String × Process
  unfolding rate_limiter route
  limited_route false fails now r s =
      let (response, (w, pattern)) = routed r (s.world, "") in
      (response, pattern, record s { world = w })
  limited_route true fails now r s =
      let ((response, (w, pattern)), cache) =
        rate_limiter fails now (client_ip r.real_ip r.forwarded_for r.remote_addr) 100 (routed r)
          s.cache (s.world, "") in
      (response, pattern, record s { world = w; cache = cache })

  abbrev pub after_cors :
      Bool → Bool → ℕ → Request → Option Response → Process → Response × String × Process
  after_cors has_redis fails now r none s = limited_route has_redis fails now r s
  after_cors has_redis fails now r (some response) s = (response, "", s)

  -- The middleware of `NewServer` around its routes, in order; the libraries' request ids, logging,
  -- recovery and timeout are left out.
  unfoldable pub serve : Bool → Bool → ℕ → Request → Process → Response × Process
  unfolding metrics_middleware limited_route
  serve has_redis fails now r =
      metrics_middleware r (after_cors has_redis fails now r (c.preflight r))
