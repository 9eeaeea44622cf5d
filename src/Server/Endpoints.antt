-- ===== src/Server/Endpoints.antt =====
-- internal/server/server.go and the `RegisterRoutes` of the handlers, as a table: what each endpoint asks
-- of a request, and what it calls.
use go_wallet_ledger.Base.{String, ◌≡◌, List, [], ◌∷◌, some, true, split_spaces}
use go_wallet_ledger.Models.Auth.{JwtClaims}
use go_wallet_ledger.Auth.{validate_token}
use go_wallet_ledger.Middleware.Roles.{bearer, is_operator}
use go_wallet_ledger.System.{Call}
use go_wallet_ledger.Server.{Method, Request, Wiring}

-- The request carries one bearer token, which is valid and has the claims `a`.
abbrev pub Bears : Wiring → Request → JwtClaims → Type 0
Bears c r a = bearer (validate_token c.jwt) c.secret (split_spaces r.authorization) ≡ some a

-- They are those of the system or of an admin.
abbrev pub Operates : JwtClaims → Type 0
Operates a = is_operator (some a) ≡ true

abbrev pub api : List String → List String
api rest = "api" ∷ "v1" ∷ rest

-- The call that a request to `path` is granted by its method, its path and the claims of its token.
pub data Grants (c : Wiring) (r : Request) (path : List String) : Call → Type 0 where
  wallets_listed :
      {a : JwtClaims}
      → path ≡ api ("wallets" ∷ [])
      → r.method ≡ Method.get
      → Bears c r a
      → Grants c r path (Call.get_wallets (some a))
  wallet_created :
      {a : JwtClaims}
      → path ≡ api ("wallets" ∷ [])
      → r.method ≡ Method.post
      → Bears c r a
      → Grants c r path (Call.post_wallet (some a) r.body.wallet)
  wallet_read :
      {a : JwtClaims} {id : String}
      → path ≡ api ("wallets" ∷ id ∷ [])
      → r.method ≡ Method.get
      → Bears c r a
      → Grants c r path (Call.get_wallet (some a) id)
  balance_read :
      {a : JwtClaims} {id : String}
      → path ≡ api ("wallets" ∷ id ∷ "balance" ∷ [])
      → r.method ≡ Method.get
      → Bears c r a
      → Grants c r path (Call.get_balance (some a) id)
  transactions_read :
      {a : JwtClaims} {id : String}
      → path ≡ api ("wallets" ∷ id ∷ "transactions" ∷ [])
      → r.method ≡ Method.get
      → Bears c r a
      → Grants c r path (Call.get_transactions (some a) id)
  wallet_frozen :
      {a : JwtClaims} {id : String}
      → path ≡ api ("wallets" ∷ id ∷ "freeze" ∷ [])
      → r.method ≡ Method.post
      → Bears c r a
      → Operates a
      → Grants c r path (Call.freeze id)
  wallet_unfrozen :
      {a : JwtClaims} {id : String}
      → path ≡ api ("wallets" ∷ id ∷ "unfreeze" ∷ [])
      → r.method ≡ Method.post
      → Bears c r a
      → Operates a
      → Grants c r path (Call.unfreeze id)
  transferred :
      {a : JwtClaims}
      → path ≡ api ("transfers" ∷ [])
      → r.method ≡ Method.post
      → Bears c r a
      → Grants c r path (Call.post_transfer (some a) r.idempotency_key r.body.transfer)
  payment_created :
      {a : JwtClaims}
      → path ≡ api ("payments" ∷ [])
      → r.method ≡ Method.post
      → Bears c r a
      → Grants c r path (Call.post_payment r.draw (some a) r.body.payment)
  demo_funded :
      {a : JwtClaims}
      → path ≡ api ("payments" ∷ "demo-fund" ∷ [])
      → r.method ≡ Method.post
      → Bears c r a
      → Grants c r path (Call.post_demo_fund r.draw r.body.payment)
  webhook_forwarded :
      {a : JwtClaims}
      → path ≡ api ("payments" ∷ "webhook" ∷ [])
      → r.method ≡ Method.post
      → Bears c r a
      → Grants c r path (Call.post_webhook r.webhook_signature r.body.webhook)
  runs_read :
      {a : JwtClaims}
      → path ≡ api ("reconciliation" ∷ "runs" ∷ [])
      → r.method ≡ Method.get
      → Bears c r a
      → Operates a
      → Grants c r path Call.get_runs
  webhook_taken :
      path ≡ api ("webhooks" ∷ "payment-provider" ∷ [])
      → r.method ≡ Method.post
      → Grants c r path (Call.post_webhook r.webhook_signature r.body.webhook)
  registered :
      path ≡ api ("auth" ∷ "register" ∷ [])
      → r.method ≡ Method.post
      → Grants c r path (Call.post_register r.body.register)
  logged_in :
      path ≡ api ("auth" ∷ "login" ∷ [])
      → r.method ≡ Method.post
      → Grants c r path (Call.post_login r.body.login)
