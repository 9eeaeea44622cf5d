-- ===== src/Server/Groups.antt =====
-- The `RegisterRoutes` of the handlers: what the routes of a group do to the services' world.
use go_wallet_ledger.Base.{
  String, ◌≡◌, refl, List, [], ◌∷◌, some, true, Bool-cases, inl, inr, arith,
}
use go_wallet_ledger.Models.Auth.{JwtClaims}
use go_wallet_ledger.Store.{Engine, World, next}
use go_wallet_ledger.Middleware.{require_role, has_role}
use go_wallet_ledger.System.{Call, perform}
use go_wallet_ledger.Wallets.Handler.{handle_freeze_wallet, handle_unfreeze_wallet}
use go_wallet_ledger.Reconciliation.{handle_get_runs}
use go_wallet_ledger.Server.Combinators.{
  Meets, missing-Meets, on_get-Meets, on_post-Meets, by_method-Meets, when-Meets,
}
use go_wallet_ledger.Server.Endpoints.{Grants, Bears, Operates, api}
use go_wallet_ledger.Server.{
  Method, Request, Wiring, Handler, operators, wallet_routes, transfer_routes, payment_routes,
  reconciliation_routes, auth_routes, not_found,
}

-- What a request does: one call of the services that the table of the endpoints grants it, or none, or
-- a ping of the database by `GET /ready`.
pub data Does (e : Engine) (c : Wiring) (r : Request) (path : List String) (w w' : World)
    : Type 0 where
  calls :
      (call : Call)
      → Grants c r path call
      → w' ≡ perform e c.crypto c.hmac c.secret call w
      → Does e c r path w w'
  nothing : w' ≡ w → Does e c r path w w'
  pings : path ≡ "ready" ∷ [] → r.method ≡ Method.get → w' ≡ next w → Does e c r path w w'

has_role-Operates : (a : JwtClaims) → has_role a.role operators ≡ true → Operates a
has_role-Operates a h = ground arith

module _ (e : Engine) (c : Wiring) (r : Request) (path : List String) where
  pub still : (w : World) → Does e c r path w w
  still w = Does.nothing refl

  abbrev pub Served : Handler → Type 0
  Served h = Meets (Does e c r path) still h

  abbrev pub missing : Served not_found
  missing = missing-Meets (Does e c r path) still

  require_role-Served :
      (a : JwtClaims) (h : Handler)
      → (Operates a → Served h)
      → Served (require_role operators (some a) h)
  unfolding require_role
  require_role-Served a h served w = elim (Bool-cases (has_role a.role operators)) [
    | inl allowed ↦ rw allowed (served (has_role-Operates a allowed) w)
    | inr denied ↦ rw denied (nothing refl)
  ]

  module _ (a : JwtClaims) (bears : Bears c r a) where
    action-Served :
        (id action : String)
        → path ≡ api ("wallets" ∷ id ∷ action ∷ [])
        → Served (wallet_routes e a r (id ∷ action ∷ []))
    unfolding wallet_routes
    action-Served id action at =
        when-Meets (Does e c r path) still action "balance" _ _
          (λ balance. on_get-Meets (Does e c r path) still r.method _ (λ got w.
            calls (Call.get_balance (some a) id) (Grants.balance_read (cc) got bears) refl))
          (when-Meets (Does e c r path) still action "transactions" _ _
            (λ transactions. on_get-Meets (Does e c r path) still r.method _ (λ got w.
              calls (Call.get_transactions (some a) id) (Grants.transactions_read (cc) got bears)
                refl))
            (when-Meets (Does e c r path) still action "freeze" _ _
              (λ freeze. on_post-Meets (Does e c r path) still r.method _ (λ posted.
                require_role-Served a (handle_freeze_wallet e id) (λ operates w.
                  calls (Call.freeze id) (Grants.wallet_frozen (cc) posted bears operates) refl)))
              (when-Meets (Does e c r path) still action "unfreeze" _ _
                (λ unfreeze. on_post-Meets (Does e c r path) still r.method _ (λ posted.
                  require_role-Served a (handle_unfreeze_wallet e id) (λ operates w.
                    calls (Call.unfreeze id) (Grants.wallet_unfrozen (cc) posted bears operates)
                      refl)))
                missing)))

    pub wallet_routes-Served :
        (rest : List String) → path ≡ api ("wallets" ∷ rest) → Served (wallet_routes e a r rest)
    unfolding wallet_routes
    wallet_routes-Served [] at =
        by_method-Meets (Does e c r path) still r.method _ _
          (λ got w. calls (Call.get_wallets (some a)) (Grants.wallets_listed at got bears) refl)
          (λ posted w.
            calls (Call.post_wallet (some a) r.body.wallet) (Grants.wallet_created at posted bears)
              refl)
    wallet_routes-Served (id ∷ []) at =
        on_get-Meets (Does e c r path) still r.method _
          (λ got w. calls (Call.get_wallet (some a) id) (Grants.wallet_read at got bears) refl)
    wallet_routes-Served (id ∷ action ∷ []) at = action-Served id action at
    wallet_routes-Served (id ∷ action ∷ more ∷ rest) at = missing

    pub transfer_routes-Served :
        (rest : List String) → path ≡ api ("transfers" ∷ rest) → Served (transfer_routes e a r rest)
    unfolding transfer_routes
    transfer_routes-Served [] at = on_post-Meets (Does e c r path) still r.method _ (λ posted w.
        calls (Call.post_transfer (some a) r.idempotency_key r.body.transfer)
          (Grants.transferred at posted bears) refl)
    transfer_routes-Served (x ∷ rest) at = missing

    pub payment_routes-Served :
        (rest : List String)
        → path ≡ api ("payments" ∷ rest)
        → Served (payment_routes c.hmac e c.secret a r rest)
    unfolding payment_routes
    payment_routes-Served [] at = on_post-Meets (Does e c r path) still r.method _ (λ posted w.
        calls (Call.post_payment r.draw (some a) r.body.payment)
          (Grants.payment_created at posted bears) refl)
    payment_routes-Served (action ∷ []) at =
        when-Meets (Does e c r path) still action "demo-fund" _ _
          (λ demo. on_post-Meets (Does e c r path) still r.method _ (λ posted w.
            calls (Call.post_demo_fund r.draw r.body.payment) (Grants.demo_funded (cc) posted bears)
              refl))
          (when-Meets (Does e c r path) still action "webhook" _ _
            (λ webhook. on_post-Meets (Does e c r path) still r.method _ (λ posted w.
              calls (Call.post_webhook r.webhook_signature r.body.webhook)
                (Grants.webhook_forwarded (cc) posted bears) refl))
            missing)
    payment_routes-Served (x ∷ y ∷ rest) at = missing

    pub reconciliation_routes-Served :
        (rest : List String)
        → path ≡ api ("reconciliation" ∷ rest)
        → Served (reconciliation_routes e a r rest)
    unfolding reconciliation_routes
    reconciliation_routes-Served [] at = missing
    reconciliation_routes-Served (action ∷ []) at =
        when-Meets (Does e c r path) still action "runs" _ _
          (λ runs. on_get-Meets (Does e c r path) still r.method _ (λ got.
            require_role-Served a (handle_get_runs e)
              (λ operates w. calls Call.get_runs (Grants.runs_read (cc) got bears operates) refl)))
          missing
    reconciliation_routes-Served (x ∷ y ∷ rest) at = missing

  pub auth_routes-Served :
      (rest : List String)
      → path ≡ api ("auth" ∷ rest)
      → Served (auth_routes c.crypto e c.secret r rest)
  unfolding auth_routes
  auth_routes-Served [] at = missing
  auth_routes-Served (action ∷ []) at =
      when-Meets (Does e c r path) still action "register" _ _
        (λ register. on_post-Meets (Does e c r path) still r.method _ (λ posted w.
          calls (Call.post_register r.body.register) (Grants.registered (cc) posted) refl))
        (when-Meets (Does e c r path) still action "login" _ _
          (λ login.
            on_post-Meets (Does e c r path) still r.method _ (λ posted w.
              calls (Call.post_login r.body.login) (Grants.logged_in (cc) posted) refl))
          missing)
  auth_routes-Served (x ∷ y ∷ rest) at = missing
