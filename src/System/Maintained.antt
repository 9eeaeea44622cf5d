-- ===== src/System/Maintained.antt =====
-- What the calls keep of the tables and the broker, from what the services' operations keep.
use go_wallet_ledger.Base.{
  ◌||◌, String, List, [], ◌∷◌, Option, none, some, Bool, ◌==◌, arith, Bool-cases, inl, inr,
}
use go_wallet_ledger.Base.Int.{ℤ}
use go_wallet_ledger.Models.Errors.{Error}
use go_wallet_ledger.Models.Auth.{Role, JwtClaims, RegisterRequest, LoginRequest}
use go_wallet_ledger.Models.Payments.{Payment, WebhookPayload}
use go_wallet_ledger.Models.Transfers.{CreateTransferRequest}
use go_wallet_ledger.Transfers.Handler.{handle_transfer}
use go_wallet_ledger.Wallets.{update_wallet_status}
use go_wallet_ledger.Models.Wallets.{WalletStatus, CreateWalletRequest}
use go_wallet_ledger.Store.{World, Tables, Engine, Result, ok, err}
use go_wallet_ledger.Http.{Response}
use go_wallet_ledger.Wallets.Handler.{
  answer, handle_create_wallet, handle_get_wallet, handle_get_balance, handle_freeze_wallet,
  handle_unfreeze_wallet, handle_get_transactions, handle_get_wallets,
}
use go_wallet_ledger.Wallets.Service.{
  create_wallet, freeze_wallet, unfreeze_wallet, get_wallet, get_balance, get_transactions,
  get_wallets,
}
use go_wallet_ledger.Payments.{create_payment, process_webhook}
use go_wallet_ledger.Payments.Handler.{
  RawPayload, demo_event, demo_webhook, handle_create_payment, handle_webhook, handle_demo_fund,
  verify_webhook_signature,
}
use go_wallet_ledger.Reconciliation.{list_runs, handle_get_runs, run_reconciliation}
use go_wallet_ledger.Outbox.{process_batch}
use go_wallet_ledger.Auth.{Crypto, register, login, handle_register, handle_login}
use go_wallet_ledger.Models.Outbox.{Payload}
use go_wallet_ledger.System.{Call, perform, perform_all}
use go_wallet_ledger.System.Quiet.{get_transactions-Quiet}
use go_wallet_ledger.System.Reads.{
  answer-world, get_wallet-next, get_balance-next, get_transactions_tables, get_wallets-next,
  list_runs-next,
}

-- The tables and the broker of a world.
abbrev pub At : (Tables → List (String × Payload) → Type 0) → World → Type 0
At I w = I w.tables w.broker

-- An invariant of the tables and the broker that the operations keep of which the calls are made.
pub record Maintains (e : Engine) (crypto : Crypto) (I : Tables → List (String × Payload) → Type 0)
    : Type 0 where
  pub wallet_created :
      (req : CreateWalletRequest) (owner : String) (role : Role) (w : World)
      → At I w
      → At I (create_wallet e req owner role w).1
  pub status_set :
      (id : String) (status : WalletStatus) (w : World)
      → At I w
      → At I (update_wallet_status e id status w).1
  pub transferred :
      (caller : Option JwtClaims) (key : String) (body : Option CreateTransferRequest) (w : World)
      → At I w
      → At I (handle_transfer e caller key body w).1
  pub payment_created :
      (draw : String × Bool) (wallet : String) (amount : ℤ) (currency : String) (w : World)
      → At I w
      → At I (create_payment e draw wallet amount currency w).1
  pub webhook_taken :
      (provider : String) (event : Option WebhookPayload) (w : World)
      → At I w
      → At I (process_webhook e provider event w).1
  pub registered :
      (secret : String) (req : RegisterRequest) (w : World)
      → At I w
      → At I (register crypto e secret req w).1
  pub logged_in :
      (secret : String) (req : LoginRequest) (w : World)
      → At I w
      → At I (login crypto e secret req w).1
  pub batched : (w : World) → At I w → At I (process_batch e w)
  pub reconciled : (w : World) → At I w → At I (run_reconciliation e w)

module _ (e : Engine) (crypto : Crypto) (I : Tables → List (String × Payload) → Type 0)
    (keeps : Maintains e crypto I) where
  abbrev Kept : World → Type 0
  Kept w = At I w

  answered :
      {A : Type 0} (failed : Error → Response) (done : A → Response) (r : Result A × World)
      → Kept r.1
      → Kept (answer failed done r).1
  answered failed done r h = rw (answer-world failed done r) h

  register-Kept :
      (secret : String) (body : Option RegisterRequest) (w : World)
      → Kept w
      → Kept (handle_register crypto e secret body w).1
  unfolding handle_register
  register-Kept secret none w h = h
  register-Kept secret (some req) w h = elim (Bool-cases (req.email == "" || req.password == "")) [
    | inl missing ↦ rw missing h
    | inr given ↦
        let r = register crypto e secret req w in
        rw given (answered _ _ r (keeps.registered secret req w h))
  ]

  login-Kept :
      (secret : String) (body : Option LoginRequest) (w : World)
      → Kept w
      → Kept (handle_login crypto e secret body w).1
  unfolding handle_login
  login-Kept secret none w h = h
  login-Kept secret (some req) w h = elim (Bool-cases (req.email == "" || req.password == "")) [
    | inl missing ↦ rw missing h
    | inr given ↦
        let r = login crypto e secret req w in
        rw given (answered _ _ r (keeps.logged_in secret req w h))
  ]

  demo-Kept : (r : Result Payment × World) → Kept r.1 → Kept (demo_webhook e r).1
  demo-Kept (err x, w) h = h
  demo-Kept (ok p, w) h =
      answered _ _ (process_webhook e "simulator" (some (demo_event p)) w)
        (keeps.webhook_taken "simulator" (some (demo_event p)) w h)

  module _ (hmac : String → String → String) (secret : String) where
    webhook-Kept :
        (signature : String) (body : Option RawPayload) (w : World)
        → Kept w
        → Kept (handle_webhook hmac e secret signature body w).1
    unfolding handle_webhook
    webhook-Kept signature none w h = ground arith
    webhook-Kept signature (some payload) w h = elim (Bool-cases (signature == "")) [
      | inl empty ↦ rw empty h
      | inr given ↦
          elim (Bool-cases (verify_webhook_signature hmac secret payload.text signature)) [
            | inl valid ↦
                rw (given, valid)
                  (answered _ _ (process_webhook e "simulator" payload.decoded w)
                    (keeps.webhook_taken "simulator" payload.decoded w h))
            | inr invalid ↦ rw (given, invalid) h
          ]
    ]

    pub perform-At : (c : Call) (w : World) → Kept w → Kept (perform e crypto hmac secret c w)
    unfolding handle_create_wallet handle_get_wallet handle_get_balance handle_get_transactions
        handle_get_wallets handle_freeze_wallet handle_unfreeze_wallet handle_create_payment
        handle_demo_fund handle_get_runs freeze_wallet unfreeze_wallet
    perform-At (Call.post_wallet none body) w h = h
    perform-At (Call.post_wallet (some caller) none) w h = h
    perform-At (Call.post_wallet (some caller) (some req)) w h =
        answered _ _ (create_wallet e req caller.user_id caller.role w)
          (keeps.wallet_created req caller.user_id caller.role w h)
    perform-At (Call.get_wallet none id) w h = h
    perform-At (Call.get_wallet (some caller) id) w h =
        answered _ _ (get_wallet e id caller.user_id caller.role w)
          (rw (get_wallet-next e id caller.user_id caller.role w) h)
    perform-At (Call.get_balance none id) w h = h
    perform-At (Call.get_balance (some caller) id) w h =
        answered _ _ (get_balance e id caller.user_id caller.role w)
          (rw (get_balance-next e id caller.user_id caller.role w) h)
    perform-At (Call.get_transactions none id) w h = h
    perform-At (Call.get_transactions (some caller) id) w h =
        answered _ _ (get_transactions e id caller.user_id caller.role w) (
          rw
            (
              get_transactions_tables e id caller.user_id caller.role w,
              ((get_transactions-Quiet e id caller.user_id caller.role).still w).0,
            )
            h)
    perform-At (Call.get_wallets none) w h = h
    perform-At (Call.get_wallets (some caller)) w h =
        answered _ _ (get_wallets e caller.user_id w) (rw (get_wallets-next e caller.user_id w) h)
    perform-At (Call.freeze id) w h =
        answered _ _ (freeze_wallet e id w) (keeps.status_set id WalletStatus.frozen w h)
    perform-At (Call.unfreeze id) w h =
        answered _ _ (unfreeze_wallet e id w) (keeps.status_set id WalletStatus.active w h)
    perform-At (Call.post_transfer caller key body) w h = keeps.transferred caller key body w h
    perform-At (Call.post_payment draw none body) w h = h
    perform-At (Call.post_payment draw (some caller) none) w h = h
    perform-At (Call.post_payment draw (some caller) (some req)) w h =
        let r = create_payment e draw req.wallet_id req.amount req.currency w in
        answered _ _ r (keeps.payment_created draw req.wallet_id req.amount req.currency w h)
    perform-At (Call.post_webhook signature body) w h = webhook-Kept signature body w h
    perform-At (Call.post_demo_fund draw none) w h = h
    perform-At (Call.post_demo_fund draw (some req)) w h =
        let r = create_payment e draw req.wallet_id req.amount req.currency w in
        demo-Kept r (keeps.payment_created draw req.wallet_id req.amount req.currency w h)
    perform-At (Call.post_register body) w h = register-Kept secret body w h
    perform-At (Call.post_login body) w h = login-Kept secret body w h
    perform-At Call.get_runs w h = answered _ _ (list_runs e w) (rw (list_runs-next e w) h)
    perform-At Call.publish_events w h = keeps.batched w h
    perform-At Call.reconcile w h = keeps.reconciled w h

    pub perform_all-At :
        (cs : List Call) (w : World) → Kept w → Kept (perform_all e crypto hmac secret cs w)
    perform_all-At [] w h = h
    perform_all-At (c ∷ cs) w h =
        perform_all-At cs (perform e crypto hmac secret c w) (perform-At c w h)
