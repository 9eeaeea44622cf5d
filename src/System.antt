-- ===== src/System.antt =====
-- The calls that reach the services, one after the other: the HTTP endpoints of
-- internal/server/server.go after the router and the middleware, and the turns of the two workers.
pub mod Quiet
pub mod Still
pub mod Reads
pub mod Maintained
pub mod Kept
pub mod Sides
pub mod Keys
pub mod Replays
pub mod Credits
pub mod Events
pub mod Books
use go_wallet_ledger.Base.{String, List, [], ◌∷◌, Option, Bool}
use go_wallet_ledger.Models.Auth.{User, JwtClaims, RegisterRequest, LoginRequest}
use go_wallet_ledger.Models.Wallets.{CreateWalletRequest}
use go_wallet_ledger.Models.Transfers.{CreateTransferRequest}
use go_wallet_ledger.Store.{Engine, World, Tables, Metrics}
use go_wallet_ledger.Wallets.Handler.{
  handle_create_wallet, handle_get_wallet, handle_get_balance, handle_freeze_wallet,
  handle_unfreeze_wallet, handle_get_transactions, handle_get_wallets,
}
use go_wallet_ledger.Transfers.Handler.{handle_transfer}
use go_wallet_ledger.Payments.Handler.{
  CreatePaymentRequest, RawPayload, handle_create_payment, handle_webhook, handle_demo_fund,
}
use go_wallet_ledger.Reconciliation.{run_reconciliation, handle_get_runs}
use go_wallet_ledger.Auth.{Crypto, handle_register, handle_login}
use go_wallet_ledger.Outbox.{process_batch}

-- A request with what the router, the middleware and the decoders made of it, or a worker's turn.
pub data Call : Type 0 where
  post_wallet : Option JwtClaims → Option CreateWalletRequest → Call
  get_wallet get_balance get_transactions : Option JwtClaims → String → Call
  get_wallets : Option JwtClaims → Call
  freeze unfreeze : String → Call
  post_transfer : Option JwtClaims → String → Option CreateTransferRequest → Call
  post_payment : String × Bool → Option JwtClaims → Option CreatePaymentRequest → Call
  post_webhook : String → Option RawPayload → Call
  post_demo_fund : String × Bool → Option CreatePaymentRequest → Call
  post_register : Option RegisterRequest → Call
  post_login : Option LoginRequest → Call
  get_runs publish_events reconcile : Call

module _ (e : Engine) (crypto : Crypto) (hmac : String → String → String) (secret : String) where
  abbrev pub perform : Call → World → World
  perform (Call.post_wallet caller body) w = (handle_create_wallet e caller body w).1
  perform (Call.get_wallet caller id) w = (handle_get_wallet e caller id w).1
  perform (Call.get_balance caller id) w = (handle_get_balance e caller id w).1
  perform (Call.get_transactions caller id) w = (handle_get_transactions e caller id w).1
  perform (Call.get_wallets caller) w = (handle_get_wallets e caller w).1
  perform (Call.freeze id) w = (handle_freeze_wallet e id w).1
  perform (Call.unfreeze id) w = (handle_unfreeze_wallet e id w).1
  perform (Call.post_transfer caller key body) w = (handle_transfer e caller key body w).1
  perform (Call.post_payment draw caller body) w = (handle_create_payment e draw caller body w).1
  perform (Call.post_webhook signature body) w = (handle_webhook hmac e secret signature body w).1
  perform (Call.post_demo_fund draw body) w = (handle_demo_fund e draw body w).1
  perform (Call.post_register body) w = (handle_register crypto e secret body w).1
  perform (Call.post_login body) w = (handle_login crypto e secret body w).1
  perform Call.get_runs w = (handle_get_runs e w).1
  perform Call.publish_events w = process_batch e w
  perform Call.reconcile w = run_reconciliation e w

  -- A history of calls.
  abbrev pub perform_all : List Call → World → World
  perform_all [] w = w
  perform_all (c ∷ cs) w = perform_all cs (perform c w)

-- The tables as the migrations leave them, with the users that have registered.
abbrev pub migrated : List User → Tables
migrated users = record {
  users = users;
  accounts = [];
  wallets = [];
  ledger_transactions = [];
  ledger_entries = [];
  idempotency_keys = [];
  transfers = [];
  payments = [];
  webhook_events = [];
  outbox_events = [];
  reconciliation_runs = [];
  reconciliation_items = [];
}

abbrev pub start : List User → World
start users = record {
  tables = migrated users;
  metrics = record { transfers_succeeded = 0; transfers_failed = 0; payments_recorded = [] };
  broker = [];
  tick = 0;
}
