-- ===== src/System/Books.antt =====
-- The agreement of the wallets and the ledger, call by call.
use go_wallet_ledger.Base.{String, ◌≡◌, refl, List, Bool, arith}
use go_wallet_ledger.Base.Int.{ℤ}
use go_wallet_ledger.Models.Errors.{Error}
use go_wallet_ledger.Models.Auth.{User, RegisterRequest, LoginRequest}
use go_wallet_ledger.Store.{World, Tables, Engine, calls}
use go_wallet_ledger.Books.{IsFaithful, IsSound}
use go_wallet_ledger.Books.Steps.{same-IsSound}
use go_wallet_ledger.Wallets.Soundness.{create_wallet-IsSound}
use go_wallet_ledger.Wallets.Access.{update_wallet_status-IsSound}
use go_wallet_ledger.Transfers.Requests.{handle_transfer-IsSound}
use go_wallet_ledger.Payments.{create_payment, insert_payment}
use go_wallet_ledger.Payments.Soundness.{process_webhook-IsSound}
use go_wallet_ledger.Reconciliation.{run_reconciliation}
use go_wallet_ledger.Reconciliation.Quiet.{run_reconciliation-quiet}
use go_wallet_ledger.Outbox.{mark_published, mark_failed}
use go_wallet_ledger.Auth.{Crypto, register, login, create_user, get_user_by_email, generate_token}
use go_wallet_ledger.System.{start}
use go_wallet_ledger.System.Kept.{Keeps}

-- The tables that the books are about are as they were.
abbrev SameTables : Tables → Tables → Type 0
SameTables t t' =
    (t'.wallets ≡ t.wallets) × (t'.accounts ≡ t.accounts) × (t'.ledger_entries ≡ t.ledger_entries)

create_payment-SameTables :
    (e : Engine) (draw : String × Bool) (wallet : String) (amount : ℤ) (currency : String)
    (w : World)
    → SameTables w.tables (create_payment e draw wallet amount currency w).1.tables
unfolding create_payment insert_payment calls
create_payment-SameTables e draw wallet amount currency w =
    (ground arith, ground arith, ground arith)

register-SameTables :
    (crypto : Crypto) (e : Engine) (secret : String) (req : RegisterRequest) (w : World)
    → SameTables w.tables (register crypto e secret req w).1.tables
unfolding register create_user generate_token calls
register-SameTables crypto e secret req w = (ground arith, ground arith, ground arith)

login-SameTables :
    (crypto : Crypto) (e : Engine) (secret : String) (req : LoginRequest) (w : World)
    → SameTables w.tables (login crypto e secret req w).1.tables
unfolding login get_user_by_email generate_token calls
login-SameTables crypto e secret req w = (ground arith, ground arith, ground arith)

mark_published-SameTables :
    (e : Engine) (id : String) (w : World) → SameTables w.tables (mark_published e id w).1.tables
unfolding mark_published calls
mark_published-SameTables e id w = (ground arith, ground arith, ground arith)

mark_failed-SameTables :
    (e : Engine) (id : String) (error : Error) (w : World)
    → SameTables w.tables (mark_failed e id error w).1.tables
unfolding mark_failed calls
mark_failed-SameTables e id error w = (ground arith, ground arith, ground arith)

module _ (e : Engine) (faithful : IsFaithful e) (crypto : Crypto) where
  kept : (w w' : World) → SameTables w.tables w'.tables → IsSound e w.tables → IsSound e w'.tables
  kept w w' same sound = same-IsSound e w.tables w'.tables sound same

  pub IsSound-Keeps : Keeps e crypto (IsSound e)
  IsSound-Keeps = record {
    wallet_created = λ req owner role w h. create_wallet-IsSound e req owner role w faithful h;
    status_set = λ id status w h. update_wallet_status-IsSound e id status w h;
    transferred = λ caller key body w h. handle_transfer-IsSound e caller key body w faithful h;
    payment_created = λ draw wallet amount currency w h.
        kept w (create_payment e draw wallet amount currency w).1
          (create_payment-SameTables e draw wallet amount currency w) h;
    webhook_taken = λ provider event w h. process_webhook-IsSound e provider event w faithful h;
    registered = λ secret req w h.
        kept w (register crypto e secret req w).1 (register-SameTables crypto e secret req w) h;
    logged_in = λ secret req w h.
        kept w (login crypto e secret req w).1 (login-SameTables crypto e secret req w) h;
    event_published =
        λ id w h. kept w (mark_published e id w).1 (mark_published-SameTables e id w) h;
    event_failed =
        λ id error w h. kept w (mark_failed e id error w).1 (mark_failed-SameTables e id error w) h;
    reconciled = λ w h.
        kept w (run_reconciliation e w) (rw (run_reconciliation-quiet e w h).1 (refl, refl, refl))
          h;
  }

pub start-IsSound : (e : Engine) (users : List User) → IsSound e (start users).tables
start-IsSound e users = record {
  distinct = tt;
  backed = tt;
  named = tt;
  funded = tt;
  canonical = tt;
  posted = tt;
  balanced = refl;
}
