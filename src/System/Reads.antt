-- ===== src/System/Reads.antt =====
-- What the calls that only read do to the world.
use go_wallet_ledger.Base.{String, ◌≡◌, refl, ap, ◌∙◌, arith}
use go_wallet_ledger.Models.Errors.{Error}
use go_wallet_ledger.Models.Auth.{Role}
use go_wallet_ledger.Models.Wallets.{Wallet}
use go_wallet_ledger.Store.{World, Engine, Result, ok, err, next, calls, continue, pure, ◌>>=◌}
use go_wallet_ledger.Http.{Response}
use go_wallet_ledger.Wallets.Handler.{answer}
use go_wallet_ledger.Wallets.{get_wallet_by_id, list_transactions, get_wallets_by_owner}
use go_wallet_ledger.Wallets.Service.{
  get_wallet, get_balance, get_transactions, get_wallets, balance_of,
}
use go_wallet_ledger.Reconciliation.{list_runs}

-- What a handler writes does not touch the world.
pub answer-world :
    {A : Type 0} (failed : Error → Response) (done : A → Response) (r : Result A × World)
    → (answer failed done r).1 ≡ r.1
answer-world failed done (ok a, w) = refl
answer-world failed done (err x, w) = refl

pub get_wallet-next :
    (e : Engine) (id caller : String) (role : Role) (w : World)
    → (get_wallet e id caller role w).1 ≡ next w
unfolding get_wallet get_wallet_by_id calls
get_wallet-next e id caller role w = ground arith

pub get_balance-next :
    (e : Engine) (id caller : String) (role : Role) (w : World)
    → (get_balance e id caller role w).1 ≡ next w
unfolding get_balance ◌>>=◌ pure
get_balance-next e id caller role w =
    got (get_wallet e id caller role w) (get_wallet-next e id caller role w)
  where
    got :
        (r : Result Wallet × World)
        → r.1 ≡ next w
        → (continue (λ v. pure (balance_of v)) r).1 ≡ next w
    got (ok v, w') h = h
    got (err x, w') h = h

list_transactions_tables :
    (e : Engine) (account : String) (w : World)
    → (list_transactions e account w).1.tables ≡ w.tables
unfolding list_transactions calls
list_transactions_tables e account w = ground arith

pub get_transactions_tables :
    (e : Engine) (id caller : String) (role : Role) (w : World)
    → (get_transactions e id caller role w).1.tables ≡ w.tables
unfolding get_transactions ◌>>=◌
get_transactions_tables e id caller role w =
    got (get_wallet e id caller role w) (get_wallet-next e id caller role w)
  where
    got :
        (r : Result Wallet × World)
        → r.1 ≡ next w
        → (continue (λ (v : Wallet). list_transactions e v.account_id) r).1.tables ≡ w.tables
    got (ok v, w') h = list_transactions_tables e v.account_id w' ∙ ap (λ (u : World). u.tables) h
    got (err x, w') h = ap (λ (u : World). u.tables) h

pub get_wallets-next :
    (e : Engine) (caller : String) (w : World) → (get_wallets e caller w).1 ≡ next w
unfolding get_wallets get_wallets_by_owner calls
get_wallets-next e caller w = ground arith

pub list_runs-next : (e : Engine) (w : World) → (list_runs e w).1 ≡ next w
unfolding list_runs calls
list_runs-next e w = ground arith
