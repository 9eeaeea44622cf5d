-- ===== src/Wallets/Soundness.antt =====
-- internal/wallets: `CreateWallet` and the agreement of the wallets with the ledger.
use go_wallet_ledger.Base.{
  some_eq, ℕ, String, ◌≡◌, refl, sym, subst, ap, ◌∙◌, some, none, [], ◌∷◌, ◌++◌, false, ◌==◌,
  some_row, arith,
}
use go_wallet_ledger.Base.Int.{pos}
use go_wallet_ledger.Models.Auth.{Role, role_text}
use go_wallet_ledger.Models.Wallets.{Account, Wallet, CreateWalletRequest, has_id}
use go_wallet_ledger.Store.{World, Tables, Engine, violation, next, guard, pure, raise, ◌>>◌}
use go_wallet_ledger.Store.Laws.{
  Succeeds, pure-Succeeds, statement-Succeeds, bind-Succeeds, uuid-Succeeds, write-Succeeds,
  transaction-keeps,
}
use go_wallet_ledger.Books.{IsFaithful, IsSound}
use go_wallet_ledger.Books.Opening.{opening-IsSound}
use go_wallet_ledger.Wallets.{
  insert_account, insert_wallet, create_body, create_wallet_and_account, account_constraints,
  wallet_constraints, wallet_row, account_row,
}
use go_wallet_ledger.Wallets.Service.{create_wallet}

-- A new account, named by its id.
record Opened (e : Engine) (t : Tables) (id : String) (t' : Tables) : Type 0 where
  account : Account
  named : account.id ≡ id
  generated : (n : ℕ) × (id ≡ e.fresh_id n)
  new : some_row (λ (a : Account). a.id == account.id) t.accounts ≡ false
  tables : t' ≡ record t { accounts = t.accounts ++ account ∷ [] }

account_new :
    (row : Account) (t : Tables)
    → violation (account_constraints row t) ≡ none
    → some_row (λ (a : Account). a.id == row.id) t.accounts ≡ false
account_new row t h = ground arith

insert_account-Opened :
    (e : Engine) (account_type currency : String) (w : World)
    → Succeeds (insert_account e account_type currency) w λ id w'. Opened e w.tables id w'.tables
unfolding insert_account
insert_account-Opened e account_type currency w = statement-Succeeds e _ w (
    write-Succeeds _ _ _ _ λ holds. pure-Succeeds _ _ (record {
      account = account_row e w.tick account_type currency;
      named = refl;
      generated = (w.tick, refl);
      new = account_new (account_row e w.tick account_type currency) w.tables holds;
      tables = refl;
    }))

-- A new wallet without funds, over the account named.
record Added (e : Engine) (account_id : String) (t t' : Tables) : Type 0 where
  wallet : Wallet
  generated : (n : ℕ) × (wallet.id ≡ e.fresh_id n)
  own : e.parse_uuid account_id ≡ some wallet.account_id
  no_funds : wallet.available_balance ≡ pos 0
  no_locks : wallet.locked_balance ≡ pos 0
  new : some_row (has_id wallet.id) t.wallets ≡ false
  tables : t' ≡ record t { wallets = t.wallets ++ wallet ∷ [] }

wallet_new :
    (row : Wallet) (t : Tables)
    → violation (wallet_constraints row t) ≡ none
    → some_row (has_id row.id) t.wallets ≡ false
wallet_new row t h = ground arith

insert_wallet-Added :
    (e : Engine) (owner_id account_id currency : String) (w : World)
    → Succeeds
        (insert_wallet e owner_id account_id currency)
        w
        λ _ w'. Added e account_id w.tables w'.tables
unfolding insert_wallet
insert_wallet-Added e owner_id account_id currency w = statement-Succeeds e _ w (
    uuid-Succeeds e owner_id _ _ λ owner eo. uuid-Succeeds e account_id _ _ λ account ea.
      write-Succeeds _ _ _ _ λ holds. pure-Succeeds _ _ (record {
        wallet = wallet_row e w.tick owner account currency;
        generated = (w.tick, refl);
        own = ea;
        no_funds = refl;
        no_locks = refl;
        new = wallet_new (wallet_row e w.tick owner account currency) w.tables holds;
        tables = refl;
      }))

Opened-IsSound :
    (e : Engine) (id : String) (t t1 t2 : Tables)
    → IsFaithful e
    → IsSound e t
    → Opened e t id t1
    → Added e id t1 t2
    → IsSound e t2
Opened-IsSound e id t t1 t2 faithful sound o a =
    opening-IsSound e t t2 sound o.account a.wallet
      (rw (a.tables, o.tables), rw (a.tables, o.tables), rw (a.tables, o.tables))
      (own, a.no_funds, a.no_locks) o.new
      (subst (λ (u : Tables). some_row (has_id a.wallet.id) u.wallets ≡ false) o.tables a.new)
      (
        rw generated (faithful.fresh_canonical o.generated.0),
        rw generated (faithful.fresh_not_nil o.generated.0),
      )
      (rw (a.generated.1) (faithful.fresh_canonical a.generated.0))
  where
    generated : o.account.id ≡ e.fresh_id o.generated.0
    generated = o.named ∙ o.generated.1

    own : a.wallet.account_id ≡ o.account.id
    own = some_eq (
        sym a.own
        ∙ ap e.parse_uuid o.generated.1
        ∙ faithful.fresh_canonical o.generated.0
        ∙ ap some (sym generated))

create_body-IsSound :
    (e : Engine) (owner_id account_type currency : String) (w : World)
    → IsFaithful e
    → IsSound e w.tables
    → Succeeds (create_body e owner_id account_type currency) w λ _ w'. IsSound e w'.tables
unfolding create_body
create_body-IsSound e owner_id account_type currency w faithful sound =
    bind-Succeeds _ _ w λ id w1 run. record {
      at = λ a w2 run'.
          Opened-IsSound e id w.tables w1.tables w2.tables faithful sound
            ((insert_account-Opened e account_type currency w).at id w1 run)
            ((insert_wallet-Added e owner_id id currency w1).at a w2 run');
    }

-- Creating a wallet, whether it succeeds or fails, keeps the wallets in agreement with the ledger.
pub create_wallet-IsSound :
    (e : Engine) (req : CreateWalletRequest) (owner_id : String) (role : Role) (w : World)
    → IsFaithful e
    → IsSound e w.tables
    → IsSound e (create_wallet e req owner_id role w).1.tables
unfolding create_wallet create_wallet_and_account ◌>>◌ guard pure raise
create_wallet-IsSound e req owner_id role w faithful sound = ground (
  arith,
  transaction-keeps (IsSound e) e _ w
      (create_body-IsSound e owner_id (role_text role) req.currency (next w) faithful sound) sound,
)
