-- ===== src/System/Quiet.antt =====
-- What the services' operations do to the outbox and to the broker.
use go_wallet_ledger.Base.{Bool, true, false, Option, none, some, List, [], ◌∷◌, String}
use go_wallet_ledger.Base.Int.{ℤ}
use go_wallet_ledger.Models.Auth.{Role, RegisterRequest, LoginRequest}
use go_wallet_ledger.Models.Ledger.{Transaction, Entry}
use go_wallet_ledger.Models.Wallets.{Wallet, WalletStatus, CreateWalletRequest}
use go_wallet_ledger.Models.Transfers.{CreateTransferRequest, Transfer}
use go_wallet_ledger.Models.Payments.{Payment, PaymentStatus, WebhookPayload}
use go_wallet_ledger.Store.{Engine}
use go_wallet_ledger.Outbox.Growth.{
  Quiet, quiet, bind-Quiet, pure-Quiet, raise-Quiet, insert_event-Quiet,
}
use go_wallet_ledger.Ledger.{insert_transaction, insert_entry, insert_entries, create_transaction}
use go_wallet_ledger.Transfers.{
  select_for_update, lock_wallet, update_balance, insert_transfer, settle, validate_and_settle,
  transfer_body,
}
use go_wallet_ledger.Wallets.{
  insert_account, insert_wallet, create_body, create_wallet_and_account, get_wallet_by_id,
  update_wallet_status, list_transactions,
}
use go_wallet_ledger.Wallets.Service.{create_wallet, get_wallet, get_transactions}
use go_wallet_ledger.Payments.{
  insert_payment, create_payment, insert_webhook, lock_payment, update_payment, credit_wallet,
  credit_when, settle_payment, webhook_body, process_webhook,
}
use go_wallet_ledger.Auth.{Crypto, create_user, get_user_by_email, generate_token, register, login}

module _ (e : Engine) where
  insert_transaction-Quiet : (txn : Transaction) → Quiet e (insert_transaction e txn)
  unfolding insert_transaction
  insert_transaction-Quiet txn = search quiet

  insert_entry-Quiet : (id : String) (x : Entry) → Quiet e (insert_entry e id x)
  unfolding insert_entry
  insert_entry-Quiet id x = search quiet depth 8

  insert_entries-Quiet : (id : String) (xs : List Entry) → Quiet e (insert_entries e id xs)
  unfolding insert_entries
  insert_entries-Quiet id [] = search quiet
  insert_entries-Quiet id (x ∷ xs) =
      bind-Quiet e _ _ (insert_entry-Quiet id x)
        λ y. bind-Quiet e _ _ (insert_entries-Quiet id xs) λ ys. pure-Quiet e _

  pub create_transaction-Quiet : (txn : Transaction) → Quiet e (create_transaction e txn)
  unfolding create_transaction
  create_transaction-Quiet txn = search (quiet, insert_transaction-Quiet, insert_entries-Quiet)

  select_for_update-Quiet : (id : String) → Quiet e (select_for_update e id)
  unfolding select_for_update
  select_for_update-Quiet id = search quiet depth 8

  lock_wallet-Quiet : (id : String) → Quiet e (lock_wallet e id)
  unfolding lock_wallet
  lock_wallet-Quiet id = search (quiet, select_for_update-Quiet)

  update_balance-Quiet : (id : String) (f : ℤ → ℤ) → Quiet e (update_balance e id f)
  unfolding update_balance
  update_balance-Quiet id f = search quiet depth 8

  insert_transfer-Quiet : (transfer : Transfer) → Quiet e (insert_transfer e transfer)
  unfolding insert_transfer
  insert_transfer-Quiet transfer = search quiet depth 8

  settle-Quiet :
      (req : CreateTransferRequest) (key : String) (s d : Wallet) → Quiet e (settle e req key s d)
  unfolding settle
  settle-Quiet req key s d =
      search
        (
          quiet, update_balance-Quiet, insert_transfer-Quiet, create_transaction-Quiet,
          insert_event-Quiet,
        )
        depth 12

  validate_and_settle-Quiet :
      (req : CreateTransferRequest) (key : String) (p : Wallet × Wallet)
      → Quiet e (validate_and_settle e req key p)
  unfolding validate_and_settle
  validate_and_settle-Quiet req key (s, d) = search (quiet, settle-Quiet)

  pub transfer_body-Quiet :
      (req : CreateTransferRequest) (key : String) → Quiet e (transfer_body e req key)
  unfolding transfer_body
  transfer_body-Quiet req key = search (quiet, lock_wallet-Quiet, validate_and_settle-Quiet)

  insert_account-Quiet : (kind currency : String) → Quiet e (insert_account e kind currency)
  unfolding insert_account
  insert_account-Quiet kind currency = search quiet

  insert_wallet-Quiet :
      (owner account currency : String) → Quiet e (insert_wallet e owner account currency)
  unfolding insert_wallet
  insert_wallet-Quiet owner account currency = search quiet depth 8

  pub create_wallet-Quiet :
      (req : CreateWalletRequest) (owner : String) (role : Role)
      → Quiet e (create_wallet e req owner role)
  unfolding create_wallet create_wallet_and_account create_body
  create_wallet-Quiet req owner role =
      search (quiet, insert_account-Quiet, insert_wallet-Quiet) depth 8

  pub update_wallet_status-Quiet :
      (id : String) (status : WalletStatus) → Quiet e (update_wallet_status e id status)
  unfolding update_wallet_status
  update_wallet_status-Quiet id status = search quiet depth 9

  pub get_wallet_by_id-Quiet : (id : String) → Quiet e (get_wallet_by_id e id)
  unfolding get_wallet_by_id
  get_wallet_by_id-Quiet id = search quiet depth 8

  list_transactions-Quiet : (account : String) → Quiet e (list_transactions e account)
  unfolding list_transactions
  list_transactions-Quiet account = search quiet depth 8

  pub get_transactions-Quiet :
      (id caller : String) (role : Role) → Quiet e (get_transactions e id caller role)
  unfolding get_transactions get_wallet
  get_transactions-Quiet id caller role =
      search (quiet, get_wallet_by_id-Quiet, list_transactions-Quiet) depth 8

  insert_payment-Quiet :
      (wallet : String) (amount : ℤ) (currency : String) (r : _)
      → Quiet e (insert_payment e wallet amount currency r)
  unfolding insert_payment
  insert_payment-Quiet wallet amount currency r = search quiet depth 8

  pub create_payment-Quiet :
      (draw : String × Bool) (wallet : String) (amount : ℤ) (currency : String)
      → Quiet e (create_payment e draw wallet amount currency)
  unfolding create_payment
  create_payment-Quiet draw wallet amount currency = search (quiet, insert_payment-Quiet)

  insert_webhook-Quiet :
      (provider : String) (event : WebhookPayload) → Quiet e (insert_webhook e provider event)
  unfolding insert_webhook
  insert_webhook-Quiet provider event = search quiet depth 8

  lock_payment-Quiet : (reference : String) → Quiet e (lock_payment e reference)
  unfolding lock_payment
  lock_payment-Quiet reference = search quiet depth 8

  update_payment-Quiet :
      (id : String) (status : PaymentStatus) → Quiet e (update_payment e id status)
  unfolding update_payment
  update_payment-Quiet id status = search quiet depth 8

  credit_wallet-Quiet : (p : Payment) (account : String) → Quiet e (credit_wallet e p account)
  unfolding credit_wallet
  credit_wallet-Quiet p account = search (quiet, update_balance-Quiet, create_transaction-Quiet)

  credit_when-Quiet :
      (b : Bool) (p : Payment) (account : String) → Quiet e (credit_when b e p account)
  unfolding credit_when
  credit_when-Quiet true p account = credit_wallet-Quiet p account
  credit_when-Quiet false p account = pure-Quiet e tt

  settle_payment-Quiet :
      (status : PaymentStatus) (p : Payment × String) → Quiet e (settle_payment e status p)
  unfolding settle_payment
  settle_payment-Quiet status (p, account) =
      search (quiet, update_payment-Quiet, credit_when-Quiet, insert_event-Quiet) depth 10

  pub process_webhook-Quiet :
      (provider : String) (event : Option WebhookPayload)
      → Quiet e (process_webhook e provider event)
  unfolding process_webhook webhook_body
  process_webhook-Quiet provider none = raise-Quiet e _
  process_webhook-Quiet provider (some event) =
      search (quiet, insert_webhook-Quiet, lock_payment-Quiet, settle_payment-Quiet)

  create_user-Quiet : (email hash : String) (role : Role) → Quiet e (create_user e email hash role)
  unfolding create_user
  create_user-Quiet email hash role = search quiet depth 8

  get_user_by_email-Quiet : (email : String) → Quiet e (get_user_by_email e email)
  unfolding get_user_by_email
  get_user_by_email-Quiet email = search quiet depth 8

  pub register-Quiet :
      (crypto : Crypto) (secret : String) (req : RegisterRequest)
      → Quiet e (register crypto e secret req)
  unfolding register generate_token
  register-Quiet crypto secret req = search (quiet, create_user-Quiet) depth 8

  pub login-Quiet :
      (crypto : Crypto) (secret : String) (req : LoginRequest) → Quiet e (login crypto e secret req)
  unfolding login generate_token
  login-Quiet crypto secret req = search (quiet, get_user_by_email-Quiet) depth 8
