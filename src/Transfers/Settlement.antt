-- ===== src/Transfers/Settlement.antt =====
-- What a successful run of steps 4 to 7 of `ExecuteTransfer` leaves in the tables.
use go_wallet_ledger.Base.{
  String, ◌≡◌, ◌≢◌, refl, ap, ◌∙◌, [], ◌∷◌, ◌++◌, none, some, true, not, ◌==◌, ◌||◌, arith,
  all_rows, some_row,
}
use go_wallet_ledger.Base.Int.{ℤ, pos, ◌+ℤ◌, ◌-ℤ◌, leb_ℤ, is_int64}
use go_wallet_ledger.Models.Errors.{Error}
use go_wallet_ledger.Models.Wallets.{Wallet, has_id}
use go_wallet_ledger.Models.Transfers.{Transfer, CreateTransferRequest}
use go_wallet_ledger.Store.{World, Tables, Engine, violation}
use go_wallet_ledger.Store.Laws.{
  Succeeds, pure-Succeeds, statement-Succeeds, bind-Succeeds, then-Succeeds, uuid-Succeeds,
  write-Succeeds, wrap_error-Succeeds, clock-Succeeds,
}
use go_wallet_ledger.Ledger.Posting.{Recorded, create_transaction-Succeeds}
use go_wallet_ledger.Outbox.Insert.{Announced, insert_event-Succeeds}
use go_wallet_ledger.Transfers.{
  update_balance, balance_constraints, set_balance, insert_transfer, transfer_constraints,
  transfer_row, new_transfer, transfer_ledger, settle,
}

-- The row named by `id` got the balance `f` of its old one, in range.
pub record Rebalanced (e : Engine) (id : String) (f : ℤ → ℤ) (t t' : Tables) : Type 0 where
  pub key : String
  pub read : e.parse_uuid id ≡ some key
  pub in_range :
      all_rows (λ (r : Wallet). not (has_id key r) || is_int64 (f r.available_balance)) t.wallets
      ≡ true
  pub nonneg :
      all_rows
        (λ (r : Wallet). not (has_id key r) || leb_ℤ (pos 0) (f r.available_balance))
        t.wallets
      ≡ true
  pub tables : t' ≡ record t { wallets = set_balance key f t.wallets }

constraints_met :
    (key : String) (f : ℤ → ℤ) (t : Tables)
    → violation (balance_constraints key f t) ≡ none
    → (all_rows (λ (r : Wallet). not (has_id key r) || is_int64 (f r.available_balance)) t.wallets
        ≡ true)
      × (all_rows
            (λ (r : Wallet). not (has_id key r) || leb_ℤ (pos 0) (f r.available_balance))
            t.wallets
          ≡ true)
constraints_met key f t h = ground arith

pub update_balance-Rebalanced :
    (e : Engine) (id : String) (f : ℤ → ℤ) (w : World)
    → Succeeds (update_balance e id f) w λ _ w'. Rebalanced e id f w.tables w'.tables
unfolding update_balance
update_balance-Rebalanced e id f w = statement-Succeeds e _ w (
    uuid-Succeeds e id _ _ λ key read. write-Succeeds _ _ _ _ λ holds.
      let met = constraints_met key f w.tables holds in
      pure-Succeeds _ _
        (record { key = key; read = read; in_range = met.0; nonneg = met.1; tables = refl }))

-- The record of the transfer: its two ids are read, and differ.
pub record Logged (e : Engine) (transfer : Transfer) (t : Tables) (transfer' : Transfer)
    (t' : Tables) : Type 0 where
  pub row : Transfer
  pub source_read : e.parse_uuid transfer.source_wallet_id ≡ some row.source_wallet_id
  pub destination_read :
      e.parse_uuid transfer.destination_wallet_id ≡ some row.destination_wallet_id
  pub different : row.source_wallet_id ≢ row.destination_wallet_id
  pub row_key : row.idempotency_key ≡ transfer.idempotency_key
  pub key_known : some_row (λ r. r.key == row.idempotency_key) t.idempotency_keys ≡ true
  pub tables : t' ≡ record t { transfers = t.transfers ++ row ∷ [] }

transfer_met :
    (row : Transfer) (t : Tables)
    → violation (transfer_constraints row t) ≡ none
    → (row.source_wallet_id ≢ row.destination_wallet_id)
      × (some_row (λ r. r.key == row.idempotency_key) t.idempotency_keys ≡ true)
transfer_met row t h = (λ same. ground arith, ground arith)

insert_transfer-Logged :
    (e : Engine) (transfer : Transfer) (w : World)
    → Succeeds
        (insert_transfer e transfer)
        w
        λ transfer' w'. Logged e transfer w.tables transfer' w'.tables
unfolding insert_transfer
insert_transfer-Logged e transfer w = statement-Succeeds e _ w (
    uuid-Succeeds e transfer.source_wallet_id _ _ λ source es.
      uuid-Succeeds e transfer.destination_wallet_id _ _ λ destination ed.
        write-Succeeds _ _ _ _ λ holds.
          let row = transfer_row e w.tick transfer source destination in
          let met = transfer_met row w.tables holds in
          pure-Succeeds _ _ (record {
            row = row;
            source_read = es;
            destination_read = ed;
            different = met.0;
            row_key = refl;
            key_known = met.1;
            tables = refl;
          }))

-- The whole settlement, step by step.
pub record Settled (e : Engine) (req : CreateTransferRequest) (key : String) (source dest : Wallet)
    (t t' : Tables) : Type 0 where
  pub t1 : Tables
  pub t2 : Tables
  pub t3 : Tables
  pub t4 : Tables
  pub transfer : Transfer
  pub debited : Rebalanced e source.id (λ b. b -ℤ req.amount) t t1
  pub credited : Rebalanced e dest.id (λ b. b +ℤ req.amount) t1 t2
  pub logged : Logged e (new_transfer req key) t2 transfer t3
  pub recorded : Recorded e t3 (transfer_ledger req source dest transfer) t4
  pub announced : Announced t4 t'

pub settle-Settled :
    (e : Engine) (req : CreateTransferRequest) (key : String) (source dest : Wallet) (w : World)
    → Succeeds
        (settle e req key source dest)
        w
        λ _ w'. Settled e req key source dest w.tables w'.tables
unfolding settle
settle-Settled e req key source dest w =
    then-Succeeds (update_balance e source.id (λ b. b -ℤ req.amount)) _ w λ w1 d1.
      then-Succeeds (update_balance e dest.id (λ b. b +ℤ req.amount)) _ w1 λ w2 d2.
        bind-Succeeds (insert_transfer e (new_transfer req key)) _ w2 λ transfer w3 d3.
          bind-Succeeds _ _ w3 λ posted w4 d4. clock-Succeeds e _ w4 (
            then-Succeeds _ _ w4 λ w5 d5. pure-Succeeds _ _ (record {
              t1 = w1.tables;
              t2 = w2.tables;
              t3 = w3.tables;
              t4 = w4.tables;
              transfer = transfer;
              debited = (update_balance-Rebalanced e source.id _ w).at tt w1 d1;
              credited = (update_balance-Rebalanced e dest.id _ w1).at tt w2 d2;
              logged = (insert_transfer-Logged e (new_transfer req key) w2).at transfer w3 d3;
              recorded =
                  (wrap_error-Succeeds Error.ledger_failed _ w3
                      (create_transaction-Succeeds e _ w3)).at
                    posted w4 d4;
              announced =
                  (wrap_error-Succeeds Error.outbox_failed _ w4 (insert_event-Succeeds e _ _ w4)).at
                    tt w5 d5;
            }))

-- The wallets after the settlement.
pub Settled-wallets :
    (e : Engine) (req : CreateTransferRequest) (key : String) (source dest : Wallet) (t t' : Tables)
    → (x : Settled e req key source dest t t')
    → t'.wallets
      ≡ set_balance
          (x.credited).key
          (λ b. b +ℤ req.amount)
          (set_balance (x.debited).key (λ b. b -ℤ req.amount) t.wallets)
Settled-wallets e req key source dest t t' x =
    rw ((x.announced).1, (x.recorded).tables, (x.logged).tables)
      (ap (λ (u : Tables). u.wallets) (x.credited).tables
        ∙ ap (λ (u : Tables). set_balance (x.credited).key (λ b. b +ℤ req.amount) u.wallets)
            (x.debited).tables)
