-- ===== src/Ledger/Posting.antt =====
-- What a successful `CreateTransaction` leaves in the tables.
use mathlib.Core.List.{append-nil}
use go_wallet_ledger.Base.{
  String, ◌≡◌, refl, List, [], ◌∷◌, ◌++◌, none, some, true, ◌==◌, some_row, arith, append_assoc, ap,
  ◌∙◌, sym, subst,
}
use go_wallet_ledger.Models.Ledger.{Entry, Transaction}
use go_wallet_ledger.Store.{ok, World, Tables, Engine, violation}
use go_wallet_ledger.Store.Laws.{
  Succeeds, pure-Succeeds, statement-Succeeds, bind-Succeeds, uuid-Succeeds, write-Succeeds,
  lift-Succeeds,
}
use go_wallet_ledger.Ledger.{
  insert_transaction, insert_entry, insert_entries, create_transaction, validate, entry_row,
  entry_constraints,
}
use go_wallet_ledger.Ledger.Validation.{IsAccepted, validate-IsAccepted}

-- The row that was inserted for an entry: same amount, direction and currency, and the account that
-- the entry's text names, which exists.
pub record Posted (e : Engine) (t : Tables) (x row : Entry) : Type 0 where
  pub account : e.parse_uuid x.account_id ≡ some row.account_id
  pub known : some_row (λ a. a.id == row.account_id) t.accounts ≡ true
  pub amount : row.amount ≡ x.amount
  pub direction : row.direction ≡ x.direction
  pub currency : row.currency ≡ x.currency

-- One row for each entry, in order.
pub data AllPosted (e : Engine) (t : Tables) : List Entry → List Entry → Type 0 where
  nil : AllPosted e t [] []
  cons :
      {x row : Entry} {xs rows : List Entry}
      → Posted e t x row
      → AllPosted e t xs rows
      → AllPosted e t (x ∷ xs) (row ∷ rows)

abbrev pub add_entries : Tables → List Entry → Tables
add_entries t rows = record t { ledger_entries = t.ledger_entries ++ rows }

known_account :
    (row : Entry) (t : Tables)
    → violation (entry_constraints row t) ≡ none
    → some_row (λ a. a.id == row.account_id) t.accounts ≡ true
known_account row t h = ground arith

insert_entry-Posted :
    (e : Engine) (tid : String) (x : Entry) (w : World)
    → Succeeds (insert_entry e tid x) w λ _ w'.
      (row : Entry) × Posted e w.tables x row × (w'.tables ≡ add_entries w.tables (row ∷ []))
unfolding insert_entry
insert_entry-Posted e tid x w = statement-Succeeds e _ w (
    uuid-Succeeds e tid _ _ λ txn _. uuid-Succeeds e x.account_id _ _ λ account ea.
      write-Succeeds _ _ _ _ λ holds. pure-Succeeds _ _ (
        entry_row e w.tick x txn account,
        record {
          account = ea;
          known = known_account (entry_row e w.tick x txn account) w.tables holds;
          amount = refl;
          direction = refl;
          currency = refl;
        },
        refl,
      ))

AllPosted-at :
    {e : Engine} {t t' : Tables} {xs rows : List Entry}
    → t'.accounts ≡ t.accounts
    → AllPosted e t' xs rows
    → AllPosted e t xs rows
AllPosted-at same nil = nil
AllPosted-at {t} {t'} same (cons p ps) =
    cons
      (record {
        account = p.account;
        known = rw (← same) p.known;
        amount = p.amount;
        direction = p.direction;
        currency = p.currency;
      })
      (AllPosted-at same ps)

-- What the batch has done, from the tables before it.
abbrev pub Batch : Engine → Tables → List Entry → Tables → Type 0
Batch e t xs t' = (rows : List Entry) × AllPosted e t xs rows × (t' ≡ add_entries t rows)

Batch-cons :
    (e : Engine) (t t' t'' : Tables) (x : Entry) (xs : List Entry)
    → (row : Entry) × Posted e t x row × (t' ≡ add_entries t (row ∷ []))
    → Batch e t' xs t''
    → Batch e t (x ∷ xs) t''
Batch-cons e t t' t'' x xs (row, p, e1) (rows, ps, e2) = (
  row ∷ rows,
  cons p (AllPosted-at (ap (λ (s : Tables). s.accounts) e1) ps),
  e2
      ∙ ap (λ (s : Tables). add_entries s rows) e1
      ∙ ap (λ (l : List Entry). record t { ledger_entries = l })
          (append_assoc t.ledger_entries (row ∷ []) rows),
)

insert_entries-Batch :
    (e : Engine) (tid : String) (xs : List Entry) (w : World)
    → Succeeds (insert_entries e tid xs) w λ _ w'. Batch e w.tables xs w'.tables
unfolding insert_entries
insert_entries-Batch e tid [] w = pure-Succeeds _ _ ([], nil, unpadded)
  where
    unpadded : w.tables ≡ add_entries w.tables []
    unpadded = ap (λ (l : List Entry). record w.tables { ledger_entries = l }) (sym (append-nil _))
insert_entries-Batch e tid (x ∷ xs) w = bind-Succeeds _ _ w λ y w1 done.
    bind-Succeeds _ _ w1 λ ys w2 done'. pure-Succeeds _ _ (
      Batch-cons e w.tables w1.tables w2.tables x xs ((insert_entry-Posted e tid x w).at y w1 done)
        ((insert_entries-Batch e tid xs w1).at ys w2 done'))

-- The header row that was added, and the entries that go on to the batch.
Headed : Transaction → Tables → Transaction → Tables → Type 0
Headed txn t txn' t' =
    (header : Transaction) × (txn'.entries ≡ txn.entries)
    × (t' ≡ record t { ledger_transactions = t.ledger_transactions ++ header ∷ [] })

insert_transaction-Headed :
    (e : Engine) (txn : Transaction) (w : World)
    → Succeeds (insert_transaction e txn) w λ txn' w'. Headed txn w.tables txn' w'.tables
unfolding insert_transaction Headed
insert_transaction-Headed e txn w =
    statement-Succeeds e _ w (write-Succeeds _ _ _ _ λ holds. pure-Succeeds _ _ (_, refl, refl))

-- A success has passed the checks, and added one transaction and a row for each of its entries.
pub record Recorded (e : Engine) (t : Tables) (txn : Transaction) (t' : Tables) : Type 0 where
  pub accepted : IsAccepted txn.entries
  pub header : Transaction
  pub rows : List Entry
  pub posted : AllPosted e t txn.entries rows
  pub tables : t' ≡ record t {
    ledger_transactions = t.ledger_transactions ++ header ∷ [];
    ledger_entries = t.ledger_entries ++ rows;
  }

Recorded-of :
    (e : Engine) (txn txn' : Transaction) (t t' t'' : Tables)
    → IsAccepted txn.entries
    → Headed txn t txn' t'
    → Batch e t' txn'.entries t''
    → Recorded e t txn t''
unfolding Headed
Recorded-of e txn txn' t t' t'' checks (header, same, e1) (rows, ps, e2) = record {
  accepted = checks;
  header = header;
  rows = rows;
  posted =
      subst (λ xs. AllPosted e t xs rows) same
        (AllPosted-at (ap (λ (s : Tables). s.accounts) e1) ps);
  tables = e2 ∙ ap (λ (s : Tables). add_entries s rows) e1;
}

pub create_transaction-Succeeds :
    (e : Engine) (txn : Transaction) (w : World)
    → Succeeds (create_transaction e txn) w λ _ w'. Recorded e w.tables txn w'.tables
unfolding create_transaction
create_transaction-Succeeds e txn w = lift-Succeeds (validate txn.entries) _ w λ checks.
    bind-Succeeds (insert_transaction e txn) _ w λ txn' w1 done.
      bind-Succeeds (insert_entries e txn'.id txn'.entries) _ w1 λ ys w2 done'. pure-Succeeds _ _ (
        Recorded-of e txn txn' w.tables w1.tables w2.tables (validate-IsAccepted txn.entries checks)
          ((insert_transaction-Headed e txn w).at txn' w1 done)
          ((insert_entries-Batch e txn'.id txn'.entries w1).at ys w2 done'))

-- When `CreateTransaction` succeeds, its entries are at least two, in one currency, with positive
-- amounts and directions that are DEBIT or CREDIT; one transaction was added, and for each entry, in
-- order, one row with its amount, direction and currency, over the account that it names, which exists.
pub create_transaction-Recorded :
    (e : Engine) (txn done : Transaction) (w w' : World)
    → create_transaction e txn w ≡ (ok done, w')
    → Recorded e w.tables txn w'.tables
create_transaction-Recorded e txn done w w' run =
    (create_transaction-Succeeds e txn w).at done w' run
