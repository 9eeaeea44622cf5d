-- ===== src/Examples/Moves.antt =====
-- The theorems on transfers, wallets and the ledger at concrete inputs.
use go_wallet_ledger.Base.{
  ℕ, ◌≡◌, ◌≢◌, refl, List, [], ◌∷◌, some, find_row, length, ◌≤◌, ◌-◌, ◌^◌, String_discrete, inr,
  arith,
}
use go_wallet_ledger.Base.Int.{pos, ◌+ℤ◌, ◌-ℤ◌, ◌≤ℤ◌, ◌+₆₄◌, wrap, max_int64}
use go_wallet_ledger.Models.Auth.{Role}
use go_wallet_ledger.Models.Wallets.{WalletStatus, has_id}
use go_wallet_ledger.Models.Transfers.{Transfer, TransferStatus}
use go_wallet_ledger.Store.{World, calls, ok}
use go_wallet_ledger.Store.Laws.{Refused}
use go_wallet_ledger.Ledger.Posting.{Recorded, create_transaction-Recorded}
use go_wallet_ledger.Ledger.{create_transaction}
use go_wallet_ledger.Ledger.Sums.{sum_debits, sum_credits}
use go_wallet_ledger.Ledger.Validation.{validate-balanced, validate-wraps}
use go_wallet_ledger.Ledger.{validate}
use go_wallet_ledger.Models.Ledger.{
  Direction, Entry, Transaction, TransactionType, TransactionStatus,
}
use go_wallet_ledger.Transfers.Effects.{Contract, execute_transfer-Contract}
use go_wallet_ledger.Transfers.Refusals.{execute_transfer-inactive, execute_transfer-overdraft}
use go_wallet_ledger.Wallets.Access.{Named, Reads, get_wallet-Reads}
use go_wallet_ledger.Ledger.{tally, entry_error}
use go_wallet_ledger.Transfers.{execute_transfer}
use go_wallet_ledger.Transfers.Canonical.{Moved, execute_transfer-Moved}
use go_wallet_ledger.Examples.{calm, world, request, ids, wallet, entry}

abbrev moved_transfer : Transfer
moved_transfer = record {
  id = ids 5;
  source_wallet_id = "w1";
  destination_wallet_id = "w2";
  amount = pos 40;
  currency = "USD";
  status = TransferStatus.completed;
  idempotency_key = "k1";
  created_at = 5;
}

run : (execute_transfer calm (request 40) "k1" (world WalletStatus.active)).0 ≡ ok moved_transfer
unfolding execute_transfer calls String_discrete ◌+ℤ◌ ◌-ℤ◌ ◌+₆₄◌ wrap tally entry_error
run = refl

execute_transfer-Moved_example :
    Moved
      (request 40)
      (world WalletStatus.active).tables
      (execute_transfer calm (request 40) "k1" (world WalletStatus.active)).1.tables
execute_transfer-Moved_example =
    execute_transfer-Moved calm (request 40) "k1" (world WalletStatus.active) moved_transfer refl
      refl run

execute_transfer-Contract_example :
    Contract calm
      (request 40)
      "k1"
      (world WalletStatus.active).tables
      (execute_transfer calm (request 40) "k1" (world WalletStatus.active))
execute_transfer-Contract_example =
    execute_transfer-Contract calm (request 40) "k1" (world WalletStatus.active)

second_found :
    find_row (has_id "w2") (world WalletStatus.frozen).tables.wallets
    ≡ some (wallet "w2" "bob" "a2" 0 WalletStatus.frozen)
unfolding String_discrete
second_found = refl

first_found :
    find_row (has_id "w1") (world WalletStatus.active).tables.wallets
    ≡ some (wallet "w1" "alice" "a1" 100 WalletStatus.active)
unfolding String_discrete
first_found = refl

short : ¬ (pos 101 ≤ℤ pos 100)
short h = omega arith

frozen_differs : WalletStatus.frozen ≢ WalletStatus.active
frozen_differs h = cc h

execute_transfer-inactive_example :
    Refused
      (world WalletStatus.frozen)
      (execute_transfer calm (request 40) "k1" (world WalletStatus.frozen))
execute_transfer-inactive_example =
    execute_transfer-inactive calm (request 40) "k1" (world WalletStatus.frozen) refl refl "w2"
      (wallet "w2" "bob" "a2" 0 WalletStatus.frozen) (inr refl) second_found frozen_differs

execute_transfer-overdraft_example :
    Refused
      (world WalletStatus.active)
      (execute_transfer calm (request 101) "k1" (world WalletStatus.active))
execute_transfer-overdraft_example =
    execute_transfer-overdraft calm (request 101) "k1" (world WalletStatus.active) refl refl
      (wallet "w1" "alice" "a1" 100 WalletStatus.active) first_found short

abbrev pair_of_entries : List Entry
pair_of_entries = entry "x" "a1" 40 Direction.debit ∷ entry "y" "a2" 40 Direction.credit ∷ []

pair_accepted : validate pair_of_entries ≡ ok tt
unfolding validate tally entry_error String_discrete ◌+₆₄◌ ◌+ℤ◌ wrap
pair_accepted = refl

pair_fits :
    (sum_debits pair_of_entries ≤ℤ pos max_int64) × (sum_credits pair_of_entries ≤ℤ pos max_int64)
unfolding ◌+ℤ◌
pair_fits = (omega arith, omega arith)

validate-balanced_example :
    (2 ≤ length pair_of_entries) × (sum_debits pair_of_entries ≡ sum_credits pair_of_entries)
validate-balanced_example = validate-balanced pair_of_entries pair_fits.0 pair_fits.1 pair_accepted

abbrev wrapping : List Entry
wrapping =
    entry "x" "a1" (2 ^ 63 - 1) Direction.debit
    ∷ entry "y" "a1" (2 ^ 63 - 1) Direction.debit
    ∷ entry "z" "a1" 2 Direction.debit
    ∷ []

validate-wraps_example :
    (validate wrapping ≡ ok tt)
    × (sum_debits wrapping ≡ pos (2 ^ 64))
    × (sum_credits wrapping ≡ pos 0)
validate-wraps_example =
    validate-wraps (entry "x" "a1" (2 ^ 63 - 1) Direction.debit)
      (entry "y" "a1" (2 ^ 63 - 1) Direction.debit) (entry "z" "a1" 2 Direction.debit) (2 ^ 63 - 1)
      (2 ^ 63 - 1) 2 (refl, refl) (refl, refl, refl) (refl, refl, refl)
      (omega arith, omega arith, omega arith) (omega arith, omega arith, omega arith) refl

second-Named :
    Named calm "w2"
      (world WalletStatus.active).tables
      (wallet "w2" "bob" "a2" 0 WalletStatus.active)
unfolding String_discrete
second-Named = record { key = "w2"; reads = refl; found = refl }

-- Alice asks for bob's wallet.
get_wallet-Reads_example :
    Reads calm "w2" "alice" Role.user
      (world WalletStatus.active)
      (wallet "w2" "bob" "a2" 0 WalletStatus.active)
get_wallet-Reads_example =
    get_wallet-Reads calm "w2" "alice" Role.user (world WalletStatus.active)
      (wallet "w2" "bob" "a2" 0 WalletStatus.active) refl second-Named

abbrev posting : Transaction
posting = record {
  id = "";
  reference_id = "r";
  reference_type = TransactionType.adjustment;
  status = TransactionStatus.completed;
  created_at = 0;
  entries = pair_of_entries;
}

abbrev posted_entry : Entry → ℕ → Entry
posted_entry x n = record x { id = ids n; transaction_id = ids 0; created_at = n }

abbrev posted : Transaction
posted = record posting {
  id = ids 0;
  entries =
      posted_entry (entry "x" "a1" 40 Direction.debit) 1
      ∷ posted_entry (entry "y" "a2" 40 Direction.credit) 2
      ∷ [];
}

abbrev posted_world : World
posted_world = (create_transaction calm posting (world WalletStatus.active)).1

posting_run :
    create_transaction calm posting (world WalletStatus.active) ≡ (ok posted, posted_world)
unfolding create_transaction validate tally entry_error calls String_discrete ◌+₆₄◌ ◌+ℤ◌ wrap
posting_run = refl

create_transaction-Recorded_example :
    Recorded calm (world WalletStatus.active).tables posting posted_world.tables
create_transaction-Recorded_example =
    create_transaction-Recorded calm posting posted (world WalletStatus.active) posted_world
      posting_run
