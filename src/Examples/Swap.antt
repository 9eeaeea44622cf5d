-- ===== src/Examples/Swap.antt =====
-- A transfer whose source is written in upper case, against a database that reads it.
use go_wallet_ledger.Base.{
  ℕ, String, ◌≡◌, ◌≢◌, refl, ap, some, some_eq, true, false, ◌==◌, String_discrete, Bool-cases, inl,
  inr, if◌then◌else◌, All, subst,
}
use go_wallet_ledger.Base.Int.{pos, ◌+ℤ◌, ◌-ℤ◌, ◌+₆₄◌, wrap}
use go_wallet_ledger.Models.Wallets.{WalletStatus}
use go_wallet_ledger.Models.Payments.{platform_account}
use go_wallet_ledger.Models.Transfers.{Transfer, TransferStatus, CreateTransferRequest}
use go_wallet_ledger.Store.{Engine, calls, ok}
use go_wallet_ledger.Ledger.{tally, entry_error}
use go_wallet_ledger.Books.{IsFaithful}
use go_wallet_ledger.Transfers.{set_balance, execute_transfer}
use go_wallet_ledger.Transfers.Swapped.{execute_transfer-swapped}
use go_wallet_ledger.Examples.{calm, ids, names, world}
use go_wallet_ledger.Examples.Faith.{pick_other, names_not_nil, named_by, none_named}

-- `calm`, but the text "W2" is read as "w2".
abbrev pub loose : Engine
loose = record calm { parse_uuid = λ s. if s == "W2" then some "w2" else some s }

abbrev pub upper : String
upper = "W2"

abbrev lower : String
lower = "w2"

loose_reads : (s c : String) → loose.parse_uuid s ≡ some c → loose.parse_uuid c ≡ some c
unfolding String_discrete
loose_reads s c h = elim (Bool-cases (s == upper)) [
  | inl hit ↦ subst (λ (x : String). loose.parse_uuid x ≡ some x) (some_eq (rw hit at h)) refl
  | inr miss ↦ let same : s ≡ c = some_eq (rw miss at h) in rw (← same, miss) refl
]

unnamed : named_by upper names ≡ false
unfolding String_discrete
unnamed = refl

names_not_upper : All (λ (x : String). (x == upper) ≡ false) names
names_not_upper = none_named upper names unnamed

fresh_reads : (n : ℕ) → loose.parse_uuid (ids n) ≡ some (ids n)
unfolding String_discrete
fresh_reads n = rw (pick_other upper names refl names_not_upper n) refl

loose-IsFaithful : IsFaithful loose
unfolding String_discrete
loose-IsFaithful = record {
  reads_canonical = loose_reads;
  nil_canonical = refl;
  fresh_canonical = fresh_reads;
  fresh_not_nil = pick_other platform_account names refl names_not_nil;
}

abbrev pub shouted : CreateTransferRequest
shouted = record {
  source_wallet_id = "W2";
  destination_wallet_id = "w1";
  amount = pos 40;
  currency = "USD";
}

abbrev swapped_transfer : Transfer
swapped_transfer = record {
  id = ids 5;
  source_wallet_id = "W2";
  destination_wallet_id = "w1";
  amount = pos 40;
  currency = "USD";
  status = TransferStatus.completed;
  idempotency_key = "k1";
  created_at = 5;
}

swapped_run :
    (execute_transfer loose shouted "k1" (world WalletStatus.active)).0 ≡ ok swapped_transfer
unfolding execute_transfer calls String_discrete ◌+ℤ◌ ◌-ℤ◌ ◌+₆₄◌ wrap tally entry_error
swapped_run = refl

texts_differ : lower ≢ upper
unfolding String_discrete
texts_differ h = let p : true ≡ false = ap (λ (s : String). s == lower) h in cc p

execute_transfer-swapped_example :
    (execute_transfer loose shouted "k1" (world WalletStatus.active)).1.tables.wallets
    ≡ set_balance lower
        (λ b. b +ℤ pos 40)
        (set_balance "w1" (λ b. b -ℤ pos 40) (world WalletStatus.active).tables.wallets)
unfolding String_discrete
execute_transfer-swapped_example =
    execute_transfer-swapped loose shouted "k1" lower "w1" (world WalletStatus.active)
      swapped_transfer loose-IsFaithful refl texts_differ refl refl swapped_run
