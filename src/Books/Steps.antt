-- ===== src/Books/Steps.antt =====
-- The changes of the tables that a transfer and a payment make.
use go_wallet_ledger.Base.{
  String, ◌≡◌, List, [], ◌∷◌, ◌++◌, some, true, not, ◌||◌, All, All-append, all_rows, find_row,
  append_assoc,
}
use go_wallet_ledger.Base.Int.{ℤ, pos, ◌+ℤ◌, ◌-ℤ◌, leb_ℤ, int_laws}
use go_wallet_ledger.Models.Ledger.{Direction, Entry}
use go_wallet_ledger.Models.Wallets.{Wallet, has_id}
use go_wallet_ledger.Models.Payments.{platform_account}
use go_wallet_ledger.Store.{Engine, Tables}
use go_wallet_ledger.Transfers.{set_balance}
use go_wallet_ledger.Ledger.Sums.{sum_debits, sum_credits, sum_debits-append, sum_credits-append}
use go_wallet_ledger.Books.{IsSound, Known}
use go_wallet_ledger.Books.Rows.{
  find_row-Names, set_balance-Names, set_balance-Distinct, set_balance-Named,
}
use go_wallet_ledger.Books.Moves.{debit-Backed, credit-Backed, outside-Backed, set_balance-Funded}

-- A debit and a credit of one amount.
pub record Pair (debit credit : Entry) : Type 0 where
  pub debits : debit.direction ≡ Direction.debit
  pub credits : credit.direction ≡ Direction.credit
  pub amount : debit.amount ≡ credit.amount

Pair-balanced :
    (entries : List Entry) (debit credit : Entry)
    → Pair debit credit
    → sum_debits entries ≡ sum_credits entries
    → sum_debits (entries ++ debit ∷ credit ∷ []) ≡ sum_credits (entries ++ debit ∷ credit ∷ [])
Pair-balanced entries debit credit p h =
    rw
      (
        sum_debits-append entries (debit ∷ credit ∷ []),
        sum_credits-append entries (debit ∷ credit ∷ []),
        p.debits,
        p.credits,
        p.amount,
        h,
      )
      (omega int_laws)

-- The constraint that the UPDATE of the wallets named `key` met.
abbrev pub NonnegAfter : String → (ℤ → ℤ) → List Wallet → Type 0
NonnegAfter key f ws =
    all_rows (λ (w : Wallet). not (has_id key w) || leb_ℤ (pos 0) (f w.available_balance)) ws ≡ true

module _ (e : Engine) (t t' : Tables) (sound : IsSound e t) where
  -- What touches neither wallets nor accounts nor the ledger keeps the tables sound.
  pub same-IsSound :
      (t'.wallets ≡ t.wallets) × (t'.accounts ≡ t.accounts) × (t'.ledger_entries ≡ t.ledger_entries)
      → IsSound e t'
  same-IsSound (w, a, l) = record {
    distinct = rw w sound.distinct;
    backed = rw (w, l) sound.backed;
    named = rw w sound.named;
    funded = rw (w, a) sound.funded;
    canonical = rw a sound.canonical;
    posted = rw (l, a) sound.posted;
    balanced = rw l sound.balanced;
  }

  module _ (debit credit : Entry) (pair : Pair debit credit)
      (ledger : t'.ledger_entries ≡ t.ledger_entries ++ debit ∷ credit ∷ [])
      (accounts : t'.accounts ≡ t.accounts)
      (known : Known t.accounts debit.account_id × Known t.accounts credit.account_id) where
    grown_posted : All (λ (x : Entry). Known t'.accounts x.account_id) t'.ledger_entries
    grown_posted =
        rw (ledger, accounts)
          (All-append (λ (x : Entry). Known t.accounts x.account_id) t.ledger_entries
            (debit ∷ credit ∷ []) sound.posted (known.0, (known.1, tt)))

    grown_balanced : sum_debits t'.ledger_entries ≡ sum_credits t'.ledger_entries
    grown_balanced = rw ledger (Pair-balanced t.ledger_entries debit credit pair sound.balanced)

    -- A transfer: the source pays, the destination is paid.
    pub transfer-IsSound :
        (source dest : String) (s d : Wallet)
        → find_row (has_id source) t.wallets ≡ some s
        → find_row (has_id dest) t.wallets ≡ some d
        → (debit.account_id ≡ s.account_id) × (credit.account_id ≡ d.account_id)
        → let paid = set_balance source (λ b. b -ℤ debit.amount) t.wallets in
          (t'.wallets ≡ set_balance dest (λ b. b +ℤ credit.amount) paid)
            × NonnegAfter source (λ b. b -ℤ debit.amount) t.wallets
            × NonnegAfter dest (λ b. b +ℤ credit.amount) paid
          → IsSound e t'
    transfer-IsSound source dest s d fs fd (es, ed) (wallets, n1, n2) =
        let entries = t.ledger_entries in
        let paid = set_balance source (λ b. b -ℤ debit.amount) t.wallets in
        let names_s = rw (← es) at (find_row-Names source t.wallets sound.distinct fs) in
        let names_d = rw (← ed) at (find_row-Names dest t.wallets sound.distinct fd) in
        let backed1 =
          debit-Backed entries debit source t.wallets pair.debits names_s sound.backed in
        let backed2 =
          credit-Backed (entries ++ debit ∷ []) credit dest paid pair.credits
            (set_balance-Names source dest credit.account_id _ t.wallets names_d) backed1 in
        let funded1 = set_balance-Funded t.accounts source _ t.wallets n1 sound.funded in
        record {
          distinct = rw wallets (
              set_balance-Distinct dest _ paid
                (set_balance-Distinct source _ t.wallets sound.distinct));
          backed = rw (wallets, ledger, ← append_assoc entries (debit ∷ []) (credit ∷ [])) backed2;
          named = rw wallets (
              set_balance-Named e dest _ paid (set_balance-Named e source _ t.wallets sound.named));
          funded = rw (wallets, accounts) (set_balance-Funded t.accounts dest _ paid n2 funded1);
          canonical = rw accounts sound.canonical;
          posted = grown_posted;
          balanced = grown_balanced;
        }

    -- A payment: the outside pays, the wallet is paid.
    pub payment-IsSound :
        (dest : String) (d : Wallet)
        → find_row (has_id dest) t.wallets ≡ some d
        → (debit.account_id ≡ platform_account) × (credit.account_id ≡ d.account_id)
        → (t'.wallets ≡ set_balance dest (λ b. b +ℤ credit.amount) t.wallets)
          × NonnegAfter dest (λ b. b +ℤ credit.amount) t.wallets
        → IsSound e t'
    payment-IsSound dest d fd (ep, ed) (wallets, n) =
        let entries = t.ledger_entries in
        let names_d = rw (← ed) at (find_row-Names dest t.wallets sound.distinct fd) in
        let backed1 =
          outside-Backed entries debit t.accounts t.wallets pair.debits ep sound.funded
            sound.backed in
        let backed2 =
          credit-Backed (entries ++ debit ∷ []) credit dest t.wallets pair.credits names_d
            backed1 in
        record {
          distinct = rw wallets (set_balance-Distinct dest _ t.wallets sound.distinct);
          backed = rw (wallets, ledger, ← append_assoc entries (debit ∷ []) (credit ∷ [])) backed2;
          named = rw wallets (set_balance-Named e dest _ t.wallets sound.named);
          funded =
              rw (wallets, accounts)
                (set_balance-Funded t.accounts dest _ t.wallets n sound.funded);
          canonical = rw accounts sound.canonical;
          posted = grown_posted;
          balanced = grown_balanced;
        }
