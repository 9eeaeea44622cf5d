-- ===== src/Ledger/Sums.antt =====
-- Exact sums over ledger entries: what `SUM(CASE WHEN direction = … THEN amount ELSE 0 END)` adds.
use go_wallet_ledger.Base.{
  String, ◌≡◌, refl, List, [], ◌∷◌, ◌++◌, ◌==◌, keep, arith, if◌then◌else◌, All, false,
}
use go_wallet_ledger.Base.Int.{ℤ, pos, ◌+ℤ◌, ◌-ℤ◌, int_laws}
use go_wallet_ledger.Models.Ledger.{Direction, Entry}

abbrev pub debit_amount : Direction → ℤ → ℤ
debit_amount Direction.debit amount = amount
debit_amount Direction.credit amount = pos 0
debit_amount (Direction.other s) amount = pos 0

abbrev pub credit_amount : Direction → ℤ → ℤ
credit_amount Direction.debit amount = pos 0
credit_amount Direction.credit amount = amount
credit_amount (Direction.other s) amount = pos 0

abbrev pub sum_debits : List Entry → ℤ
sum_debits [] = pos 0
sum_debits (x ∷ xs) = debit_amount x.direction x.amount +ℤ sum_debits xs

abbrev pub sum_credits : List Entry → ℤ
sum_credits [] = pos 0
sum_credits (x ∷ xs) = credit_amount x.direction x.amount +ℤ sum_credits xs

-- The rows that `GROUP BY account_id` puts together for one account.
abbrev pub of_account : String → List Entry → List Entry
of_account account = keep λ x. x.account_id == account

-- Credits less debits of one account.
unfoldable pub net : String → List Entry → ℤ
net account xs = sum_credits (of_account account xs) -ℤ sum_debits (of_account account xs)

pub sum_debits-append :
    (xs ys : List Entry) → sum_debits (xs ++ ys) ≡ sum_debits xs +ℤ sum_debits ys
sum_debits-append [] ys = omega int_laws
sum_debits-append (x ∷ xs) ys = rw (sum_debits-append xs ys) (omega int_laws)

pub sum_credits-append :
    (xs ys : List Entry) → sum_credits (xs ++ ys) ≡ sum_credits xs +ℤ sum_credits ys
sum_credits-append [] ys = omega int_laws
sum_credits-append (x ∷ xs) ys = rw (sum_credits-append xs ys) (omega int_laws)

pub of_account-append :
    (account : String) (xs ys : List Entry)
    → of_account account (xs ++ ys) ≡ of_account account xs ++ of_account account ys
of_account-append account [] ys = refl
of_account-append account (x ∷ xs) ys = ground (arith, of_account-append account xs ys)

pub net-append :
    (account : String) (xs ys : List Entry)
    → net account (xs ++ ys) ≡ net account xs +ℤ net account ys
unfolding net
net-append account xs ys =
    rw
      (
        of_account-append,
        sum_debits-append (of_account account xs) (of_account account ys),
        sum_credits-append (of_account account xs) (of_account account ys),
      )
      (omega int_laws)

pub net-nil : (account : String) → net account [] ≡ pos 0
unfolding net
net-nil account = omega int_laws

pub net-cons_debit :
    (account : String) (x : Entry) (xs : List Entry)
    → x.direction ≡ Direction.debit
    → net account (x ∷ xs)
      ≡ (if x.account_id == account then net account xs -ℤ x.amount else net account xs)
unfolding net
net-cons_debit account x xs h = grind int_laws

pub net-cons_credit :
    (account : String) (x : Entry) (xs : List Entry)
    → x.direction ≡ Direction.credit
    → net account (x ∷ xs)
      ≡ (if x.account_id == account then net account xs +ℤ x.amount else net account xs)
unfolding net
net-cons_credit account x xs h = grind int_laws

-- An account that no entry names has the net balance 0.
pub net-absent :
    (account : String) (xs : List Entry)
    → All (λ (x : Entry). (x.account_id == account) ≡ false) xs
    → net account xs ≡ pos 0
unfolding net
net-absent account [] h = omega int_laws
net-absent account (x ∷ xs) h = rw h.0 (net-absent account xs h.1)
