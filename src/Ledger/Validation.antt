-- ===== src/Ledger/Validation.antt =====
-- What the checks at the top of `CreateTransaction` establish, in exact arithmetic.
use go_wallet_ledger.Base.{
  ℕ, String, ◌≡◌, refl, List, [], ◌∷◌, none, arith, All, length, ◌≤◌, ◌<◌, Option-cases, inl, inr,
  ◌⊎◌, ◌+◌, ◌^◌, ◌∙◌, sym,
}
use go_wallet_ledger.Base.Int.{
  ℤ, pos, ◌+ℤ◌, ◌+₆₄◌, ◌≤ℤ◌, int_laws, +ℤ-zero, zero-+ℤ, wrap, wrap-id_nonneg, max_int64,
}
use go_wallet_ledger.Models.Ledger.{Direction, Entry}
use go_wallet_ledger.Store.{Result, ok, err}
use go_wallet_ledger.Ledger.{entry_error, tally, validate, balanced, add_debit, add_credit}
use go_wallet_ledger.Ledger.Sums.{sum_debits, sum_credits, debit_amount, credit_amount}

-- A valid entry has the transaction's currency, a positive amount and one of the two directions.
pub record IsPostable (currency : String) (x : Entry) : Type 0 where
  pub same_currency : x.currency ≡ currency
  pub positive : pos 1 ≤ℤ x.amount
  pub directed : (x.direction ≡ Direction.debit) ⊎ (x.direction ≡ Direction.credit)

entry_error-none :
    (currency : String) (x : Entry) → entry_error currency x ≡ none → IsPostable currency x
unfolding entry_error
entry_error-none currency x h = record {
  same_currency = ground arith;
  positive = ground arith;
  directed = ground arith;
}

tally-IsPostable :
    (currency : String) (xs : List Entry) (d c : ℤ) {t : ℤ × ℤ}
    → tally currency xs d c ≡ ok t
    → All (IsPostable currency) xs
unfolding tally
tally-IsPostable currency [] d c h = tt
tally-IsPostable currency (x ∷ xs) d c {t} h = elim (Option-cases (entry_error currency x)) [
  | inl fine ↦ (
    entry_error-none currency x fine,
    tally-IsPostable currency xs (add_debit x.direction x.amount d)
        (add_credit x.direction x.amount c) (rw (fine, tally) at h),
  )
  | inr (error, e) ↦ ground arith
]

add_debit-exact :
    (dir : Direction) (a d : ℤ)
    → pos 0 ≤ℤ d
    → pos 0 ≤ℤ debit_amount dir a
    → d +ℤ debit_amount dir a ≤ℤ pos max_int64
    → add_debit dir a d ≡ d +ℤ debit_amount dir a
unfolding ◌+₆₄◌
add_debit-exact Direction.debit a d hd ha fit = wrap-id_nonneg (d +ℤ a) (omega int_laws) fit
add_debit-exact Direction.credit a d hd ha fit = omega int_laws
add_debit-exact (Direction.other s) a d hd ha fit = omega int_laws

add_credit-exact :
    (dir : Direction) (a c : ℤ)
    → pos 0 ≤ℤ c
    → pos 0 ≤ℤ credit_amount dir a
    → c +ℤ credit_amount dir a ≤ℤ pos max_int64
    → add_credit dir a c ≡ c +ℤ credit_amount dir a
unfolding ◌+₆₄◌
add_credit-exact Direction.credit a c hc ha fit = wrap-id_nonneg (c +ℤ a) (omega int_laws) fit
add_credit-exact Direction.debit a c hc ha fit = omega int_laws
add_credit-exact (Direction.other s) a c hc ha fit = omega int_laws

-- The parts of a valid entry, and so the sums of valid entries, are not negative.
parts_nonneg :
    (dir : Direction) (a : ℤ)
    → pos 1 ≤ℤ a
    → (pos 0 ≤ℤ debit_amount dir a) × (pos 0 ≤ℤ credit_amount dir a)
parts_nonneg Direction.debit a h = omega arith
parts_nonneg Direction.credit a h = omega arith
parts_nonneg (Direction.other s) a h = omega arith

sums_nonneg :
    (currency : String) (xs : List Entry)
    → All (IsPostable currency) xs
    → (pos 0 ≤ℤ sum_debits xs) × (pos 0 ≤ℤ sum_credits xs)
sums_nonneg currency [] h = omega arith
sums_nonneg currency (x ∷ xs) h =
    let rest = sums_nonneg currency xs h.1 in
    let here = parts_nonneg x.direction x.amount (h.0).positive in (omega int_laws, omega int_laws)

-- The loop's totals are exact where no sum leaves the range of an `int64`.
tally-exact :
    (currency : String) (xs : List Entry) (d c : ℤ) {t : ℤ × ℤ}
    → tally currency xs d c ≡ ok t
    → pos 0 ≤ℤ d
    → pos 0 ≤ℤ c
    → d +ℤ sum_debits xs ≤ℤ pos max_int64
    → c +ℤ sum_credits xs ≤ℤ pos max_int64
    → (t.0 ≡ d +ℤ sum_debits xs) × (t.1 ≡ c +ℤ sum_credits xs)
unfolding tally
tally-exact currency [] d c {t} h pd pc fd fc =
    rw (+ℤ-zero d, +ℤ-zero c) (ground arith, ground arith)
tally-exact currency (x ∷ xs) d c {t} h pd pc fd fc = elim (Option-cases (entry_error currency x)) [
  | inl fine ↦
      let valid = tally-IsPostable currency (x ∷ xs) d c h in
      let rest = sums_nonneg currency xs valid.1 in
      let here = parts_nonneg x.direction x.amount (valid.0).positive in
      let ed = add_debit-exact x.direction x.amount d pd here.0 (omega int_laws) in
      let ec = add_credit-exact x.direction x.amount c pc here.1 (omega int_laws) in
      let ih =
        tally-exact currency xs (add_debit x.direction x.amount d)
          (add_credit x.direction x.amount c) {t = t} (rw (fine, tally) at h)
          (rw ed (omega int_laws)) (rw ec (omega int_laws)) (rw ed (omega int_laws))
          (rw ec (omega int_laws)) in
      (ih.0 ∙ rw ed (omega int_laws), ih.1 ∙ rw ec (omega int_laws))
  | inr (error, e) ↦ ground arith
]

-- An accepted list has two entries or more, each valid in the currency of the first, and balances:
-- the debits are the credits, exactly, unless one of the sums passes the greatest `int64`.
pub record IsAccepted (xs : List Entry) : Type 0 where
  pub several : 2 ≤ length xs
  pub currency : String
  pub postable : All (IsPostable currency) xs

balanced-eq-ok : (r : Result (ℤ × ℤ)) → balanced r ≡ ok tt → (t : ℤ × ℤ) × (r ≡ ok t) × (t.0 ≡ t.1)
balanced-eq-ok (ok t) h = (t, refl, ground arith)
balanced-eq-ok (err error) h = ground arith

validate-parts :
    (x : Entry) (xs : List Entry)
    → validate (x ∷ xs) ≡ ok tt
    → (2 ≤ length (x ∷ xs)) × (balanced (tally x.currency (x ∷ xs) (pos 0) (pos 0)) ≡ ok tt)
unfolding validate
validate-parts x xs h = ground arith

pub validate-IsAccepted : (xs : List Entry) → validate xs ≡ ok tt → IsAccepted xs
validate-IsAccepted [] h = unfold validate in ground arith
validate-IsAccepted (x ∷ xs) h =
    let parts = validate-parts x xs h in
    let (t, e, same) = balanced-eq-ok (tally x.currency (x ∷ xs) (pos 0) (pos 0)) parts.1 in
    record {
      several = parts.0;
      currency = x.currency;
      postable = tally-IsPostable x.currency (x ∷ xs) (pos 0) (pos 0) e;
    }

-- Entries that pass the check are at least two, and their debits are their credits, when neither sum
-- exceeds the greatest `int64`.
pub validate-balanced :
    (xs : List Entry)
    → sum_debits xs ≤ℤ pos max_int64
    → sum_credits xs ≤ℤ pos max_int64
    → validate xs ≡ ok tt
    → (2 ≤ length xs) × (sum_debits xs ≡ sum_credits xs)
validate-balanced [] fd fc h = unfold validate in ground arith
validate-balanced (x ∷ xs) fd fc h =
    let parts = validate-parts x xs h in
    let (t, e, same) = balanced-eq-ok (tally x.currency (x ∷ xs) (pos 0) (pos 0)) parts.1 in
    let exact =
      tally-exact x.currency (x ∷ xs) (pos 0) (pos 0) e (omega arith) (omega arith)
        (rw (zero-+ℤ (sum_debits (x ∷ xs))) fd) (rw (zero-+ℤ (sum_credits (x ∷ xs))) fc) in
    (
      parts.0,
      sym (exact.0 ∙ zero-+ℤ (sum_debits (x ∷ xs)))
          ∙ same
          ∙ (exact.1 ∙ zero-+ℤ (sum_credits (x ∷ xs))),
    )

three_wrap :
    (a b c : ℕ)
    → (a ≤ max_int64) × (b ≤ max_int64) × (c ≤ max_int64)
    → a + b + c ≡ 2 ^ 64
    → pos 0 +₆₄ pos a +₆₄ pos b +₆₄ pos c ≡ pos 0
unfolding ◌+₆₄◌ ◌+ℤ◌ wrap
three_wrap a b c h total = ground arith

-- Three debits whose sum is 2^64 pass the check with no credit at all: the sum wraps to 0.
pub validate-wraps :
    (x y z : Entry) (a b c : ℕ)
    → (x.currency ≡ z.currency) × (y.currency ≡ z.currency)
    → (x.direction ≡ Direction.debit)
      × (y.direction ≡ Direction.debit)
      × (z.direction ≡ Direction.debit)
    → (x.amount ≡ pos a) × (y.amount ≡ pos b) × (z.amount ≡ pos c)
    → (0 < a) × (0 < b) × (0 < c)
    → (a ≤ max_int64) × (b ≤ max_int64) × (c ≤ max_int64)
    → a + b + c ≡ 2 ^ 64
    → let xs = x ∷ y ∷ z ∷ [] in
      (validate xs ≡ ok tt) × (sum_debits xs ≡ pos (2 ^ 64)) × (sum_credits xs ≡ pos 0)
unfolding validate tally entry_error
validate-wraps x y z a b c hc hd ha hp hm total =
    (ground (arith, three_wrap a b c hm total), grind int_laws, grind int_laws)
