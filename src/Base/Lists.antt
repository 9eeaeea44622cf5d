-- ===== src/Base/Lists.antt =====
-- Lists measured by native numbers, and predicates on all elements.
use Prim.Native.Nat.{ℕ, zero, suc, ◌+◌}
use mathlib.Core.Path.{◌≡◌}
use mathlib.Core.Logic.{inl, inr}
use mathlib.Core.Bool.{Bool, true, false}
use mathlib.Core.Option.{Option, none, some}
use mathlib.Core.List.{List, [], ◌∷◌, ◌++◌, map}
use native.Mathlib.Omega.{arith}
use go_wallet_ledger.Base.Tests.{if◌then◌else◌, leb, Bool-cases}

module _ {ℓ} {A : Type ℓ} where
  abbrev pub length : List A → ℕ
  length [] = 0
  length (x ∷ xs) = suc (length xs)

  abbrev pub take : ℕ → List A → List A
  take zero xs = []
  take (suc n) [] = []
  take (suc n) (x ∷ xs) = x ∷ take n xs

  -- The rows that a test keeps, as `WHERE` does.
  abbrev pub keep : (A → Bool) → List A → List A
  keep p [] = []
  keep p (x ∷ xs) = if p x then x ∷ keep p xs else keep p xs

  -- Some row passes the test.
  abbrev pub some_row : (A → Bool) → List A → Bool
  some_row p [] = false
  some_row p (x ∷ xs) = if p x then true else some_row p xs

  -- Every row passes the test.
  abbrev pub all_rows : (A → Bool) → List A → Bool
  all_rows p [] = true
  all_rows p (x ∷ xs) = if p x then all_rows p xs else false

  -- `UPDATE … SET … WHERE`
  abbrev pub update_rows : (A → Bool) → (A → A) → List A → List A
  update_rows p f [] = []
  update_rows p f (x ∷ xs) = (if p x then f x else x) ∷ update_rows p f xs

  -- The first row that passes the test: a query by a unique column.
  abbrev pub find_row : (A → Bool) → List A → Option A
  find_row p [] = none
  find_row p (x ∷ xs) = if p x then some x else find_row p xs

  -- `ORDER BY … ASC`: rows with one key keep their order.
  abbrev pub place_by : (A → ℕ) → A → List A → List A
  place_by key x [] = x ∷ []
  place_by key x (y ∷ ys) = if leb (key x) (key y) then x ∷ y ∷ ys else y ∷ place_by key x ys

  abbrev pub sort_by : (A → ℕ) → List A → List A
  sort_by key [] = []
  sort_by key (x ∷ xs) = place_by key x (sort_by key xs)

  -- `ORDER BY … DESC`
  abbrev pub place_desc : (A → ℕ) → A → List A → List A
  place_desc key x [] = x ∷ []
  place_desc key x (y ∷ ys) = if leb (key y) (key x) then x ∷ y ∷ ys else y ∷ place_desc key x ys

  abbrev pub sort_desc : (A → ℕ) → List A → List A
  sort_desc key [] = []
  sort_desc key (x ∷ xs) = place_desc key x (sort_desc key xs)

  abbrev pub All {κ} : (A → Type κ) → List A → Type κ
  All P [] = Unit
  All P (x ∷ xs) = P x × All P xs

  pub All-map {κ μ} :
      (P : A → Type κ) (Q : A → Type μ)
      → ((a : A) → P a → Q a)
      → (xs : List A) → All P xs
      → All Q xs
  All-map P Q f [] h = tt
  All-map P Q f (x ∷ xs) h = (f x h.0, All-map P Q f xs h.1)

  pub length-append : (xs ys : List A) → length (xs ++ ys) ≡ length xs + length ys
  length-append [] ys = omega arith
  length-append (x ∷ xs) ys = omega (arith, length-append xs ys)

  -- What an UPDATE does to a property of all rows.
  pub All-update_rows {κ μ} :
      (P : A → Type κ) (Q : A → Type μ) (p : A → Bool) (f : A → A)
      → ((x : A) → P x → Q (if p x then f x else x))
      → (xs : List A) → All P xs
      → All Q (update_rows p f xs)
  All-update_rows P Q p f step [] h = tt
  All-update_rows P Q p f step (x ∷ xs) h = (step x h.0, All-update_rows P Q p f step xs h.1)

  pub All-zip {κ μ} :
      (P : A → Type κ) (Q : A → Type μ) (xs : List A)
      → All P xs
      → All Q xs
      → All (λ x. P x × Q x) xs
  All-zip P Q [] h k = tt
  All-zip P Q (x ∷ xs) h k = ((h.0, k.0), All-zip P Q xs h.1 k.1)

  pub All-append {κ} : (P : A → Type κ) (xs ys : List A) → All P xs → All P ys → All P (xs ++ ys)
  All-append P [] ys h k = k
  All-append P (x ∷ xs) ys h k = (h.0, All-append P xs ys h.1 k)

  -- A row that a query finds has what all rows have, and passes the query's test.
  pub All-find_row {κ} :
      (P : A → Type κ) (p : A → Bool) (xs : List A) {r : A}
      → All P xs
      → find_row p xs ≡ some r
      → P r
  All-find_row P p [] h e = cc
  All-find_row P p (x ∷ xs) {r} h e = ground (arith, All-find_row P p xs {r = r} h.1)

  -- It is found before the rows that are added.
  pub find_row-append :
      (p : A → Bool) (xs ys : List A) (r : A)
      → find_row p xs ≡ some r
      → find_row p (xs ++ ys) ≡ some r
  find_row-append p [] ys r h = ground arith
  find_row-append p (x ∷ xs) ys r h = ground (arith, find_row-append p xs ys r)

  pub find_row-holds : (p : A → Bool) (xs : List A) {r : A} → find_row p xs ≡ some r → p r ≡ true
  find_row-holds p [] e = cc
  find_row-holds p (x ∷ xs) {r} e = ground (arith, find_row-holds p xs {r = r})

  pub All-all_rows {κ} :
      (P : A → Type κ) (p : A → Bool)
      → ((x : A) → p x ≡ true → P x)
      → (xs : List A) → all_rows p xs ≡ true
      → All P xs
  All-all_rows P p sound [] h = tt
  All-all_rows P p sound (x ∷ xs) h = elim (Bool-cases (p x)) [
    | inl hit ↦ (sound x hit, All-all_rows P p sound xs (rw hit at h))
    | inr miss ↦ cc (rw miss at h)
  ]

pub some_eq {ℓ} : {A : Type ℓ} {a b : A} → some a ≡ some b → a ≡ b
some_eq h = cc

-- What holds of all rows holds of the rows of a query.
module _ {ℓ κ} {A : Type ℓ} (P : A → Type κ) where
  pub All-keep : (p : A → Bool) (xs : List A) → All P xs → All P (keep p xs)
  All-keep p [] h = tt
  All-keep p (x ∷ xs) h =
      let rest = All-keep p xs h.1 in
      elim (Bool-cases (p x)) [ inl hit ↦ rw hit (h.0, rest) | inr miss ↦ rw miss rest ]

  pub All-take : (n : ℕ) (xs : List A) → All P xs → All P (take n xs)
  All-take zero xs h = tt
  All-take (suc n) [] h = tt
  All-take (suc n) (x ∷ xs) h = (h.0, All-take n xs h.1)

  All-place_by : (key : A → ℕ) (x : A) (xs : List A) → P x → All P xs → All P (place_by key x xs)
  All-place_by key x [] p h = (p, tt)
  All-place_by key x (y ∷ ys) p h =
      let rest = All-place_by key x ys p h.1 in
      elim (Bool-cases (leb (key x) (key y))) [
        | inl low ↦ rw low (p, h)
        | inr high ↦ rw high (h.0, rest)
      ]

  pub All-sort_by : (key : A → ℕ) (xs : List A) → All P xs → All P (sort_by key xs)
  All-sort_by key [] h = tt
  All-sort_by key (x ∷ xs) h = All-place_by key x (sort_by key xs) h.0 (All-sort_by key xs h.1)

  pub All-mapped {μ} :
      (Q : A → Type μ) (f : A → A)
      → ((a : A) → P a → Q (f a))
      → (xs : List A) → All P xs
      → All Q (map f xs)
  All-mapped Q f step [] h = tt
  All-mapped Q f step (x ∷ xs) h = (step x h.0, All-mapped Q f step xs h.1)
