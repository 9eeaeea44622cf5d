-- ===== src/Payments/Rows.antt =====
-- Rows of payments with distinct ids.
use go_wallet_ledger.Base.{
  String, ◌≡◌, sym, ap, ◌∙◌, subst, List, [], ◌∷◌, ◌++◌, some, some_eq, Bool, true, false, ◌==◌,
  All, All-append, All-find_row, All-update_rows, find_row, some_row, update_rows, arith,
  if◌then◌else◌, Bool-cases, inl, inr,
}
use go_wallet_ledger.Models.Payments.{Payment}

-- No two payments share an id.
abbrev pub Apart : Payment → Payment → Type 0
Apart x y = (x.id == y.id) ≡ false

abbrev pub Distinct : List Payment → Type 0
Distinct [] = Unit
Distinct (x ∷ xs) = All (Apart x) xs × Distinct xs

-- Two queries that find rows with one id find one row.
pub same_id :
    (p q : Payment → Bool) (rows : List Payment) (x y : Payment)
    → Distinct rows
    → find_row p rows ≡ some x
    → find_row q rows ≡ some y
    → (x.id == y.id) ≡ true
    → x ≡ y
same_id p q [] x y d fx fy same = cc
same_id p q (r ∷ rows) x y d fx fy same = elim (Bool-cases (p r)) [
  | inl px ↦ elim (Bool-cases (q r)) [
    | inl qy ↦ sym (some_eq (rw px at fx)) ∙ some_eq (rw qy at fy)
    | inr ny ↦
        let own : r ≡ x = some_eq (rw px at fx) in
        cc (
          subst (λ (z : Payment). (z.id == y.id) ≡ false) own
              (All-find_row (Apart r) q rows d.0 (rw ny at fy)),
          same,
        )
  ]
  | inr nx ↦ elim (Bool-cases (q r)) [
    | inl qy ↦
        let own : r ≡ y = some_eq (rw qy at fy) in
        let other = All-find_row (Apart r) p rows d.0 (rw nx at fx) in
        absurd (clash r.id x.id y.id (ap (λ (z : Payment). z.id) own) other same)
    | inr ny ↦ same_id p q rows x y d.1 (rw nx at fx) (rw ny at fy) same
  ]
]
  where
    clash : (a b c : String) → a ≡ c → (a == b) ≡ false → (b == c) ≡ true → ⊥
    clash a b c same differ equal = ground arith

pub updated-Apart :
    (p : Payment → Bool) (f : Payment → Payment) (x y : Payment) (rows : List Payment)
    → ((z : Payment) → (f z).id ≡ z.id)
    → y.id ≡ x.id
    → All (Apart x) rows
    → All (Apart y) (update_rows p f rows)
updated-Apart p f x y rows kept same h =
    All-update_rows (Apart x) (Apart y) p f (λ z a. ground (arith, kept z)) rows h

pub updated-Distinct :
    (p : Payment → Bool) (f : Payment → Payment) (rows : List Payment)
    → ((z : Payment) → (f z).id ≡ z.id)
    → Distinct rows
    → Distinct (update_rows p f rows)
updated-Distinct p f [] kept d = tt
updated-Distinct p f (x ∷ xs) kept d = (
  updated-Apart p f x (if p x then f x else x) xs kept (ground (arith, kept x)) d.0,
  updated-Distinct p f xs kept d.1,
)

appended-Apart :
    (x y : Payment) (rows : List Payment)
    → some_row (λ (r : Payment). r.id == y.id) (x ∷ rows) ≡ false
    → (x.id == y.id) ≡ false
appended-Apart x y rows h = ground arith

pub appended-Distinct :
    (rows : List Payment) (y : Payment)
    → some_row (λ (r : Payment). r.id == y.id) rows ≡ false
    → Distinct rows
    → Distinct (rows ++ y ∷ [])
appended-Distinct [] y new d = (tt, tt)
appended-Distinct (x ∷ xs) y new d = (
  All-append (Apart x) xs (y ∷ []) d.0 (appended-Apart x y xs new, tt),
  appended-Distinct xs y (ground arith) d.1,
)
