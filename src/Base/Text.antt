-- ===== src/Base/Text.antt =====
-- Go strings: equality as a decision, and the order that `<` and `>` test.
use Prim.Native.Nat.{ℕ, Ordering, compare as compare_ℕ}
use Prim.Native.Char.{code}
use Prim.Native.String.{String, compare, count, [], ◌∷◌, then}
use Prim.Native.String.compare
use mathlib.Core.Path.{◌≡◌, refl, ap}
use mathlib.Core.Logic.{◌≢◌}
use mathlib.Core.Bool.{Bool, true, false, not}
use native.Mathlib.Omega.{arith}
use text.Mathlib.Text.{◌==◌ as text_eq}
use text.Mathlib.TextEquality.{eq_iff, path_by_compare}

dec_from : {a b : String} (t : Bool) → ((t ≡ true) → a ≡ b) → ((a ≡ b) → t ≡ true) → Dec (a ≡ b)
dec_from true sound complete = yes (sound refl)
dec_from false sound complete = no (λ e. cc (complete e))

-- Equality of texts as a decision, so that a split on a test gives the equation.
unfoldable pub String_discrete : Discrete String
unfolding dec_from
String_discrete a b = dec_from (text_eq a b) (eq_iff a b).0 (eq_iff a b).1

infix 50 ◌==◌
abbrev pub ◌==◌ : String → String → Bool
a == b = elim (String_discrete a b) [ yes _ ↦ true | no _ ↦ false ]

abbrev pub is_gt : Ordering → Bool
is_gt Ordering.lt = false
is_gt Ordering.eq = false
is_gt Ordering.gt = true

-- Go's `a > b` on strings.
abbrev pub gtb : String → String → Bool
gtb a b = is_gt (compare a b)

-- The length in characters, which `VARCHAR(n)` limits.
abbrev pub chars : String → ℕ
chars = count

abbrev flip : Ordering → Ordering
flip Ordering.lt = Ordering.gt
flip Ordering.eq = Ordering.eq
flip Ordering.gt = Ordering.lt

flip-then : (o p : Ordering) → flip (then o p) ≡ then (flip o) (flip p)
flip-then Ordering.lt p = refl
flip-then Ordering.eq p = refl
flip-then Ordering.gt p = refl

flip-compare_ℕ : (m n : ℕ) → flip (compare_ℕ m n) ≡ compare_ℕ n m
flip-compare_ℕ m n = ground arith

-- The order of texts is antisymmetric, so that exactly one of two different texts is the greater.
pub flip-compare : (s t : String) → flip (compare s t) ≡ compare t s
flip-compare [] [] = rw compare.nil-nil
flip-compare [] (d ∷ t) = rw (compare.nil-cons, compare.cons-nil)
flip-compare (c ∷ s) [] = rw (compare.nil-cons, compare.cons-nil)
flip-compare (c ∷ s) (d ∷ t) =
    rw (compare.cons-cons c d s t, compare.cons-cons d c t s, flip-then)
      (rw (flip-compare_ℕ (code c) (code d), flip-compare s t))

is_gt-flip : (o : Ordering) → o ≢ Ordering.eq → is_gt (flip o) ≡ not (is_gt o)
is_gt-flip Ordering.lt h = refl
is_gt-flip Ordering.eq h = absurd (h refl)
is_gt-flip Ordering.gt h = refl

-- Of two different texts one test `>` holds and the other does not.
pub gtb_total : (s t : String) → s ≢ t → gtb t s ≡ not (gtb s t)
gtb_total s t ne =
    rw (gtb, ← flip-compare s t) (is_gt-flip (compare s t) (λ h. ne (path_by_compare s t h)))

then_trans :
    (k m n : ℕ) (o p q : Ordering)
    → (o ≡ Ordering.gt → p ≡ Ordering.gt → q ≡ Ordering.gt)
    → then (compare_ℕ k m) o ≡ Ordering.gt
    → then (compare_ℕ m n) p ≡ Ordering.gt
    → then (compare_ℕ k n) q ≡ Ordering.gt
then_trans k m n o p q step g h = ground arith

compare_trans :
    (s t u : String)
    → compare s t ≡ Ordering.gt
    → compare t u ≡ Ordering.gt
    → compare s u ≡ Ordering.gt
compare_trans [] [] u g h = cc
compare_trans [] (d ∷ t) u g h = cc (rw compare.nil-cons at g)
compare_trans (c ∷ s) [] [] g h = g
compare_trans (c ∷ s) [] (b ∷ u) g h = cc (rw compare.nil-cons at h)
compare_trans (c ∷ s) (d ∷ t) [] g h = rw compare.cons-nil
compare_trans (c ∷ s) (d ∷ t) (b ∷ u) g h = rw compare.cons-cons (
    then_trans (code c) (code d) (code b) (compare s t) (compare t u) (compare s u)
      (compare_trans s t u) (rw compare.cons-cons at g) (rw compare.cons-cons at h))

gt_of : (o : Ordering) → is_gt o ≡ true → o ≡ Ordering.gt
gt_of Ordering.lt h = cc
gt_of Ordering.eq h = cc
gt_of Ordering.gt h = refl

pub gtb_trans : (s t u : String) → gtb s t ≡ true → gtb t u ≡ true → gtb s u ≡ true
gtb_trans s t u g h = ap is_gt (compare_trans s t u (gt_of (compare s t) g) (gt_of (compare t u) h))

compare_self : (s : String) → compare s s ≡ Ordering.eq
compare_self [] = rw compare.nil-nil
compare_self (c ∷ s) = rw (compare.cons-cons c c s s, compare_self s) (ground arith)

pub gtb_irrefl : (s : String) → gtb s s ≡ false
gtb_irrefl s = ap is_gt (compare_self s)
