-- ===== src/Locks/Totals.antt =====
-- Sums of a number for each of the first sessions.
use go_wallet_ledger.Base.{ℕ, zero, suc, ◌+◌, ◌*◌, ◌≤◌, ◌<◌, subst, arith, ℕ_discrete}

pub total : (ℕ → ℕ) → ℕ → ℕ
total f zero = 0
total f (suc m) = total f m + f m

total-le : (f g : ℕ → ℕ) → ((j : ℕ) → f j ≤ g j) → (m : ℕ) → total f m ≤ total g m
unfolding total
total-le f g below zero = omega arith
total-le f g below (suc m) = omega (arith, total-le f g below m, below m)

pub total-lt :
    (f g : ℕ → ℕ) → ((j : ℕ) → f j ≤ g j) → (m k : ℕ) → k < m → f k < g k → total f m < total g m
unfolding total
total-lt f g below zero k in_range less = absurd (omega arith)
total-lt f g below (suc m) k in_range less = elim (ℕ_discrete k m) [
  | yes same ↦
      let less' : f m < g m = subst (λ j. f j < g j) same less in
      omega (arith, total-le f g below m)
  | no other ↦ omega (arith, total-lt f g below m k (omega arith) less, below m)
]

pub total_bounded : (f : ℕ → ℕ) (c : ℕ) → ((j : ℕ) → f j ≤ c) → (m : ℕ) → total f m ≤ c * m
unfolding total
total_bounded f c below zero = omega arith
total_bounded f c below (suc m) = omega (arith, total_bounded f c below m, below m)
