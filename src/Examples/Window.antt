-- ===== src/Examples/Window.antt =====
-- The theorem on the rate limiter at concrete inputs.
use go_wallet_ledger.Base.{◌≡◌, ◌≤◌, refl, [], ◌∷◌, Option, none, some, arith}
use go_wallet_ledger.RateLimit.{Counter, get_counter}
use go_wallet_ledger.RateLimit.Window.{count_allowed, window_bound}

-- A counter of the window before.
abbrev old : Option Counter
old = some (record { value = 2; expires = some 90 })

old_gone : get_counter 100 old ≡ none
unfolding get_counter
old_gone = refl

window_bound_example : count_allowed 2 60 (100 ∷ 101 ∷ 120 ∷ 159 ∷ []) old ≤ 2
window_bound_example =
    window_bound 2 60 100 (101 ∷ 120 ∷ 159 ∷ []) old (omega arith) old_gone
      (omega arith, (omega arith, (omega arith, tt)))
