-- ===== src/RateLimit/Window.antt =====
-- internal/redis/client.go: how many requests `Allow` lets through in a window.
use go_wallet_ledger.Base.{
  ℕ, suc, ◌+◌, ◌≤◌, ◌<◌, ◌≡◌, List, [], ◌∷◌, Option, none, some, Bool, true, false, All, arith, leb,
  Bool-cases, inl, inr,
}
use go_wallet_ledger.RateLimit.{Counter, allow_script, get_counter, incremented}

-- How many of the requests at the given seconds pass, on one key.
abbrev pub counted : ℕ → Bool × Option Counter → (Option Counter → ℕ) → ℕ
counted one (true, c) rest = one + rest c
counted one (false, c) rest = rest c

unfoldable pub count_allowed : ℕ → ℕ → List ℕ → Option Counter → ℕ
count_allowed limit window [] counter = 0
count_allowed limit window (now ∷ times) counter =
    counted 1 (allow_script limit window now counter) (count_allowed limit window times)

-- While a counter lives, what it still lets through is what it lacks to the limit.
live_bound :
    (limit window t v : ℕ) (times : List ℕ)
    → All (λ now. now < t) times
    → 1 ≤ v
    → v ≤ limit
    → count_allowed limit window times (some (record { value = v; expires = some t })) + v ≤ limit
unfolding count_allowed allow_script get_counter incremented
live_bound limit window t v [] h one below = omega arith
live_bound limit window t v (now ∷ times) h one below = elim (Bool-cases (leb limit v)) [
  | inl full ↦ rw (still_live, full) (live_bound limit window t v times h.1 one below)
  | inr room ↦
      let next = live_bound limit window t (suc v) times h.1 (omega arith) (ground arith) in
      rw (still_live, room, not_first) (omega (arith, next))
]
  where
    still_live : leb t now ≡ false
    still_live = ground (arith, h.0)

    not_first : leb (suc v) 1 ≡ false
    not_first = ground (arith, one)

-- From a request that finds no live counter on, at most `limit` requests on one key pass within the
-- window, for a limit of at least one.
pub window_bound :
    (limit window start : ℕ) (times : List ℕ) (counter : Option Counter)
    → 1 ≤ limit
    → get_counter start counter ≡ none
    → All (λ now. now < start + window) times
    → count_allowed limit window (start ∷ times) counter ≤ limit
unfolding count_allowed allow_script incremented
window_bound limit window start times counter positive fresh within =
    let rest = live_bound limit window (start + window) 1 times within (omega arith) positive in
    rw fresh (omega (arith, rest))
