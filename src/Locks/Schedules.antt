-- ===== src/Locks/Schedules.antt =====
-- internal/transfers/service.go: the schedules of concurrent transfers, and their length.
use go_wallet_ledger.Base.{
  ℕ, zero, suc, ◌+◌, ◌*◌, ◌≤◌, ◌<◌, String, ◌≡◌, refl, sym, subst, true, false, not, ◌==◌, arith,
  inl, inr, Bool-cases, ◌⊎◌, ℕ_discrete,
}
use go_wallet_ledger.Base.Int.{pos, ltb_ℤ}
use go_wallet_ledger.Models.Wallets.{Wallet}
use go_wallet_ledger.Models.Transfers.{CreateTransferRequest, Transfer}
use go_wallet_ledger.Store.{Engine, World, Result, ok, err, close}
use go_wallet_ledger.Books.{IsFaithful}
use go_wallet_ledger.Auth.{Crypto}
use go_wallet_ledger.Transfers.{lock_order, lock_wallet, assign, validate_and_settle}
use go_wallet_ledger.Locks.{
  Stage, idle, begun, one, both, ended, advance, finish, begin_transfer, locked, is_ended, System,
  turn, update, IsGranted, session, Reach, later,
}
use go_wallet_ledger.Locks.Kept.{update_self, update_other}
use go_wallet_ledger.Locks.Order.{IsCanonical}
use go_wallet_ledger.Locks.Totals.{total, total-lt, total_bounded}
use go_wallet_ledger.Locks.Progress.{Reach-Goes}

-- The turns that a session has left, at most.
abbrev pub turns_left : Stage → ℕ
turns_left idle = 4
turns_left begun = 3
turns_left (one first) = 2
turns_left (both first second) = 1
turns_left (ended r) = 0

turns_left-le : (stage : Stage) → turns_left stage ≤ 4
turns_left-le idle = omega arith
turns_left-le begun = omega arith
turns_left-le (one first) = omega arith
turns_left-le (both first second) = omega arith
turns_left-le (ended r) = omega arith

finish-left : (r : Result Transfer × World) → turns_left (finish r).0 ≡ 0
finish-left (ok a, w) = refl
finish-left (err x, w) = refl

locked-left :
    (stage : Wallet → Stage) (r : Result Wallet × World) (k : ℕ)
    → ((row : Wallet) → turns_left (stage row) ≤ k)
    → turns_left (locked stage r).0 ≤ k
locked-left stage (ok row, w) k h = h row
locked-left stage (err x, w) k h = omega arith

begin-left :
    (e : Engine) (req : CreateTransferRequest) (w : World)
    → turns_left (begin_transfer e req w).0 ≤ 3
begin-left e req w = elim (Bool-cases (not (req.source_wallet_id == req.destination_wallet_id))) [
  | inr same ↦ rw same (omega arith)
  | inl differ ↦ elim (Bool-cases (ltb_ℤ (pos 0) req.amount)) [
    | inr low ↦ rw (differ, low) (omega arith)
    | inl positive ↦ elim (Bool-cases (e.fault w.tick)) [
      | inl down ↦ rw (differ, positive, down) (omega arith)
      | inr up ↦ rw (differ, positive, up) (omega arith)
    ]
  ]
]

-- A turn of a session that has not ended is one of those it has left.
advance-left :
    (e : Engine) (req : CreateTransferRequest) (key : String) (stage : Stage) (w : World)
    → is_ended stage ≡ false
    → turns_left (advance e req key stage w).0 < turns_left stage
unfolding advance
advance-left e req key idle w live = omega (arith, begin-left e req w)
advance-left e req key begun w live = omega (
  arith,
  locked-left one (lock_wallet e (lock_order req.source_wallet_id req.destination_wallet_id).0 w) 2
      (λ row. omega arith),
)
advance-left e req key (one first) w live = omega (
  arith,
  locked-left (both first)
      (lock_wallet e (lock_order req.source_wallet_id req.destination_wallet_id).1 w) 1
      (λ row. omega arith),
)
advance-left e req key (both first second) w live = omega (
  arith,
  finish-left
      (close e w (validate_and_settle e req key (assign req.source_wallet_id first second) w)),
)
advance-left e req key (ended r) w live = cc

module _ (e : Engine) (request : ℕ → CreateTransferRequest) (key : ℕ → String) (n : ℕ) where
  -- A schedule of `k` turns, each of a session that has not ended and need not wait.
  pub data Turns (s : System) : ℕ → System → Type 0 where
    none_yet : Turns s 0 s
    and_then :
        {k : ℕ} {t : System}
        → Turns s k t
        → (i : ℕ) → i < n
        → is_ended (t.stage i) ≡ false
        → IsGranted e request key t i
        → Turns s (suc k) (turn e request key i t)

  abbrev left : System → ℕ
  left s = total (λ j. turns_left (s.stage j)) n

  turn-left :
      (s : System) (i : ℕ)
      → i < n
      → is_ended (s.stage i) ≡ false
      → left (turn e request key i s) < left s
  turn-left s i in_range live = total-lt _ _ le n i in_range own
    where
      moved : Stage
      moved = (advance e (request i) (key i) (s.stage i) s.world).0

      own : turns_left (update s.stage i moved i) < turns_left (s.stage i)
      own =
          rw (update_self s.stage i moved)
            (advance-left e (request i) (key i) (s.stage i) s.world live)

      le : (j : ℕ) → turns_left (update s.stage i moved j) ≤ turns_left (s.stage j)
      le j = elim (ℕ_discrete j i) [
        | yes same ↦
            subst (λ k. turns_left (update s.stage i moved k) ≤ turns_left (s.stage k)) (sym same)
              (omega (arith, own))
        | no other ↦ rw (update_other s.stage i j moved other) (omega arith)
      ]

  Turns-left : {s : System} {k : ℕ} {t : System} → Turns s k t → k + left t ≤ left s
  Turns-left none_yet = omega arith
  Turns-left (and_then {t = t} before i in_range live granted) =
      omega (arith, Turns-left before, turn-left t i in_range live)

  -- Every schedule of `n` transfers is finite: it has at most 4 turns for each of them, whichever
  -- session goes on and however the database answers.
  Turns-le : {s : System} {k : ℕ} {t : System} → Turns s k t → k ≤ 4 * n
  Turns-le {s} h = omega (
    arith,
    Turns-left h,
    total_bounded (λ j. turns_left (s.stage j)) 4 (λ j. turns_left-le (s.stage j)) n,
  )

  -- A session that has not ended, if there is one.
  some_live :
      (s : System) (m : ℕ)
      → ((j : ℕ) → j < m → is_ended (s.stage j) ≡ true)
        ⊎ ((j : ℕ) × (j < m) × (is_ended (s.stage j) ≡ false))
  some_live s zero = inl (λ j below. absurd (omega arith))
  some_live s (suc m) = elim (some_live s m) [
    | inr (j, below, live) ↦ inr (j, omega arith, live)
    | inl over ↦ elim (Bool-cases (is_ended (s.stage m))) [
      | inr live ↦ inr (m, omega arith, live)
      | inl done ↦ inl (λ j below. elim (ℕ_discrete j m) [
        | yes last ↦ subst (λ k. is_ended (s.stage k) ≡ true) (sym last) done
        | no before ↦ over j (omega arith)
      ])
    ]
  ]

  module _ (crypto : Crypto) (hmac : String → String → String) (secret : String) (w : World)
      (faithful : IsFaithful e) (canonical : (i : ℕ) → i < n → IsCanonical e (request i)) where
    finishing :
        (fuel : ℕ) (s t : System) (k : ℕ)
        → Reach e request key crypto hmac secret n w t
        → Turns s k t
        → left t < fuel
        → (k' : ℕ) × (t' : System) × Turns s k' t'
          × ((i : ℕ) → i < n → is_ended (t'.stage i) ≡ true)
    finishing zero s t k reach before few = absurd (omega arith)
    finishing (suc fuel) s t k reach before few = elim (some_live t n) [
      | inl over ↦ (k, t, before, over)
      | inr (i, in_range, live) ↦
          let (j, j_in, j_live, granted) =
            Reach-Goes e request key crypto hmac secret n i faithful canonical reach in_range
              live in
          let less = turn-left t j j_in j_live in
          finishing fuel s (turn e request key j t) (suc k) (later reach (session j j_in granted))
            (and_then before j j_in j_live granted) (omega arith)
    ]

-- Transfers in canonical text that run at the same time can always be brought to an end: from every
-- state that they reach, at most four turns for each of them, none of which waits, lead to a state
-- in which all have returned.
pub Reach-ends :
    (e : Engine) (request : ℕ → CreateTransferRequest) (key : ℕ → String) (crypto : Crypto)
    (hmac : String → String → String) (secret : String) (n : ℕ) {w : World} {s : System}
    → IsFaithful e
    → ((i : ℕ) → i < n → IsCanonical e (request i))
    → Reach e request key crypto hmac secret n w s
    → (k : ℕ) × (t : System) × Turns e request key n s k t
      × (k ≤ 4 * n)
      × ((i : ℕ) → i < n → is_ended (t.stage i) ≡ true)
Reach-ends e request key crypto hmac secret n {w} {s} faithful canonical reach =
    let (k, t, turns, over) =
      finishing e request key n crypto hmac secret w faithful canonical
        (suc (left e request key n s)) s s 0 reach none_yet (omega arith) in
    (k, t, turns, Turns-le e request key n turns, over)
