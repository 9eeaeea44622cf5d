-- ===== src/Locks/Progress.antt =====
-- internal/transfers/service.go: which of the concurrent transfers wait for one another.
use native.Mathlib.Decide.{dec_lt}
use go_wallet_ledger.Base.{
  ℕ, zero, suc, ◌≤◌, ◌<◌, String, ◌≡◌, ◌≢◌, refl, sym, subst, true, false, ◌==◌, gtb, gtb_trans,
  gtb_irrefl, if◌then◌else◌, arith, inl, inr, Bool-cases, ◌⊎◌, ℕ_discrete,
}
use go_wallet_ledger.Models.Wallets.{Wallet}
use go_wallet_ledger.Models.Transfers.{CreateTransferRequest}
use go_wallet_ledger.Store.{Engine, World}
use go_wallet_ledger.Books.{IsFaithful}
use go_wallet_ledger.Auth.{Crypto}
use go_wallet_ledger.Locks.{
  Stage, idle, begun, one, both, ended, advance, holds, is_ended, System, turn, IsGranted, Reach,
}
use go_wallet_ledger.Locks.Kept.{Inv, Reach-Inv, update_self}
use go_wallet_ledger.Locks.Totals.{total, total-lt}
use go_wallet_ledger.Locks.Order.{IsCanonical, one-asks, both-asks, holds-cases}

-- A session that has its first row, and one that is greater than `id`.
abbrev above : String → Stage → ℕ
above id (one first) = if gtb first.id id then 1 else 0
above id _ = 0

above-le :
    (low high : String) → gtb high low ≡ true → (stage : Stage) → above high stage ≤ above low stage
above-le low high h idle = omega arith
above-le low high h begun = omega arith
above-le low high h (one first) = elim (Bool-cases (gtb first.id high)) [
  | inl over ↦ rw (over, gtb_trans first.id high low over h) (omega arith)
  | inr under ↦ rw under (omega arith)
]
above-le low high h (both first second) = omega arith
above-le low high h (ended r) = omega arith

above_self :
    (low high : String) (stage : Stage) (first : Wallet)
    → stage ≡ one first
    → first.id ≡ high
    → gtb high low ≡ true
    → above high stage < above low stage
above_self low high stage first at own h = rw (at, own, gtb_irrefl high, h) (omega arith)

module _ (e : Engine) (request : ℕ → CreateTransferRequest) (key : ℕ → String) (crypto : Crypto)
    (hmac : String → String → String) (secret : String) (n : ℕ) (faithful : IsFaithful e)
    (canonical : (i : ℕ) → i < n → IsCanonical e (request i)) (s : System)
    (inv : Inv e request key crypto hmac secret n s) where
  -- Another session has a row that the turn of session `i` locks.
  record Waits (i : ℕ) : Type 0 where
    holder : ℕ
    id : String
    other : holder ≢ i
    asked : holds ((turn e request key i s).stage i) id ≡ true
    held : holds (s.stage holder) id ≡ true

  -- A session that has not ended and need not wait.
  pub record Goes : Type 0 where
    pub session : ℕ
    pub in_range : session < n
    pub live : is_ended (s.stage session) ≡ false
    pub granted : IsGranted e request key s session

  search :
      (i : ℕ) (id : String) (m : ℕ)
      → ((j : ℕ) → j < m → j ≢ i → holds (s.stage j) id ≡ false)
        ⊎ ((j : ℕ) × (j ≢ i) × (holds (s.stage j) id ≡ true))
  search i id zero = inl (λ j below. absurd (omega arith))
  search i id (suc m) = elim (search i id m) [
    | inr found ↦ inr found
    | inl none_below ↦ elim (ℕ_discrete m i) [
      | yes self ↦ inl (λ j below ne. none_below j (omega arith) ne)
      | no ne ↦ elim (Bool-cases (holds (s.stage m) id)) [
        | inl taken ↦ inr (m, ne, taken)
        | inr free ↦ inl (λ j below nj. elim (ℕ_discrete j m) [
          | yes last ↦ subst (λ k. holds (s.stage k) id ≡ false) (sym last) free
          | no before ↦ none_below j (omega arith) nj
        ])
      ]
    ]
  ]

  holder_in_range : (j : ℕ) (id : String) → holds (s.stage j) id ≡ true → j < n
  holder_in_range j id h = elim (dec_lt j n) [
    | yes below ↦ below
    | no beyond ↦ cc (subst (λ p. holds p id ≡ true) (inv.outside j (omega arith)) h)
  ]

  free_outside :
      (i : ℕ) (id : String)
      → ((j : ℕ) → j < n → j ≢ i → holds (s.stage j) id ≡ false)
      → (j : ℕ) → j ≢ i
      → holds (s.stage j) id ≡ false
  free_outside i id free j ne = elim (Bool-cases (holds (s.stage j) id)) [
    | inl taken ↦ free j (holder_in_range j id taken) ne
    | inr empty ↦ empty
  ]

  -- The turn of a session is granted, or it waits for another.
  attend :
      (i : ℕ) (p : Stage)
      → (turn e request key i s).stage i ≡ p
      → IsGranted e request key s i ⊎ Waits i
  attend i idle at = inl (λ j id ne h. cc (subst (λ q. holds q id ≡ true) at h))
  attend i begun at = inl (λ j id ne h. cc (subst (λ q. holds q id ≡ true) at h))
  attend i (ended r) at = inl (λ j id ne h. cc (subst (λ q. holds q id ≡ true) at h))
  attend i (one first) at = elim (search i first.id n) [
    | inr (j, ne, taken) ↦ inr (record {
      holder = j;
      id = first.id;
      other = ne;
      asked = subst (λ q. holds q first.id ≡ true) (sym at) (ground arith);
      held = taken;
    })
    | inl free ↦ inl (λ j id ne h.
        only first.id id (subst (λ q. holds q id ≡ true) at h) j
          (free_outside i first.id free j ne))
  ]
    where
      only :
          (a id : String)
          → (a == id) ≡ true
          → (j : ℕ) → holds (s.stage j) a ≡ false
          → holds (s.stage j) id ≡ false
      only a id same j h =
          let own : a ≡ id = ground arith in subst (λ k. holds (s.stage j) k ≡ false) own h
  attend i (both first second) at = elim (search i first.id n) [
    | inr (j, ne, taken) ↦ inr (record {
      holder = j;
      id = first.id;
      other = ne;
      asked = subst (λ q. holds q first.id ≡ true) (sym at) (ground arith);
      held = taken;
    })
    | inl free_first ↦ elim (search i second.id n) [
      | inr (j, ne, taken) ↦ inr (record {
        holder = j;
        id = second.id;
        other = ne;
        asked = subst (λ q. holds q second.id ≡ true) (sym at) (ground arith);
        held = taken;
      })
      | inl free_second ↦ inl (λ j id ne h. elim (Bool-cases (first.id == id)) [
        | inl same ↦ only first.id id same j (free_outside i first.id free_first j ne)
        | inr differ ↦
            only second.id id (rw differ at (subst (λ q. holds q id ≡ true) at h)) j
              (free_outside i second.id free_second j ne)
      ])
    ]
  ]
    where
      only :
          (a id : String)
          → (a == id) ≡ true
          → (j : ℕ) → holds (s.stage j) a ≡ false
          → holds (s.stage j) id ≡ false
      only a id same j h =
          let own : a ≡ id = ground arith in subst (λ k. holds (s.stage j) k ≡ false) own h

  asked_id :
      (i : ℕ) (id : String)
      → holds ((turn e request key i s).stage i) id ≡ true
      → holds (advance e (request i) (key i) (s.stage i) s.world).0 id ≡ true
  asked_id i id h =
      subst (λ p. holds p id ≡ true)
        (update_self s.stage i (advance e (request i) (key i) (s.stage i) s.world).0) h

  -- A session with both rows need not wait.
  both-Goes : (j : ℕ) (first second : Wallet) → j < n → s.stage j ≡ both first second → Goes
  both-Goes j first second in_range at = record {
    session = j;
    in_range = in_range;
    live = subst (λ p. is_ended p ≡ false) (sym at) refl;
    granted = λ k id ne h. cc (
      both-asks e (request j) (canonical j in_range) (key j) first second s.world id,
      subst (λ p. holds (advance e (request j) (key j) p s.world).0 id ≡ true) at (asked_id j id h),
    );
  }

  -- A session with its first row waits for one with a greater first row, or for one with both.
  follow :
      (i : ℕ) (first : Wallet)
      → i < n
      → s.stage i ≡ one first
      → Waits i
      → ((j : ℕ) (later : Wallet)
          → j < n
          → s.stage j ≡ one later
          → total (λ k. above later.id (s.stage k)) n < total (λ k. above first.id (s.stage k)) n
          → Goes)
      → Goes
  follow i first in_range at waits next =
      elim (holds-cases (s.stage waits.holder) waits.id waits.held) [
        | inr (f, g, here) ↦
            both-Goes waits.holder f g (holder_in_range waits.holder waits.id waits.held) here
        | inl (g, here, own) ↦
            elim (one-asks e (request i) (canonical i in_range) (key i) (s.stage i) s.world first
              waits.id at (inv.fresh i) (asked_id i waits.id waits.asked)) [
                | inl same ↦ cc (
                  inv.alone waits.holder i waits.id waits.other waits.held,
                  subst (λ p. holds p waits.id ≡ true) (sym at)
                      (subst (λ k. (first.id == k) ≡ true) (sym same) (self_eq first.id)),
                )
                | inr greater ↦
                    let higher : gtb g.id first.id ≡ true =
                      subst (λ k. gtb k first.id ≡ true) (sym own) greater in
                    let j_in = holder_in_range waits.holder waits.id waits.held in
                    next waits.holder g j_in here (
                      total-lt _ _ (λ k. above-le first.id g.id higher (s.stage k)) n waits.holder
                        j_in (above_self first.id g.id (s.stage waits.holder) g here refl higher))
              ]
      ]
    where
      self_eq : (a : String) → (a == a) ≡ true
      self_eq a = ground arith

  -- Along the sessions that wait for one another fewer and fewer are above.
  chain :
      (fuel i : ℕ) (first : Wallet)
      → i < n
      → s.stage i ≡ one first
      → total (λ j. above first.id (s.stage j)) n < fuel
      → Goes
  chain zero i first in_range at few = absurd (omega arith)
  chain (suc fuel) i first in_range at few =
      elim (attend i ((turn e request key i s).stage i) refl) [
        | inl granted ↦ record {
          session = i;
          in_range = in_range;
          live = subst (λ p. is_ended p ≡ false) (sym at) refl;
          granted = granted;
        }
        | inr waits ↦
            follow i first in_range at waits
              (λ j later j_in here less. chain fuel j later j_in here (omega arith))
      ]

  -- Some session that has not ended need not wait, if there is one that has not ended.
  pub Inv-Goes : (i : ℕ) → i < n → is_ended (s.stage i) ≡ false → Goes
  Inv-Goes i in_range live = elim (attend i ((turn e request key i s).stage i) refl) [
    | inl granted ↦ record { session = i; in_range = in_range; live = live; granted = granted }
    | inr waits ↦ elim (holds-cases (s.stage waits.holder) waits.id waits.held) [
      | inr (f, g, here) ↦
          both-Goes waits.holder f g (holder_in_range waits.holder waits.id waits.held) here
      | inl (g, here, own) ↦
          chain (suc (total (λ j. above g.id (s.stage j)) n)) waits.holder g
            (holder_in_range waits.holder waits.id waits.held) here (omega arith)
    ]
  ]

-- No deadlock: in every state that concurrent transfers in canonical text reach, also with other
-- calls of the service in between, if a transfer has not ended then one that has not ended need not
-- wait for a row.
pub Reach-Goes :
    (e : Engine) (request : ℕ → CreateTransferRequest) (key : ℕ → String) (crypto : Crypto)
    (hmac : String → String → String) (secret : String) (n : ℕ) {w : World} {s : System} (i : ℕ)
    → IsFaithful e
    → ((j : ℕ) → j < n → IsCanonical e (request j))
    → Reach e request key crypto hmac secret n w s
    → i < n
    → is_ended (s.stage i) ≡ false
    → (j : ℕ) × (j < n) × (is_ended (s.stage j) ≡ false) × IsGranted e request key s j
Reach-Goes e request key crypto hmac secret n {s = s} i faithful canonical reach in_range live =
    let g =
      Inv-Goes e request key crypto hmac secret n faithful canonical s
        (Reach-Inv e request key crypto hmac secret n faithful reach) i in_range live in
    (g.session, g.in_range, g.live, g.granted)
