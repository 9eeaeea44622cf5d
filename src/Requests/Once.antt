-- ===== src/Requests/Once.antt =====
-- internal/transfers/handler.go: concurrent requests with one key.
use go_wallet_ledger.Base.{
  ℕ, String, ◌≡◌, ◌≢◌, sym, subst, ◌∙◌, true, false, Bool-cases, inl, inr, ℕ_discrete,
}
use go_wallet_ledger.Store.{Engine, World}
use go_wallet_ledger.Idempotency.Keys.{Held}
use go_wallet_ledger.Auth.{Crypto}
use go_wallet_ledger.System.Kept.{perform-Kept}
use go_wallet_ledger.System.Keys.{Held-Keeps}
use go_wallet_ledger.Locks.Kept.{update_self, update_other}
use go_wallet_ledger.Requests.{
  Sent, Phase, advance_request, is_owner, Requests, request_turn, RequestStep, request, call,
  RequestReach, start, later,
}
use go_wallet_ledger.Requests.Held.{advance_request-Held, advance_request-Obtained}

module _ (e : Engine) (sent : ℕ → Sent) where
  -- Every owner's key is in the table, and no two owners have one key.
  record Owned (s : Requests) : Type 0 where
    held : (i : ℕ) → is_owner (s.phase i) ≡ true → Held (sent i).key s.world.tables
    unique :
        (i j : ℕ)
        → is_owner (s.phase i) ≡ true
        → is_owner (s.phase j) ≡ true
        → (sent i).key ≡ (sent j).key
        → i ≡ j

  module _ (s : Requests) (h : Owned s) (i : ℕ) where
    moved : Phase × World
    moved = advance_request e (sent i) (s.phase i) s.world

    own : (request_turn e sent i s).phase i ≡ moved.0
    unfolding moved
    own = update_self s.phase i moved.0

    other : (j : ℕ) → j ≢ i → (request_turn e sent i s).phase j ≡ s.phase j
    other j ne = update_other s.phase i j _ ne

    own-Held : is_owner moved.0 ≡ true → Held (sent i).key moved.1.tables
    unfolding moved
    own-Held now = elim (Bool-cases (is_owner (s.phase i))) [
      | inl before ↦
          advance_request-Held e (sent i) (sent i).key (s.phase i) s.world (h.held i before)
      | inr before ↦ (advance_request-Obtained e (sent i) (s.phase i) s.world before now).1
    ]

    turn-Held :
        (j : ℕ)
        → is_owner ((request_turn e sent i s).phase j) ≡ true
        → Held (sent j).key moved.1.tables
    unfolding moved
    turn-Held j owner = elim (ℕ_discrete j i) [
      | yes same ↦
          subst (λ k. Held (sent k).key moved.1.tables) (sym same)
            (own-Held (
              rw (← own)
                (subst (λ k. is_owner ((request_turn e sent i s).phase k) ≡ true) same owner)))
      | no ne ↦
          advance_request-Held e (sent i) (sent j).key (s.phase i) s.world
            (h.held j (rw (← other j ne) owner))
    ]

    -- The request whose turn it is against another one.
    against :
        (j : ℕ)
        → j ≢ i
        → is_owner moved.0 ≡ true
        → is_owner (s.phase j) ≡ true
        → (sent i).key ≢ (sent j).key
    unfolding moved
    against j ne now owner same = elim (Bool-cases (is_owner (s.phase i))) [
      | inl before ↦ ne (sym (h.unique i j before owner same))
      | inr before ↦
          (advance_request-Obtained e (sent i) (s.phase i) s.world before now).0
            (rw same (h.held j owner))
    ]

    turn_unique :
        (a b : ℕ)
        → is_owner ((request_turn e sent i s).phase a) ≡ true
        → is_owner ((request_turn e sent i s).phase b) ≡ true
        → (sent a).key ≡ (sent b).key
        → a ≡ b
    turn_unique a b owner_a owner_b same = elim (ℕ_discrete a i) [
      | yes is_a ↦ elim (ℕ_discrete b i) [
        | yes is_b ↦ is_a ∙ sym is_b
        | no not_b ↦ absurd (
            against b not_b
              (rw (← own)
                (subst (λ k. is_owner ((request_turn e sent i s).phase k) ≡ true) is_a owner_a))
              (rw (← other b not_b) owner_b) (subst (λ k. (sent k).key ≡ (sent b).key) is_a same))
      ]
      | no not_a ↦ elim (ℕ_discrete b i) [
        | yes is_b ↦ absurd (
            against a not_a
              (rw (← own)
                (subst (λ k. is_owner ((request_turn e sent i s).phase k) ≡ true) is_b owner_b))
              (rw (← other a not_a) owner_a)
              (sym (subst (λ k. (sent a).key ≡ (sent k).key) is_b same)))
        | no not_b ↦ h.unique a b (rw (← other a not_a) owner_a) (rw (← other b not_b) owner_b) same
      ]
    ]

    turn-Owned : Owned (request_turn e sent i s)
    unfolding moved
    turn-Owned = record { held = turn-Held; unique = turn_unique }

  module _ (crypto : Crypto) (hmac : String → String → String) (secret : String) where
    step-Owned : {s t : Requests} → Owned s → RequestStep e sent crypto hmac secret s t → Owned t
    step-Owned {s} h (request i) = turn-Owned s h i
    step-Owned {s} h (call c) = record {
      held = λ i owner.
          perform-Kept e crypto (Held (sent i).key) (Held-Keeps e crypto (sent i).key) hmac secret c
            s.world (h.held i owner);
      unique = h.unique;
    }

    Reach-Owned : {w : World} {s : Requests} → RequestReach e sent crypto hmac secret w s → Owned s
    Reach-Owned start = record { held = λ i owner. absurd cc; unique = λ i j owner. absurd cc }
    Reach-Owned (later reach step) = step-Owned (Reach-Owned reach) step

-- Of the transfer requests that run at the same time, in any interleaving of their calls with each
-- other and with the other calls of the service, however the database behaves and whatever is in its
-- tables, at most one with a given key gets past `TryAcquire` with it: while one has the key, and after
-- it was answered, no other request with that key has it or had it.
pub Reach-once :
    (e : Engine) (sent : ℕ → Sent) (crypto : Crypto) (hmac : String → String → String)
    (secret : String) {w : World} {s : Requests} (i j : ℕ)
    → RequestReach e sent crypto hmac secret w s
    → i ≢ j
    → (sent i).key ≡ (sent j).key
    → is_owner (s.phase i) ≡ true
    → is_owner (s.phase j) ≡ false
Reach-once e sent crypto hmac secret {s = s} i j reach differ same owner =
    elim (Bool-cases (is_owner (s.phase j))) [
      | inl both_own ↦
          absurd
            (differ ((Reach-Owned e sent crypto hmac secret reach).unique i j owner both_own same))
      | inr free ↦ free
    ]
