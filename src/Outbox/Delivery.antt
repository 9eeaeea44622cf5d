-- ===== src/Outbox/Delivery.antt =====
-- internal/outbox/worker.go: one attempt to publish an event.
use go_wallet_ledger.Base.{
  ℕ, String, ◌≡◌, refl, List, [], ◌∷◌, ◌++◌, some, ◌==◌, ◌⊎◌, inl, inr, arith, Bool-cases,
  Option-cases, update_rows,
}
use go_wallet_ledger.Models.Errors.{Error}
use go_wallet_ledger.Models.Outbox.{Event, Payload}
use go_wallet_ledger.Store.{World, Tables, Engine, Outcome, next, calls}
use go_wallet_ledger.Outbox.{
  mark_published, mark_failed, published, failed_once, publish, process_event,
}

-- The rows named by `id` got `change`, or, when the statement failed, no table has changed.
abbrev pub Marked : Engine → String → (ℕ → Event → Event) → Tables → Tables → Type 0
Marked e id change t t' =
    (t' ≡ t)
    ⊎ ((key : String) × (now : ℕ) × (e.parse_uuid id ≡ some key)
        × (t' ≡ record t {
          outbox_events = update_rows (λ (ev : Event). ev.id == key) (change now) t.outbox_events;
        }))

mark_published-Marked :
    (e : Engine) (id : String) (w : World)
    → Marked e id published w.tables (mark_published e id w).1.tables
unfolding mark_published calls
mark_published-Marked e id w = elim (Bool-cases (e.fault w.tick)) [
  | inl down ↦ inl (rw down refl)
  | inr up ↦ elim (Option-cases (e.parse_uuid id)) [
    | inl unread ↦ inl (rw (up, unread) refl)
    | inr (key, read) ↦ inr (key, e.now w.tick, read, rw (up, read) refl)
  ]
]

mark_failed-Marked :
    (e : Engine) (id : String) (error : Error) (w : World)
    → Marked e id (λ now. failed_once now error) w.tables (mark_failed e id error w).1.tables
unfolding mark_failed calls
mark_failed-Marked e id error w = elim (Bool-cases (e.fault w.tick)) [
  | inl down ↦ inl (rw down refl)
  | inr up ↦ elim (Option-cases (e.parse_uuid id)) [
    | inl unread ↦ inl (rw (up, unread) refl)
    | inr (key, read) ↦ inr (key, e.now w.tick, read, rw (up, read) refl)
  ]
]

mark_published-broker :
    (e : Engine) (id : String) (w : World) → (mark_published e id w).1.broker ≡ w.broker
unfolding mark_published calls
mark_published-broker e id w = ground arith

mark_failed-broker :
    (e : Engine) (id : String) (error : Error) (w : World)
    → (mark_failed e id error w).1.broker ≡ w.broker
unfolding mark_failed calls
mark_failed-broker e id error w = ground arith

-- The broker's records with the event's.
abbrev pub taken : Event → World → List (String × Payload)
taken ev w = w.broker ++ (ev.topic, ev.payload) ∷ []

-- An attempt: the broker has taken the event's record and its row is marked as published, or an error
-- was reported, whether or not the record was taken, and its row is marked as failed once more.
pub data Attempt (e : Engine) (ev : Event) (w w' : World) : Type 0 where
  delivered :
      w'.broker ≡ taken ev w → Marked e ev.id published w.tables w'.tables → Attempt e ev w w'
  reported :
      (error : Error)
      → (w'.broker ≡ w.broker) ⊎ (w'.broker ≡ taken ev w)
      → Marked e ev.id (λ now. failed_once now error) w.tables w'.tables
      → Attempt e ev w w'

Outcome-cases :
    (o : Outcome) → (o ≡ Outcome.committed) ⊎ ((o ≡ Outcome.aborted) ⊎ (o ≡ Outcome.in_doubt))
Outcome-cases Outcome.committed = inl refl
Outcome-cases Outcome.aborted = inr (inl refl)
Outcome-cases Outcome.in_doubt = inr (inr refl)

pub process_event-Attempt :
    (e : Engine) (ev : Event) (w : World) → Attempt e ev w (process_event e ev w)
unfolding process_event publish
process_event-Attempt e ev w = elim (Outcome-cases (e.delivery w.tick)) [
  | inl sure ↦
      let v = record (next w) { broker = taken ev w } in
      rw sure
        (Attempt.delivered (mark_published-broker e ev.id v) (mark_published-Marked e ev.id v))
  | inr (inl lost) ↦ rw lost (
      Attempt.reported Error.unavailable
        (inl (mark_failed-broker e ev.id Error.unavailable (next w)))
        (mark_failed-Marked e ev.id Error.unavailable (next w)))
  | inr (inr doubt) ↦
      let v = record (next w) { broker = taken ev w } in
      rw doubt (
        Attempt.reported Error.unavailable (inr (mark_failed-broker e ev.id Error.unavailable v))
          (mark_failed-Marked e ev.id Error.unavailable v))
]
