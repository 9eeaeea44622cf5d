-- ===== src/Outbox/Retries.antt =====
-- How often the worker tries to publish an event.
use go_wallet_ledger.Base.{
  ℕ, String, ◌≡◌, ◌≤◌, List, [], ◌∷◌, ◌==◌, All, All-update_rows, arith, if◌then◌else◌, leb,
  Bool-cases, Option-cases, inl, inr,
}
use go_wallet_ledger.Models.Errors.{Error}
use go_wallet_ledger.Models.Outbox.{Event, EventStatus, Payload}
use go_wallet_ledger.Store.{World, Tables, Engine, Result, ok, err, next, calls}
use go_wallet_ledger.Outbox.{
  mark_published, mark_failed, published, failed_once, publish, process_event, process_events,
  process_batch, fetch_pending_events, process_fetched, settle_event,
}

-- A pending event has failed at most five times, one that is given up at least six times.
abbrev pub Bounded : EventStatus → ℕ → Type 0
Bounded EventStatus.pending attempts = attempts ≤ 5
Bounded EventStatus.published attempts = Unit
Bounded EventStatus.failed attempts = 6 ≤ attempts

abbrev pub IsRetried : Event → Type 0
IsRetried ev = Bounded ev.status ev.attempts

published-IsRetried : (now : ℕ) (ev : Event) → IsRetried ev → IsRetried (published now ev)
published-IsRetried now ev h = tt

failed_once-IsRetried :
    (now : ℕ) (error : Error) (ev : Event) → IsRetried ev → IsRetried (failed_once now error ev)
failed_once-IsRetried now error ev h = elim (Bool-cases (leb 5 ev.attempts)) [
  | inl last ↦ rw last (ground arith)
  | inr early ↦ rw early (ground arith)
]

abbrev pub AllRetried : Tables → Type 0
AllRetried t = All IsRetried t.outbox_events

updated-AllRetried :
    (key : String) (f : Event → Event) (rows : List Event)
    → ((ev : Event) → IsRetried ev → IsRetried (f ev))
    → All IsRetried rows
    → (ev : Event) → IsRetried ev
    → IsRetried (if ev.id == key then f ev else ev)
updated-AllRetried key f rows step h ev r = elim (Bool-cases (ev.id == key)) [
  | inl hit ↦ rw hit (step ev r)
  | inr miss ↦ rw miss r
]

mark_published-AllRetried :
    (e : Engine) (id : String) (w : World)
    → AllRetried w.tables
    → AllRetried (mark_published e id w).1.tables
unfolding mark_published calls
mark_published-AllRetried e id w h = elim (Option-cases (e.parse_uuid id)) [
  | inl unread ↦ rw unread (ground arith)
  | inr (key, read) ↦ rw read (
      ground (
        arith,
        All-update_rows IsRetried IsRetried (λ (ev : Event). ev.id == key)
            (published (e.now w.tick))
            (updated-AllRetried key (published (e.now w.tick)) w.tables.outbox_events
              (published-IsRetried (e.now w.tick)) h)
            w.tables.outbox_events h,
      ))
]

mark_failed-AllRetried :
    (e : Engine) (id : String) (error : Error) (w : World)
    → AllRetried w.tables
    → AllRetried (mark_failed e id error w).1.tables
unfolding mark_failed calls
mark_failed-AllRetried e id error w h = elim (Option-cases (e.parse_uuid id)) [
  | inl unread ↦ rw unread (ground arith)
  | inr (key, read) ↦ rw read (
      ground (
        arith,
        All-update_rows IsRetried IsRetried (λ (ev : Event). ev.id == key)
            (failed_once (e.now w.tick) error)
            (updated-AllRetried key (failed_once (e.now w.tick) error) w.tables.outbox_events
              (failed_once-IsRetried (e.now w.tick) error) h)
            w.tables.outbox_events h,
      ))
]

pub publish-tables :
    (e : Engine) (topic : String) (payload : Payload) (w : World)
    → (publish e topic payload w).1.tables ≡ w.tables
unfolding publish
publish-tables e topic payload w = ground arith

settle_event-AllRetried :
    (e : Engine) (ev : Event) (r : Result (Unit {0}) × World)
    → AllRetried r.1.tables
    → AllRetried (settle_event e ev r).tables
settle_event-AllRetried e ev (ok done, w) h = mark_published-AllRetried e ev.id w h
settle_event-AllRetried e ev (err error, w) h = mark_failed-AllRetried e ev.id error w h

process_event-AllRetried :
    (e : Engine) (ev : Event) (w : World)
    → AllRetried w.tables
    → AllRetried (process_event e ev w).tables
unfolding process_event
process_event-AllRetried e ev w h =
    settle_event-AllRetried e ev (publish e ev.topic ev.payload w)
      (rw (publish-tables e ev.topic ev.payload w) h)

process_events-AllRetried :
    (e : Engine) (evs : List Event) (w : World)
    → AllRetried w.tables
    → AllRetried (process_events e evs w).tables
unfolding process_events
process_events-AllRetried e [] w h = h
process_events-AllRetried e (ev ∷ evs) w h =
    process_events-AllRetried e evs (process_event e ev w) (process_event-AllRetried e ev w h)

pub fetch-tables :
    (e : Engine) (limit : ℕ) (w : World) → (fetch_pending_events e limit w).1 ≡ next w
unfolding fetch_pending_events calls
fetch-tables e limit w = ground arith

fetched-AllRetried :
    (e : Engine) (r : Result (List Event) × World)
    → AllRetried r.1.tables
    → AllRetried (process_fetched e r).tables
fetched-AllRetried e (ok evs, w) h = process_events-AllRetried e evs w h
fetched-AllRetried e (err x, w) h = h

-- A batch of the worker, on every path, keeps the bounds: an event that is still pending has failed
-- at most five times, and one is given up only after its sixth failure.
pub process_batch-AllRetried :
    (e : Engine) (w : World) → AllRetried w.tables → AllRetried (process_batch e w).tables
unfolding process_batch
process_batch-AllRetried e w h =
    fetched-AllRetried e (fetch_pending_events e 50 w) (rw (fetch-tables e 50 w) h)
