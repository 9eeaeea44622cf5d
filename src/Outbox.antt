-- ===== src/Outbox.antt =====
-- internal/outbox: the repository (repository.go) and the worker's batch (worker.go), with the
-- producer of internal/kafka/producer.go.
pub mod Insert
pub mod Growth
pub mod Retries
pub mod Delivery
pub mod Delivered
pub mod Published
use go_wallet_ledger.Base.{
  ℕ, suc, ◌+◌, ◌*◌, ◌^◌, String, List, [], ◌∷◌, ◌++◌, none, some, Bool, true, false, not, ◌==◌,
  ◌&&◌, if◌then◌else◌, leb, ltb, chars, some_row, keep, take, sort_by, update_rows, map,
}
use go_wallet_ledger.Models.Errors.{Error}
use go_wallet_ledger.Models.Outbox.{Event, EventStatus, Payload, is_pending}
use go_wallet_ledger.Store.{
  Engine, Tables, World, Outcome, Result, ok, err, Action, ◌>>=◌, ◌>>◌, pure, gets, write,
  statement, uuid, next,
}

abbrev pub event_constraints : Event → Tables → List (Bool × Error)
event_constraints row t =
    (leb (chars row.topic) 255, Error.value_too_long)
    ∷ (not (some_row (λ (r : Event). r.id == row.id) t.outbox_events), Error.unique_violation)
    ∷ []

-- A new row takes the defaults of the table.
abbrev pub event_row : Engine → ℕ → String → Payload → Event
event_row e n topic payload = record {
  id = e.fresh_id n;
  topic = topic;
  payload = payload;
  status = EventStatus.pending;
  attempts = 0;
  next_retry_at = e.now n;
  error_msg = none;
  created_at = e.now n;
  updated_at = e.now n;
}

-- `InsertEvent`, inside the caller's transaction.
unfoldable pub insert_event : Engine → String → Payload → Action (Unit {0})
insert_event e topic payload = statement e λ n. do
  write (event_constraints (event_row e n topic payload))
      (λ t. record t { outbox_events = t.outbox_events ++ event_row e n topic payload ∷ [] })
  pure tt

-- `WHERE status = 'PENDING' AND next_retry_at <= NOW()`
abbrev pub is_due : ℕ → Event → Bool
is_due now ev = is_pending ev.status && leb ev.next_retry_at now

abbrev pub due_events : ℕ → ℕ → List Event → List Event
due_events now limit rows = take limit (sort_by (λ ev. ev.created_at) (keep (is_due now) rows))

-- The columns that are scanned.
abbrev pub scanned_event : Event → Event
scanned_event ev = record ev { error_msg = none }

-- `FetchPendingEvents`
unfoldable pub fetch_pending_events : Engine → ℕ → Action (List Event)
fetch_pending_events e limit =
    statement e λ n. gets (λ t. map scanned_event (due_events (e.now n) limit t.outbox_events))

abbrev update_event : Engine → String → (Event → Event) → Action (Unit {0})
update_event e id change = do
  key ← uuid e id
  write (λ t. [])
      (λ t. record t { outbox_events = update_rows (λ ev. ev.id == key) change t.outbox_events })
  pure tt

-- `SET status = 'PUBLISHED', updated_at = NOW()`
abbrev pub published : ℕ → Event → Event
published now ev = record ev { status = EventStatus.published; updated_at = now }

-- `MarkPublished`
unfoldable pub mark_published : Engine → String → Action (Unit {0})
mark_published e id = statement e λ n. update_event e id (published (e.now n))

-- The SET list of `MarkFailed`: its right-hand sides read the row as it was.
abbrev pub failed_once : ℕ → Error → Event → Event
failed_once now error ev = record ev {
  attempts = ev.attempts + 1;
  error_msg = some error;
  next_retry_at = now + 10 * 2 ^ ev.attempts;
  status = if leb 5 ev.attempts then EventStatus.failed else EventStatus.pending;
  updated_at = now;
}

-- `MarkFailed`
unfoldable pub mark_failed : Engine → String → Error → Action (Unit {0})
mark_failed e id error = statement e λ n. update_event e id (failed_once (e.now n) error)

abbrev deliver : Outcome → String → Payload → World → Result (Unit {0}) × World
deliver Outcome.committed topic payload w =
    (ok tt, record w { broker = w.broker ++ (topic, payload) ∷ [] })
deliver Outcome.aborted topic payload w = (err Error.unavailable, w)
deliver Outcome.in_doubt topic payload w =
    (err Error.unavailable, record w { broker = w.broker ++ (topic, payload) ∷ [] })

-- `Publish`, which waits for the broker's answer.
unfoldable pub publish : Engine → String → Payload → Action (Unit {0})
publish e topic payload w = deliver (e.delivery w.tick) topic payload (next w)

-- The loop's body after `Publish`: the errors of both updates are only logged.
abbrev pub settle_event : Engine → Event → Result (Unit {0}) × World → World
settle_event e ev (ok _, w) = (mark_published e ev.id w).1
settle_event e ev (err error, w) = (mark_failed e ev.id error w).1

unfoldable pub process_event : Engine → Event → World → World
unfolding publish mark_published mark_failed
process_event e ev w = settle_event e ev (publish e ev.topic ev.payload w)

unfoldable pub process_events : Engine → List Event → World → World
unfolding process_event
process_events e [] w = w
process_events e (ev ∷ evs) w = process_events e evs (process_event e ev w)

abbrev pub process_fetched : Engine → Result (List Event) × World → World
process_fetched e (ok evs, w) = process_events e evs w
process_fetched e (err error, w) = w

-- `processBatch`
unfoldable pub process_batch : Engine → World → World
unfolding fetch_pending_events process_events
process_batch e w = process_fetched e (fetch_pending_events e 50 w)
