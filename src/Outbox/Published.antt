-- ===== src/Outbox/Published.antt =====
-- internal/outbox/worker.go: a batch, and the events that it marks as published.
use go_wallet_ledger.Base.{
  ℕ, String, ◌≡◌, refl, sym, ap, ◌∙◌, List, [], ◌∷◌, ◌++◌, false, ◌==◌, inl, inr, Bool-cases,
  some_eq, some_row, All, All-map, All-append, All-keep, All-take, All-sort_by, All-mapped, All-zip,
  update_rows, map, arith,
}
use mathlib.Core.List.Memᴰ
use mathlib.Core.List.{Memᴰ}
use go_wallet_ledger.Models.Errors.{Error}
use go_wallet_ledger.Models.Outbox.{Event, Payload}
use go_wallet_ledger.Store.{World, Tables, Engine, next, statement, gets}
use go_wallet_ledger.Books.{IsFaithful}
use go_wallet_ledger.Outbox.{
  published, failed_once, process_event, process_events, process_batch, fetch_pending_events,
  due_events, is_due, scanned_event, event_row,
}
use go_wallet_ledger.Outbox.Growth.{Grows}
use go_wallet_ledger.Outbox.Delivery.{Attempt, Marked, taken, process_event-Attempt}
use go_wallet_ledger.Outbox.Delivered.{
  Agrees, IsCanonical, Consistent, IsDelivered, updated-agree, updated-Agrees, updated-IsCanonical,
  published-IsDelivered, failed-IsDelivered, later-Consistent,
}

module _ (e : Engine) where
  -- The rows agree with the event, whose id is canonical.
  abbrev Fetched : List Event → Event → Type 0
  Fetched rows ev = All (Agrees ev) rows × IsCanonical e ev

  -- A step of the worker: it keeps the agreement, also with the events that follow.
  record Stepped (rows rows' : List Event) (broker : List (String × Payload)) : Type 0 where
    consistent : Consistent e rows' broker
    others : (ev : Event) → All (Agrees ev) rows → All (Agrees ev) rows'

  unchanged-Stepped :
      (rows rows' : List Event) (broker : List (String × Payload))
      → rows' ≡ rows
      → Consistent e rows broker
      → Stepped rows rows' broker
  unchanged-Stepped rows rows' broker same h =
      rw same (record { consistent = h; others = λ ev a. a })

  published-Stepped :
      (ev : Event) (now : ℕ) (rows : List Event) (broker : List (String × Payload))
      → Fetched rows ev
      → Memᴰ (ev.topic, ev.payload) broker
      → Consistent e rows broker
      → Stepped rows (update_rows (λ (r : Event). r.id == ev.id) (published now) rows) broker
  published-Stepped ev now rows broker f sent h =
      let p = λ (r : Event). r.id == ev.id in
      record {
        consistent = record {
          agree = updated-agree e p (published now) (λ z. (refl, refl, refl)) rows h.agree;
          canonical =
              updated-IsCanonical e p (published now) (λ z. (refl, refl, refl)) rows h.canonical;
          delivered = published-IsDelivered e ev now broker sent rows f.0 h.delivered;
        };
        others =
            λ other a. updated-Agrees e p (published now) (λ z. (refl, refl, refl)) other rows a;
      }

  failed-Stepped :
      (key : String) (now : ℕ) (error : Error) (rows : List Event)
      (broker : List (String × Payload))
      → Consistent e rows broker
      → Stepped rows (update_rows (λ (r : Event). r.id == key) (failed_once now error) rows) broker
  failed-Stepped key now error rows broker h =
      let p = λ (r : Event). r.id == key in
      record {
        consistent = record {
          agree = updated-agree e p (failed_once now error) (λ z. (refl, refl, refl)) rows h.agree;
          canonical =
              updated-IsCanonical e p (failed_once now error) (λ z. (refl, refl, refl)) rows
                h.canonical;
          delivered = failed-IsDelivered e p now error broker rows h.delivered;
        };
        others = λ other a.
            updated-Agrees e p (failed_once now error) (λ z. (refl, refl, refl)) other rows a;
      }

  Marked-published :
      (ev : Event) (t t' : Tables) (broker : List (String × Payload))
      → Fetched t.outbox_events ev
      → Memᴰ (ev.topic, ev.payload) broker
      → Consistent e t.outbox_events broker
      → Marked e ev.id published t t'
      → Stepped t.outbox_events t'.outbox_events broker
  Marked-published ev t t' broker f sent h (inl same) =
      unchanged-Stepped t.outbox_events t'.outbox_events broker
        (ap (λ (u : Tables). u.outbox_events) same) h
  Marked-published ev t t' broker f sent h (inr (key, now, read, tables)) =
      let own : key ≡ ev.id = some_eq (sym read ∙ f.1) in
      rw (tables, own) (published-Stepped ev now t.outbox_events broker f sent h)

  Marked-failed :
      (ev : Event) (error : Error) (t t' : Tables) (broker : List (String × Payload))
      → Consistent e t.outbox_events broker
      → Marked e ev.id (λ now. failed_once now error) t t'
      → Stepped t.outbox_events t'.outbox_events broker
  Marked-failed ev error t t' broker h (inl same) =
      unchanged-Stepped t.outbox_events t'.outbox_events broker
        (ap (λ (u : Tables). u.outbox_events) same) h
  Marked-failed ev error t t' broker h (inr (key, now, read, tables)) =
      rw tables (failed-Stepped key now error t.outbox_events broker h)

  attempted_Stepped :
      (ev : Event) (w w' : World)
      → Fetched w.tables.outbox_events ev
      → Consistent e w.tables.outbox_events w.broker
      → Attempt e ev w w'
      → Stepped w.tables.outbox_events w'.tables.outbox_events w'.broker
  attempted_Stepped ev w w' f h (Attempt.delivered sent marked) = rw sent (
      Marked-published ev w.tables w'.tables (taken ev w) f
        (Memᴰ.append_right w.broker (Memᴰ.head refl))
        (later-Consistent e w.tables.outbox_events w.broker ((ev.topic, ev.payload) ∷ []) h) marked)
  attempted_Stepped ev w w' f h (Attempt.reported error (inl none_sent) marked) =
      rw none_sent (Marked-failed ev error w.tables w'.tables w.broker h marked)
  attempted_Stepped ev w w' f h (Attempt.reported error (inr sent) marked) = rw sent (
      Marked-failed ev error w.tables w'.tables (taken ev w)
        (later-Consistent e w.tables.outbox_events w.broker ((ev.topic, ev.payload) ∷ []) h) marked)

  process_events-Consistent :
      (evs : List Event) (w : World)
      → All (Fetched w.tables.outbox_events) evs
      → Consistent e w.tables.outbox_events w.broker
      → let w' = process_events e evs w in Consistent e w'.tables.outbox_events w'.broker
  unfolding process_events
  process_events-Consistent [] w f h = h
  process_events-Consistent (ev ∷ evs) w f h =
      let w' = process_event e ev w in
      let s = attempted_Stepped ev w w' f.0 h (process_event-Attempt e ev w) in
      process_events-Consistent evs w'
        (All-map (Fetched w.tables.outbox_events) (Fetched w'.tables.outbox_events)
          (λ other g. (s.others other g.0, g.1)) evs f.1)
        s.consistent

  -- The events that a batch fetches are rows.
  due_Fetched :
      (now limit : ℕ) (rows : List Event) (broker : List (String × Payload))
      → Consistent e rows broker
      → All (Fetched rows) (map scanned_event (due_events now limit rows))
  due_Fetched now limit rows broker h =
      All-mapped (Fetched rows) (Fetched rows) scanned_event (λ ev f. f) (due_events now limit rows)
        (All-take (Fetched rows) limit _ (
          All-sort_by (Fetched rows) (λ (ev : Event). ev.created_at) _
            (All-keep (Fetched rows) (is_due now) rows (
              All-zip (λ (ev : Event). All (Agrees ev) rows) (IsCanonical e) rows h.agree
                h.canonical))))

  pub process_batch-Consistent :
      (w : World)
      → Consistent e w.tables.outbox_events w.broker
      → let w' = process_batch e w in Consistent e w'.tables.outbox_events w'.broker
  unfolding process_batch fetch_pending_events statement gets
  process_batch-Consistent w h = elim (Bool-cases (e.fault w.tick)) [
    | inl down ↦ rw down h
    | inr up ↦ rw up (
        process_events-Consistent _ (next w)
          (due_Fetched (e.now w.tick) 50 w.tables.outbox_events w.broker h) h)
  ]

absent_All :
    (rows : List Event) (id : String)
    → some_row (λ (r : Event). r.id == id) rows ≡ false
    → All (λ (r : Event). (r.id == id) ≡ false) rows
absent_All [] id h = tt
absent_All (r ∷ rows) id h = (ground arith, absent_All rows id (ground arith))

other_way : (a b : String) → (a == b) ≡ false → (b == a) ≡ false
other_way a b h = ground arith

module _ (e : Engine) (faithful : IsFaithful e) (broker : List (String × Payload)) where
  added-Consistent :
      (rows : List Event) (n : ℕ) (topic : String) (payload : Payload)
      → some_row (λ (r : Event). r.id == e.fresh_id n) rows ≡ false
      → Consistent e rows broker
      → Consistent e (rows ++ event_row e n topic payload ∷ []) broker
  added-Consistent rows n topic payload unseen h =
      let row = event_row e n topic payload in
      let new = absent_All rows (e.fresh_id n) unseen in
      record {
        agree =
            All-append (λ (ev : Event). All (Agrees ev) (rows ++ row ∷ [])) rows (row ∷ [])
              (All-map (λ (ev : Event). All (Agrees ev) rows × ((ev.id == e.fresh_id n) ≡ false))
                (λ (ev : Event). All (Agrees ev) (rows ++ row ∷ []))
                (λ ev a.
                  All-append (Agrees ev) rows (row ∷ []) a.0
                    (inl (other_way ev.id (e.fresh_id n) a.1), tt))
                rows
                (All-zip (λ (ev : Event). All (Agrees ev) rows)
                  (λ (ev : Event). (ev.id == e.fresh_id n) ≡ false) rows h.agree new))
              (
                All-append (Agrees row) rows (row ∷ [])
                    (All-map (λ (r : Event). (r.id == e.fresh_id n) ≡ false) (Agrees row)
                      (λ r differ. inl differ) rows new)
                    (inr (refl, refl), tt),
                tt,
              );
        canonical =
            All-append (IsCanonical e) rows (row ∷ []) h.canonical (faithful.fresh_canonical n, tt);
        delivered = All-append (IsDelivered broker) rows (row ∷ []) h.delivered (tt, tt);
      }

  pub Grows-Consistent :
      (rows rows' : List Event)
      → Grows e rows rows'
      → Consistent e rows broker
      → Consistent e rows' broker
  Grows-Consistent rows rows' (Grows.same eq) h = rw eq h
  Grows-Consistent rows rows' (Grows.added between n topic payload g unseen eq) h =
      rw eq (added-Consistent between n topic payload unseen (Grows-Consistent rows between g h))
