-- ===== src/Outbox/Growth.antt =====
-- What the services do to the outbox and to the broker: new events are added, and nothing is sent.
use go_wallet_ledger.Base.{
  ℕ, String, ◌≡◌, refl, ◌∙◌, List, [], ◌∷◌, ◌++◌, Bool, true, false, Bool-cases, inl, inr, Option,
  none, some, some_row, ◌==◌, arith,
}
use go_wallet_ledger.Models.Errors.{Error}
use go_wallet_ledger.Models.Outbox.{Event, Payload}
use go_wallet_ledger.Store.{
  World, Tables, Metrics, Engine, Result, ok, err, Action, Outcome, ◌>>=◌, ◌>>◌, continue, next,
  statement, transaction, conclude, close, or_raise, raise, wrap_error, wrapped, write, checked,
  violation, uuid, pure, gets, lift, guard, count_metric, clock,
}
use go_wallet_ledger.Outbox.{event_row, event_constraints, insert_event}

-- Rows that are new and pending, with ids that no row had, are added one by one.
pub data Grows (e : Engine) (rows : List Event) : List Event → Type 0 where
  same : {rows' : List Event} → rows' ≡ rows → Grows e rows rows'
  added :
      {rows' : List Event} (between : List Event) (n : ℕ) (topic : String) (payload : Payload)
      → Grows e rows between
      → some_row (λ (r : Event). r.id == e.fresh_id n) between ≡ false
      → rows' ≡ between ++ event_row e n topic payload ∷ []
      → Grows e rows rows'

pub Grows-trans : (e : Engine) (a b c : List Event) → Grows e a b → Grows e b c → Grows e a c
Grows-trans e a b c h (Grows.same eq) = rw eq h
Grows-trans e a b c h (Grows.added between n topic payload g unseen eq) =
    Grows.added between n topic payload (Grows-trans e a b between h g) unseen eq

abbrev pub Still : Engine → World → World → Type 0
Still e w w' = (w'.broker ≡ w.broker) × Grows e w.tables.outbox_events w'.tables.outbox_events

pub Still_refl : (e : Engine) (w : World) → Still e w w
Still_refl e w = (refl, Grows.same refl)

pub Still_trans : (e : Engine) (a b c : World) → Still e a b → Still e b c → Still e a c
Still_trans e a b c h k = (
  k.0 ∙ h.0,
  Grows-trans e a.tables.outbox_events b.tables.outbox_events c.tables.outbox_events h.1 k.1,
)

-- The action adds new events at most, and sends the broker nothing.
pub record Quiet {A : Type 0} (e : Engine) (m : Action A) : Type 0 where
  pub still : (w : World) → Still e w (m w).1

module _ {A : Type 0} (e : Engine) where
  pub pure-Quiet : (a : A) → Quiet e (pure a)
  unfolding pure
  pure-Quiet a = record { still = λ w. Still_refl e w }

  pub raise-Quiet : (x : Error) → Quiet e (raise {A = A} x)
  unfolding raise
  raise-Quiet x = record { still = λ w. Still_refl e w }

  pub or_raise-Quiet : (o : Option A) (x : Error) → Quiet e (or_raise o x)
  unfolding or_raise
  or_raise-Quiet none x = raise-Quiet x
  or_raise-Quiet (some a) x = pure-Quiet a

  pub lift-Quiet : (r : Result A) → Quiet e (lift r)
  unfolding lift
  lift-Quiet (ok a) = pure-Quiet a
  lift-Quiet (err x) = raise-Quiet x

  pub gets-Quiet : (f : Tables → A) → Quiet e (gets f)
  unfolding gets
  gets-Quiet f = record { still = λ w. Still_refl e w }

  wrapped-Still :
      (f : Error → Error) (w : World) (r : Result A × World)
      → Still e w r.1
      → Still e w (wrapped f r).1
  wrapped-Still f w (ok a, w') h = h
  wrapped-Still f w (err x, w') h = h

  pub wrap_error-Quiet : (f : Error → Error) (m : Action A) → Quiet e m → Quiet e (wrap_error f m)
  unfolding wrap_error
  wrap_error-Quiet f m h = record { still = λ w. wrapped-Still f w (m w) (h.still w) }

  pub statement-Quiet :
      (body : ℕ → Action A) → ((n : ℕ) → Quiet e (body n)) → Quiet e (statement e body)
  unfolding statement
  statement-Quiet body h = record {
    still = λ w. elim (Bool-cases (e.fault w.tick)) [
      | inl down ↦ rw down (Still_refl e w)
      | inr up ↦ rw up ((h w.tick).still (next w))
    ];
  }

  conclude-Still :
      (o : Outcome) (a : A) (w w' : World) → Still e w w' → Still e w (conclude o a w w').1
  conclude-Still Outcome.committed a w w' h = h
  conclude-Still Outcome.aborted a w w' h = (h.0, Grows.same refl)
  conclude-Still Outcome.in_doubt a w w' h = h

  close-Still : (w : World) (r : Result A × World) → Still e w r.1 → Still e w (close e w r).1
  close-Still w (ok a, w') h = conclude-Still (e.outcome w'.tick) a w (next w') h
  close-Still w (err x, w') h = (h.0, Grows.same refl)

  pub transaction-Quiet : (body : Action A) → Quiet e body → Quiet e (transaction e body)
  unfolding transaction
  transaction-Quiet body h = record {
    still = λ w. elim (Bool-cases (e.fault w.tick)) [
      | inl down ↦ rw down (Still_refl e w)
      | inr up ↦ rw up (close-Still w (body (next w)) (h.still (next w)))
    ];
  }

continue-Still :
    {A B : Type 0} (e : Engine) (f : A → Action B) (r : Result A × World) (w : World)
    → ((a : A) → Quiet e (f a))
    → Still e w r.1
    → Still e w (continue f r).1
continue-Still e f (ok a, w') w q h = Still_trans e w w' (f a w').1 h ((q a).still w')
continue-Still e f (err x, w') w q h = h

pub bind-Quiet :
    {A B : Type 0} (e : Engine) (m : Action A) (f : A → Action B)
    → Quiet e m
    → ((a : A) → Quiet e (f a))
    → Quiet e (m >>= f)
unfolding ◌>>=◌
bind-Quiet e m f h k = record { still = λ w. continue-Still e f (m w) w k (h.still w) }

module _ (e : Engine) where
  pub then-Quiet :
      {B : Type 0} (m : Action (Unit {0})) (k : Action B) → Quiet e m → Quiet e k → Quiet e (m >> k)
  unfolding ◌>>◌
  then-Quiet m k h l = record {
    still = λ w. continue-Still e (λ _. k) (m w) w (λ _. l) (h.still w);
  }

  pub guard-Quiet : (b : Bool) (x : Error) → Quiet e (guard b x)
  unfolding guard
  guard-Quiet true x = pure-Quiet e tt
  guard-Quiet false x = raise-Quiet e x

  pub count_metric-Quiet : (f : Metrics → Metrics) → Quiet e (count_metric f)
  unfolding count_metric
  count_metric-Quiet f = record { still = λ w. Still_refl e w }

  pub clock-Quiet : Quiet e (clock e)
  unfolding clock
  clock-Quiet = record { still = λ w. Still_refl e w }

  pub uuid-Quiet : (s : String) → Quiet e (uuid e s)
  unfolding uuid
  uuid-Quiet s = or_raise-Quiet e (e.parse_uuid s) Error.invalid_uuid

  checked-Still :
      (o : Option Error) (change : Tables → Tables) (w : World)
      → (o ≡ none → Grows e w.tables.outbox_events (change w.tables).outbox_events)
      → Still e w (checked o change w).1
  checked-Still none change w h = (refl, h refl)
  checked-Still (some x) change w h = Still_refl e w

  -- An INSERT or an UPDATE of another table.
  pub write-Quiet :
      (constraints : Tables → List (Bool × Error)) (change : Tables → Tables)
      → ((t : Tables) → (change t).outbox_events ≡ t.outbox_events)
      → Quiet e (write constraints change)
  unfolding write
  write-Quiet constraints change h = record {
    still = λ w.
        checked-Still (violation (constraints w.tables)) change w (λ _. Grows.same (h w.tables));
  }

  unseen_lem :
      (row : Event) (t : Tables)
      → violation (event_constraints row t) ≡ none
      → some_row (λ (r : Event). r.id == row.id) t.outbox_events ≡ false
  unseen_lem row t h = ground arith

  written-Quiet :
      (n : ℕ) (topic : String) (payload : Payload)
      → Quiet e (
          write
            (event_constraints (event_row e n topic payload))
            (λ t. record t { outbox_events = t.outbox_events ++ event_row e n topic payload ∷ [] }))
  unfolding write
  written-Quiet n topic payload = record {
    still = λ w.
        checked-Still (violation (event_constraints (event_row e n topic payload) w.tables)) _ w
          λ holds.
            Grows.added w.tables.outbox_events n topic payload (Grows.same refl)
              (unseen_lem (event_row e n topic payload) w.tables holds) refl;
  }

  pub insert_event-Quiet :
      (topic : String) (payload : Payload) → Quiet e (insert_event e topic payload)
  unfolding insert_event
  insert_event-Quiet topic payload =
      statement-Quiet e _ λ n. then-Quiet _ _ (written-Quiet n topic payload) (pure-Quiet e tt)

pub ruleset quiet = (
  refl, pure-Quiet, raise-Quiet, or_raise-Quiet, lift-Quiet, gets-Quiet, wrap_error-Quiet,
  statement-Quiet, transaction-Quiet, bind-Quiet, then-Quiet, guard-Quiet, count_metric-Quiet,
  clock-Quiet, uuid-Quiet, write-Quiet,
)
