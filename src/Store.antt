-- ===== src/Store.antt =====
-- The state that the packages share: the tables of db/migrations, the process's counters
-- (internal/observability/metrics.go) and the topics of the broker. A call of the database or the
-- broker is a step of `World`: what those services answer beyond the tables is the parameter
-- `Engine`.
pub mod Laws
use go_wallet_ledger.Base.{
  ℕ, suc, String, List, [], ◌∷◌, Option, none, some, Bool, true, false, if◌then◌else◌,
}
use go_wallet_ledger.Models.Errors.{Error}
use go_wallet_ledger.Models.Auth.{User}
use go_wallet_ledger.Models.Ledger
use go_wallet_ledger.Models.Wallets.{Account, Wallet}
use go_wallet_ledger.Models.Transfers.{Transfer}
use go_wallet_ledger.Models.Idempotency.{KeyRecord}
use go_wallet_ledger.Models.Payments.{Payment, WebhookEvent, PaymentStatus}
use go_wallet_ledger.Models.Outbox.{Event, Payload}
use go_wallet_ledger.Models.Reconciliation.{Run, Item}

-- The tables, each a list of rows, the oldest first. A ledger transaction is stored without its
-- entries, which are rows of `ledger_entries`.
pub record Tables : Type 0 where
  pub users : List User
  pub accounts : List Account
  pub wallets : List Wallet
  pub ledger_transactions : List Ledger.Transaction
  pub ledger_entries : List Ledger.Entry
  pub idempotency_keys : List KeyRecord
  pub transfers : List Transfer
  pub payments : List Payment
  pub webhook_events : List WebhookEvent
  pub outbox_events : List Event
  pub reconciliation_runs : List Run
  pub reconciliation_items : List Item

-- The counters `transfers_total` by outcome, and `payments_total` as the statuses recorded.
pub record Metrics : Type 0 where
  pub transfers_succeeded : ℕ
  pub transfers_failed : ℕ
  pub payments_recorded : List PaymentStatus

-- `tick` counts the calls made so far, and `broker` holds the records that were delivered.
pub record World : Type 0 where
  pub tables : Tables
  pub metrics : Metrics
  pub broker : List (String × Payload)
  pub tick : ℕ

-- How a COMMIT ends: durable, rolled back with an error, or durable although the client sees an
-- error (the connection broke while the answer was under way).
pub data Outcome : Type 0 where
  committed aborted in_doubt : Outcome

-- What the services decide at their `n`-th call: whether the call fails for a reason that no
-- table shows, the id that `gen_random_uuid()` gives, the value of `NOW()`, the end of a COMMIT,
-- and of a publication, which may likewise be taken although an error is reported. `parse_uuid` reads a text parameter of a UUID column,
-- and answers in the canonical text in which a UUID is scanned back.
pub record Engine : Type 0 where
  pub fault : ℕ → Bool
  pub fresh_id : ℕ → String
  pub now : ℕ → ℕ
  pub outcome : ℕ → Outcome
  pub delivery : ℕ → Outcome
  pub parse_uuid : String → Option String

pub data Result (A : Type 0) : Type 0 where
  ok : A → Result A
  err : Error → Result A

abbrev pub Action : Type 0 → Type 0
Action A = World → Result A × World

module _ {A : Type 0} where
  unfoldable pub pure : A → Action A
  pure a w = (ok a, w)

  unfoldable pub raise : Error → Action A
  raise x w = (err x, w)

  unfoldable pub or_raise : Option A → Error → Action A
  unfolding pure raise
  or_raise none x = raise x
  or_raise (some a) x = pure a

  -- A result that needs no call.
  unfoldable pub lift : Result A → Action A
  unfolding pure raise
  lift (ok a) = pure a
  lift (err x) = raise x

  unfoldable pub gets : (Tables → A) → Action A
  gets f w = (ok (f w.tables), w)

  abbrev pub wrapped : (Error → Error) → Result A × World → Result A × World
  wrapped f (ok a, w) = (ok a, w)
  wrapped f (err x, w) = (err (f x), w)

  -- `fmt.Errorf("…: %w", err)`
  unfoldable pub wrap_error : (Error → Error) → Action A → Action A
  wrap_error f m w = wrapped f (m w)

abbrev pub continue : {A B : Type 0} → (A → Action B) → Result A × World → Result B × World
continue f (ok a, w) = f a w
continue f (err x, w) = (err x, w)

infixl 5 ◌>>=◌ ◌>>◌
unfoldable pub ◌>>=◌ : {A B : Type 0} → Action A → (A → Action B) → Action B
◌>>=◌ m f w = continue f (m w)

unfoldable pub ◌>>◌ : {B : Type 0} → Action (Unit {0}) → Action B → Action B
◌>>◌ m k w = continue (λ _. k) (m w)

unfoldable pub guard : Bool → Error → Action (Unit {0})
unfolding pure raise
guard true x = pure tt
guard false x = raise x

unfoldable pub count_metric : (Metrics → Metrics) → Action (Unit {0})
count_metric f w = (ok tt, record w { metrics = f w.metrics })

abbrev pub next : World → World
next w = record w { tick = suc w.tick }

-- `time.Now()`
unfoldable pub clock : Engine → Action ℕ
clock e w = (ok (e.now w.tick), w)

-- One call of the database: it may fail before it reads or writes anything.
unfoldable pub statement : {A : Type 0} → Engine → (ℕ → Action A) → Action A
statement e body w =
    if e.fault w.tick then (err Error.unavailable, next w) else body w.tick (next w)

-- `Begin`, the statements, and `Commit`. An error on the way runs the deferred `Rollback`, which
-- restores the tables and nothing else.
abbrev pub rollback : World → World → World
rollback w w' = record w' { tables = w.tables }

abbrev pub conclude : {A : Type 0} → Outcome → A → World → World → Result A × World
conclude Outcome.committed a w w' = (ok a, w')
conclude Outcome.aborted a w w' = (err Error.unavailable, rollback w w')
conclude Outcome.in_doubt a w w' = (err Error.unavailable, w')

abbrev pub close : {A : Type 0} → Engine → World → Result A × World → Result A × World
close e w (ok a, w') = conclude (e.outcome w'.tick) a w (next w')
close e w (err x, w') = (err x, rollback w w')

unfoldable pub transaction : {A : Type 0} → Engine → Action A → Action A
transaction e body w =
    if e.fault w.tick then (err Error.unavailable, next w) else close e w (body (next w))

-- The first constraint that does not hold.
abbrev pub violation : List (Bool × Error) → Option Error
violation [] = none
violation ((holds, x) ∷ rest) = if holds then violation rest else some x

-- An INSERT or an UPDATE: the constraints of the table, then the change.
abbrev pub checked : Option Error → (Tables → Tables) → World → Result (Unit {0}) × World
checked none change w = (ok tt, record w { tables = change w.tables })
checked (some x) change w = (err x, w)

unfoldable pub write : (Tables → List (Bool × Error)) → (Tables → Tables) → Action (Unit {0})
write constraints change w = checked (violation (constraints w.tables)) change w

-- A text parameter of a UUID column.
unfoldable pub uuid : Engine → String → Action String
unfolding or_raise
uuid e s = or_raise (e.parse_uuid s) Error.invalid_uuid

-- Stands for the whole vocabulary of calls on an `unfolding` line.
unfoldable pub calls : Unit {0}
unfolding pure raise or_raise lift gets wrap_error ◌>>=◌ ◌>>◌ guard count_metric clock statement
    transaction write uuid
calls = tt
