-- ===== src/Server/Histories.antt =====
-- cmd/api/main.go: what the process does over its life, requests through internal/server/server.go and
-- turns of the two workers, and what it keeps of the tables.
use go_wallet_ledger.Base.{ℕ, subst, sym, List, [], ◌∷◌, Bool, none, String, All}
use go_wallet_ledger.Models.Auth.{User}
use go_wallet_ledger.Store.{Engine, World, Tables}
use go_wallet_ledger.Books.{IsFaithful, IsSound}
use go_wallet_ledger.Outbox.{process_batch}
use go_wallet_ledger.Reconciliation.{run_reconciliation}
use go_wallet_ledger.System.{start}
use go_wallet_ledger.Models.Outbox.{Payload}
use go_wallet_ledger.Outbox.Delivered.{IsDelivered}
use go_wallet_ledger.Outbox.Retries.{IsRetried}
use go_wallet_ledger.System.Kept.{Keeps-Maintains}
use go_wallet_ledger.System.Maintained.{Maintains, At, perform-At}
use go_wallet_ledger.System.Events.{
  ConsistentOutbox, Consistent-Maintains, RetriedOutbox, AllRetried-Maintains,
}
use go_wallet_ledger.System.Books.{IsSound-Keeps}
use go_wallet_ledger.Server.{Request, Wiring, Process, serve}
use go_wallet_ledger.Server.Groups.{Does}
use go_wallet_ledger.Server.Routes.{serve-Does}

-- A request, with what Redis answers the rate limiter, or a turn of a worker.
pub data Happening : Type 0 where
  requested : Bool → ℕ → Request → Happening
  outbox_turn reconciliation_turn : Happening

module _ (e : Engine) (c : Wiring) (has_redis : Bool) where
  abbrev pub happen : Happening → Process → Process
  happen (Happening.requested fails now r) s = (serve e c has_redis fails now r s).1
  happen Happening.outbox_turn s = record s { world = process_batch e s.world }
  happen Happening.reconciliation_turn s = record s { world = run_reconciliation e s.world }

  abbrev pub happen_all : List Happening → Process → Process
  happen_all [] s = s
  happen_all (x ∷ xs) s = happen_all xs (happen x s)

  module _ (I : Tables → List (String × Payload) → Type 0) (keeps : Maintains e c.crypto I) where
    Does-At :
        (r : Request) (path : List String) (w w' : World) → Does e c r path w w' → At I w → At I w'
    Does-At r path w w' (Does.calls call granted same) h =
        subst (λ (v : World). At I v) (sym same)
          (perform-At e c.crypto I keeps c.hmac c.secret call w h)
    Does-At r path w w' (Does.nothing same) h = subst (λ (v : World). At I v) (sym same) h
    Does-At r path w w' (Does.pings at got same) h = subst (λ (v : World). At I v) (sym same) h

    happen-At : (x : Happening) (s : Process) → At I s.world → At I (happen x s).world
    happen-At (Happening.requested fails now r) s h =
        Does-At r r.path s.world (serve e c has_redis fails now r s).1.world
          (serve-Does e c has_redis fails now r s) h
    happen-At Happening.outbox_turn s h = keeps.batched s.world h
    happen-At Happening.reconciliation_turn s h = keeps.reconciled s.world h

    -- What the services' operations keep holds at any time.
    pub happen_all-At :
        (xs : List Happening) (s : Process) → At I s.world → At I (happen_all xs s).world
    happen_all-At [] s h = h
    happen_all-At (x ∷ xs) s h = happen_all-At xs (happen x s) (happen-At x s h)

-- The process before its first request, over the migrated database with some users.
abbrev pub started : List User → Process
started users = record { world = start users; cache = λ key. none; requests_total = [] }

-- From any tables that are sound, among them those of the migrated database, after any requests,
-- whatever they ask for and whoever sends them, and any turns of the workers, in any order, however the
-- database, the broker and Redis behave: each wallet's balances add up to the credits less the debits
-- of its account, no balance is negative, and over all entries the debits are the credits. The
-- hypothesis on the engine is the documented behaviour of UUIDs.
pub happen_all-IsSound :
    (e : Engine) (c : Wiring) (has_redis : Bool) (s : Process) (xs : List Happening)
    → IsFaithful e
    → IsSound e s.world.tables
    → IsSound e (happen_all e c has_redis xs s).world.tables
happen_all-IsSound e c has_redis s xs faithful sound =
    happen_all-At e c has_redis (λ t broker. IsSound e t)
      (Keeps-Maintains e c.crypto (IsSound e) (IsSound-Keeps e faithful c.crypto)) xs s sound

-- From the migrated database with any users, after any requests and any turns of the workers, however
-- the database and the broker behave: the broker has the topic and the payload of each event that is
-- marked as published. The hypothesis on the engine is the documented behaviour of UUIDs.
pub happen_all-IsDelivered :
    (e : Engine) (c : Wiring) (has_redis : Bool) (users : List User) (xs : List Happening)
    → IsFaithful e
    → let s = happen_all e c has_redis xs (started users) in
      All (IsDelivered s.world.broker) s.world.tables.outbox_events
happen_all-IsDelivered e c has_redis users xs faithful =
    (happen_all-At e c has_redis (ConsistentOutbox e) (Consistent-Maintains e c.crypto faithful) xs
      (started users) (record { agree = tt; canonical = tt; delivered = tt })).delivered

-- From the migrated database with any users, after any requests and any turns of the workers: an event
-- that is still pending has failed at most five times, and one that was given up at least six times.
pub happen_all-IsRetried :
    (e : Engine) (c : Wiring) (has_redis : Bool) (users : List User) (xs : List Happening)
    → All IsRetried (happen_all e c has_redis xs (started users)).world.tables.outbox_events
happen_all-IsRetried e c has_redis users xs =
    happen_all-At e c has_redis RetriedOutbox (AllRetried-Maintains e c.crypto) xs (started users)
      tt
