-- ===== src/Examples/Concurrent.antt =====
-- Two transfers between the same wallets, in opposite directions, at the same time.
use go_wallet_ledger.Base.{
  ℕ, zero, suc, ◌*◌, ◌≤◌, ◌<◌, String, ◌≡◌, ◌≢◌, refl, ap, some, true, false, ◌==◌, String_discrete,
  ℕ_discrete, arith, find_row,
}
use go_wallet_ledger.Base.Int.{pos, ◌+ℤ◌, ◌-ℤ◌, ◌+₆₄◌, wrap}
use go_wallet_ledger.Models.Wallets.{WalletStatus, has_id}
use go_wallet_ledger.Models.Transfers.{CreateTransferRequest, Transfer, TransferStatus}
use go_wallet_ledger.Store.{ok, calls}
use go_wallet_ledger.Ledger.{tally, entry_error}
use go_wallet_ledger.Books.{IsSound}
use go_wallet_ledger.Transfers.{
  lock_order, lock_wallet, select_for_update, validate_and_settle, assign,
}
use go_wallet_ledger.Transfers.Effects.{Contract}
use go_wallet_ledger.Locks.{
  idle, ended, advance, is_ended, System, turn, IsGranted, session, Reach, start, later,
}
use go_wallet_ledger.Locks.Freshness.{IsValid}
use go_wallet_ledger.Locks.Contracts.{Reach-IsSound, turn-Contract}
use go_wallet_ledger.Locks.Order.{IsCanonical}
use go_wallet_ledger.Locks.Progress.{Reach-Goes}
use go_wallet_ledger.Locks.Schedules.{Turns, none_yet, and_then, Reach-ends}
use go_wallet_ledger.Locks.Crossed.{Reach-Deadlock}
use go_wallet_ledger.Examples.{calm, plain, ids, request, wallet, world}
use go_wallet_ledger.Examples.Faith.{calm-IsFaithful, tables-IsSound}
use go_wallet_ledger.Examples.Swap.{loose, shouted}

abbrev back : CreateTransferRequest
back = record {
  source_wallet_id = "w2";
  destination_wallet_id = "w1";
  amount = pos 10;
  currency = "USD";
}

abbrev requests : ℕ → CreateTransferRequest
requests zero = request 40
requests (suc n) = back

abbrev keys : ℕ → String
keys n = "k1"

abbrev hmac : String → String → String
hmac secret body = body

abbrev called : System
called = record { world = world WalletStatus.active; stage = λ _. idle }

abbrev go : ℕ → System → System
go = turn calm requests keys

-- Both begin, and the first locks the wallet that the second asks for.
abbrev one_begun : System
one_begun = go 0 called

abbrev both_begun : System
both_begun = go 1 one_begun

abbrev contended : System
contended = go 0 both_begun

abbrev ready : System
ready = go 0 contended

IsGranted-begin : IsGranted calm requests keys called 0
IsGranted-begin j id ne h = refl

IsGranted-begin_second : IsGranted calm requests keys one_begun 1
unfolding advance String_discrete ℕ_discrete
IsGranted-begin_second j id ne h = ground arith

IsGranted-lock : IsGranted calm requests keys both_begun 0
unfolding advance String_discrete ℕ_discrete
IsGranted-lock j id ne h = ground arith

IsGranted-second_lock : IsGranted calm requests keys contended 0
unfolding advance String_discrete ℕ_discrete
IsGranted-second_lock j id ne h = ground arith

reach_contended :
    Reach calm requests keys plain hmac "secret" 2 (world WalletStatus.active) contended
reach_contended =
    later
      (later (later start (session 0 (omega arith) IsGranted-begin))
        (session 1 (omega arith) IsGranted-begin_second))
      (session 0 (omega arith) IsGranted-lock)

reach_ready : Reach calm requests keys plain hmac "secret" 2 (world WalletStatus.active) ready
reach_ready = later reach_contended (session 0 (omega arith) IsGranted-second_lock)

Reach-IsSound_example : IsSound calm ready.world.tables
Reach-IsSound_example =
    Reach-IsSound calm requests keys plain hmac "secret" 2 calm-IsFaithful
      (tables-IsSound WalletStatus.active) reach_ready

-- After two begins and two locks.
abbrev moved_transfer : Transfer
moved_transfer = record {
  id = ids 6;
  source_wallet_id = "w1";
  destination_wallet_id = "w2";
  amount = pos 40;
  currency = "USD";
  status = TransferStatus.completed;
  idempotency_key = "k1";
  created_at = 6;
}

ready_live : is_ended (ready.stage 0) ≡ false
unfolding advance lock_wallet select_for_update lock_order calls String_discrete ℕ_discrete
ready_live = refl

ready_ends : (go 0 ready).stage 0 ≡ ended (ok moved_transfer)
unfolding advance lock_wallet select_for_update lock_order validate_and_settle assign calls
    String_discrete ◌+ℤ◌ ◌-ℤ◌ ◌+₆₄◌ wrap tally entry_error ℕ_discrete
ready_ends = refl

turn-Contract_example :
    Contract calm (request 40) "k1" ready.world.tables (ok moved_transfer, (go 0 ready).world)
turn-Contract_example =
    turn-Contract calm requests keys plain hmac "secret" 2 0 (ok moved_transfer) calm-IsFaithful
      reach_ready ready_live ready_ends

all-IsCanonical : (i : ℕ) → i < 2 → IsCanonical calm (requests i)
all-IsCanonical i below = record { source = refl; destination = refl }

second_live : is_ended (contended.stage 1) ≡ false
unfolding advance String_discrete ℕ_discrete
second_live = refl

Reach-Goes_example :
    (j : ℕ) × (j < 2)
    × (is_ended (contended.stage j) ≡ false)
    × IsGranted calm requests keys contended j
Reach-Goes_example =
    Reach-Goes calm requests keys plain hmac "secret" 2 1 calm-IsFaithful all-IsCanonical
      reach_contended (omega arith) second_live

Reach-ends_example :
    (k : ℕ) × (t : System) × Turns calm requests keys 2 contended k t
    × (k ≤ 4 * 2)
    × ((i : ℕ) → i < 2 → is_ended (t.stage i) ≡ true)
Reach-ends_example =
    Reach-ends calm requests keys plain hmac "secret" 2 calm-IsFaithful all-IsCanonical
      reach_contended

contended_live : is_ended (contended.stage 0) ≡ false
unfolding advance lock_wallet select_for_update lock_order calls String_discrete ℕ_discrete
contended_live = refl

ready-IsGranted : IsGranted calm requests keys ready 0
unfolding advance lock_wallet select_for_update lock_order validate_and_settle assign calls
    String_discrete ◌+ℤ◌ ◌-ℤ◌ ◌+₆₄◌ wrap tally entry_error ℕ_discrete
ready-IsGranted j id ne h = ground arith

abbrev schedule : Turns calm requests keys 2 contended 2 (go 0 ready)
schedule =
    and_then (and_then none_yet 0 (omega arith) contended_live IsGranted-second_lock) 0
      (omega arith) ready_live ready-IsGranted

-- The second transfer names its source in upper case.
abbrev crossing : ℕ → CreateTransferRequest
crossing zero = request 40
crossing (suc n) = shouted

different : (i : ℕ) → IsValid (crossing i)
unfolding String_discrete
different zero = record {
  different = λ h. (let p : true ≡ false = ap (λ (s : String). s == "w1") h in cc p);
  positive = omega arith;
}
different (suc n) = record {
  different = λ h. (let p : true ≡ false = ap (λ (s : String). s == "W2") h in cc p);
  positive = omega arith;
}

first_wallet :
    find_row (has_id "w1") (world WalletStatus.active).tables.wallets
    ≡ some (wallet "w1" "alice" "a1" 100 WalletStatus.active)
unfolding String_discrete
first_wallet = refl

second_wallet :
    find_row (has_id "w2") (world WalletStatus.active).tables.wallets
    ≡ some (wallet "w2" "bob" "a2" 0 WalletStatus.active)
unfolding String_discrete
second_wallet = refl

abbrev first_id : String
first_id = "w1"

abbrev second_id : String
second_id = "w2"

ids_differ : first_id ≢ second_id
unfolding String_discrete
ids_differ h = let p : true ≡ false = ap (λ (s : String). s == first_id) h in cc p

reads :
    (loose.parse_uuid (lock_order "w1" "w2").0 ≡ some first_id)
    × (loose.parse_uuid (lock_order "w1" "w2").1 ≡ some second_id)
    × (loose.parse_uuid (lock_order "W2" "w1").0 ≡ some second_id)
    × (loose.parse_uuid (lock_order "W2" "w1").1 ≡ some first_id)
unfolding lock_order String_discrete
reads = (refl, refl, refl, refl)

Reach-Deadlock_example :
    (s : System) × Reach loose crossing keys plain hmac "secret" 2 (world WalletStatus.active) s
    × (is_ended (s.stage 0) ≡ false)
    × (is_ended (s.stage 1) ≡ false)
    × (¬ IsGranted loose crossing keys s 0)
    × (¬ IsGranted loose crossing keys s 1)
Reach-Deadlock_example =
    Reach-Deadlock loose crossing keys plain hmac "secret" (world WalletStatus.active) first_id
      second_id (wallet "w1" "alice" "a1" 100 WalletStatus.active)
      (wallet "w2" "bob" "a2" 0 WalletStatus.active) (λ m. refl) different ids_differ first_wallet
      second_wallet reads.0 reads.1 reads.2 reads.3
