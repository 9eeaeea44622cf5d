-- ===== src/Examples/Sessions.antt =====
-- Two requests with one key at the same time.
use go_wallet_ledger.Base.{
  arith, ℕ, zero, suc, String, ◌≡◌, ◌≢◌, refl, true, false, String_discrete, ℕ_discrete,
}
use go_wallet_ledger.Models.Auth.{Role}
use go_wallet_ledger.Models.Wallets.{WalletStatus}
use go_wallet_ledger.Store.{calls}
use go_wallet_ledger.Requests.{
  Sent, arrived, advance_request, is_owner, Requests, request_turn, RequestReach, start, later,
  request,
}
use go_wallet_ledger.Requests.Once.{Reach-once}
use go_wallet_ledger.Examples.{calm, plain, alice, world}
use go_wallet_ledger.Examples as Small

abbrev first : Sent
first = record { caller = alice; key = "k2"; body = Small.request 40 }

-- Bob sends the same key for another amount.
abbrev sent : ℕ → Sent
sent zero = first
sent (suc n) = record {
  caller = record { user_id = "bob"; role = Role.user };
  key = "k2";
  body = Small.request 7;
}

abbrev hmac : String → String → String
hmac secret body = body

abbrev called : Requests
called = record { world = world WalletStatus.active; phase = λ _. arrived }

abbrev second_came : Requests
second_came = request_turn calm sent 1 (request_turn calm sent 0 called)

reach_second : RequestReach calm sent plain hmac "secret" (world WalletStatus.active) second_came
reach_second = later (later start (request 0)) (request 1)

first_owns : is_owner (second_came.phase 0) ≡ true
unfolding advance_request calls String_discrete ℕ_discrete
first_owns = refl

abbrev one_number : ℕ
one_number = 1

distinct_numbers : 0 ≢ one_number
distinct_numbers h = ground arith

Reach-once_example : is_owner (second_came.phase 1) ≡ false
Reach-once_example =
    Reach-once calm sent plain hmac "secret" 0 1 reach_second distinct_numbers refl first_owns
