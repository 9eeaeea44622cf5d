-- ===== src/Examples/Routes.antt =====
-- The theorems on the router and on the process at concrete inputs.
use go_wallet_ledger.Base.Int.{pos, ◌+ℤ◌, ◌-ℤ◌, ◌+₆₄◌, wrap}
use go_wallet_ledger.Base.{
  All, length, String, ◌≡◌, refl, List, [], ◌∷◌, none, some, true, false, ◌==◌, String_discrete,
  split_spaces, if◌then◌else◌, map,
}
use go_wallet_ledger.Models.Payments.{PaymentStatus}
use go_wallet_ledger.Models.Wallets.{WalletStatus, Wallet}
use go_wallet_ledger.Books.{IsSound}
use go_wallet_ledger.Outbox.Delivered.{IsDelivered}
use go_wallet_ledger.Outbox.Retries.{IsRetried}
use go_wallet_ledger.Store.{calls}
use go_wallet_ledger.Reconciliation.{run_reconciliation}
use go_wallet_ledger.Wallets.Service.{create_wallet}
use go_wallet_ledger.Ledger.Sums.{net}
use go_wallet_ledger.Outbox.{process_batch}
use go_wallet_ledger.Payments.{create_payment, process_webhook}
use go_wallet_ledger.Wallets.Handler.{handle_create_wallet}
use go_wallet_ledger.Transfers.{execute_transfer}
use go_wallet_ledger.Ledger.{tally, entry_error}
use go_wallet_ledger.Transfers.Handler.{handle_transfer}
use go_wallet_ledger.Auth.{Jwt, validate_token}
use go_wallet_ledger.Payments.Handler.{verify_webhook_signature}
use go_wallet_ledger.Middleware.Roles.{bearer, is_operator, Denied}
use go_wallet_ledger.Server.{Method, Decoded, Request, Wiring, Process, route, serve}
use go_wallet_ledger.Server.Access.{route-bearer}
use go_wallet_ledger.System.{Call}
use go_wallet_ledger.System.Books.{start-IsSound}
use go_wallet_ledger.Server.Endpoints.{Bears, Grants}
use go_wallet_ledger.Server.Granted.{route-Grants}
use go_wallet_ledger.Server.Operators.{route_freeze-Denied}
use go_wallet_ledger.Server.Anonymous.{Signup, is_signed, serve-Signup}
use go_wallet_ledger.Server.Histories.{
  Happening, happen_all, started, happen_all-IsSound, happen_all-IsDelivered, happen_all-IsRetried,
}
use go_wallet_ledger.Server.Groups.{Does}
use go_wallet_ledger.Server.Routes.{serve-Does}
use go_wallet_ledger.Examples.{calm, plain, user, alice, request, event, world}
use go_wallet_ledger.Examples.Faith.{calm-IsFaithful, tables-IsSound}

-- A token is the name of its user, and only alice's is valid.
abbrev jwt : Jwt
jwt = record {
  is_hmac = λ token. true;
  parse = λ token secret. if token == "alice" then some alice else none;
}

abbrev wiring : Wiring
wiring = record {
  secret = "s";
  crypto = plain;
  jwt = jwt;
  hmac = λ secret text. text;
  metrics_text = λ w. "";
  preflight = λ r. none;
  pattern = λ r. r.url;
}

abbrev body : Decoded
body = record {
  wallet = some (record { currency = "USD" });
  transfer = some (request 40);
  payment = some (record { wallet_id = "i2"; amount = pos 30; currency = "USD" });
  webhook =
      some (record { text = "failed"; decoded = some (event "ev2" "ext_r" PaymentStatus.failed) });
  register = none;
  login = none;
}

-- A POST of that body, with the header of the token.
abbrev post : String → List String → Request
post authorization path = record {
  method = Method.post;
  path = path;
  url = "";
  authorization = authorization;
  idempotency_key = "k2";
  webhook_signature = "forged";
  real_ip = "";
  forwarded_for = "";
  remote_addr = "10.0.0.1";
  body = body;
  draw = ("r", false);
}

abbrev transfer_path : List String
transfer_path = "api" ∷ "v1" ∷ "transfers" ∷ []

abbrev wallet_path : List String
wallet_path = "api" ∷ "v1" ∷ "wallets" ∷ []

abbrev webhook_path : List String
webhook_path = "api" ∷ "v1" ∷ "webhooks" ∷ "payment-provider" ∷ []

abbrev process : Process
process = record { world = world WalletStatus.active; cache = λ key. none; requests_total = [] }

-- Mallory's token is not valid.
mallory : bearer (validate_token jwt) "s" (split_spaces "Bearer mallory") ≡ none
unfolding split_spaces String_discrete validate_token
mallory = refl

route-bearer_example :
    ((route calm wiring (post "Bearer mallory" transfer_path) transfer_path process.world).0.status
      ≡ 401)
    × ((route calm wiring (post "Bearer mallory" transfer_path) transfer_path process.world).1
        ≡ process.world)
unfolding String_discrete
route-bearer_example =
    route-bearer calm wiring (post "Bearer mallory" transfer_path) "transfers" [] process.world refl
      mallory

forged : is_signed wiring.hmac "s" "forged" body.webhook ≡ false
unfolding verify_webhook_signature String_discrete
forged = refl

serve-Signup_example :
    Signup process.world.tables
      (serve calm wiring true false 0 (post "Bearer mallory" webhook_path) process).1.world.tables
serve-Signup_example =
    serve-Signup calm wiring true false 0 (post "Bearer mallory" webhook_path) process mallory
      forged

serve-Does_example :
    Does calm wiring
      (post "Bearer alice" transfer_path)
      transfer_path
      process.world
      (serve calm wiring true false 0 (post "Bearer alice" transfer_path) process).1.world
serve-Does_example = serve-Does calm wiring true false 0 (post "Bearer alice" transfer_path) process

alice-Bears : Bears wiring (post "Bearer alice" transfer_path) alice
unfolding split_spaces String_discrete validate_token
alice-Bears = refl

route-Grants_example :
    (route calm wiring (post "Bearer alice" transfer_path) transfer_path process.world).1
    ≡ (handle_transfer calm (some alice) "k2" (some (request 40)) process.world).1
route-Grants_example =
    route-Grants calm wiring (post "Bearer alice" transfer_path) transfer_path
      (Call.post_transfer (some alice) "k2" (some (request 40))) process.world
      (Grants.transferred refl refl alice-Bears)

-- Alice is no operator.
abbrev freeze_path : List String
freeze_path = "api" ∷ "v1" ∷ "wallets" ∷ "w1" ∷ "freeze" ∷ []

alice_denied : is_operator (bearer (validate_token jwt) "s" (split_spaces "Bearer alice")) ≡ false
unfolding split_spaces String_discrete validate_token
alice_denied = refl

route_freeze-Denied_example :
    Denied process.world
      (route calm wiring (post "Bearer alice" freeze_path) freeze_path process.world)
    × Denied process.world (
        route calm wiring
          (post "Bearer alice" freeze_path)
          ("api" ∷ "v1" ∷ "wallets" ∷ "w1" ∷ "unfreeze" ∷ [])
          process.world)
route_freeze-Denied_example =
    route_freeze-Denied calm wiring (post "Bearer alice" freeze_path) "w1" process.world refl
      alice_denied

abbrev payment_path : List String
payment_path = "api" ∷ "v1" ∷ "payments" ∷ []

-- The webhook, as the provider signs it.
abbrev signed : Request
signed = record (post "" webhook_path) { webhook_signature = "failed" }

-- Alice makes a wallet and a payment, which fails; the event is published.
abbrev day : List Happening
day =
    Happening.requested false 0 (post "Bearer alice" wallet_path)
    ∷ Happening.requested false 1 (post "Bearer alice" payment_path)
    ∷ Happening.requested true 2 (post "Bearer mallory" webhook_path)
    ∷ Happening.requested false 3 signed
    ∷ Happening.outbox_turn
    ∷ Happening.requested false 4 (post "Bearer alice" transfer_path)
    ∷ Happening.reconciliation_turn
    ∷ []

-- The provider's report that the payment "ext_p2" has succeeded, signed.
abbrev paid : Request
paid = record signed {
  webhook_signature = "succeeded";
  body = record body {
    webhook = some (record {
      text = "succeeded";
      decoded = some (event "ev2" "ext_p2" PaymentStatus.succeeded);
    });
  };
}

-- Over accounts that have moved money before: alice pays 40 from the first wallet into the second, the
-- provider reports the success of the payment "p2" into the first, and the books are checked.
abbrev month : List Happening
month =
    Happening.requested false 0 (post "Bearer alice" transfer_path)
    ∷ Happening.requested false 1 paid
    ∷ Happening.outbox_turn
    ∷ Happening.requested false 2 (post "Bearer mallory" transfer_path)
    ∷ Happening.reconciliation_turn
    ∷ []

abbrev month_end : Process
month_end = happen_all calm wiring true month process

happen_all-IsSound_example : IsSound calm month_end.world.tables
happen_all-IsSound_example =
    happen_all-IsSound calm wiring true process month calm-IsFaithful
      (tables-IsSound WalletStatus.active)

abbrev evening : Process
evening = happen_all calm wiring true day (started (user "alice" ∷ []))

-- The migrated database is sound as well.
evening-IsSound : IsSound calm evening.world.tables
evening-IsSound =
    happen_all-IsSound calm wiring true (started (user "alice" ∷ [])) day calm-IsFaithful
      (start-IsSound calm (user "alice" ∷ []))

happen_all-IsDelivered_example :
    All (IsDelivered evening.world.broker) evening.world.tables.outbox_events
happen_all-IsDelivered_example =
    happen_all-IsDelivered calm wiring true (user "alice" ∷ []) day calm-IsFaithful

happen_all-IsRetried_example : All IsRetried evening.world.tables.outbox_events
happen_all-IsRetried_example = happen_all-IsRetried calm wiring true (user "alice" ∷ []) day

-- The event of the failed payment has reached the broker.
one_published : length evening.world.broker ≡ 1
unfolding serve route handle_create_wallet create_payment process_webhook process_batch calls
    String_discrete split_spaces ◌+ℤ◌ ◌-ℤ◌ ◌+₆₄◌ wrap run_reconciliation create_wallet net
one_published = refl

-- The money has moved.
month_balances :
    map (λ (v : Wallet). v.available_balance) month_end.world.tables.wallets ≡ pos 90 ∷ pos 40 ∷ []
unfolding serve route handle_transfer process_webhook verify_webhook_signature validate_token
    execute_transfer tally entry_error process_batch calls String_discrete split_spaces ◌+ℤ◌ ◌-ℤ◌
    ◌+₆₄◌ wrap run_reconciliation net
month_balances = refl

month_entries : length month_end.world.tables.ledger_entries ≡ 6
unfolding serve route handle_transfer process_webhook verify_webhook_signature validate_token
    execute_transfer tally entry_error process_batch calls String_discrete split_spaces ◌+ℤ◌ ◌-ℤ◌
    ◌+₆₄◌ wrap run_reconciliation net
month_entries = refl
