-- ===== src/Examples/Replays.antt =====
-- The theorems on keys that come again at concrete inputs.
use go_wallet_ledger.Base.{◌≡◌, refl, List, [], ◌∷◌, some, String_discrete}
use go_wallet_ledger.Base.Int.{pos, ◌+ℤ◌, ◌-ℤ◌, ◌+₆₄◌, wrap}
use go_wallet_ledger.Models.Wallets.{WalletStatus}
use go_wallet_ledger.Store.{calls, World, next}
use go_wallet_ledger.Ledger.{tally, entry_error}
use go_wallet_ledger.Transfers.Handler.{handle_transfer}
use go_wallet_ledger.System.{Call, perform_all}
use go_wallet_ledger.System.Replays.{perform_all-Replays, perform_all-repeated}
use go_wallet_ledger.Models.Errors.{Error}
use go_wallet_ledger.Models.Auth.{Role, JwtClaims}
use go_wallet_ledger.Models.Transfers.{Transfer, TransferStatus}
use go_wallet_ledger.Models.Idempotency.{KeyRecord, Status, ResponsePayload}
use go_wallet_ledger.Http.{error_body}
use go_wallet_ledger.Idempotency.Stored.{Replays, RowOf}
use go_wallet_ledger.Examples.{calm, ids, world, request, under_way, alice, plain}

abbrev open_world : World
open_world = world WalletStatus.active

-- Bob takes the key of Alice's request.
abbrev bob : JwtClaims
bob = record { user_id = "bob"; role = Role.user }

abbrev since : List Call
since =
    Call.post_transfer (some alice) "k2" (some (request 40))
    ∷ Call.reconcile
    ∷ Call.publish_events
    ∷ []

abbrev later_world : World
later_world = perform_all calm plain (λ secret text. text) "s" since open_world

perform_all-Replays_example :
    handle_transfer calm (some bob) "k1" (some (request 7)) later_world
    ≡ (record { status = 409; body = error_body Error.key_in_progress }, next (next later_world))
unfolding String_discrete
perform_all-Replays_example =
    perform_all-Replays calm plain (λ secret text. text) "s" bob "k1" (request 7) since open_world
      under_way (record { status = 409; body = error_body Error.key_in_progress }) refl refl
      (Replays.under_way refl)

abbrev paid_transfer : Transfer
paid_transfer = record {
  id = ids 7;
  source_wallet_id = "w1";
  destination_wallet_id = "w2";
  amount = pos 40;
  currency = "USD";
  status = TransferStatus.completed;
  idempotency_key = "k2";
  created_at = 7;
}

-- The row of the key of a transfer that was made.
abbrev completed_row : KeyRecord
completed_row = record {
  key = "k2";
  status = Status.completed;
  request_payload = request 40;
  response_payload = some (ResponsePayload.transfer_document paid_transfer);
  response_status = some 201;
}

created :
    ((handle_transfer calm (some alice) "k2" (some (request 40)) open_world).0.status ≡ 201)
    × RowOf "k2" completed_row
        (handle_transfer calm (some alice) "k2" (some (request 40)) open_world).1.tables
unfolding handle_transfer calls String_discrete ◌+ℤ◌ ◌-ℤ◌ ◌+₆₄◌ wrap tally entry_error
created = (refl, refl)

abbrev after_first : World
after_first = (handle_transfer calm (some alice) "k2" (some (request 40)) open_world).1

abbrev retried_world : World
retried_world = perform_all calm plain (λ secret text. text) "s" since after_first

perform_all-repeated_example :
    (handle_transfer calm (some bob) "k2" (some (request 7)) retried_world).0
    ≡ (handle_transfer calm (some alice) "k2" (some (request 40)) open_world).0
unfolding String_discrete
perform_all-repeated_example =
    perform_all-repeated calm plain (λ secret text. text) "s" alice bob "k2" (request 40)
      (request 7) since open_world completed_row refl created.0 created.1 refl
