-- ===== src/Examples.antt =====
-- A small world for the examples: two users with a wallet each, the platform's account, a payment of
-- 100 that has been credited to the first wallet, and one of 30 that is under way.
pub mod Faith
pub mod Concurrent
pub mod Moves
pub mod Events
pub mod Replays
pub mod Swap
pub mod Access
pub mod Window
pub mod Routes
pub mod Starting
pub mod Sessions
use Prim.Native.String.{◌++◌ as join}
use go_wallet_ledger.Base.{
  ℕ, zero, suc, String, List, [], ◌∷◌, Option, none, some, Bool, true, false, ◌==◌,
}
use go_wallet_ledger.Base.Int.{ℤ, pos}
use go_wallet_ledger.Models.Auth.{User, Role, JwtClaims}
use go_wallet_ledger.Models.Ledger.{Direction, Entry}
use go_wallet_ledger.Models.Wallets.{Wallet, WalletStatus, Account}
use go_wallet_ledger.Models.Transfers.{CreateTransferRequest}
use go_wallet_ledger.Models.Idempotency.{KeyRecord, Status, ResponsePayload}
use go_wallet_ledger.Models.Payments.{
  Payment, PaymentStatus, WebhookPayload, WebhookEvent, WebhookEventStatus, platform_account,
}
use go_wallet_ledger.Store.{Engine, Tables, World, Outcome}
use go_wallet_ledger.Auth.{Crypto}
use go_wallet_ledger.System.{start, migrated}

-- The ids that are generated, in order.
abbrev pub last : String
last = "z"

abbrev pub pick : List String → ℕ → String
pick [] n = last
pick (x ∷ xs) zero = x
pick (x ∷ xs) (suc n) = pick xs n

abbrev pub names : List String
names =
    "i0" ∷ "i1" ∷ "i2" ∷ "i3" ∷ "i4" ∷ "i5" ∷ "i6" ∷ "i7" ∷ "i8" ∷ "i9" ∷ "i10" ∷ "i11" ∷ "i12"
    ∷ "i13" ∷ "i14" ∷ "i15" ∷ "i16" ∷ "i17" ∷ "i18" ∷ "i19" ∷ "i20" ∷ "i21" ∷ "i22" ∷ "i23" ∷ "i24"
    ∷ "i25" ∷ "i26" ∷ "i27" ∷ "i28" ∷ "i29" ∷ "i30" ∷ "i31" ∷ "i32" ∷ "i33" ∷ "i34" ∷ "i35" ∷ "i36"
    ∷ "i37" ∷ "i38" ∷ "i39" ∷ []

abbrev pub ids : ℕ → String
ids n = pick names n

-- Services that always answer.
abbrev pub calm : Engine
calm = record {
  fault = λ n. false;
  fresh_id = ids;
  now = λ n. n;
  outcome = λ n. Outcome.committed;
  delivery = λ n. Outcome.committed;
  parse_uuid = λ s. some s;
}

abbrev pub user : String → User
user id = record {
  id = id;
  email = id;
  password_hash = "";
  role = Role.user;
  created_at = 0;
  updated_at = 0;
}

abbrev pub account : String → Account
account id = record { id = id; account_type = "USER"; currency = "USD"; created_at = 0 }

abbrev pub wallet : String → String → String → ℕ → WalletStatus → Wallet
wallet id owner account_id amount status = record {
  id = id;
  owner_id = owner;
  account_id = account_id;
  currency = "USD";
  available_balance = pos amount;
  locked_balance = pos 0;
  status = status;
  version = pos 1;
  created_at = 0;
  updated_at = 0;
}

abbrev pub entry : String → String → ℕ → Direction → Entry
entry id account_id amount direction = record {
  id = id;
  transaction_id = "t0";
  account_id = account_id;
  amount = pos amount;
  direction = direction;
  currency = "USD";
  created_at = 0;
}

abbrev pub payment : String → ℕ → PaymentStatus → Payment
payment id amount status = record {
  id = id;
  wallet_id = "w1";
  amount = pos amount;
  currency = "USD";
  status = status;
  provider_reference = join "ext_" id;
  created_at = 0;
  updated_at = 0;
}

abbrev pub request : ℕ → CreateTransferRequest
request amount = record {
  source_wallet_id = "w1";
  destination_wallet_id = "w2";
  amount = pos amount;
  currency = "USD";
}

abbrev pub event : String → String → PaymentStatus → WebhookPayload
event id reference status = record {
  event_id = id;
  event_type = "payment.update";
  reference_id = reference;
  status = status;
}

abbrev pub alice : JwtClaims
alice = record { user_id = "alice"; role = Role.user }

-- The key "k1" is under way.
abbrev pub under_way : KeyRecord
under_way = record {
  key = "k1";
  status = Status.in_progress;
  request_payload = request 40;
  response_payload = none;
  response_status = none;
}

abbrev pub ledger : List Entry
ledger = entry "e1" platform_account 100 Direction.debit ∷ entry "e2" "a1" 100 Direction.credit ∷ []

abbrev pub seen : WebhookEvent
seen = record {
  provider = "simulator";
  event_id = "ev1";
  event_type = "payment.update";
  payload = event "ev1" "ext_p1" PaymentStatus.succeeded;
  status = WebhookEventStatus.processed;
}

abbrev pub tables : WalletStatus → Tables
tables status = record (migrated (user "alice" ∷ user "bob" ∷ [])) {
  accounts = account platform_account ∷ account "a1" ∷ account "a2" ∷ [];
  wallets = wallet "w1" "alice" "a1" 100 WalletStatus.active ∷ wallet "w2" "bob" "a2" 0 status ∷ [];
  ledger_entries = ledger;
  idempotency_keys = under_way ∷ [];
  payments =
      payment "p1" 100 PaymentStatus.succeeded ∷ payment "p2" 30 PaymentStatus.processing ∷ [];
  webhook_events = seen ∷ [];
}

abbrev pub world : WalletStatus → World
world status = record (start []) { tables = tables status }

-- Passwords and tokens in plain text.
abbrev pub plain : Crypto
plain = record {
  generate = λ password. some password;
  compare = λ hash password. hash == password;
  sign = λ claims secret. some claims.subject;
}
