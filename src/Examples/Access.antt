-- ===== src/Examples/Access.antt =====
-- The theorem on logins at concrete inputs.
use go_wallet_ledger.Base.{String, ◌≡◌, refl, some_eq, true, ◌==◌, String_discrete, arith, subst}
use go_wallet_ledger.Models.Auth.{Role, RegisterRequest, AuthResponse, User}
use go_wallet_ledger.Models.Wallets.{WalletStatus}
use go_wallet_ledger.Store.{ok, World, next, calls}
use go_wallet_ledger.Auth.{register, login, generate_token, create_user}
use go_wallet_ledger.Auth.Login.{IsHashing, login-register}
use go_wallet_ledger.Examples.{calm, plain, ids, world}

self_equal : (s : String) → (s == s) ≡ true
self_equal s = ground arith

plain-IsHashing : IsHashing plain
unfolding IsHashing
plain-IsHashing password hash h =
    subst (λ (x : String). (x == password) ≡ true) (some_eq h) (self_equal password)

abbrev carol : RegisterRequest
carol = record { email = "carol"; password = "secret"; role = Role.other "" }

abbrev carol_user : User
carol_user = record {
  id = ids 0;
  email = "carol";
  password_hash = "secret";
  role = Role.user;
  created_at = 0;
  updated_at = 0;
}

abbrev carol_response : AuthResponse
carol_response = record { token = ids 0; user = carol_user }

abbrev registered_world : World
registered_world = (register plain calm "" carol (world WalletStatus.active)).1

registered :
    register plain calm "" carol (world WalletStatus.active) ≡ (ok carol_response, registered_world)
unfolding register create_user generate_token calls String_discrete
registered = refl

signed : (generate_token plain calm "" carol_user (next registered_world)).0 ≡ ok (ids 0)
unfolding generate_token calls
signed = refl

login-register_example :
    (login plain calm "" (record { email = "carol"; password = "secret" }) registered_world).0
    ≡ ok (record { token = ids 0; user = carol_user })
login-register_example =
    login-register plain calm "" carol (world WalletStatus.active) registered_world carol_response
      (ids 0) plain-IsHashing registered refl signed
