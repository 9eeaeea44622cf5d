-- ===== src/Auth/Login.antt =====
-- internal/auth/service.go: a registration and a login after it.
use go_wallet_ledger.Base.{
  String, ◌≡◌, refl, sym, subst, List, [], ◌∷◌, ◌++◌, none, some, Bool, true, false, some_row,
  find_row, arith,
}
use go_wallet_ledger.Models.Errors.{Error}
use go_wallet_ledger.Models.Auth.{User, Role, RegisterRequest, LoginRequest, AuthResponse}
use go_wallet_ledger.Store.{
  World, Tables, Engine, Result, ok, err, calls, violation, next, continue, pure, Action,
}
use go_wallet_ledger.Store.Laws.{
  Succeeds, pure-Succeeds, statement-Succeeds, bind-Succeeds, write-Succeeds, wrap_error-Succeeds,
  or_raise-Succeeds, raised-Succeeds, clock-Succeeds,
}
use go_wallet_ledger.Auth.{
  Crypto, has_email, user_constraints, user_row, create_user, get_user_by_email, generate_token,
  register, login, default_role,
}

-- The documented behaviour of bcrypt: a hash of a password compares with that password.
unfoldable pub IsHashing : Crypto → Type 0
IsHashing crypto =
    (password hash : String)
    → crypto.generate password ≡ some hash
    → crypto.compare hash password ≡ true

-- The row of a new user: no other row has its address.
pub record Registered (email hash : String) (role : Role) (t : Tables) (user : User) (t' : Tables)
    : Type 0 where
  pub new : some_row (has_email email) t.users ≡ false
  pub address : user.email ≡ email
  pub hashed : user.password_hash ≡ hash
  pub as_role : user.role ≡ role
  pub tables : t' ≡ record t { users = t.users ++ user ∷ [] }

address_new :
    (row : User) (t : Tables)
    → violation (user_constraints row t) ≡ none
    → some_row (has_email row.email) t.users ≡ false
address_new row t h = ground arith

create_user-Registered :
    (e : Engine) (email hash : String) (role : Role) (w : World)
    → Succeeds
        (create_user e email hash role)
        w
        λ user w'. Registered email hash role w.tables user w'.tables
unfolding create_user
create_user-Registered e email hash role w = wrap_error-Succeeds _ _ w (
    statement-Succeeds e _ w (
      write-Succeeds _ _ _ _ λ holds. pure-Succeeds _ _ (record {
        new = address_new (user_row e w.tick email hash role) w.tables holds;
        address = refl;
        hashed = refl;
        as_role = refl;
        tables = refl;
      })))

generate_token-tables :
    (crypto : Crypto) (e : Engine) (secret : String) (user : User) (w : World)
    → Succeeds (generate_token crypto e secret user) w λ _ w'. w'.tables ≡ w.tables
unfolding generate_token
generate_token-tables crypto e secret user w =
    clock-Succeeds e _ w (raised-Succeeds _ Error.signing_failed w λ token h. refl)

-- What a registration has done when it succeeds.
pub record Account (crypto : Crypto) (req : RegisterRequest) (t : Tables) (user : User)
    (t' : Tables) : Type 0 where
  pub hash : String
  pub hashing : crypto.generate req.password ≡ some hash
  pub registered : Registered req.email hash (default_role req.role) t user t'

register-Account :
    (crypto : Crypto) (e : Engine) (secret : String) (req : RegisterRequest) (w : World)
    → Succeeds
        (register crypto e secret req)
        w
        λ response w'. Account crypto req w.tables response.user w'.tables
unfolding register
register-Account crypto e secret req w =
    or_raise-Succeeds (crypto.generate req.password) Error.hashing_failed _ w λ hash hashing.
      bind-Succeeds _ _ w λ user w1 run1. bind-Succeeds _ _ w1 λ token w2 run2.
        pure-Succeeds _ _ (record {
          hash = hash;
          hashing = hashing;
          registered =
              subst
                (λ (t : Tables). Registered req.email hash (default_role req.role) w.tables user t)
                (sym ((generate_token-tables crypto e secret user w1).at token w2 run2))
                ((create_user-Registered e req.email hash (default_role req.role) w).at user w1
                  run1);
        })

find_row-last :
    (p : User → Bool) (rows : List User) (u : User)
    → some_row p rows ≡ false
    → p u ≡ true
    → find_row p (rows ++ u ∷ []) ≡ some u
find_row-last p [] u none_yet hit = ground arith
find_row-last p (x ∷ xs) u none_yet hit = ground (arith, find_row-last p xs u)

own_address : (email : String) (u : User) → u.email ≡ email → has_email email u ≡ true
own_address email u h = ground arith

abbrev responded : User → String → Action AuthResponse
responded user token = pure (record { token = token; user = user })

signed_last :
    (user : User) (token : String) (r : Result String × World)
    → r.0 ≡ ok token
    → (continue (λ (t : String). responded user t) r).0 ≡ ok (record { token = token; user = user })
unfolding pure
signed_last user token (ok t, w) h = ground arith
signed_last user token (err x, w) h = ground arith

-- A login that finds the user, and whose password compares with the hash.
login-found :
    (crypto : Crypto) (e : Engine) (secret : String) (req : LoginRequest) (w : World) (user : User)
    (token : String)
    → e.fault w.tick ≡ false
    → find_row (has_email req.email) w.tables.users ≡ some user
    → crypto.compare user.password_hash req.password ≡ true
    → (generate_token crypto e secret user (next w)).0 ≡ ok token
    → (login crypto e secret req w).0 ≡ ok (record { token = token; user = user })
unfolding login get_user_by_email calls
login-found crypto e secret req w user token up found match signed =
    rw (up, found, match)
      (signed_last user token (generate_token crypto e secret user (next w)) signed)

-- After a registration that succeeds, a login with its address and password, when the database answers
-- and the token can be signed, succeeds for the registered user.
pub login-register :
    (crypto : Crypto) (e : Engine) (secret : String) (req : RegisterRequest) (w w' : World)
    (response : AuthResponse) (token : String)
    → IsHashing crypto
    → register crypto e secret req w ≡ (ok response, w')
    → e.fault w'.tick ≡ false
    → (generate_token crypto e secret response.user (next w')).0 ≡ ok token
    → (login crypto e secret (record { email = req.email; password = req.password }) w').0
      ≡ ok (record { token = token; user = response.user })
unfolding IsHashing
login-register crypto e secret req w w' response token hashing run up signed =
    let a = (register-Account crypto e secret req w).at response w' run in
    let r = a.registered in
    login-found crypto e secret (record { email = req.email; password = req.password }) w'
      response.user token up
      (subst (λ (t : Tables). find_row (has_email req.email) t.users ≡ some response.user)
        (sym r.tables)
        (find_row-last (has_email req.email) w.tables.users response.user r.new
          (own_address req.email response.user r.address)))
      (rw r.hashed (hashing req.password a.hash a.hashing)) signed
