-- ===== src/Auth.antt =====
-- internal/auth: the repository (repository.go), the service (service.go), `GenerateToken` (jwt.go) and
-- the handlers (handler.go). bcrypt and the JWT library are parameters.
pub mod Login
use go_wallet_ledger.Base.{
  ℕ, ◌+◌, ◌*◌, String, List, [], ◌∷◌, ◌++◌, Option, none, some, Bool, true, false, not, ◌==◌, ◌||◌,
  leb, chars, some_row, find_row, if◌then◌else◌,
}
use go_wallet_ledger.Models.Errors.{Error}
use go_wallet_ledger.Models.Auth.{
  User, Role, role_text, JwtClaims, RegisterRequest, LoginRequest, AuthResponse, SignedClaims,
}
use go_wallet_ledger.Store.{
  Engine, Tables, World, Result, ok, err, Action, ◌>>=◌, ◌>>◌, pure, gets, or_raise, guard, write,
  statement, wrap_error, clock,
}
use go_wallet_ledger.Http.{Response, failure, reply, auth_json, error_body}
use go_wallet_ledger.Wallets.Handler.{answer}

-- What bcrypt and the JWT library do: hash a password, compare one with a hash, and sign claims with a
-- secret.
pub record Crypto : Type 0 where
  pub generate : String → Option String
  pub compare : String → String → Bool
  pub sign : SignedClaims → String → Option String

abbrev pub has_email : String → User → Bool
has_email email u = u.email == email

abbrev pub user_constraints : User → Tables → List (Bool × Error)
user_constraints row t =
    (leb (chars row.email) 255, Error.value_too_long)
    ∷ (leb (chars row.password_hash) 255, Error.value_too_long)
    ∷ (leb (chars (role_text row.role)) 50, Error.value_too_long)
    ∷ (not (some_row (λ (u : User). u.id == row.id) t.users), Error.unique_violation)
    ∷ (not (some_row (has_email row.email) t.users), Error.unique_violation)
    ∷ []

abbrev pub user_row : Engine → ℕ → String → String → Role → User
user_row e n email hash role = record {
  id = e.fresh_id n;
  email = email;
  password_hash = hash;
  role = role;
  created_at = e.now n;
  updated_at = e.now n;
}

abbrev pub user_error : Error → Error
user_error Error.unique_violation = Error.user_exists
user_error x = x

-- `CreateUser`
unfoldable pub create_user : Engine → String → String → Role → Action User
create_user e email hash role = wrap_error user_error (
    statement e λ n. do
      write (user_constraints (user_row e n email hash role))
          (λ t. record t { users = t.users ++ user_row e n email hash role ∷ [] })
      pure (user_row e n email hash role))

-- `GetUserByEmail`
unfoldable pub get_user_by_email : Engine → String → Action User
get_user_by_email e email =
    statement e λ n. do
      row ← gets (λ t. find_row (has_email email) t.users)
      or_raise row Error.user_not_found

abbrev pub is_empty_role : Role → Bool
is_empty_role (Role.other s) = s == ""
is_empty_role _ = false

-- An empty role becomes USER; any other is taken as it is.
abbrev pub default_role : Role → Role
default_role role = if is_empty_role role then Role.user else role

-- `GenerateToken`, with a day's duration in seconds; its three readings of the clock are one.
unfoldable pub generate_token : Crypto → Engine → String → User → Action String
generate_token crypto e secret user = do
  now ← clock e
  let claims : JwtClaims = record { user_id = user.id; role = user.role }
  or_raise
      (crypto.sign
        (record {
          claims = claims;
          expires_at = now + 24 * 3600;
          issued_at = now;
          not_before = now;
          issuer = "wallet-ledger";
          subject = user.id;
        })
        secret)
      Error.signing_failed

-- What the JWT library makes of a token: whether its header names an HMAC method, and, of the token
-- and a key, the claims if the signature and the times are valid.
pub record Jwt : Type 0 where
  pub is_hmac : String → Bool
  pub parse : String → String → Option JwtClaims

-- `ValidateToken`: the method is looked at before the key is given.
unfoldable pub validate_token : Jwt → String → String → Option JwtClaims
validate_token jwt token secret = if jwt.is_hmac token then jwt.parse token secret else none

-- `Register`
unfoldable pub register : Crypto → Engine → String → RegisterRequest → Action AuthResponse
unfolding create_user generate_token
register crypto e secret req = do
  hash ← or_raise (crypto.generate req.password) Error.hashing_failed
  user ← create_user e req.email hash (default_role req.role)
  token ← generate_token crypto e secret user
  pure (record { token = token; user = user })

abbrev pub login_error : Error → Error
login_error Error.user_not_found = Error.invalid_credentials
login_error x = x

-- `Login`
unfoldable pub login : Crypto → Engine → String → LoginRequest → Action AuthResponse
unfolding get_user_by_email generate_token
login crypto e secret req = do
  user ← wrap_error login_error (get_user_by_email e req.email)
  guard (crypto.compare user.password_hash req.password) Error.invalid_credentials
  token ← generate_token crypto e secret user
  pure (record { token = token; user = user })

abbrev pub register_failure : Error → Response
register_failure Error.user_exists = record { status = 409; body = error_body Error.user_exists }
register_failure _ = failure 500 "internal server error"

-- `HandleRegister`
unfoldable pub handle_register :
    Crypto → Engine → String → Option RegisterRequest → World → Response × World
unfolding register
handle_register crypto e secret none w = (failure 400 "invalid request body", w)
handle_register crypto e secret (some req) w =
    if req.email == "" || req.password == ""
    then (failure 400 "email and password are required", w)
    else answer register_failure (λ response. reply 201 (auth_json response))
        (register crypto e secret req w)

abbrev pub login_failure : Error → Response
login_failure Error.invalid_credentials = record {
  status = 401;
  body = error_body Error.invalid_credentials;
}
login_failure _ = failure 500 "internal server error"

-- `HandleLogin`
unfoldable pub handle_login :
    Crypto → Engine → String → Option LoginRequest → World → Response × World
unfolding login
handle_login crypto e secret none w = (failure 400 "invalid request body", w)
handle_login crypto e secret (some req) w =
    if req.email == "" || req.password == ""
    then (failure 400 "email and password are required", w)
    else answer login_failure (λ response. reply 200 (auth_json response))
        (login crypto e secret req w)
