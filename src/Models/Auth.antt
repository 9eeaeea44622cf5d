-- ===== src/Models/Auth.antt =====
-- internal/auth/models.go and the claims of internal/auth/jwt.go.
use go_wallet_ledger.Base.{ℕ, String}

-- A role is a string in Go: `other` is any text that is not one of the constants.
pub data Role : Type 0 where
  user merchant distributor platform system admin : Role
  other : String → Role

abbrev pub role_text : Role → String
role_text Role.user = "USER"
role_text Role.merchant = "MERCHANT"
role_text Role.distributor = "DISTRIBUTOR"
role_text Role.platform = "PLATFORM"
role_text Role.system = "SYSTEM"
role_text Role.admin = "ADMIN"
role_text (Role.other s) = s

pub record User : Type 0 where
  pub id : String
  pub email : String
  pub password_hash : String
  pub role : Role
  pub created_at : ℕ
  pub updated_at : ℕ

pub record JwtClaims : Type 0 where
  pub user_id : String
  pub role : Role

pub record RegisterRequest : Type 0 where
  pub email : String
  pub password : String
  pub role : Role

pub record LoginRequest : Type 0 where
  pub email : String
  pub password : String

pub record AuthResponse : Type 0 where
  pub token : String
  pub user : User

-- The claims with the registered ones that `GenerateToken` sets.
pub record SignedClaims : Type 0 where
  pub claims : JwtClaims
  pub expires_at : ℕ
  pub issued_at : ℕ
  pub not_before : ℕ
  pub issuer : String
  pub subject : String
