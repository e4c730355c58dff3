-- ===== src/Auth/Types.antt =====
-- The rows of prisma/schema.prisma that the account services read and write, the store that they
-- share, and what they take from outside: the clock, the random source, the hashes, the signer.
-- Identifiers are only compared, so they are numbers; times are milliseconds.
use tpulse_backend.Prelude.{ℕ, String, Bool, Option, List}
use tpulse_backend.Prelude.Int.{ℤ}
use tpulse_backend.Redis.{Entry}

pub data UserStatus : Type 0 where
  active inactive banned suspended : UserStatus

pub data VerificationType : Type 0 where
  blue gold : VerificationType

pub record User : Type 0 where
  pub id : ℕ
  pub username : String
  pub email : String
  pub password_hash : String
  pub nickname : String
  pub profile_pic : Option String
  pub is_mail_confirm : Bool
  pub status : UserStatus
  pub favourite_team : Option String
  pub reputation_score : ℤ
  pub role : String
  pub verification_type : Option VerificationType
  pub verified_at : Option ℕ
  pub google_id : Option String
  pub banned_at : Option ℕ
  pub ban_reason : Option String
  pub created_at : ℕ
  pub updated_at : Option ℕ

pub record RefreshToken : Type 0 where
  pub id : ℕ
  pub user_id : ℕ
  pub token : String
  pub expires_at : ℕ
  pub created_at : ℕ
  pub revoked_at : Option ℕ
  pub replaced_by_token : Option String

-- `PasswordResetToken` and `EmailVerificationToken`, which have the same columns.
pub record OneTimeToken : Type 0 where
  pub id : ℕ
  pub user_id : ℕ
  pub token_hash : String
  pub expires_at : ℕ
  pub used_at : Option ℕ
  pub created_at : ℕ

-- The mails that the account services ask for, with the address and what the text carries.
pub data Mail : Type 0 where
  password_reset verify_email : (to raw_token name : String) → Mail
  password_changed welcome : (to name : String) → Mail
  account_banned account_suspended : (to name reason : String) → Mail
  report_reviewed : (to name outcome content_type : String) (action_taken : Option String) → Mail

-- `draws` counts the values taken from the random source.
pub record Store : Type 0 where
  pub users : List User
  pub refresh_tokens : List RefreshToken
  pub reset_tokens : List OneTimeToken
  pub verification_tokens : List OneTimeToken
  pub status_cache : List (Entry UserStatus)
  pub mails : List Mail
  pub draws : ℕ

pub record JwtPayload : Type 0 where
  pub sub : ℕ
  pub email : String
  pub unique_name : String
  pub nickname : String
  pub role : String
  pub jti : ℕ

pub record AccessToken : Type 0 where
  pub access_token : String
  pub expires_at : ℕ

-- One reading of the clock serves a whole request. `uuid n` and `random_hex bytes n` are the values
-- that the `n`-th draw gives, `mail_sent` says whether the mail provider takes a mail, and
-- `redis_up` whether Redis answers.
pub record Env : Type 0 where
  pub now : ℕ
  pub uuid : ℕ → ℕ
  pub random_hex : (bytes draw : ℕ) → String
  pub sha256 : String → String
  pub bcrypt_hash : ℕ → String → String
  pub bcrypt_compare : String → String → Bool
  pub jwt_sign : JwtPayload → String
  pub jwt_exp : String → ℕ
  pub refresh_expiry_days : ℕ
  pub reset_minutes : ℕ
  pub verify_minutes : ℕ
  pub mail_sent : Mail → Bool
  pub redis_up : Bool
