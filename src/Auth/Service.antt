-- ===== src/Auth/Service.antt =====
-- src/auth/auth.service.ts: registration, login, refresh, logout. Each method is the sequence of
-- the queries and calls that the source makes, its guards included.
use tpulse_backend.Prelude.{
  ℕ, String, Bool, false, ◌||◌, Option, none, some, if◌then◌else◌, ◌==◌, is_some, str_eq,
}
use tpulse_backend.Prelude.Int.{ℤ, pos}
use tpulse_backend.Db.{Prisma}
use tpulse_backend.Effects.{
  Action, pure, gets, or_throw, throw_if, write, attempt, ◌>>=◌, ◌>>◌, unauthorized, conflict,
}
use tpulse_backend.Auth.Types.{User, active, VerificationType, UserStatus, Store, Env, AccessToken}
use tpulse_backend.Auth.Tokens.{
  draw, generate_access_token, issue_refresh_token, rotate_refresh_token, revoke_refresh_token,
  revoke_all_for_user,
}
use tpulse_backend.Auth.Passwords.{hash_password, set_users}
use tpulse_backend.Auth.Verification.{send}

pub record RegisterDto : Type 0 where
  pub username : String
  pub email : String
  pub password : String
  pub nickname : String
  pub favourite_team : Option String

-- `UserResponseDto`: what a client sees of a user.
pub record UserResponse : Type 0 where
  pub id : ℕ
  pub username : String
  pub email : String
  pub nickname : String
  pub profile_pic : Option String
  pub is_mail_confirm : Bool
  pub status : UserStatus
  pub favourite_team : Option String
  pub reputation_score : ℤ
  pub role : String
  pub verification_type : Option VerificationType
  pub created_at : ℕ

pub record AuthResponse : Type 0 where
  pub access : AccessToken
  pub refresh_token : String
  pub user : UserResponse

abbrev pub to_user_response : User → UserResponse
to_user_response u = record {
  id = u.id;
  username = u.username;
  email = u.email;
  nickname = u.nickname;
  profile_pic = u.profile_pic;
  is_mail_confirm = u.is_mail_confirm;
  status = u.status;
  favourite_team = u.favourite_team;
  reputation_score = u.reputation_score;
  role = u.role;
  verification_type = u.verification_type;
  created_at = u.created_at;
}

-- A new row of `users` with the column defaults of the schema.
abbrev pub new_user : ℕ → ℕ → RegisterDto → String → User
new_user id now dto password_hash = record {
  id = id;
  username = dto.username;
  email = dto.email;
  password_hash = password_hash;
  nickname = dto.nickname;
  profile_pic = none;
  is_mail_confirm = false;
  status = active;
  favourite_team = dto.favourite_team;
  reputation_score = pos 0;
  role = "User";
  verification_type = none;
  verified_at = none;
  google_id = none;
  banned_at = none;
  ban_reason = none;
  created_at = now;
  updated_at = none;
}

-- The unique columns of `users`.
abbrev pub user_clashes : User → User → Bool
user_clashes new u = u.id == new.id || str_eq u.username new.username || str_eq u.email new.email

module _ (db : Prisma) (env : Env) where
  unfoldable pub build_auth_response : User → Action Store AuthResponse
  build_auth_response user = do
    access ← generate_access_token db env user
    refresh_token ← issue_refresh_token db env user.id
    pure (record { access = access; refresh_token = refresh_token; user = to_user_response user })

  unfoldable pub create_user : RegisterDto → String → Action Store User
  create_user dto password_hash = do
    n ← draw
    let user = new_user (env.uuid n) env.now dto password_hash
    write (λ s. set_users s (db.create (user_clashes user) user s.users)) conflict
    pure user

  unfoldable pub register : RegisterDto → Action Store AuthResponse
  unfolding create_user build_auth_response hash_password
  register dto = do
    existing ← gets (λ s.
        db.find_first (λ u. str_eq u.email dto.email || str_eq u.username dto.username) s.users)
    throw_if (is_some existing) conflict
    password_hash ← hash_password env dto.password
    user ← create_user dto password_hash
    attempt (send db env user)
    build_auth_response user

  -- An unknown address and a wrong password are refused alike.
  abbrev pub checked : String → Option User → Option User
  checked password none = none
  checked password (some u) = if env.bcrypt_compare password u.password_hash then some u else none

  unfoldable pub login : String → String → Action Store AuthResponse
  unfolding build_auth_response
  login email password = do
    found ← gets (λ s. db.find_first (λ u. str_eq u.email email) s.users)
    user ← or_throw (checked password found) unauthorized
    build_auth_response user

  unfoldable pub refresh : String → Action Store (AccessToken × String)
  unfolding generate_access_token
  refresh raw = do
    (new_raw, user_id) ← rotate_refresh_token db env raw
    found ← gets (λ s. db.find_first (λ u. u.id == user_id) s.users)
    user ← or_throw found unauthorized
    access ← generate_access_token db env user
    pure (access, new_raw)

  unfoldable pub logout : String → Action Store (Unit {0})
  logout raw = revoke_refresh_token db env raw

  unfoldable pub revoke_all : ℕ → Action Store (Unit {0})
  revoke_all user_id = revoke_all_for_user db env user_id
