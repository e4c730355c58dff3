-- ===== src/Users/Service.antt =====
-- The methods of `UsersService` that change a user.
use tpulse_backend.Prelude.{
  ℕ, String, Bool, true, false, ◌&&◌, ◌||◌, not, Option, none, some, if◌then◌else◌, ◌==◌, leb,
  is_some, str_eq,
}
use tpulse_backend.Prelude.Int.{ℤ, ◌+ℤ◌}
use tpulse_backend.Db.{Prisma}
use tpulse_backend.Redis.{Redis}
use tpulse_backend.Effects.{
  Action, pure, gets, or_throw, throw_if, write, when, attempt, modify, ◌>>=◌, ◌>>◌, bad_request,
  not_found, conflict, internal,
}
use tpulse_backend.Auth.{
  User, UserStatus, active, inactive, banned, suspended, VerificationType, Store, Env,
  account_banned, account_suspended, draw, set_users, send_mail, hash_password, revoke_all_for_user,
  RegisterDto, UserResponse, to_user_response, new_user, user_clashes,
}
use tpulse_backend.Guards.{set_status}

abbrev pub status_eq : UserStatus → UserStatus → Bool
status_eq active active = true
status_eq inactive inactive = true
status_eq banned banned = true
status_eq suspended suspended = true
status_eq _ _ = false

abbrev pub is_admin_role : String → Bool
is_admin_role role = str_eq role "Admin"

abbrev pub is_active_admin : User → Bool
is_active_admin u = is_admin_role u.role && status_eq u.status active

pub record StatusDto : Type 0 where
  pub status : UserStatus
  pub reason : Option String

pub record ReputationDto : Type 0 where
  pub delta : Option ℤ
  pub value : Option ℤ

pub record UpdateUserDto : Type 0 where
  pub id : ℕ
  pub nickname : Option String
  pub profile_pic : Option String
  pub favourite_team : Option String

-- A field that is undefined in `data` is left as it is.
abbrev pub given {ℓ} : {A : Type ℓ} → Option A → A → A
given none old = old
given (some new) old = new

abbrev pub given_some {ℓ} : {A : Type ℓ} → Option A → Option A → Option A
given_some none old = old
given_some (some new) old = some new

abbrev pub with_status : ℕ → StatusDto → User → User
with_status now dto u = record u {
  status = dto.status;
  banned_at = if status_eq dto.status banned then some now else none;
  ban_reason = if status_eq dto.status active then none else dto.reason;
  updated_at = some now;
}

abbrev pub with_role : ℕ → String → User → User
with_role now role u = record u { role = role; updated_at = some now }

abbrev pub with_verification : ℕ → Option VerificationType → User → User
with_verification now badge u = record u {
  verification_type = badge;
  verified_at = if is_some badge then some now else none;
  updated_at = some now;
}

abbrev pub with_reputation : ℕ → ReputationDto → User → User
with_reputation now dto u = elim dto.delta [
  | some delta ↦ record u { reputation_score = u.reputation_score +ℤ delta; updated_at = some now }
  | none ↦ record u { reputation_score = given dto.value u.reputation_score; updated_at = some now }
]

abbrev pub with_profile : ℕ → UpdateUserDto → User → User
with_profile now dto u = record u {
  nickname = given dto.nickname u.nickname;
  profile_pic = given_some dto.profile_pic u.profile_pic;
  favourite_team = given_some dto.favourite_team u.favourite_team;
  updated_at = some now;
}

-- `AdminUserDetailResponseDto`, which adds the moderation fields.
pub record UserDetailResponse : Type 0 where
  pub user : UserResponse
  pub banned_at : Option ℕ
  pub ban_reason : Option String
  pub updated_at : Option ℕ
  pub verified_at : Option ℕ

abbrev pub to_user_detail_response : User → UserDetailResponse
to_user_detail_response u = record {
  user = to_user_response u;
  banned_at = u.banned_at;
  ban_reason = u.ban_reason;
  updated_at = u.updated_at;
  verified_at = u.verified_at;
}

abbrev pub with_picture : Option String → User → User
with_picture picture u = record u { profile_pic = picture }

abbrev pub default_reason : String
default_reason = "Topluluk kurallarının ihlali."

module _ (db : Prisma) (env : Env) where
  unfoldable pub find_user : ℕ → Action Store User
  find_user id = do
    found ← gets (λ s. db.find_first (λ u. u.id == id) s.users)
    or_throw found not_found

  unfoldable pub update_user : ℕ → (User → User) → Action Store (Unit {0})
  update_user id change =
      write (λ s. set_users s (db.update (λ u. u.id == id) change s.users)) internal

  unfoldable pub find_by_id : ℕ → Action Store UserResponse
  unfolding find_user
  find_by_id id = do user ← find_user id; pure (to_user_response user)

  unfoldable pub get_detail : ℕ → Action Store UserDetailResponse
  unfolding find_user
  get_detail id = do user ← find_user id; pure (to_user_detail_response user)

  -- As `register`, without a confirmation mail and without tokens.
  unfoldable pub create : RegisterDto → Option String → Action Store UserResponse
  unfolding hash_password
  create dto profile_pic = do
    existing ← gets (λ s.
        db.find_first (λ u. str_eq u.email dto.email || str_eq u.username dto.username) s.users)
    throw_if (is_some existing) conflict
    password_hash ← hash_password env dto.password
    n ← draw
    let user = with_picture profile_pic (new_user (env.uuid n) env.now dto password_hash)
    write (λ s. set_users s (db.create (user_clashes user) user s.users)) conflict
    pure (to_user_response user)

  unfoldable pub assert_not_last_active_admin : Action Store (Unit {0})
  assert_not_last_active_admin = do
    active_admins ← gets (λ s. db.count_rows is_active_admin s.users)
    throw_if (leb active_admins 1) conflict

  -- The mail of a ban or a suspension; no mail goes out for Inactive.
  unfoldable pub notify_status : User → StatusDto → Action Store (Unit {0})
  notify_status user dto = elim dto.status [
    | banned ↦
        send_mail env (account_banned user.email user.nickname (given dto.reason default_reason))
    | suspended ↦
        send_mail env (account_suspended user.email user.nickname (given dto.reason default_reason))
    | _ ↦ pure tt
  ]

  unfoldable pub update_status : Redis → ℕ → StatusDto → Action Store UserDetailResponse
  unfolding find_user update_user assert_not_last_active_admin notify_status
  update_status redis id dto = do
    existing ← find_user id
    let becoming_inactive = not (status_eq dto.status active)
    when (becoming_inactive && is_admin_role existing.role && status_eq existing.status active)
        assert_not_last_active_admin
    update_user id (with_status env.now dto)
    let user = with_status env.now dto existing
    when becoming_inactive (revoke_all_for_user db env id)
    set_status redis db env id dto.status
    when becoming_inactive (attempt (notify_status user dto))
    pure (to_user_detail_response user)

  unfoldable pub update_role : ℕ → String → Action Store UserDetailResponse
  unfolding find_user update_user assert_not_last_active_admin
  update_role id role = do
    existing ← find_user id
    when
        (is_admin_role existing.role
          && not (is_admin_role role)
          && status_eq existing.status active)
        assert_not_last_active_admin
    update_user id (with_role env.now role)
    pure (to_user_detail_response (with_role env.now role existing))

  unfoldable pub set_verified : ℕ → Option VerificationType → Action Store UserDetailResponse
  unfolding find_user update_user
  set_verified id badge = do
    existing ← find_user id
    update_user id (with_verification env.now badge)
    pure (to_user_detail_response (with_verification env.now badge existing))

  -- Exactly one of `delta` and `value` is given.
  unfoldable pub update_reputation : ℕ → ReputationDto → Action Store UserDetailResponse
  unfolding find_user update_user
  update_reputation id dto = do
    throw_if (if is_some dto.delta then is_some dto.value else not (is_some dto.value)) bad_request
    existing ← find_user id
    update_user id (with_reputation env.now dto)
    pure (to_user_detail_response (with_reputation env.now dto existing))

  unfoldable pub update : ℕ → UpdateUserDto → Action Store UserResponse
  unfolding find_user update_user
  update id dto = do
    throw_if (not (dto.id == id)) bad_request
    existing ← find_user id
    update_user id (with_profile env.now dto)
    pure (to_user_response (with_profile env.now dto existing))

  -- The row is deleted, and with it, by the foreign key's cascade, the user's refresh tokens.
  unfoldable pub remove : ℕ → Action Store (Unit {0})
  unfolding find_user
  remove id = do
    existing ← find_user id
    modify (λ s. record s {
      users = db.delete_many (λ u. u.id == id) s.users;
      refresh_tokens = db.delete_many (λ r. r.user_id == id) s.refresh_tokens;
    })
