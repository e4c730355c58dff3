-- ===== src/Auth/Tests.antt =====
-- Runs of the account services at concrete inputs.
use tpulse_backend.Prelude.{
  ℕ, ◌≡◌, ◌∷◌, any, ◌⊎◌, inl, inr, sym, if◌then◌else◌, refl, true, false, not, none, some, All,
  Elem, filter, is_some, str_eq, ◌==◌, update_where,
}
use mathlib.Core.Path.{subst}
use tpulse_backend.Db.Reference.{list_db, list_db-IsPrisma}
use tpulse_backend.Effects.{ok, err, unauthorized, bad_request}
use tpulse_backend.Samples.{auth_env, a_user, accounts}
use tpulse_backend.Auth.Types.{User, OneTimeToken, Store}
use tpulse_backend.Auth.Tokens.{
  rotate_refresh_token, revoke_all_for_user, issue_refresh_token, generate_access_token,
}
use tpulse_backend.Auth.Passwords.{reset, is_open, use_at}
use tpulse_backend.Auth.Verification.{verify}
use tpulse_backend.Auth.Service.{
  new_user, RegisterDto, AuthResponse, to_user_response, login, register,
}
use tpulse_backend.Auth.Replay.{rotate_once, here}
use tpulse_backend.Auth.Sessions.{
  HasNoSession, revoke_all_scope, reset_refused, reset_done, rotate-reset,
}
use tpulse_backend.Auth.Accounts.{IsSignedIn, login-IsSignedIn}
use tpulse_backend.Auth.Registration.{taken, register_done, verify-cases}

rotate_once_example :
    rotate_refresh_token list_db
      (auth_env 9)
      "t1"
      (rotate_refresh_token list_db (auth_env 5) "t1" accounts).1
    ≡ (err unauthorized, (rotate_refresh_token list_db (auth_env 5) "t1" accounts).1)
unfolding rotate_refresh_token issue_refresh_token
rotate_once_example =
    rotate_once list_db list_db-IsPrisma (auth_env 5) (auth_env 9) "t1" accounts
      (rotate_refresh_token list_db (auth_env 5) "t1" accounts).1
      (rotate_refresh_token list_db (auth_env 5) "t1" accounts).1 "r0" 1
      ((λ e. refl, (λ e. cc, tt)), ((λ e. cc, (λ e. refl, tt)), tt)) refl refl here

revoke_all_scope_example :
    HasNoSession 1 (revoke_all_for_user list_db (auth_env 5) 1 accounts).1.refresh_tokens
    × (filter
          (λ r. not (r.user_id == 1))
          (revoke_all_for_user list_db (auth_env 5) 1 accounts).1.refresh_tokens
        ≡ filter (λ r. not (r.user_id == 1)) accounts.refresh_tokens)
revoke_all_scope_example = revoke_all_scope list_db list_db-IsPrisma (auth_env 5) 1 accounts

reset_refused_example : (bad_request ≡ bad_request) × (accounts ≡ accounts)
unfolding reset
reset_refused_example =
    reset_refused list_db list_db-IsPrisma (auth_env 5) "bob" "other" "new" accounts bad_request
      accounts refl

abbrev after_reset : Store
after_reset = (reset list_db (auth_env 5) "bob" "reset" "new" accounts).1

reset_done_example :
    (user : User) × (row : OneTimeToken) × Elem user accounts.users
    × (str_eq user.email "bob" ≡ true)
    × Elem row accounts.reset_tokens
    × (is_open 5 user.id "reset" row ≡ true)
    × HasNoSession user.id after_reset.refresh_tokens
    × All (λ u. (u.id == user.id) ≡ true → u.password_hash ≡ "new") after_reset.users
    × All (λ r. (r.id == row.id) ≡ true → is_some r.used_at ≡ true) after_reset.reset_tokens
unfolding reset revoke_all_for_user
reset_done_example =
    reset_done list_db list_db-IsPrisma (auth_env 5) "bob" "reset" "new" accounts after_reset refl

false-true : false ≡ true → ⊥
false-true e = cc

owner_of_t2 :
    (user : User)
    → Elem user accounts.users
    → str_eq user.email "bob" ≡ true
    → All (λ r. str_eq r.token "t2" ≡ true → (r.user_id == user.id) ≡ true) accounts.refresh_tokens
owner_of_t2 user (inl e) h =
    absurd (false-true (subst (λ (u : User). str_eq u.email "bob" ≡ true) e h))
owner_of_t2 user (inr (inl e)) h =
    subst
      (λ (u : User).
        All (λ r. str_eq r.token "t2" ≡ true → (r.user_id == u.id) ≡ true) accounts.refresh_tokens)
      (sym e) ((λ x. absurd (false-true x)), ((λ x. refl), tt))
owner_of_t2 user (inr (inr e)) h = absurd e

rotate-reset_example :
    rotate_refresh_token list_db (auth_env 9) "t2" after_reset ≡ (err unauthorized, after_reset)
unfolding reset revoke_all_for_user
rotate-reset_example =
    rotate-reset list_db list_db-IsPrisma (auth_env 5) (auth_env 9) "bob" "reset" "new" "t2"
      accounts after_reset refl refl refl (λ user there e. owner_of_t2 user there e)

abbrev response : ℕ → User → AuthResponse
response n user = record {
  access = record { access_token = "jwt"; expires_at = 900000 };
  refresh_token = if n == 0 then "r0" else (if n == 1 then "r1" else "r2");
  user = to_user_response user;
}

abbrev logged_in : Store
logged_in = (login list_db (auth_env 5) "ada" "secret" accounts).1

login_example :
    (user : User) × Elem user accounts.users
    × (str_eq user.email "ada" ≡ true)
    × (str_eq "secret" user.password_hash ≡ true)
    × IsSignedIn (auth_env 5) user (response 1 (a_user 1 "ada" "Admin")) logged_in.refresh_tokens
unfolding login generate_access_token issue_refresh_token
login_example =
    login-IsSignedIn list_db list_db-IsPrisma (auth_env 5) "ada" "secret" accounts logged_in
      (response 1 (a_user 1 "ada" "Admin")) refl

abbrev carol : RegisterDto
carol = record {
  username = "carol";
  email = "carol";
  password = "pw";
  nickname = "c";
  favourite_team = none;
}

abbrev carol_row : User
carol_row = new_user 101 5 carol "pw"

abbrev signed_up : Store
signed_up = (register list_db (auth_env 5) carol accounts).1

register_done_example :
    (user : User) × (signed_up.users ≡ user ∷ accounts.users)
    × (any (taken carol) accounts.users ≡ false)
    × (user.username ≡ "carol")
    × (user.email ≡ carol.email)
    × (user.is_mail_confirm ≡ false)
    × (user.role ≡ "User")
    × (user.password_hash ≡ "pw")
    × IsSignedIn (auth_env 5) user (response 4 carol_row) signed_up.refresh_tokens
unfolding register generate_access_token issue_refresh_token tpulse_backend.Auth.Verification.send
register_done_example =
    register_done list_db list_db-IsPrisma (auth_env 5) carol accounts signed_up
      (response 4 carol_row) refl

verify_example :
    (verify list_db (auth_env 5) "bob" "verify" accounts ≡ (err bad_request, accounts))
    ⊎ ((user : User) × Elem user accounts.users
        × (str_eq user.email "bob" ≡ true)
        × ((verify list_db (auth_env 5) "bob" "verify" accounts).0 ≡ ok tt)
        × (((user.is_mail_confirm ≡ true)
              × ((verify list_db (auth_env 5) "bob" "verify" accounts).1 ≡ accounts))
            ⊎ ((row : OneTimeToken) × Elem row accounts.verification_tokens
                × (is_open 5 user.id "verify" row ≡ true)
                × ((verify list_db (auth_env 5) "bob" "verify" accounts).1.users
                    ≡ update_where
                        (λ u. u.id == user.id)
                        (λ u. record u { is_mail_confirm = true; updated_at = some 5 })
                        accounts.users)
                × ((verify list_db (auth_env 5) "bob" "verify" accounts).1.verification_tokens
                    ≡ update_where (λ t. t.id == row.id) (use_at 5) accounts.verification_tokens))))
verify_example = verify-cases list_db list_db-IsPrisma (auth_env 5) "bob" "verify" accounts
