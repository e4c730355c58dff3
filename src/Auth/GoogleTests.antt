-- ===== src/Auth/GoogleTests.antt =====
-- Runs of the Google login at concrete inputs.
use tpulse_backend.Prelude.{
  ℕ, ◌≡◌, ◌≤◌, ◌&&◌, any, String, refl, true, false, none, some, str_eq, if◌then◌else◌,
}
use tpulse_backend.Db.Reference.{list_db, list_db-IsPrisma}
use tpulse_backend.Effects.{ok, err, unauthorized}
use tpulse_backend.Samples.{auth_env, accounts}
use tpulse_backend.Auth.Types.{User, Store}
use tpulse_backend.Auth.Tokens.{issue_refresh_token, generate_access_token}
use tpulse_backend.Auth.Service.{AuthResponse, to_user_response}
use tpulse_backend.Auth.Accounts.{IsSignedIn}
use tpulse_backend.Auth.Google.{
  GoogleEnv, google_user, name_is, unique_username_from_email, google_login,
}
use tpulse_backend.Auth.GoogleLogin.{IsVouched, IsAccount, google_login-IsSignedIn}
use tpulse_backend.Auth.Names.{unique_username_from_email_found}
use Prim.Native.String.{slice}

-- Google vouches for one token, of the address that is given.
abbrev google_of : String → GoogleEnv
google_of email = record {
  enabled = true;
  verify_id_token = λ t.
      if str_eq t "ticket"
      then some
          (record { email = some email; sub = some "g1"; name = none; given_name = some "Ada" })
      else none;
  local_part = λ t. if str_eq t "ada@mail" then "ada" else t;
  only_word = λ t. t;
  cut = λ n t. slice t 0 n;
  pad_end = λ n p t. t;
}

-- "ada" is taken.
unique_username_from_email_found_example :
    (name : String) × (n : ℕ) × (unique_username_from_email list_db
        (auth_env 5)
        (google_of "ada@mail")
        "ada@mail"
        accounts
      ≡ (ok name, record accounts { draws = n }))
    × (any (name_is name) accounts.users ≡ false)
    × (n ≤ 2)
unique_username_from_email_found_example =
    unique_username_from_email_found list_db list_db-IsPrisma (auth_env 5) (google_of "ada@mail")
      "ada@mail" accounts ((refl, (refl, tt)), ((refl, tt), (tt, tt)))

second_name :
    (unique_username_from_email list_db (auth_env 5) (google_of "ada@mail") "ada@mail" accounts).0
    ≡ ok "ada_r0"
unfolding unique_username_from_email
second_name = refl

-- A token that Google does not vouch for.
bad_ticket :
    google_login list_db (auth_env 5) (google_of "ada@mail") "forged" accounts
    ≡ (err unauthorized, accounts)
unfolding google_login
bad_ticket = refl

-- A first login adds a user, confirmed and under a free name.
google_user_added :
    any
      (λ u. str_eq u.username "ada_r0" && u.is_mail_confirm)
      (google_login list_db (auth_env 5) (google_of "ada@mail") "ticket" accounts).1.users
    ≡ true
unfolding google_login issue_refresh_token generate_access_token
google_user_added = refl

abbrev google_row : User
google_row = google_user 103 5 "ada@mail" "g1" "ada_r0" "Ada" "r1"

abbrev response : AuthResponse
response = record {
  access = record { access_token = "jwt"; expires_at = 900000 };
  refresh_token = "r2";
  user = to_user_response google_row;
}

abbrev vouched : Store
vouched = (google_login list_db (auth_env 5) (google_of "ada@mail") "ticket" accounts).1

google_login-IsSignedIn_example :
    (email : String) × (g : String) × (user : User) × (true ≡ true)
    × IsVouched (google_of "ada@mail") "ticket" email g
    × (str_eq user.email email ≡ true)
    × IsAccount email g user accounts.users vouched.users
    × IsSignedIn (auth_env 5) user response vouched.refresh_tokens
unfolding google_login issue_refresh_token generate_access_token
google_login-IsSignedIn_example =
    google_login-IsSignedIn list_db list_db-IsPrisma (auth_env 5) (google_of "ada@mail") "ticket"
      accounts vouched response refl
