-- ===== src/Auth/Google.antt =====
-- The Google login of src/auth/auth.service.ts.
use tpulse_backend.Prelude.{
  ℕ, zero, suc, String, Bool, true, not, Option, none, some, List, if◌then◌else◌, ◌==◌, is_some,
  str_eq, str_append, length,
}
use tpulse_backend.Prelude.Int.{pos}
use tpulse_backend.Db.{Prisma}
use tpulse_backend.Effects.{
  Action, ok, err, pure, gets, or_throw, throw_if, write, ◌>>=◌, ◌>>◌, unauthorized, unavailable,
  conflict, internal,
}
use tpulse_backend.Auth.Types.{User, active, Store, Env}
use tpulse_backend.Auth.Tokens.{draw}
use tpulse_backend.Auth.Passwords.{hash_password, set_users}
use tpulse_backend.Auth.Service.{AuthResponse, user_clashes, build_auth_response}

-- The claims of a verified token, as far as they are read. A ticket without a payload has none.
pub record GooglePayload : Type 0 where
  pub email : Option String
  pub sub : Option String
  pub name : Option String
  pub given_name : Option String

-- The client of google-auth-library, whose `verifyIdToken` throws where the token is not valid
-- (`none`), and the runtime's operations on texts: `split('@')[0]`, the removal of what is no letter,
-- digit or `_`, `slice(0, n)` and `padEnd`.
pub record GoogleEnv : Type 0 where
  pub enabled : Bool
  pub verify_id_token : String → Option GooglePayload
  pub local_part : String → String
  pub only_word : String → String
  pub cut : ℕ → String → String
  pub pad_end : ℕ → String → String → String

-- `!text` is true of the empty text too.
abbrev pub given : Option String → Option String
given none = none
given (some t) = if str_eq t "" then none else some t

abbrev pub first_of : Option String → Option String → Option String
first_of none b = b
first_of (some a) b = some a

abbrev pub or_text : Option String → String → String
or_text none b = b
or_text (some a) b = a

abbrev pub name_is : String → User → Bool
name_is name u = str_eq u.username name

abbrev pub google_user :
    (id now : ℕ) (email google_id username nickname password_hash : String) → User
google_user id now email google_id username nickname password_hash = record {
  id = id;
  username = username;
  email = email;
  password_hash = password_hash;
  nickname = nickname;
  profile_pic = none;
  is_mail_confirm = true;
  status = active;
  favourite_team = none;
  reputation_score = pos 0;
  role = "User";
  verification_type = none;
  verified_at = none;
  google_id = some google_id;
  banned_at = none;
  ban_reason = none;
  created_at = now;
  updated_at = none;
}

abbrev pub linked : String → User → User
linked google_id u = record u { google_id = some google_id; is_mail_confirm = true }

abbrev pub found_name : Option (String × ℕ) → Action Store String
found_name none s = (err internal, s)
found_name (some (name, n)) s = (ok name, record s { draws = n })

module _ (db : Prisma) (env : Env) (google : GoogleEnv) where
  abbrev pub name_base : String → String
  name_base email =
      google.pad_end 3 "0" (google.cut 40 (google.only_word (google.local_part email)))

  -- The name that is tried next, with the value of the `n`-th draw.
  abbrev pub retry : String → ℕ → String
  retry base n = google.cut 50 (str_append base (str_append "_" (env.random_hex 2 n)))

  -- The loop, on fuel: the first candidate that no user has, and how far the draws went.
  unfoldable pub search_name : ℕ → String → String → ℕ → List User → Option (String × ℕ)
  search_name zero base name n t = none
  search_name (suc fuel) base name n t =
      let rest = search_name fuel base (retry base n) (suc n) t in
      if is_some (db.find_first (name_is name) t) then rest else some (name, n)

  unfoldable pub unique_username_from_email : String → Action Store String
  unfolding search_name
  unique_username_from_email email s =
      let base = name_base email in
      found_name (search_name (suc (length s.users)) base base s.draws s.users) s

  unfoldable pub create_google_user : (email google_id : String) → Option String → Action Store User
  unfolding unique_username_from_email hash_password
  create_google_user email google_id name = do
    username ← unique_username_from_email email
    bytes ← draw
    password_hash ← hash_password env (env.random_hex 32 bytes)
    n ← draw
    let user =
        google_user (env.uuid n) env.now email google_id username
          (or_text name (google.local_part email)) password_hash
    write (λ s. set_users s (db.create (user_clashes user) user s.users)) conflict
    pure user

  -- A user without a Google id gets it, and counts as confirmed.
  unfoldable pub link_google : String → User → Action Store User
  link_google google_id user = if is_some (given user.google_id) then pure user else (do
    write (λ s. set_users s (db.update (λ u. u.id == user.id) (linked google_id) s.users)) internal
    pure (linked google_id user))

  unfoldable pub google_account :
      (email google_id : String) → Option String → Option User → Action Store User
  unfolding create_google_user link_google
  google_account email google_id name none = create_google_user email google_id name
  google_account email google_id name (some user) = link_google google_id user

  unfoldable pub google_login : String → Action Store AuthResponse
  unfolding google_account build_auth_response
  google_login id_token = do
    throw_if (not google.enabled) unavailable
    payload ← or_throw (google.verify_id_token id_token) unauthorized
    email ← or_throw (given payload.email) unauthorized
    google_id ← or_throw (given payload.sub) unauthorized
    found ← gets (λ s. db.find_first (λ u. str_eq u.email email) s.users)
    user ← google_account email google_id (first_of payload.name payload.given_name) found
    build_auth_response db env user
