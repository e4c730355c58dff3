-- ===== src/Auth/Passwords.antt =====
-- src/auth/password.service.ts: hashing, and the reset of a forgotten password by a one-time token.
use tpulse_backend.Prelude.{
  ℕ, ◌+◌, ◌*◌, String, Bool, ◌&&◌, not, Option, none, some, List, if◌then◌else◌, ltb, ◌==◌, is_some,
  str_eq, ◌∷◌,
}
use tpulse_backend.Db.{Prisma}
use tpulse_backend.Effects.{
  Action, ok, err, pure, gets, or_throw, write, attempt, transaction, ◌>>=◌, ◌>>◌, bad_request,
  conflict, internal,
}
use tpulse_backend.Auth.Types.{
  User, OneTimeToken, Mail, password_reset, password_changed, Store, Env,
}
use tpulse_backend.Auth.Tokens.{draw, revoke_all_for_user}

abbrev pub set_users : Store → Option (List User) → Option Store
set_users s none = none
set_users s (some t) = some (record s { users = t })

abbrev pub set_reset_tokens : Store → Option (List OneTimeToken) → Option Store
set_reset_tokens s none = none
set_reset_tokens s (some t) = some (record s { reset_tokens = t })

abbrev pub use_at : ℕ → OneTimeToken → OneTimeToken
use_at now t = record t { used_at = some now }

-- The `where` of the token searches: this user's, with this hash, unused and not expired.
abbrev pub is_open : ℕ → ℕ → String → OneTimeToken → Bool
is_open now user_id hash t =
    t.user_id == user_id
    && str_eq t.token_hash hash
    && not (is_some t.used_at)
    && ltb now t.expires_at

module _ (env : Env) where
  -- The mail provider, through src/email/email.service.ts.
  abbrev pub send_mail : Mail → Action Store (Unit {0})
  send_mail m s =
      if env.mail_sent m then (ok tt, record s { mails = m ∷ s.mails }) else (err internal, s)

  unfoldable pub hash_password : String → Action Store String
  hash_password password = do n ← draw; pure (env.bcrypt_hash n password)

module _ (db : Prisma) (env : Env) where
  abbrev pub new_one_time_token : ℕ → ℕ → ℕ → String → OneTimeToken
  new_one_time_token n user_id minutes raw = record {
    id = env.uuid n;
    user_id = user_id;
    token_hash = env.sha256 raw;
    expires_at = env.now + minutes * 60 * 1000;
    used_at = none;
    created_at = env.now;
  }

  create_reset_token : ℕ → Action Store String
  create_reset_token user_id = do
    m ← draw
    n ← draw
    let row = new_one_time_token n user_id env.reset_minutes (env.random_hex 32 m)
    write (λ s. set_reset_tokens s (db.create (λ t. t.id == row.id) row s.reset_tokens)) conflict
    pure (env.random_hex 32 m)

  reset_of : String → Option User → Action Store (Unit {0})
  unfolding create_reset_token
  reset_of email none = pure tt
  reset_of email (some user) = do
    raw ← create_reset_token user.id
    send_mail env (password_reset email raw user.nickname)

  -- The caller cannot tell an unknown address from a known one.
  unfoldable pub request_reset : String → Action Store (Unit {0})
  unfolding reset_of
  request_reset email = do
    user ← gets (λ s. db.find_first (λ u. str_eq u.email email) s.users)
    reset_of email user

  -- Both writes of the `$transaction` in `reset`.
  unfoldable pub set_password : User → OneTimeToken → String → Action Store (Unit {0})
  set_password user row password_hash = transaction (do
    write
        (λ s. set_users s (
          db.update (λ u. u.id == user.id)
            (λ u. record u { password_hash = password_hash; updated_at = some env.now }) s.users))
        internal
    write
        (λ s. set_reset_tokens s (db.update (λ t. t.id == row.id) (use_at env.now) s.reset_tokens))
        internal)

  unfoldable pub reset : String → String → String → Action Store (Unit {0})
  unfolding set_password hash_password
  reset email token new_password = do
    found ← gets (λ s. db.find_first (λ u. str_eq u.email email) s.users)
    user ← or_throw found bad_request
    open_token ←
        gets (λ s. db.find_first (is_open env.now user.id (env.sha256 token)) s.reset_tokens)
    row ← or_throw open_token bad_request
    password_hash ← hash_password env new_password
    set_password user row password_hash
    revoke_all_for_user db env user.id
    attempt (send_mail env (password_changed user.email user.nickname))
