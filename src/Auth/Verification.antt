-- ===== src/Auth/Verification.antt =====
-- src/auth/email-verification.service.ts: confirming an e-mail address by a one-time token.
use tpulse_backend.Prelude.{String, Bool, true, false, Option, none, some, List, ◌==◌, str_eq}
use tpulse_backend.Db.{Prisma}
use tpulse_backend.Effects.{
  Action, pure, gets, or_throw, write, attempt, transaction, ◌>>=◌, ◌>>◌, bad_request, conflict,
  internal,
}
use tpulse_backend.Auth.Types.{User, OneTimeToken, verify_email, welcome, Store, Env}
use tpulse_backend.Auth.Tokens.{draw}
use tpulse_backend.Auth.Passwords.{set_users, use_at, is_open, send_mail, new_one_time_token}

abbrev pub set_verification_tokens : Store → Option (List OneTimeToken) → Option Store
set_verification_tokens s none = none
set_verification_tokens s (some t) = some (record s { verification_tokens = t })

module _ (db : Prisma) (env : Env) where
  unfoldable pub send : User → Action Store (Unit {0})
  send user = do
    m ← draw
    n ← draw
    let row = new_one_time_token db env n user.id env.verify_minutes (env.random_hex 32 m)
    write
        (λ s. set_verification_tokens s (db.create (λ t. t.id == row.id) row s.verification_tokens))
        conflict
    send_mail env (verify_email user.email (env.random_hex 32 m) user.nickname)

  -- Both writes of the `$transaction` in `verify`.
  unfoldable pub confirm_mail : User → OneTimeToken → Action Store (Unit {0})
  confirm_mail user row = transaction (do
    write
        (λ s. set_users s (
          db.update (λ u. u.id == user.id)
            (λ u. record u { is_mail_confirm = true; updated_at = some env.now }) s.users))
        internal
    write
        (λ s.
          set_verification_tokens s
            (db.update (λ t. t.id == row.id) (use_at env.now) s.verification_tokens))
        internal)

  -- What follows the early return for an address that is confirmed already.
  unfoldable pub verify_open : User → String → Bool → Action Store (Unit {0})
  unfolding confirm_mail
  verify_open user token true = pure tt
  verify_open user token false = do
    open_token ←
        gets (λ s. db.find_first (is_open env.now user.id (env.sha256 token)) s.verification_tokens)
    row ← or_throw open_token bad_request
    confirm_mail user row
    attempt (send_mail env (welcome user.email user.nickname))

  unfoldable pub verify : String → String → Action Store (Unit {0})
  unfolding verify_open
  verify email token = do
    found ← gets (λ s. db.find_first (λ u. str_eq u.email email) s.users)
    user ← or_throw found bad_request
    verify_open user token user.is_mail_confirm

  resend_to : Option User → Action Store (Unit {0})
  unfolding send
  resend_to none = pure tt
  resend_to (some user) = elim user.is_mail_confirm [ true ↦ pure tt | false ↦ send user ]

  unfoldable pub resend : String → Action Store (Unit {0})
  unfolding resend_to
  resend email = do
    found ← gets (λ s. db.find_first (λ u. str_eq u.email email) s.users)
    resend_to found
