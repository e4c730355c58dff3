-- ===== src/Auth/Reset.antt =====
-- The reset of a password: it is refused and changes nothing, or it does all of its writes.
use tpulse_backend.Prelude.{
  ◌+◌, String, ◌≡◌, true, ◌&&◌, not, some, ◌∷◌, any, Elem-any, if◌then◌else◌, is_some, str_eq, ◌==◌,
  ==-refl, arith, update_where,
}
use tpulse_backend.Db.{Prisma, IsPrisma}
use tpulse_backend.Effects.{ok}
use tpulse_backend.Auth.Types.{User, OneTimeToken, password_changed, Store, Env}
use tpulse_backend.Auth.Tokens.{revoke_all_for_user, revoke_at}
use tpulse_backend.Auth.Passwords.{is_open, use_at, set_password, reset}

abbrev pub with_password : Env → String → User → User
with_password env hash u = record u { password_hash = hash; updated_at = some env.now }

-- The store after a reset that went through.
abbrev pub reset_store : Env → User → OneTimeToken → String → Store → Store
reset_store env user row new_password s =
    let hash = env.bcrypt_hash s.draws new_password in
    let mail = password_changed user.email user.nickname in
    record s {
      users = update_where (λ u. u.id == user.id) (with_password env hash) s.users;
      reset_tokens = update_where (λ t. t.id == row.id) (use_at env.now) s.reset_tokens;
      refresh_tokens =
          update_where (λ r. r.user_id == user.id && not (is_some r.revoked_at)) (revoke_at env.now)
            s.refresh_tokens;
      mails = if env.mail_sent mail then mail ∷ s.mails else s.mails;
      draws = s.draws + 1;
    }

module _ (db : Prisma) (laws : IsPrisma db) (env : Env) where
  set_password_lem :
      (user : User) (row : OneTimeToken) (hash : String) (s : Store)
      → any (λ u. u.id == user.id) s.users ≡ true
      → any (λ t. t.id == row.id) s.reset_tokens ≡ true
      → set_password db env user row hash s ≡ (
        ok tt,
        record s {
          users = update_where (λ u. u.id == user.id) (with_password env hash) s.users;
          reset_tokens = update_where (λ t. t.id == row.id) (use_at env.now) s.reset_tokens;
        },
      )
  unfolding set_password
  set_password_lem user row hash s hu ht = ground (
    arith,
    laws.update_rows (λ u. u.id == user.id) (with_password env hash) s.users,
    laws.update_rows (λ t. t.id == row.id) (use_at env.now) s.reset_tokens,
  )

  pub reset_found :
      (email token new_password : String) (s : Store) (user : User) (row : OneTimeToken)
      → db.find_first (λ u. str_eq u.email email) s.users ≡ some user
      → db.find_first (is_open env.now user.id (env.sha256 token)) s.reset_tokens ≡ some row
      → reset db env email token new_password s ≡ (ok tt, reset_store env user row new_password s)
  unfolding reset revoke_all_for_user
  reset_found email token new_password s user row fu fr =
      let hash = env.bcrypt_hash s.draws new_password in
      let hu =
        Elem-any (λ u. u.id == user.id) user s.users (laws.find_first_elem _ _ user fu)
          (==-refl user.id) in
      let ht =
        Elem-any (λ t. t.id == row.id) row s.reset_tokens (laws.find_first_elem _ _ row fr)
          (==-refl row.id) in
      ground (
        arith,
        set_password_lem user row hash (record s { draws = s.draws + 1 }) hu ht,
        laws.update_many_rows (λ r. r.user_id == user.id && not (is_some r.revoked_at))
            (revoke_at env.now) s.refresh_tokens,
      )
