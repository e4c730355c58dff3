-- ===== src/Auth/Tokens.antt =====
-- src/auth/token.service.ts: access tokens, and refresh tokens that are stored by their hash and
-- rotated.
use tpulse_backend.Prelude.{
  ℕ, ◌+◌, ◌*◌, String, Bool, ◌&&◌, ◌||◌, not, Option, none, some, List, if◌then◌else◌, leb, ◌==◌,
  is_some, str_eq,
}
use tpulse_backend.Db.{Prisma}
use tpulse_backend.Effects.{
  Action, ok, pure, gets, or_throw, modify, write, ◌>>=◌, ◌>>◌, unauthorized, conflict, internal,
}
use tpulse_backend.Auth.Types.{User, RefreshToken, Store, Env, AccessToken}

-- Taking the next value of the random source.
abbrev pub draw : Action Store ℕ
draw s = (ok s.draws, record s { draws = s.draws + 1 })

-- Writing back the outcome of a query that may fail.
abbrev pub set_refresh_tokens : Store → Option (List RefreshToken) → Option Store
set_refresh_tokens s none = none
set_refresh_tokens s (some t) = some (record s { refresh_tokens = t })

-- The check of `rotateRefreshToken`: known, not revoked, not expired.
abbrev pub usable : ℕ → Option RefreshToken → Option RefreshToken
usable now none = none
usable now (some r) = if is_some r.revoked_at || leb r.expires_at now then none else some r

-- The unique columns of `refresh_tokens`.
abbrev pub clashes : RefreshToken → RefreshToken → Bool
clashes new r = r.id == new.id || str_eq r.token new.token

abbrev pub revoke_at : ℕ → RefreshToken → RefreshToken
revoke_at now r = record r { revoked_at = some now }

abbrev pub replace_at : ℕ → String → RefreshToken → RefreshToken
replace_at now hash r = record r { revoked_at = some now; replaced_by_token = some hash }

module _ (db : Prisma) (env : Env) where
  unfoldable pub generate_access_token : User → Action Store AccessToken
  generate_access_token user = do
    n ← draw
    let token = env.jwt_sign (record {
      sub = user.id;
      email = user.email;
      unique_name = user.username;
      nickname = user.nickname;
      role = user.role;
      jti = env.uuid n;
    })
    pure (record { access_token = token; expires_at = env.jwt_exp token * 1000 })

  abbrev pub new_refresh_token : ℕ → ℕ → String → RefreshToken
  new_refresh_token n user_id raw = record {
    id = env.uuid n;
    user_id = user_id;
    token = env.sha256 raw;
    expires_at = env.now + env.refresh_expiry_days * 24 * 60 * 60 * 1000;
    created_at = env.now;
    revoked_at = none;
    replaced_by_token = none;
  }

  -- The raw token is returned, and its hash is stored.
  unfoldable pub issue_refresh_token : ℕ → Action Store String
  issue_refresh_token user_id = do
    m ← draw
    n ← draw
    let row = new_refresh_token n user_id (env.random_hex 64 m)
    write (λ s. set_refresh_tokens s (db.create (clashes row) row s.refresh_tokens)) conflict
    pure (env.random_hex 64 m)

  unfoldable pub rotate_refresh_token : String → Action Store (String × ℕ)
  rotate_refresh_token raw = do
    existing ← gets (λ s. db.find_first (λ r. str_eq r.token (env.sha256 raw)) s.refresh_tokens)
    row ← or_throw (usable env.now existing) unauthorized
    new_raw ← issue_refresh_token row.user_id
    let mark = replace_at env.now (env.sha256 new_raw)
    write (λ s. set_refresh_tokens s (db.update (λ r. r.id == row.id) mark s.refresh_tokens))
        internal
    pure (new_raw, row.user_id)

  -- Unknown tokens are passed over in silence.
  unfoldable pub revoke_refresh_token : String → Action Store (Unit {0})
  revoke_refresh_token raw = modify (λ s. record s {
    refresh_tokens =
        db.update_many (λ r. str_eq r.token (env.sha256 raw) && not (is_some r.revoked_at))
          (revoke_at env.now) s.refresh_tokens;
  })

  unfoldable pub revoke_all_for_user : ℕ → Action Store (Unit {0})
  revoke_all_for_user user_id = modify (λ s. record s {
    refresh_tokens =
        db.update_many (λ r. r.user_id == user_id && not (is_some r.revoked_at)) (revoke_at env.now)
          s.refresh_tokens;
  })
