-- ===== src/Auth/Sessions.antt =====
-- What ends a user's sessions: revoking all refresh tokens, and with it the reset of a password.
use tpulse_backend.Prelude.{
  ℕ, String, ◌≡◌, refl, Bool, true, ◌&&◌, not, some, List, [], ◌∷◌, any, filter, All, Elem, is_some,
  str_eq, ◌==◌, arith, update_where, Option-cases, inl, inr, ◌⊎◌,
}
use tpulse_backend.Db.{Prisma, IsPrisma}
use tpulse_backend.Effects.{ok, err, bad_request, unauthorized, Failure}
use tpulse_backend.Auth.Types.{User, RefreshToken, OneTimeToken, Store, Env}
use tpulse_backend.Auth.Tokens.{rotate_refresh_token, revoke_all_for_user, revoke_at}
use tpulse_backend.Auth.Passwords.{is_open, use_at, reset}
use tpulse_backend.Auth.Rotation.{IsSpent, rotate_spent, update_where-known}
use tpulse_backend.Auth.Reset.{reset_found, reset_store, with_password}

-- Every refresh token of the user is revoked.
abbrev pub HasNoSession : ℕ → List RefreshToken → Type 0
HasNoSession user_id = All (λ r. (r.user_id == user_id) ≡ true → is_some r.revoked_at ≡ true)

abbrev pub live_of : ℕ → RefreshToken → Bool
live_of user_id r = r.user_id == user_id && not (is_some r.revoked_at)

pub update_where-HasNoSession :
    (now user_id : ℕ) (t : List RefreshToken)
    → HasNoSession user_id (update_where (live_of user_id) (revoke_at now) t)
update_where-HasNoSession now user_id [] = tt
update_where-HasNoSession now user_id (r ∷ t) =
    (ground arith, update_where-HasNoSession now user_id t)

update_where-others :
    (now user_id : ℕ) (t : List RefreshToken)
    → filter (λ r. not (r.user_id == user_id)) (update_where (live_of user_id) (revoke_at now) t)
      ≡ filter (λ r. not (r.user_id == user_id)) t
update_where-others now user_id [] = refl
update_where-others now user_id (r ∷ t) = ground (arith, update_where-others now user_id t)

update_where-password :
    (env : Env) (hash : String) (id : ℕ) (t : List User)
    → All
        (λ u. (u.id == id) ≡ true → u.password_hash ≡ hash)
        (update_where (λ u. u.id == id) (with_password env hash) t)
update_where-password env hash id [] = tt
update_where-password env hash id (u ∷ t) = (ground arith, update_where-password env hash id t)

update_where-used :
    (now id : ℕ) (t : List OneTimeToken)
    → All
        (λ r. (r.id == id) ≡ true → is_some r.used_at ≡ true)
        (update_where (λ r. r.id == id) (use_at now) t)
update_where-used now id [] = tt
update_where-used now id (r ∷ t) = (ground arith, update_where-used now id t)

spent_of_owner :
    (hash : String) (user_id : ℕ) (t : List RefreshToken)
    → All (λ r. str_eq r.token hash ≡ true → (r.user_id == user_id) ≡ true) t
    → (now : ℕ)
    → All
        (λ r. str_eq r.token hash ≡ true → is_some r.revoked_at ≡ true)
        (update_where (live_of user_id) (revoke_at now) t)
spent_of_owner hash user_id [] h now = tt
spent_of_owner hash user_id (r ∷ t) h now =
    (ground (arith, h.0), spent_of_owner hash user_id t h.1 now)

module _ (db : Prisma) (laws : IsPrisma db) (env : Env) where
  -- Revoking all tokens of a user leaves that user without a live token, and leaves the tokens of
  -- all other users, in their order, as they were.
  pub revoke_all_scope :
      (user_id : ℕ) (s : Store)
      → let s' = (revoke_all_for_user db env user_id s).1 in
        HasNoSession user_id s'.refresh_tokens
        × (filter (λ r. not (r.user_id == user_id)) s'.refresh_tokens
            ≡ filter (λ r. not (r.user_id == user_id)) s.refresh_tokens)
  unfolding revoke_all_for_user
  revoke_all_scope user_id s =
      rw (laws.update_many_rows (live_of user_id) (revoke_at env.now) s.refresh_tokens) (
        update_where-HasNoSession env.now user_id s.refresh_tokens,
        update_where-others env.now user_id s.refresh_tokens,
      )

  -- How a reset ends: it throws 400 and the store is unchanged, or ...
  reset-cases :
      (email token new_password : String) (s : Store)
      → (reset db env email token new_password s ≡ (err bad_request, s))
        ⊎ ((user : User) × (row : OneTimeToken) × (db.find_first (λ u. str_eq u.email email) s.users
              ≡ some user)
            × (db.find_first (is_open env.now user.id (env.sha256 token)) s.reset_tokens ≡ some row)
            × (reset db env email token new_password s
                ≡ (ok tt, reset_store env user row new_password s)))
  unfolding reset
  reset-cases email token new_password s =
      elim (Option-cases (db.find_first (λ u. str_eq u.email email) s.users)) [
        | inl unknown ↦ inl (ground arith)
        | inr (user, fu) ↦
            elim (Option-cases
              (db.find_first (is_open env.now user.id (env.sha256 token)) s.reset_tokens)) [
                | inl closed ↦ inl (ground arith)
                | inr (row, fr) ↦ inr (
                  user,
                  row,
                  fu,
                  fr,
                  reset_found db laws env email token new_password s user row fu fr,
                )
              ]
      ]

  -- A reset that is refused is refused with 400, and has changed nothing.
  pub reset_refused :
      (email token new_password : String) (s : Store) (e : Failure) (s' : Store)
      → reset db env email token new_password s ≡ (err e, s')
      → (e ≡ bad_request) × (s' ≡ s)
  reset_refused email token new_password s e s' h =
      ground (arith, reset-cases email token new_password s)

  -- A reset that goes through was asked with the address of a user and an open token of that user.
  -- After it that user has no live refresh token and the new password's hash, and the token that
  -- was used is marked as used.
  pub reset_done :
      (email token new_password : String) (s s' : Store)
      → reset db env email token new_password s ≡ (ok tt, s')
      → (user : User) × (row : OneTimeToken) × Elem user s.users
        × (str_eq user.email email ≡ true)
        × Elem row s.reset_tokens
        × (is_open env.now user.id (env.sha256 token) row ≡ true)
        × HasNoSession user.id s'.refresh_tokens
        × All
            (λ u. (u.id == user.id) ≡ true → u.password_hash ≡ env.bcrypt_hash s.draws new_password)
            s'.users
        × All (λ r. (r.id == row.id) ≡ true → is_some r.used_at ≡ true) s'.reset_tokens
  reset_done email token new_password s s' h = elim (reset-cases email token new_password s) [
    | inl refused ↦ cc
    | inr (user, row, fu, fr, e) ↦
        let same : s' ≡ reset_store env user row new_password s = cc in
        (
          user,
          row,
          laws.find_first_elem _ _ user fu,
          laws.find_first_match _ _ user fu,
          laws.find_first_elem _ _ row fr,
          laws.find_first_match _ _ row fr,
          rw same (update_where-HasNoSession env.now user.id s.refresh_tokens),
          rw same
              (update_where-password env (env.bcrypt_hash s.draws new_password) user.id s.users),
          rw same (update_where-used env.now row.id s.reset_tokens),
        )
  ]

  -- A refresh token that was in the table, and that belonged to the user whose password was reset,
  -- is refused at every later time, under the same hash function.
  pub rotate-reset :
      (later : Env) (email token new_password raw : String) (s s' : Store)
      → reset db env email token new_password s ≡ (ok tt, s')
      → later.sha256 ≡ env.sha256
      → any (λ r. str_eq r.token (env.sha256 raw)) s.refresh_tokens ≡ true
      → ((user : User)
          → Elem user s.users
          → str_eq user.email email ≡ true
          → All
              (λ r. str_eq r.token (env.sha256 raw) ≡ true → (r.user_id == user.id) ≡ true)
              s.refresh_tokens)
      → rotate_refresh_token db later raw s' ≡ (err unauthorized, s')
  rotate-reset later email token new_password raw s s' h same known owner =
      elim (reset-cases email token new_password s) [
        | inl refused ↦ cc
        | inr (user, row, fu, fr, e) ↦
            let after : s' ≡ reset_store env user row new_password s = cc in
            let mine =
              owner user (laws.find_first_elem _ _ user fu) (laws.find_first_match _ _ user fu) in
            let spent : IsSpent (env.sha256 raw)
                (update_where (live_of user.id) (revoke_at env.now) s.refresh_tokens) =
              record {
                known =
                    update_where-known (env.sha256 raw) (live_of user.id) (revoke_at env.now)
                      s.refresh_tokens (λ r. (refl, refl)) known;
                revoked = spent_of_owner (env.sha256 raw) user.id s.refresh_tokens mine env.now;
              } in
            rw after (
              rotate_spent db laws later raw (reset_store env user row new_password s)
                (rw same spent))
      ]
