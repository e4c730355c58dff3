-- ===== src/Auth/Accounts.antt =====
-- Login, registration and the confirmation of an address: who gets in, and what is written.
use tpulse_backend.Prelude.{
  ◌+◌, ◌*◌, String, ◌≡◌, refl, true, none, List, ◌∷◌, Elem, str_eq, arith, Option-cases, Bool-cases,
  inl, inr,
}
use tpulse_backend.Db.{Prisma, IsPrisma}
use tpulse_backend.Effects.{ok}
use tpulse_backend.Auth.Types.{User, RefreshToken, Store, Env}
use tpulse_backend.Auth.Tokens.{generate_access_token, new_refresh_token}
use tpulse_backend.Auth.Service.{AuthResponse, to_user_response, build_auth_response, login}
use tpulse_backend.Auth.Rotation.{issue_refresh_token_lem}

-- What a signed-in client holds: the refresh token's hash stands in the table, for this user.
pub record IsSignedIn (env : Env) (user : User) (response : AuthResponse) (t : List RefreshToken)
    : Type 0 where
  pub shown : response.user ≡ to_user_response user
  pub row : RefreshToken
  pub listed : Elem row t
  pub hashed : row.token ≡ env.sha256 response.refresh_token
  pub owner : row.user_id ≡ user.id
  pub live : row.revoked_at ≡ none
  pub expiry : row.expires_at ≡ env.now + env.refresh_expiry_days * 24 * 60 * 60 * 1000

module _ (db : Prisma) (laws : IsPrisma db) (env : Env) where
  pub build_auth_response-IsSignedIn :
      (user : User) (s s' : Store) (response : AuthResponse)
      → build_auth_response db env user s ≡ (ok response, s')
      → IsSignedIn env user response s'.refresh_tokens × (s'.users ≡ s.users)
  unfolding build_auth_response generate_access_token
  build_auth_response-IsSignedIn user s s' response e =
      let row =
        new_refresh_token db env (s.draws + 1 + 1) user.id (env.random_hex 64 (s.draws + 1)) in
      let t : (s'.refresh_tokens ≡ row ∷ s.refresh_tokens)
          × (s'.users ≡ s.users)
          × (response.refresh_token ≡ env.random_hex 64 (s.draws + 1))
          × (response.user ≡ to_user_response user) =
        ground
          (arith, issue_refresh_token_lem db laws env user.id (record s { draws = s.draws + 1 })) in
      (
        record {
          shown = t.3;
          row = row;
          listed = rw t.0 (inl refl);
          hashed = rw t.2;
          owner = refl;
          live = refl;
          expiry = refl;
        },
        t.1,
      )

  -- Whoever logs in gave the address of a user and a password that fits that user's stored hash,
  -- and holds a live refresh token of that user afterwards.
  pub login-IsSignedIn :
      (email password : String) (s s' : Store) (response : AuthResponse)
      → login db env email password s ≡ (ok response, s')
      → (user : User) × Elem user s.users
        × (str_eq user.email email ≡ true)
        × (env.bcrypt_compare password user.password_hash ≡ true)
        × IsSignedIn env user response s'.refresh_tokens
  unfolding login
  login-IsSignedIn email password s s' response e =
      elim (Option-cases (db.find_first (λ u. str_eq u.email email) s.users)) [
        | inl unknown ↦ ground arith
        | inr (user, found) ↦ elim (Bool-cases (env.bcrypt_compare password user.password_hash)) [
          | inl fits ↦ (
            user,
            laws.find_first_elem _ _ user found,
            laws.find_first_match _ _ user found,
            fits,
            (build_auth_response-IsSignedIn user s s' response (ground arith)).0,
          )
          | inr wrong ↦ ground arith
        ]
      ]
