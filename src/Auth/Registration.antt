-- ===== src/Auth/Registration.antt =====
-- Registration and the confirmation of an address.
use tpulse_backend.Prelude.{
  ◌+◌, String, ◌≡◌, refl, Bool, true, false, ◌||◌, none, some, ◌∷◌, any, Elem, Elem-any, any-none,
  if◌then◌else◌, str_eq, ◌==◌, ==-refl, arith, update_where, Option-cases, Bool-cases, inl, inr,
  ◌⊎◌,
}
use tpulse_backend.Db.{Prisma, IsPrisma}
use tpulse_backend.Effects.{ok, err, bad_request, conflict}
use tpulse_backend.Auth.Types.{User, OneTimeToken, Store, Env}
use tpulse_backend.Auth.Tokens.{generate_access_token}
use tpulse_backend.Auth.Passwords.{is_open, use_at, hash_password, new_one_time_token}
use tpulse_backend.Auth.Verification.{send, verify, confirm_mail, verify_open}
use tpulse_backend.Auth.Service.{
  AuthResponse, RegisterDto, build_auth_response, create_user, register, user_clashes, new_user,
}
use tpulse_backend.Auth.Rotation.{issue_refresh_token_lem}
use tpulse_backend.Auth.Accounts.{IsSignedIn, build_auth_response-IsSignedIn}

-- The name or the address is a user's already.
abbrev pub taken : RegisterDto → User → Bool
taken dto u = str_eq u.email dto.email || str_eq u.username dto.username

module _ (db : Prisma) (laws : IsPrisma db) (env : Env) where
  send-users : (user : User) (s : Store) → (send db env user s).1.users ≡ s.users
  unfolding send
  send-users user s =
      let row =
        new_one_time_token db env (s.draws + 1) user.id env.verify_minutes
          (env.random_hex 32 s.draws) in
      ground (arith, laws.create_rows (λ t. t.id == row.id) row s.verification_tokens)

  pub build_auth_response-users :
      (user : User) (s : Store) → (build_auth_response db env user s).1.users ≡ s.users
  unfolding build_auth_response generate_access_token
  build_auth_response-users user s =
      ground (arith, issue_refresh_token_lem db laws env user.id (record s { draws = s.draws + 1 }))

  create_user_lem :
      (dto : RegisterDto) (hash : String) (s : Store)
      → let user = new_user (env.uuid s.draws) env.now dto hash in
        create_user db env dto hash s ≡ (
          if any (user_clashes user) s.users
          then (err conflict, record s { draws = s.draws + 1 })
          else (ok user, record s { draws = s.draws + 1; users = user ∷ s.users }))
  unfolding create_user
  create_user_lem dto hash s =
      let user = new_user (env.uuid s.draws) env.now dto hash in
      ground (arith, laws.create_rows (user_clashes user) user s.users)

  -- A name or an address that is taken is refused with 409, and nothing changes.
  pub register-taken :
      (dto : RegisterDto) (s : Store)
      → any (taken dto) s.users ≡ true
      → register db env dto s ≡ (err conflict, s)
  unfolding register
  register-taken dto s h = elim (Option-cases (db.find_first (taken dto) s.users)) [
    | inl free ↦
        let none_taken =
          any-none (taken dto) s.users (laws.find_first_none (taken dto) s.users free) in
        cc
    | inr (user, found) ↦ ground arith
  ]

  -- Whoever registers with success was unknown by name and address, and is the one user that is added:
  -- with that name and address, unconfirmed, with role User and the hash of the password, and with a
  -- live refresh token. Whether the mail was sent makes no difference.
  pub register_done :
      (dto : RegisterDto) (s s' : Store) (response : AuthResponse)
      → register db env dto s ≡ (ok response, s')
      → (user : User) × (s'.users ≡ user ∷ s.users)
        × (any (taken dto) s.users ≡ false)
        × (user.username ≡ dto.username)
        × (user.email ≡ dto.email)
        × (user.is_mail_confirm ≡ false)
        × (user.role ≡ "User")
        × (user.password_hash ≡ env.bcrypt_hash s.draws dto.password)
        × IsSignedIn env user response s'.refresh_tokens
  unfolding register hash_password
  register_done dto s s' response e =
      let hash = env.bcrypt_hash s.draws dto.password in
      let s1 = record s { draws = s.draws + 1 } in
      let user = new_user (env.uuid (s.draws + 1)) env.now dto hash in
      let s2 = (create_user db env dto hash s1).1 in
      let s3 = (send db env user s2).1 in
      let t : (db.find_first (taken dto) s.users ≡ none)
          × (any (user_clashes user) s.users ≡ false)
          × (build_auth_response db env user s3 ≡ (ok response, s')) =
        ground (arith, create_user_lem dto hash s1) in
      let (signed, same) = build_auth_response-IsSignedIn db laws env user s3 s' response t.2 in
      (
        user,
        ground (arith, create_user_lem dto hash s1, send-users user s2, same, t.1),
        any-none (taken dto) s.users (laws.find_first_none (taken dto) s.users t.0),
        refl,
        refl,
        refl,
        refl,
        refl,
        signed,
      )

  -- Confirming an address: it is refused with 400 and changes nothing, or the user of the address
  -- was confirmed already and nothing changes, or an open token of that user was given, and then
  -- the user is confirmed and the token used.
  pub verify-cases :
      (email token : String) (s : Store)
      → (verify db env email token s ≡ (err bad_request, s))
        ⊎ ((user : User) × Elem user s.users
            × (str_eq user.email email ≡ true)
            × ((verify db env email token s).0 ≡ ok tt)
            × (((user.is_mail_confirm ≡ true) × ((verify db env email token s).1 ≡ s))
                ⊎ ((row : OneTimeToken) × Elem row s.verification_tokens
                    × (is_open env.now user.id (env.sha256 token) row ≡ true)
                    × ((verify db env email token s).1.users
                        ≡ update_where
                            (λ u. u.id == user.id)
                            (λ u. record u { is_mail_confirm = true; updated_at = some env.now })
                            s.users)
                    × ((verify db env email token s).1.verification_tokens
                        ≡ update_where
                            (λ t. t.id == row.id)
                            (use_at env.now)
                            s.verification_tokens))))
  unfolding verify verify_open confirm_mail
  verify-cases email token s =
      elim (Option-cases (db.find_first (λ u. str_eq u.email email) s.users)) [
        | inl unknown ↦ inl (ground arith)
        | inr (user, fu) ↦ elim (Bool-cases user.is_mail_confirm) [
          | inl already ↦ inr (
            user,
            laws.find_first_elem _ _ user fu,
            laws.find_first_match _ _ user fu,
            ground arith,
            inl (already, ground arith),
          )
          | inr pending ↦
              elim (Option-cases (
                db.find_first (is_open env.now user.id (env.sha256 token)) s.verification_tokens)) [
                  | inl closed ↦ inl (ground arith)
                  | inr (row, fr) ↦
                      let confirm = λ (u : User). record u {
                        is_mail_confirm = true;
                        updated_at = some env.now;
                      } in
                      let hu =
                        Elem-any (λ u. u.id == user.id) user s.users
                          (laws.find_first_elem _ _ user fu) (==-refl user.id) in
                      let ht =
                        Elem-any (λ t. t.id == row.id) row s.verification_tokens
                          (laws.find_first_elem _ _ row fr) (==-refl row.id) in
                      let du = laws.update_rows (λ u. u.id == user.id) confirm s.users in
                      let dt =
                        laws.update_rows (λ t. t.id == row.id) (use_at env.now)
                          s.verification_tokens in
                      inr (
                        user,
                        laws.find_first_elem _ _ user fu,
                        laws.find_first_match _ _ user fu,
                        ground (arith, du, dt, hu, ht),
                        inr (
                          row,
                          laws.find_first_elem _ _ row fr,
                          laws.find_first_match _ _ row fr,
                          ground (arith, du, dt, hu, ht),
                          ground (arith, du, dt, hu, ht),
                        ),
                      )
                ]
        ]
      ]
