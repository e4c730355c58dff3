-- ===== src/Auth/GoogleLogin.antt =====
-- Who gets in through Google.
use tpulse_backend.Prelude.{
  suc, ◌+◌, length, ◌≡◌, ◌⊎◌, refl, sym, String, true, false, Option, some, List, ◌∷◌, any,
  any-none, is_some, arith, update_where, Bool-cases, Option-cases, inl, inr, ◌==◌, str_eq,
  str_eq_iff, Elem,
}
use mathlib.Core.Path.{subst}
use tpulse_backend.Db.{Prisma, IsPrisma}
use tpulse_backend.Effects.{Result, Failure, ok, err}
use tpulse_backend.Auth.Types.{User, Store, Env}
use tpulse_backend.Auth.Passwords.{hash_password}
use tpulse_backend.Auth.Service.{AuthResponse, build_auth_response, user_clashes}
use tpulse_backend.Auth.Google.{
  GoogleEnv, GooglePayload, google_user, linked, search_name, name_is, name_base,
  unique_username_from_email, create_google_user, link_google, google_account, google_login,
  or_text, given, first_of,
}
use tpulse_backend.Auth.Names.{search-free}
use tpulse_backend.Auth.Accounts.{IsSignedIn, build_auth_response-IsSignedIn}

-- The user of the address, with a Google id already or given one, or a new user of the address.
abbrev pub IsAccount : (email google_id : String) (user : User) (before after : List User) → Type 0
IsAccount email g user before after =
    (Elem user before × (is_some (given user.google_id) ≡ true) × (after ≡ before))
    ⊎ (((row : User) × Elem row before
          × (is_some (given row.google_id) ≡ false)
          × (user ≡ record row { google_id = some g; is_mail_confirm = true })
          × (after
              ≡ update_where (λ u. u.id == row.id)
                  (λ u. record u { google_id = some g; is_mail_confirm = true }) before))
        ⊎ ((any (λ u. str_eq u.email email) before ≡ false)
            × (any (name_is user.username) before ≡ false)
            × (user.is_mail_confirm ≡ true)
            × (user.google_id ≡ some g)
            × (user.role ≡ "User")
            × (after ≡ user ∷ before)))

-- What the token says.
abbrev pub IsVouched : GoogleEnv → String → (email google_id : String) → Type 0
IsVouched google id_token email g =
    (payload : GooglePayload) × (google.verify_id_token id_token ≡ some payload)
    × (given payload.email ≡ some email)
    × (given payload.sub ≡ some g)

Result-cases : {A : Type 0} (r : Result A) → ((a : A) × (r ≡ ok a)) ⊎ ((x : Failure) × (r ≡ err x))
Result-cases (ok a) = inl (a, refl)
Result-cases (err x) = inr (x, refl)

module _ (db : Prisma) (laws : IsPrisma db) (env : Env) (google : GoogleEnv) where
  link-IsAccount :
      (email g : String) (row user : User) (s : Store)
      → Elem row s.users
      → str_eq row.email email ≡ true
      → (link_google db env google g row s).0 ≡ ok user
      → (str_eq user.email email ≡ true)
        × IsAccount email g user s.users (link_google db env google g row s).1.users
  unfolding link_google
  link-IsAccount email g row user s there mine e =
      elim (Bool-cases (is_some (given row.google_id))) [
        | inl has ↦
            let same : row ≡ user = ground (arith, e, has) in
            let users : (link_google db env google g row s).1.users ≡ s.users =
              ground (arith, has) in
            subst
              (λ x.
                (str_eq x.email email ≡ true)
                × IsAccount email g x s.users (link_google db env google g row s).1.users)
              same (mine, inl (there, has, users))
        | inr new ↦
            let rows = laws.update_rows (λ u. u.id == row.id) (linked g) s.users in
            let t : (linked g row ≡ user)
                × ((link_google db env google g row s).1.users
                    ≡ update_where (λ u. u.id == row.id) (linked g) s.users) =
              ground (arith, e, new, rows) in
            subst
              (λ x.
                (str_eq x.email email ≡ true)
                × IsAccount email g x s.users (link_google db env google g row s).1.users)
              t.0 (mine, inr (inl (row, there, new, refl, t.1)))
      ]

  create-IsAccount :
      (email g : String) (name : Option String) (user : User) (s : Store)
      → any (λ u. str_eq u.email email) s.users ≡ false
      → (create_google_user db env google email g name s).0 ≡ ok user
      → (str_eq user.email email ≡ true)
        × IsAccount email g user s.users (create_google_user db env google email g name s).1.users
  unfolding create_google_user unique_username_from_email hash_password
  create-IsAccount email g name user s unknown e =
      let base = name_base db env google email in
      let o = search_name db env google (suc (length s.users)) base base s.draws s.users in
      elim (Option-cases o) [
        | inl stuck ↦ ground (arith, e, stuck)
        | inr ((username, n), found) ↦
            let row =
              google_user (env.uuid (n + 2)) env.now email g username
                (or_text name (google.local_part email))
                (env.bcrypt_hash (n + 1) (env.random_hex 32 n)) in
            let free =
              search-free db laws env google _ base base s.draws s.users (username, n) found in
            let t : (row ≡ user)
                × ((create_google_user db env google email g name s).1.users ≡ row ∷ s.users) =
              ground (arith, e, found, laws.create_rows (user_clashes row) row s.users) in
            subst
              (λ x.
                (str_eq x.email email ≡ true)
                × IsAccount email g x s.users
                    (create_google_user db env google email g name s).1.users)
              t.0
              ((str_eq_iff email email).1 refl, inr (inr (unknown, free.0, refl, refl, refl, t.1)))
      ]

  google_account-IsAccount :
      (email g : String) (name : Option String) (user : User) (s : Store)
      → let found = db.find_first (λ u. str_eq u.email email) s.users in
        (google_account db env google email g name found s).0 ≡ ok user
        → (str_eq user.email email ≡ true)
          × IsAccount email g user s.users
              (google_account db env google email g name found s).1.users
  unfolding google_account
  google_account-IsAccount email g name user s e =
      let p = λ (u : User). str_eq u.email email in
      elim (Option-cases (db.find_first p s.users)) [
        | inl none_there ↦ rw none_there (
            create-IsAccount email g name user s
              (any-none p s.users (laws.find_first_none p s.users none_there)) (rw none_there at e))
        | inr (row, there) ↦ rw there (
            link-IsAccount email g row user s (laws.find_first_elem p s.users row there)
              (laws.find_first_match p s.users row there) (rw there at e))
      ]

  -- Whoever gets in through Google gave a token that Google vouches for, with an address and a Google
  -- id, while the login is switched on, and holds a live refresh token of a user of that address
  -- afterwards. That user was there with a Google id and no user has changed; or was there without
  -- one, has got the id of the token and counts as confirmed; or nobody had the address, and the user
  -- is new, confirmed, with that id, role User and a name that nobody had.
  pub google_login-IsSignedIn :
      (id_token : String) (s s' : Store) (response : AuthResponse)
      → google_login db env google id_token s ≡ (ok response, s')
      → (email : String) × (g : String) × (user : User) × (google.enabled ≡ true)
        × IsVouched google id_token email g
        × (str_eq user.email email ≡ true)
        × IsAccount email g user s.users s'.users
        × IsSignedIn env user response s'.refresh_tokens
  unfolding google_login
  google_login-IsSignedIn id_token s s' response e = elim (Bool-cases google.enabled) [
    | inr off ↦ ground (arith, e, off)
    | inl on ↦ elim (Option-cases (google.verify_id_token id_token)) [
      | inl forged ↦ ground (arith, e, on, forged)
      | inr (payload, vouched) ↦ elim (Option-cases (given payload.email)) [
        | inl no_email ↦ ground (arith, e, on, vouched, no_email)
        | inr (email, has_email) ↦ elim (Option-cases (given payload.sub)) [
          | inl no_id ↦ ground (arith, e, on, vouched, has_email, no_id)
          | inr (g, has_id) ↦
              let name = first_of payload.name payload.given_name in
              let found = db.find_first (λ u. str_eq u.email email) s.users in
              let account = google_account db env google email g name found s in
              elim (Result-cases account.0) [
                | inr (x, failed) ↦ ground (arith, e, on, vouched, has_email, has_id, failed)
                | inl (user, done) ↦
                    let last : build_auth_response db env user account.1 ≡ (ok response, s') =
                      ground (arith, e, on, vouched, has_email, has_id, done) in
                    let (signed, same) =
                      build_auth_response-IsSignedIn db laws env user account.1 s' response last in
                    let (address, kind) = google_account-IsAccount email g name user s done in
                    (
                      email,
                      g,
                      user,
                      on,
                      (payload, vouched, has_email, has_id),
                      address,
                      subst (IsAccount email g user s.users) (sym same) kind,
                      signed,
                    )
              ]
        ]
      ]
    ]
  ]
