-- ===== src/Auth/Rotation.antt =====
-- Rotation of refresh tokens: what one rotation does, and that a token serves once, whatever the
-- token service does afterwards.
use tpulse_backend.Prelude.{
  ℕ, ◌+◌, String, ◌≡◌, refl, Bool, true, false, ◌&&◌, not, some, List, [], ◌∷◌, any, All, All-elem,
  if◌then◌else◌, is_some, str_eq, str_eq_iff, ◌==◌, arith, update_where, Option-cases, inl, inr,
}
use tpulse_backend.Db.{Prisma, IsPrisma}
use tpulse_backend.Effects.{ok, err, unauthorized, conflict}
use tpulse_backend.Auth.Types.{RefreshToken, Store, Env}
use tpulse_backend.Auth.Tokens.{
  issue_refresh_token, rotate_refresh_token, revoke_refresh_token, revoke_all_for_user, usable,
  clashes, revoke_at, replace_at, new_refresh_token,
}

-- Every row that carries the hash is the one row.
abbrev pub IsUnique : String → ℕ → List RefreshToken → Type 0
IsUnique hash id = All (λ r. str_eq r.token hash ≡ true → r.id ≡ id)

-- No two rows carry the same hash: the unique constraint on the column.
abbrev pub HasUniqueTokens : List RefreshToken → Type 0
HasUniqueTokens t = All (λ (r : RefreshToken). IsUnique r.token r.id t) t

-- The hash is known, and every row that carries it is revoked.
pub record IsSpent (hash : String) (t : List RefreshToken) : Type 0 where
  pub known : any (λ r. str_eq r.token hash) t ≡ true
  pub revoked : All (λ r. str_eq r.token hash ≡ true → is_some r.revoked_at ≡ true) t

-- An update that leaves the hashes alone and revokes nothing back.
abbrev pub Keeps : (RefreshToken → RefreshToken) → Type 0
Keeps f = (r : RefreshToken) → ((f r).token ≡ r.token) × (is_some (f r).revoked_at ≡ true)

pub update_where-known :
    (hash : String) (p : RefreshToken → Bool) (f : RefreshToken → RefreshToken)
    (t : List RefreshToken)
    → Keeps f
    → any (λ r. str_eq r.token hash) t ≡ true
    → any (λ r. str_eq r.token hash) (update_where p f t) ≡ true
update_where-known hash p f [] k h = h
update_where-known hash p f (r ∷ t) k h = ground (arith, (k r).0, update_where-known hash p f t k)

update_where-revoked :
    (hash : String) (p : RefreshToken → Bool) (f : RefreshToken → RefreshToken)
    (t : List RefreshToken)
    → Keeps f
    → All (λ r. str_eq r.token hash ≡ true → is_some r.revoked_at ≡ true) t
    → All (λ r. str_eq r.token hash ≡ true → is_some r.revoked_at ≡ true) (update_where p f t)
update_where-revoked hash p f [] k h = tt
update_where-revoked hash p f (r ∷ t) k h =
    (ground (arith, k r, h.0), update_where-revoked hash p f t k h.1)

update_where-IsSpent :
    (hash : String) (p : RefreshToken → Bool) (f : RefreshToken → RefreshToken)
    (t : List RefreshToken)
    → Keeps f
    → IsSpent hash t
    → IsSpent hash (update_where p f t)
update_where-IsSpent hash p f t k h = record {
  known = update_where-known hash p f t k h.known;
  revoked = update_where-revoked hash p f t k h.revoked;
}

-- A row that the constraint lets in does not carry a known hash.
pub any-clashes :
    (new : RefreshToken) (hash : String) (t : List RefreshToken)
    → any (clashes new) t ≡ false
    → any (λ r. str_eq r.token hash) t ≡ true
    → str_eq new.token hash ≡ false
any-clashes new hash [] c h = cc
any-clashes new hash (r ∷ t) c h = ground (
  arith,
  any-clashes new hash t,
  str_eq_iff r.token hash,
  str_eq_iff r.token new.token,
  str_eq_iff new.token hash,
)

module _ (db : Prisma) (laws : IsPrisma db) where
  -- What issuing does, with the query spelled out.
  pub issue_refresh_token_lem :
      (env : Env) (user_id : ℕ) (s : Store)
      → let row = new_refresh_token db env (s.draws + 1) user_id (env.random_hex 64 s.draws) in
        issue_refresh_token db env user_id s ≡ (
          if any (clashes row) s.refresh_tokens
          then (err conflict, record s { draws = s.draws + 1 + 1 })
          else (
            ok (env.random_hex 64 s.draws),
            record s { draws = s.draws + 1 + 1; refresh_tokens = row ∷ s.refresh_tokens },
          ))
  unfolding issue_refresh_token
  issue_refresh_token_lem env user_id s =
      let row = new_refresh_token db env (s.draws + 1) user_id (env.random_hex 64 s.draws) in
      ground (arith, laws.create_rows (clashes row) row s.refresh_tokens)

  pub issue-IsSpent :
      (env : Env) (hash : String) (user_id : ℕ) (s : Store)
      → IsSpent hash s.refresh_tokens
      → IsSpent hash (issue_refresh_token db env user_id s).1.refresh_tokens
  issue-IsSpent env hash user_id s h =
      let row = new_refresh_token db env (s.draws + 1) user_id (env.random_hex 64 s.draws) in
      rw (issue_refresh_token_lem env user_id s)
        (ground (arith, h.known, h.revoked, any-clashes row hash s.refresh_tokens))

  pub revoke-IsSpent :
      (env : Env) (hash raw : String) (s : Store)
      → IsSpent hash s.refresh_tokens
      → IsSpent hash (revoke_refresh_token db env raw s).1.refresh_tokens
  unfolding revoke_refresh_token
  revoke-IsSpent env hash raw s h = rw (laws.update_many_rows _ _ _) (
      update_where-IsSpent hash (λ r. str_eq r.token (env.sha256 raw) && not (is_some r.revoked_at))
        (revoke_at env.now) s.refresh_tokens (λ r. (refl, refl)) h)

  pub revoke_all-IsSpent :
      (env : Env) (hash : String) (user_id : ℕ) (s : Store)
      → IsSpent hash s.refresh_tokens
      → IsSpent hash (revoke_all_for_user db env user_id s).1.refresh_tokens
  unfolding revoke_all_for_user
  revoke_all-IsSpent env hash user_id s h = rw (laws.update_many_rows _ _ _) (
      update_where-IsSpent hash (λ r. r.user_id == user_id && not (is_some r.revoked_at))
        (revoke_at env.now) s.refresh_tokens (λ r. (refl, refl)) h)

  -- A rotation that succeeds has found a usable row, issued a token to its user, and revoked it.
  pub rotate-eq-ok :
      (env : Env) (raw : String) (s : Store) {new : String} {user_id : ℕ} {s' : Store}
      → rotate_refresh_token db env raw s ≡ (ok (new, user_id), s')
      → (row : RefreshToken) × (db.find_first
            (λ r. str_eq r.token (env.sha256 raw))
            s.refresh_tokens
          ≡ some row)
        × (usable env.now (some row) ≡ some row)
        × (row.user_id ≡ user_id)
        × ((issue_refresh_token db env user_id s).0 ≡ ok new)
        × (s'.refresh_tokens
            ≡ update_where
                (λ r. r.id == row.id)
                (replace_at env.now (env.sha256 new))
                (issue_refresh_token db env user_id s).1.refresh_tokens)
  unfolding rotate_refresh_token
  rotate-eq-ok env raw s {new} {user_id} {s'} e =
      elim (Option-cases (db.find_first (λ r. str_eq r.token (env.sha256 raw)) s.refresh_tokens)) [
        | inl missing ↦ ground arith
        | inr (row, found) ↦ (
          row,
          found,
          ground arith,
          ground arith,
          ground arith,
          ground (
            arith,
            laws.update_rows (λ r. r.id == row.id) (replace_at env.now (env.sha256 new))
                (issue_refresh_token db env user_id s).1.refresh_tokens,
          ),
        )
      ]

  -- A spent token is refused, and nothing changes.
  pub rotate_spent :
      (env : Env) (raw : String) (s : Store)
      → IsSpent (env.sha256 raw) s.refresh_tokens
      → rotate_refresh_token db env raw s ≡ (err unauthorized, s)
  unfolding rotate_refresh_token
  rotate_spent env raw s h =
      elim (Option-cases (db.find_first (λ r. str_eq r.token (env.sha256 raw)) s.refresh_tokens)) [
        | inl missing ↦ ground arith
        | inr (row, found) ↦ ground (
          arith,
          All-elem _ row s.refresh_tokens h.revoked (laws.find_first_elem _ _ row found),
          laws.find_first_match _ _ row found,
        )
      ]

  pub rotate-keeps_IsSpent :
      (env : Env) (hash raw : String) (s : Store)
      → IsSpent hash s.refresh_tokens
      → IsSpent hash (rotate_refresh_token db env raw s).1.refresh_tokens
  unfolding rotate_refresh_token
  rotate-keeps_IsSpent env hash raw s h =
      elim (Option-cases
        (usable env.now (db.find_first (λ r. str_eq r.token (env.sha256 raw)) s.refresh_tokens))) [
          | inl refused ↦ ground (arith, h.known, h.revoked)
          | inr (row, good) ↦
              let s1 = (issue_refresh_token db env row.user_id s).1 in
              let new = env.sha256 (env.random_hex 64 s.draws) in
              let h1 = issue-IsSpent env hash row.user_id s h in
              let h2 =
                update_where-IsSpent hash (λ r. r.id == row.id) (replace_at env.now new)
                  s1.refresh_tokens (λ r. (refl, refl)) h1 in
              ground (
                arith,
                laws.update_rows (λ r. r.id == row.id) (replace_at env.now new) s1.refresh_tokens,
                issue_refresh_token_lem env row.user_id s,
                h1.known,
                h1.revoked,
                h2.known,
                h2.revoked,
              )
        ]
