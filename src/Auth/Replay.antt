-- ===== src/Auth/Replay.antt =====
-- A refresh token serves for one rotation: after it every later use is refused, whatever the token
-- service does in between.
use tpulse_backend.Prelude.{
  ℕ, ◌+◌, String, ◌≡◌, refl, true, false, List, [], ◌∷◌, any, All, All-elem, Elem, Elem-any,
  is_some, str_eq, str_eq_iff, ◌==◌, arith, update_where,
}
use tpulse_backend.Db.{Prisma, IsPrisma}
use tpulse_backend.Effects.{ok, err, unauthorized}
use tpulse_backend.Auth.Types.{RefreshToken, Store, Env}
use tpulse_backend.Auth.Tokens.{
  issue_refresh_token, rotate_refresh_token, revoke_refresh_token, revoke_all_for_user, clashes,
  replace_at, new_refresh_token,
}
use tpulse_backend.Auth.Rotation.{
  IsUnique, HasUniqueTokens, IsSpent, Keeps, any-clashes, update_where-known,
  issue_refresh_token_lem, issue-IsSpent, revoke-IsSpent, revoke_all-IsSpent, rotate-eq-ok,
  rotate_spent, rotate-keeps_IsSpent,
}

-- Any call of the token service, with any clock, random source and argument.
pub data Step (db : Prisma) : Store → Store → Type 0 where
  issue : (env : Env) (user_id : ℕ) (s : Store) → Step db s (issue_refresh_token db env user_id s).1
  rotate : (env : Env) (raw : String) (s : Store) → Step db s (rotate_refresh_token db env raw s).1
  revoke : (env : Env) (raw : String) (s : Store) → Step db s (revoke_refresh_token db env raw s).1
  revoke_all :
      (env : Env) (user_id : ℕ) (s : Store) → Step db s (revoke_all_for_user db env user_id s).1

pub data Reach (db : Prisma) (s : Store) : Store → Type 0 where
  here : Reach db s s
  next : {t u : Store} → Reach db s t → Step db t u → Reach db s u

-- The row that carries the hash is the one that the update marks.
mark-revoked :
    (hash : String) (id : ℕ) (f : RefreshToken → RefreshToken) (t : List RefreshToken)
    → Keeps f
    → IsUnique hash id t
    → All
        (λ r. str_eq r.token hash ≡ true → is_some r.revoked_at ≡ true)
        (update_where (λ r. r.id == id) f t)
mark-revoked hash id f [] k h = tt
mark-revoked hash id f (r ∷ t) k h = (ground (arith, k r, h.0), mark-revoked hash id f t k h.1)

IsUnique-at :
    (hash : String) (row : RefreshToken) (t : List RefreshToken)
    → HasUniqueTokens t
    → Elem row t
    → str_eq row.token hash ≡ true
    → IsUnique hash row.id t
IsUnique-at hash row t h e m = rw (← (str_eq_iff row.token hash).0 m) (All-elem _ row t h e)

module _ (db : Prisma) (laws : IsPrisma db) where
  pub rotate-IsSpent :
      (env : Env) (raw : String) (s : Store) {new : String} {user_id : ℕ} {s' : Store}
      → HasUniqueTokens s.refresh_tokens
      → rotate_refresh_token db env raw s ≡ (ok (new, user_id), s')
      → IsSpent (env.sha256 raw) s'.refresh_tokens
  rotate-IsSpent env raw s {new} {user_id} {s'} unique e =
      let (row, found, good, same, issued, tokens) = rotate-eq-ok db laws env raw s e in
      let hash = env.sha256 raw in
      let m = laws.find_first_match _ _ row found in
      let old = laws.find_first_elem _ _ row found in
      let known = Elem-any (λ r. str_eq r.token hash) row s.refresh_tokens old m in
      let fresh = new_refresh_token db env (s.draws + 1) user_id (env.random_hex 64 s.draws) in
      let f = replace_at env.now (env.sha256 new) in
      let t : (any (clashes fresh) s.refresh_tokens ≡ false)
          × ((issue_refresh_token db env user_id s).1.refresh_tokens ≡ fresh ∷ s.refresh_tokens) =
        ground (arith, issue_refresh_token_lem db laws env user_id s) in
      let other = any-clashes fresh hash s.refresh_tokens t.0 known in
      let all : IsUnique hash row.id (fresh ∷ s.refresh_tokens) =
        ((λ h. cc), IsUnique-at hash row s.refresh_tokens unique old m) in
      rw (tokens, t.1)
        (record {
          known =
              update_where-known hash (λ r. r.id == row.id) f (fresh ∷ s.refresh_tokens)
                (λ r. (refl, refl)) (ground (arith, known));
          revoked = mark-revoked hash row.id f (fresh ∷ s.refresh_tokens) (λ r. (refl, refl)) all;
        })

  Step-IsSpent :
      (hash : String) {s t : Store}
      → Step db s t
      → IsSpent hash s.refresh_tokens
      → IsSpent hash t.refresh_tokens
  Step-IsSpent hash (issue env user_id s) h = issue-IsSpent db laws env hash user_id s h
  Step-IsSpent hash (rotate env raw s) h = rotate-keeps_IsSpent db laws env hash raw s h
  Step-IsSpent hash (revoke env raw s) h = revoke-IsSpent db laws env hash raw s h
  Step-IsSpent hash (revoke_all env user_id s) h = revoke_all-IsSpent db laws env hash user_id s h

  Reach-IsSpent :
      (hash : String) {s t : Store}
      → IsSpent hash s.refresh_tokens
      → Reach db s t
      → IsSpent hash t.refresh_tokens
  Reach-IsSpent hash h here = h
  Reach-IsSpent hash h (next r st) = Step-IsSpent hash st (Reach-IsSpent hash h r)

  -- After a rotation of a token has succeeded, and after any calls of the token service, a second
  -- rotation of that token is refused with 401 at any time and leaves the store as it is, if the
  -- hashes in the table were unique when the first rotation ran and the hash function is the same.
  pub rotate_once :
      (env later : Env) (raw : String) (s s' s'' : Store) (new : String) (user_id : ℕ)
      → HasUniqueTokens s.refresh_tokens
      → later.sha256 ≡ env.sha256
      → rotate_refresh_token db env raw s ≡ (ok (new, user_id), s')
      → Reach db s' s''
      → rotate_refresh_token db later raw s'' ≡ (err unauthorized, s'')
  rotate_once env later raw s s' s'' new user_id unique same e r =
      let spent = Reach-IsSpent (env.sha256 raw) (rotate-IsSpent env raw s unique e) r in
      rotate_spent db laws later raw s'' (rw same spent)
