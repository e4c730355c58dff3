-- ===== src/Users/Administration.antt =====
-- Any sequence of calls of `UsersService` but deletions keeps an active admin; a deletion can take
-- the last one.
use tpulse_backend.Prelude.{
  ℕ, String, ◌+◌, ◌≡◌, refl, true, false, not, Option, some, List, [], ◌∷◌, any, count, filter,
  Elem, Elem-any, inl, inr, ◌==◌, ==-refl, arith,
}
use tpulse_backend.Db.{Prisma, IsPrisma}
use tpulse_backend.Redis.{Redis}
use tpulse_backend.Effects.{ok}
use tpulse_backend.Auth.{
  User, VerificationType, Store, Env, hash_password, RegisterDto, new_user, user_clashes,
}
use tpulse_backend.Users.Service.{
  StatusDto, ReputationDto, UpdateUserDto, is_active_admin, find_user, update_status, update_role,
  set_verified, update_reputation, update, remove, create, with_picture,
}
use tpulse_backend.Users.Counting.{has_id, HasUniqueIds}
use tpulse_backend.Users.LastAdmin.{
  HasAdmin, update_status-HasAdmin, update_role-HasAdmin, set_verified-HasAdmin,
  update_reputation-HasAdmin, update-HasAdmin,
}

-- One call of the service, with any arguments, clock and random source, other than a deletion.
pub data Step (redis : Redis) (db : Prisma) : Store → Store → Type 0 where
  status :
      (env : Env) (id : ℕ) (dto : StatusDto) (s : Store)
      → Step redis db s (update_status db env redis id dto s).1
  role :
      (env : Env) (id : ℕ) (r : String) (s : Store) → Step redis db s (update_role db env id r s).1
  verified :
      (env : Env) (id : ℕ) (badge : Option VerificationType) (s : Store)
      → Step redis db s (set_verified db env id badge s).1
  reputation :
      (env : Env) (id : ℕ) (dto : ReputationDto) (s : Store)
      → Step redis db s (update_reputation db env id dto s).1
  profile :
      (env : Env) (id : ℕ) (dto : UpdateUserDto) (s : Store)
      → Step redis db s (update db env id dto s).1
  created :
      (env : Env) (dto : RegisterDto) (picture : Option String) (s : Store)
      → Step redis db s (create db env dto picture s).1

pub data Reach (redis : Redis) (db : Prisma) (s : Store) : Store → Type 0 where
  here : Reach redis db s s
  next : {t u : Store} → Reach redis db s t → Step redis db t u → Reach redis db s u

-- A row that the constraints let in has a new id.
no_clash-no_id :
    (new : User) (t : List User) → any (user_clashes new) t ≡ false → any (has_id new.id) t ≡ false
no_clash-no_id new [] h = refl
no_clash-no_id new (u ∷ t) h = ground (arith, no_clash-no_id new t)

count-remove_none :
    (id : ℕ) (t : List User) → any (has_id id) t ≡ false → filter (λ u. not (u.id == id)) t ≡ t
count-remove_none id [] h = refl
count-remove_none id (u ∷ t) h = ground (arith, count-remove_none id t)

-- A deletion takes the deleted user out of the count.
count-remove :
    (u : User) (t : List User)
    → HasUniqueIds t
    → Elem u t
    → is_active_admin u ≡ true
    → count is_active_admin (filter (λ v. not (v.id == u.id)) t) + 1 ≡ count is_active_admin t
count-remove u [] h e a = absurd e
count-remove u (x ∷ t) h (inl e) a =
    let same : filter (λ v. not (v.id == u.id)) t ≡ t =
      count-remove_none u.id t (ground (arith, h.0, e)) in
    rw (← e, ==-refl u.id, a, same) (omega arith)
count-remove u (x ∷ t) h (inr e) a =
    let other : (x.id == u.id) ≡ false = ground (arith, h.0, Elem-any (has_id x.id) u t e) in
    rw other (omega (arith, count-remove u t h.1 e a))

module _ (db : Prisma) (laws : IsPrisma db) where
  create-HasAdmin :
      (env : Env) (dto : RegisterDto) (picture : Option String) (s : Store)
      → HasAdmin s.users
      → HasAdmin (create db env dto picture s).1.users
  unfolding create hash_password
  create-HasAdmin env dto picture s h =
      let hash = env.bcrypt_hash s.draws dto.password in
      let user = with_picture picture (new_user (env.uuid (s.draws + 1)) env.now dto hash) in
      ground (
        arith,
        laws.create_rows (user_clashes user) user s.users,
        no_clash-no_id user s.users,
        h.unique,
        h.admin,
      )

  Step-HasAdmin :
      {redis : Redis} {s t : Store} → Step redis db s t → HasAdmin s.users → HasAdmin t.users
  Step-HasAdmin (status env id dto s) h = update_status-HasAdmin db laws env _ id dto s h
  Step-HasAdmin (role env id r s) h = update_role-HasAdmin db laws env id r s h
  Step-HasAdmin (verified env id badge s) h = set_verified-HasAdmin db laws env id badge s h
  Step-HasAdmin (reputation env id dto s) h = update_reputation-HasAdmin db laws env id dto s h
  Step-HasAdmin (profile env id dto s) h = update-HasAdmin db laws env id dto s h
  Step-HasAdmin (created env dto picture s) h = create-HasAdmin env dto picture s h

  -- From a table of users with unique ids and an active admin, any sequence of status, role,
  -- badge, reputation and profile changes and creations, refused ones included, ends in such a
  -- table.
  pub Reach-HasAdmin :
      (redis : Redis) (s t : Store) → HasAdmin s.users → Reach redis db s t → HasAdmin t.users
  Reach-HasAdmin redis s _ h here = h
  Reach-HasAdmin redis s t h (next r st) = Step-HasAdmin st (Reach-HasAdmin redis s _ h r)

  -- Where ids are unique and one active admin is left, deleting that account is accepted and
  -- leaves none.
  pub remove_last_admin :
      (env : Env) (u : User) (s : Store)
      → HasUniqueIds s.users
      → db.find_first (has_id u.id) s.users ≡ some u
      → is_active_admin u ≡ true
      → count is_active_admin s.users ≡ 1
      → ((remove db env u.id s).0 ≡ ok tt)
        × (count is_active_admin (remove db env u.id s).1.users ≡ 0)
  unfolding remove find_user
  remove_last_admin env u s unique found admin one =
      let gone =
        count-remove u s.users unique (laws.find_first_elem (has_id u.id) s.users u found) admin in
      ground (arith, laws.delete_many_rows (has_id u.id) s.users, gone)
