-- ===== src/Users/LastAdmin.antt =====
-- The last active admin: which methods keep one, and which does not.
use tpulse_backend.Prelude.{
  ℕ, String, ◌≤◌, ◌≡◌, refl, true, not, ◌&&◌, Option, some, List, count, Elem, Elem-any, inl, inr,
  ◌⊎◌, arith, update_where, Bool-cases, Option-cases, leb,
}
use tpulse_backend.Db.{Prisma, IsPrisma}
use tpulse_backend.Redis.{Redis}
use tpulse_backend.Effects.{ok}
use tpulse_backend.Auth.{User, VerificationType, Store, Env, active, revoke_all_for_user}
use tpulse_backend.Guards.{set_status}
use tpulse_backend.Users.Service.{
  StatusDto, ReputationDto, UpdateUserDto, is_active_admin, status_eq, is_admin_role, with_status,
  with_role, with_verification, with_reputation, with_profile, find_user, update_user,
  update_status, assert_not_last_active_admin, update_role, set_verified, update_reputation, update,
  notify_status,
}
use tpulse_backend.Users.Counting.{
  has_id, HasUniqueIds, count-update_where, update_where-HasUniqueIds,
}

-- Ids are unique, and at least one active admin is there.
pub record HasAdmin (t : List User) : Type 0 where
  pub unique : HasUniqueIds t
  pub admin : 1 ≤ count is_active_admin t

-- An update that costs an active admin is safe while another one is left.
update_where-HasAdmin :
    (f : User → User) (u : User) (t : List User)
    → ((v : User) → (f v).id ≡ v.id)
    → Elem u t
    → ((is_active_admin u ≡ true → is_active_admin (f u) ≡ true) ⊎ (2 ≤ count is_active_admin t))
    → HasAdmin t
    → HasAdmin (update_where (has_id u.id) f t)
update_where-HasAdmin f u t keep e safe h = record {
  unique = update_where-HasUniqueIds u.id f t keep h.unique;
  admin = ground (arith, safe, h.admin, count-update_where is_active_admin f u t h.unique e);
}

module _ (db : Prisma) (laws : IsPrisma db) (env : Env) where
  -- The users after an update of one that was found.
  update_user-HasAdmin :
      (id : ℕ) (f : User → User) (u : User) (s : Store)
      → ((v : User) → (f v).id ≡ v.id)
      → db.find_first (has_id id) s.users ≡ some u
      → ((is_active_admin u ≡ true → is_active_admin (f u) ≡ true)
          ⊎ (2 ≤ count is_active_admin s.users))
      → HasAdmin s.users
      → ((update_user db env id f s).0 ≡ ok tt) × HasAdmin (update_user db env id f s).1.users
  unfolding update_user
  update_user-HasAdmin id f u s keep found safe h =
      let m : u.id ≡ id = ground (arith, laws.find_first_match (has_id id) s.users u found) in
      let e = laws.find_first_elem (has_id id) s.users u found in
      let after = update_where-HasAdmin f u s.users keep e safe h in
      let there =
        Elem-any (has_id id) u s.users e (laws.find_first_match (has_id id) s.users u found) in
      ground (arith, laws.update_rows (has_id id) f s.users, there, m, after.unique, after.admin)

  update_user-keeps :
      (id : ℕ) (f : User → User) (s : Store)
      → ((v : User) → ((f v).id ≡ v.id) × (is_active_admin (f v) ≡ is_active_admin v))
      → (u : User) → db.find_first (has_id id) s.users ≡ some u
      → HasAdmin s.users
      → HasAdmin (update_user db env id f s).1.users
  update_user-keeps id f s keep u found h =
      (update_user-HasAdmin id f u s (λ v. (keep v).0) found (inl (λ e. rw (keep u).1 e)) h).1

  pub set_verified-HasAdmin :
      (id : ℕ) (badge : Option VerificationType) (s : Store)
      → HasAdmin s.users
      → HasAdmin (set_verified db env id badge s).1.users
  unfolding set_verified find_user
  set_verified-HasAdmin id badge s h = elim (Option-cases (db.find_first (has_id id) s.users)) [
    | inl missing ↦ ground (arith, h.unique, h.admin)
    | inr (u, found) ↦
        let k =
          update_user-HasAdmin id (with_verification env.now badge) u s (λ v. refl) found
            (inl (λ e. e)) h in
        ground (arith, k.0, k.1.unique, k.1.admin)
  ]

  pub update-HasAdmin :
      (id : ℕ) (dto : UpdateUserDto) (s : Store)
      → HasAdmin s.users
      → HasAdmin (update db env id dto s).1.users
  unfolding update find_user
  update-HasAdmin id dto s h = elim (Option-cases (db.find_first (has_id id) s.users)) [
    | inl missing ↦ ground (arith, h.unique, h.admin)
    | inr (u, found) ↦
        let k =
          update_user-HasAdmin id (with_profile env.now dto) u s (λ v. refl) found (inl (λ e. e))
            h in
        ground (arith, k.0, k.1.unique, k.1.admin, h.unique, h.admin)
  ]

  pub update_role-HasAdmin :
      (id : ℕ) (role : String) (s : Store)
      → HasAdmin s.users
      → HasAdmin (update_role db env id role s).1.users
  unfolding update_role find_user assert_not_last_active_admin
  update_role-HasAdmin id role s h = elim (Option-cases (db.find_first (has_id id) s.users)) [
    | inl missing ↦ ground (arith, h.unique, h.admin)
    | inr (u, found) ↦
        elim (Bool-cases
          (is_admin_role u.role && not (is_admin_role role) && status_eq u.status active)) [
            | inl drops ↦ elim (Bool-cases (leb (count is_active_admin s.users) 1)) [
              | inl last ↦
                  ground (arith, laws.count_rows_count is_active_admin s.users, h.unique, h.admin)
              | inr more ↦
                  let k =
                    update_user-HasAdmin id (with_role env.now role) u s (λ v. refl) found
                      (inr (ground arith)) h in
                  ground (
                    arith,
                    laws.count_rows_count is_active_admin s.users,
                    k.0,
                    k.1.unique,
                    k.1.admin,
                  )
            ]
            | inr stays ↦
                let k =
                  update_user-HasAdmin id (with_role env.now role) u s (λ v. refl) found
                    (inl (ground arith)) h in
                ground (arith, k.0, k.1.unique, k.1.admin)
          ]
  ]

  pub update_reputation-HasAdmin :
      (id : ℕ) (dto : ReputationDto) (s : Store)
      → HasAdmin s.users
      → HasAdmin (update_reputation db env id dto s).1.users
  unfolding update_reputation find_user
  update_reputation-HasAdmin id dto s h = elim (Option-cases (db.find_first (has_id id) s.users)) [
    | inl missing ↦ ground (arith, h.unique, h.admin)
    | inr (u, found) ↦
        let k =
          update_user-HasAdmin id (with_reputation env.now dto) u s (λ v. ground arith) found
            (inl (ground arith)) h in
        ground (arith, k.0, k.1.unique, k.1.admin, h.unique, h.admin)
  ]

  -- The calls after the write of `updateStatus` leave the users alone.
  pub update_status-HasAdmin :
      (redis : Redis) (id : ℕ) (dto : StatusDto) (s : Store)
      → HasAdmin s.users
      → HasAdmin (update_status db env redis id dto s).1.users
  unfolding update_status find_user assert_not_last_active_admin revoke_all_for_user set_status
      notify_status
  update_status-HasAdmin redis id dto s h =
      elim (Option-cases (db.find_first (has_id id) s.users)) [
        | inl missing ↦ ground (arith, h.unique, h.admin)
        | inr (u, found) ↦
            elim (Bool-cases (
              not (status_eq dto.status active)
              && is_admin_role u.role
              && status_eq u.status active)) [
                | inl drops ↦ elim (Bool-cases (leb (count is_active_admin s.users) 1)) [
                  | inl last ↦
                      ground
                        (arith, laws.count_rows_count is_active_admin s.users, h.unique, h.admin)
                  | inr more ↦
                      let k =
                        update_user-HasAdmin id (with_status env.now dto) u s (λ v. refl) found
                          (inr (ground arith)) h in
                      ground (
                        arith,
                        laws.count_rows_count is_active_admin s.users,
                        k.0,
                        k.1.unique,
                        k.1.admin,
                      )
                ]
                | inr stays ↦
                    let k =
                      update_user-HasAdmin id (with_status env.now dto) u s (λ v. refl) found
                        (inl (ground arith)) h in
                    ground (arith, k.0, k.1.unique, k.1.admin)
              ]
      ]
