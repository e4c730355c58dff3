-- ===== src/Users/Lockout.antt =====
-- What a change of state to Banned, Suspended or Inactive does to the user's access.
use tpulse_backend.Prelude.{
  ℕ, ◌+◌, ◌*◌, ◌≡◌, refl, true, false, none, some, List, [], ◌∷◌, any, All, All-elem, Elem-any,
  any-none, inl, inr, if◌then◌else◌, ◌==◌, arith, update_where, Option-cases, ltb,
}
use tpulse_backend.Db.{Prisma, IsPrisma}
use tpulse_backend.Redis.{Entry, Redis, IsRedis}
use tpulse_backend.Effects.{ok, err, forbidden}
use tpulse_backend.Auth.{User, UserStatus, active, Store, Env, revoke_all_for_user, revoke_at}
use tpulse_backend.Auth.Sessions.{HasNoSession, live_of, update_where-HasNoSession}
use tpulse_backend.Guards.{set_status, ttl_seconds, get_status, jwt_can_activate, accepted}
use tpulse_backend.Users.Service.{
  StatusDto, UserDetailResponse, status_eq, with_status, find_user, update_user,
  assert_not_last_active_admin, update_status, notify_status,
}
use tpulse_backend.Users.Counting.{has_id, any-update_where}

update_where-status :
    (now id : ℕ) (dto : StatusDto) (t : List User)
    → All
        (λ u. (u.id == id) ≡ true → u.status ≡ dto.status)
        (update_where (has_id id) (with_status now dto) t)
update_where-status now id dto [] = tt
update_where-status now id dto (u ∷ t) = (ground arith, update_where-status now id dto t)

module _ (redis : Redis) (redis_laws : IsRedis redis) (db : Prisma) (laws : IsPrisma db)
    (env : Env) where
  -- What a successful change to a state other than Active has written.
  update_status-eq-ok :
      (id : ℕ) (dto : StatusDto) (s s' : Store) (r : UserDetailResponse)
      → update_status db env redis id dto s ≡ (ok r, s')
      → status_eq dto.status active ≡ false
      → (s'.users ≡ update_where (has_id id) (with_status env.now dto) s.users)
        × any (has_id id) s.users ≡ true
        × (s'.refresh_tokens ≡ update_where (live_of id) (revoke_at env.now) s.refresh_tokens)
        × (s'.status_cache ≡ (
            if env.redis_up
            then redis.set_ex id dto.status ttl_seconds env.now s.status_cache
            else s.status_cache))
  unfolding update_status find_user assert_not_last_active_admin update_user revoke_all_for_user
      set_status notify_status
  update_status-eq-ok id dto s s' r e out =
      elim (Option-cases (db.find_first (has_id id) s.users)) [
        | inl missing ↦ ground arith
        | inr (u, found) ↦
            let there =
              Elem-any (has_id id) u s.users (laws.find_first_elem _ _ u found)
                (laws.find_first_match (has_id id) s.users u found) in
            let du = laws.update_rows (has_id id) (with_status env.now dto) s.users in
            let dr = laws.update_many_rows (live_of id) (revoke_at env.now) s.refresh_tokens in
            (
              ground (arith, there, du, dr),
              there,
              ground (arith, there, du, dr),
              ground (arith, there, du, dr),
            )
      ]

  -- The status that a later request is judged by: the cached one while it lives, else the row's.
  get_status-after :
      (later : Env) (id : ℕ) (dto : StatusDto) (s : Store)
      → any (has_id id) s.users ≡ true
      → All (λ u. (u.id == id) ≡ true → u.status ≡ dto.status) s.users
      → (m : List (Entry UserStatus))
      → s.status_cache ≡ redis.set_ex id dto.status ttl_seconds env.now m
      → (get_status redis db later id s).0 ≡ ok (some dto.status)
  unfolding get_status
  get_status-after later id dto s there rows m cache =
      let seen : redis.get id later.now s.status_cache
          ≡ (if ltb later.now (env.now + ttl_seconds * 1000) then some dto.status else none) =
        rw cache (redis_laws.get-set_ex_self id dto.status ttl_seconds env.now later.now m) in
      elim (Option-cases (db.find_first (has_id id) s.users)) [
        | inl missing ↦
            let nobody =
              any-none (has_id id) s.users (laws.find_first_none (has_id id) s.users missing) in
            cc
        | inr (u, found) ↦
            let new =
              All-elem _ u s.users rows (laws.find_first_elem (has_id id) s.users u found)
                (laws.find_first_match (has_id id) s.users u found) in
            ground (arith, seen, new)
      ]

  -- When Redis answers the call that takes a user's state away from Active, the user has no live
  -- refresh token afterwards, and a valid access token of the user is refused with 403 by the guard
  -- at any time, whether or not Redis answers then and the cached state has expired.
  pub update_status_locks_out :
      (later : Env) (id : ℕ) (dto : StatusDto) (s s' : Store) (r : UserDetailResponse)
      → update_status db env redis id dto s ≡ (ok r, s')
      → status_eq dto.status active ≡ false
      → env.redis_up ≡ true
      → HasNoSession id s'.refresh_tokens
        × ((jwt_can_activate redis db later false (accepted (some id)) s').0 ≡ err forbidden)
  unfolding jwt_can_activate
  update_status_locks_out later id dto s s' r e out up =
      let (users, there, tokens, cache) = update_status-eq-ok id dto s s' r e out in
      let there' : any (has_id id) s'.users ≡ true =
        rw (users, any-update_where id id (with_status env.now dto) s.users (λ u. refl)) there in
      let rows : All (λ u. (u.id == id) ≡ true → u.status ≡ dto.status) s'.users =
        rw users (update_where-status env.now id dto s.users) in
      let g = get_status-after later id dto s' there' rows s.status_cache (rw up at cache) in
      (rw tokens (update_where-HasNoSession env.now id s.refresh_tokens), ground (arith, g, out))
