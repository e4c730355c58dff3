-- ===== src/Guards/StatusCache.antt =====
-- src/common/auth/user-status.cache.ts: a read-through cache of user states in Redis. Each Redis
-- error is caught, so the commands run only while Redis answers.
use tpulse_backend.Prelude.{ℕ, Option, none, some, if◌then◌else◌, ◌==◌}
use tpulse_backend.Db.{Prisma}
use tpulse_backend.Redis.{Redis}
use tpulse_backend.Effects.{Action, pure, modify, ◌>>=◌, ◌>>◌, gets}
use tpulse_backend.Auth.{User, UserStatus, Store, Env}

abbrev pub ttl_seconds : ℕ
ttl_seconds = 60

module _ (redis : Redis) (db : Prisma) (env : Env) where
  unfoldable pub write_cache : ℕ → UserStatus → Action Store (Unit {0})
  write_cache user_id status = modify (λ s.
      if env.redis_up
      then record s {
        status_cache = redis.set_ex user_id status ttl_seconds env.now s.status_cache;
      }
      else s)

  unfoldable pub set_status : ℕ → UserStatus → Action Store (Unit {0})
  unfolding write_cache
  set_status user_id status = write_cache user_id status

  unfoldable pub invalidate : ℕ → Action Store (Unit {0})
  invalidate user_id = modify (λ s.
      if env.redis_up then record s { status_cache = redis.del user_id s.status_cache } else s)

  abbrev pub cached_status : ℕ → Store → Option UserStatus
  cached_status user_id s = if env.redis_up then redis.get user_id env.now s.status_cache else none

  -- The read behind a cache miss.
  status_of : Option User → Action Store (Option UserStatus)
  unfolding write_cache
  status_of none = pure none
  status_of (some user) = do write_cache user.id user.status; pure (some user.status)

  status_on : ℕ → Option UserStatus → Action Store (Option UserStatus)
  unfolding status_of
  status_on user_id (some status) = pure (some status)
  status_on user_id none = do
    found ← gets (λ s. db.find_first (λ u. u.id == user_id) s.users)
    status_of found

  unfoldable pub get_status : ℕ → Action Store (Option UserStatus)
  unfolding status_on
  get_status user_id = do cached ← gets (cached_status user_id); status_on user_id cached
