-- ===== src/Common/Idempotency.antt =====
-- src/common/interceptors/idempotency.interceptor.ts.
use tpulse_backend.Prelude.{
  ℕ, String, Bool, ◌||◌, Option, none, some, List, ltb, str_eq, str_append, if◌then◌else◌,
}
use tpulse_backend.Redis.{Redis, Entry}
use tpulse_backend.Effects.{Action, err, throw, bad_request, conflict}

-- The request, as far as the interceptor reads it; `user` is `request.user?.sub`.
pub record Request : Type 0 where
  pub method : String
  pub path : String
  pub user : Option String
  pub header : Option String

-- What the runtime gives: `trim`, the length of a text in UTF-16 units, the clock, and the keys of
-- Redis as numbers.
pub record IdempotencyEnv : Type 0 where
  pub now : ℕ
  pub redis_up : Bool
  pub ttl_seconds : ℕ
  pub trim : String → String
  pub utf16_length : String → ℕ
  pub slot : String → ℕ

-- The keys that are taken, beside the store of the handlers.
pub record Served (S : Type 0) : Type 0 where
  pub keys : List (Entry (Unit {0}))
  pub app : S

abbrev pub max_key_length : ℕ
max_key_length = 255

-- `MUTATING`
abbrev pub is_mutating : String → Bool
is_mutating m = str_eq m "POST" || str_eq m "PUT" || str_eq m "PATCH" || str_eq m "DELETE"

abbrev pub user_or_anon : Option String → String
user_or_anon none = "anon"
user_or_anon (some u) = u

unfoldable pub redis_key : Request → String → String
redis_key r key = str_append "idem:" (
    str_append (user_or_anon r.user) (
      str_append ":"
        (str_append r.method (str_append ":" (str_append r.path (str_append ":" key))))))

abbrev pub on_app : {S A : Type 0} → Action S A → Action (Served S) A
on_app m s = let (r, app) = m s.app in (r, record s { app = app })

module _ (redis : Redis) (env : IdempotencyEnv) where
  -- `SET key 1 EX ttl NX`, whose errors let the request pass; then the handler, or 409.
  unfoldable pub guarded : {S A : Type 0} → ℕ → Action S A → Action (Served S) A
  guarded key next s =
      if env.redis_up
      then (let (acquired, keys) = redis.set_nx key tt env.ttl_seconds env.now s.keys in
          if acquired then on_app next (record s { keys = keys }) else (err conflict, s))
      else on_app next s

  unfoldable pub with_key : {S A : Type 0} → Request → String → Action S A → Action (Served S) A
  unfolding guarded redis_key
  with_key r key next =
      if ltb max_key_length (env.utf16_length key)
      then throw bad_request
      else guarded (env.slot (redis_key r key)) next

  unfoldable pub with_header :
      {S A : Type 0} → Request → Option String → Action S A → Action (Served S) A
  unfolding with_key
  with_header r none next = on_app next
  with_header r (some raw) next =
      if str_eq (env.trim raw) "" then on_app next else with_key r (env.trim raw) next

  unfoldable pub intercept : {S A : Type 0} → Request → Action S A → Action (Served S) A
  unfolding with_header
  intercept r next = if is_mutating r.method then with_header r r.header next else on_app next
