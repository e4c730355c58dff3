-- ===== src/Common/Once.antt =====
-- A request with an idempotency key is carried out at most once while the key lives.
use tpulse_backend.Prelude.{
  ℕ, ◌+◌, ◌*◌, ◌<◌, ◌≡◌, refl, sym, ap, ◌∙◌, String, true, false, none, some, ltb, str_eq, arith,
}
use mathlib.Core.Path.{subst}
use tpulse_backend.Redis.{Redis, IsRedis}
use tpulse_backend.Effects.{Action, err, conflict}
use tpulse_backend.Common.Idempotency.{
  Request, IdempotencyEnv, Served, is_mutating, max_key_length, redis_key, on_app, guarded,
  with_key, with_header, intercept,
}

-- The request has a key that the interceptor takes.
pub record HasKey (env : IdempotencyEnv) (r : Request) (raw : String) : Type 0 where
  pub mutating : is_mutating r.method ≡ true
  pub given : r.header ≡ some raw
  pub full : str_eq (env.trim raw) "" ≡ false
  pub fits : ltb max_key_length (env.utf16_length (env.trim raw)) ≡ false

abbrev pub slot_of : IdempotencyEnv → Request → String → ℕ
slot_of env r raw = env.slot (redis_key r (env.trim raw))

abbrev pub at_time : ℕ → IdempotencyEnv → IdempotencyEnv
at_time now env = record env { now = now }

module _ (redis : Redis) (laws : IsRedis redis) {S A : Type 0} where
  intercept-guarded :
      (env : IdempotencyEnv) (r : Request) (raw : String) (next : Action S A) (s : Served S)
      → HasKey env r raw
      → intercept redis env r next s ≡ guarded redis env (slot_of env r raw) next s
  unfolding intercept with_header with_key redis_key
  intercept-guarded env r raw next s h = rw (h.mutating, h.given, h.full, h.fits) refl

  guarded_first :
      (env : IdempotencyEnv) (key : ℕ) (next : Action S A) (s : Served S)
      → env.redis_up ≡ true
      → redis.get key env.now s.keys ≡ none
      → guarded redis env key next s
        ≡ on_app next (record s { keys = redis.set_ex key tt env.ttl_seconds env.now s.keys })
  unfolding guarded
  guarded_first env key next s up free =
      ground (arith, up, free, laws.set_nx_lem key tt env.ttl_seconds env.now s.keys)

  guarded_again :
      (env : IdempotencyEnv) (key : ℕ) (next : Action S A) (s : Served S)
      → env.redis_up ≡ true
      → redis.get key env.now s.keys ≡ some tt
      → guarded redis env key next s ≡ (err conflict, s)
  unfolding guarded
  guarded_again env key next s up held =
      ground (arith, up, held, laws.set_nx_lem key tt env.ttl_seconds env.now s.keys)

  -- While Redis answers, a request that comes with a key nobody has used runs its handler, and the
  -- same request again, within the life of the key and in whatever store the handlers have made since,
  -- is refused with 409 and runs nothing, whether or not the handler succeeded.
  pub intercept_once :
      (env : IdempotencyEnv) (later : ℕ) (r : Request) (raw : String) (next : Action S A)
      (s : Served S) (app : S)
      → HasKey env r raw
      → env.redis_up ≡ true
      → redis.get (slot_of env r raw) env.now s.keys ≡ none
      → later < env.now + env.ttl_seconds * 1000
      → ((intercept redis env r next s).0 ≡ (next s.app).0)
        × ((intercept redis env r next s).1.app ≡ (next s.app).1)
        × (intercept redis
              (at_time later env)
              r
              next
              (record { keys = (intercept redis env r next s).1.keys; app = app })
            ≡ (err conflict, record { keys = (intercept redis env r next s).1.keys; app = app }))
  intercept_once env later r raw next s app h up free soon =
      let key = slot_of env r raw in
      let first = intercept-guarded env r raw next s h ∙ guarded_first env key next s up free in
      let keys = redis.set_ex key tt env.ttl_seconds env.now s.keys in
      let held : redis.get key later keys ≡ some tt =
        ground (arith, soon, laws.get-set_ex_self key tt env.ttl_seconds env.now later s.keys) in
      let again =
        intercept-guarded (at_time later env) r raw next (record { keys = keys; app = app })
          (record { mutating = h.mutating; given = h.given; full = h.full; fits = h.fits })
        ∙ guarded_again (at_time later env) key next (record { keys = keys; app = app }) up held in
      (
        ap (λ x. x.0) first,
        ap (λ x. x.1.app) first,
        subst
            (λ ks.
              intercept redis (at_time later env) r next (record { keys = ks; app = app })
              ≡ (err conflict, record { keys = ks; app = app }))
            (sym (ap (λ x. x.1.keys) first)) again,
      )
