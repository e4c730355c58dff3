-- ===== src/Common/Tests.antt =====
-- Runs of the interceptor, the cache and the sort keys at concrete inputs.
use tpulse_backend.Prelude.{ℕ, ◌+◌, ◌≡◌, refl, Bool, true, some, [], ◌∷◌, str_eq, arith, inl, inr}
use tpulse_backend.Redis.Reference.{
  list_redis, list_redis-IsRedis, list_sets, list_sets-IsRedisSets,
}
use tpulse_backend.Effects.{Action, ok, err, conflict}
use tpulse_backend.Common.Idempotency.{Request, IdempotencyEnv, Served, intercept}
use tpulse_backend.Common.Once.{HasKey, at_time, intercept_once}
use tpulse_backend.Common.Cache.{CacheStore, get_or_set}
use tpulse_backend.Common.Freshness.{Write, clock, cached_then_cut, get_or_set_fresh}
use tpulse_backend.Common.Sort.{desc, SortKey, parse_sort}
use tpulse_backend.Common.SortKeys.{print_sort, parse-print}

abbrev env : Bool → IdempotencyEnv
env up = record {
  now = 5;
  redis_up = up;
  ttl_seconds = 600;
  trim = λ s. s;
  utf16_length = λ s. 3;
  slot = λ s. 7;
}

abbrev request : Request
request = record { method = "POST"; path = "/posts"; user = some "ada"; header = some "k-1" }

abbrev add_one : Action ℕ ℕ
add_one n = (ok n, n + 1)

abbrev unserved : Served ℕ
unserved = record { keys = []; app = 0 }

request-HasKey : HasKey (env true) request "k-1"
request-HasKey = record { mutating = refl; given = refl; full = refl; fits = refl }

intercept_once_example :
    ((intercept list_redis (env true) request add_one unserved).0 ≡ ok 0)
    × ((intercept list_redis (env true) request add_one unserved).1.app ≡ 1)
    × (intercept list_redis (at_time 1000 (env true)) request add_one (record {
      keys = (intercept list_redis (env true) request add_one unserved).1.keys;
      app = 9;
    })
        ≡ (
          err conflict,
          record {
            keys = (intercept list_redis (env true) request add_one unserved).1.keys;
            app = 9;
          },
        ))
intercept_once_example =
    intercept_once list_redis list_redis-IsRedis (env true) 1000 request "k-1" add_one unserved 9
      request-HasKey refl refl (omega arith)

abbrev empty_cache : CacheStore list_sets ℕ ℕ
empty_cache = record { values = []; tags = []; hits = 0; misses = 0; source = 40 }

abbrev first_write : Write ℕ
first_write = record { key = 1; value = 41; tags = 8 ∷ 9 ∷ []; at = 1000 }

abbrev other_write : Write ℕ
other_write = record { key = 2; value = 42; tags = 9 ∷ []; at = 2000 }

-- A list cached at 1 s under two tags, another at 2 s, the second tag invalidated at 3 s and the first
-- key read at 4 s.
get_or_set_fresh_example :
    (get_or_set list_redis list_sets (clock (λ v. v) 4000) 1 300 add_one (8 ∷ 9 ∷ []) (
      cached_then_cut list_redis list_sets
        (λ v. v)
        300
        (other_write ∷ [])
        first_write
        9
        3000
        empty_cache)).0
    ≡ ok 40
unfolding tpulse_backend.Common.Cache.invalidate_tag tpulse_backend.Common.Cache.store
get_or_set_fresh_example =
    get_or_set_fresh list_redis list_redis-IsRedis list_sets list_sets-IsRedisSets (λ v. v) 300
      (other_write ∷ []) first_write 9 3000 4000 add_one empty_cache 40 (inr (inl refl))
      ((λ e. omega (arith, e), omega arith, omega arith), tt) (omega arith) refl

abbrev by_name : SortKey
by_name = record { field = "name"; direction = desc }

parse-print_example : parse_sort (some (print_sort by_name)) (str_eq "name") ≡ some by_name
parse-print_example = parse-print by_name (str_eq "name") refl refl
