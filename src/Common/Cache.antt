-- ===== src/Common/Cache.antt =====
-- `CacheService` of src/common/redis/cache.service.ts. The keys and the tags are numbers, as they are
-- only compared; what `JSON` keeps of a value is an argument.
use tpulse_backend.Prelude.{ℕ, ◌+◌, Bool, Option, none, some, List, [], ◌∷◌, if◌then◌else◌}
use tpulse_backend.Redis.{Redis, Entry}
use tpulse_backend.Redis.Sets.{RedisSets}
use tpulse_backend.Effects.{Action, pure, modify, ◌>>=◌, ◌>>◌}

-- The cached values, the sets of the tags, the counters and what the producers read.
pub record CacheStore (sets : RedisSets) (V S : Type 0) : Type 0 where
  pub values : List (Entry V)
  pub tags : sets.Keyspace
  pub hits : ℕ
  pub misses : ℕ
  pub source : S

pub record CacheEnv (V : Type 0) : Type 0 where
  pub now : ℕ
  pub redis_up : Bool
  pub via_json : V → V

abbrev pub tag_ttl_buffer : ℕ
tag_ttl_buffer = 60

-- `SADD` and `EXPIRE` of each tag.
unfoldable pub tag_key :
    (sets : RedisSets) → (now key seconds : ℕ) → List ℕ → sets.Keyspace → sets.Keyspace
tag_key sets now key seconds [] m = m
tag_key sets now key seconds (tag ∷ tags) m =
    tag_key sets now key seconds tags (sets.expire tag seconds now (sets.sadd tag (key ∷ []) now m))

unfoldable pub delete_all : {V : Type 0} → Redis → List ℕ → List (Entry V) → List (Entry V)
delete_all redis [] m = m
delete_all redis (key ∷ keys) m = delete_all redis keys (redis.del key m)

module _ (redis : Redis) (sets : RedisSets) {V S : Type 0} (env : CacheEnv V) where
  abbrev pub on_source : Action S V → Action (CacheStore sets V S) V
  on_source m s = let (r, source) = m s.source in (r, record s { source = source })

  unfoldable pub store : ℕ → V → ℕ → List ℕ → CacheStore sets V S → CacheStore sets V S
  unfolding tag_key
  store key value ttl_seconds tags s =
      if env.redis_up
      then record s {
        values = redis.set_ex key (env.via_json value) ttl_seconds env.now s.values;
        tags = tag_key sets env.now key (ttl_seconds + tag_ttl_buffer) tags s.tags;
      }
      else s

  unfoldable pub produce : ℕ → ℕ → Action S V → List ℕ → Action (CacheStore sets V S) V
  unfolding store
  produce key ttl_seconds producer tags = do
    modify (λ s. record s { misses = s.misses + 1 })
    value ← on_source producer
    modify (store key value ttl_seconds tags)
    pure value

  abbrev pub cached : ℕ → CacheStore sets V S → Option V
  cached key s = if env.redis_up then redis.get key env.now s.values else none

  unfoldable pub from_cache :
      ℕ → ℕ → Action S V → List ℕ → Option V → Action (CacheStore sets V S) V
  unfolding produce
  from_cache key ttl_seconds producer tags none = produce key ttl_seconds producer tags
  from_cache key ttl_seconds producer tags (some v) = do
    modify (λ s. record s { hits = s.hits + 1 })
    pure v

  unfoldable pub get_or_set : ℕ → ℕ → Action S V → List ℕ → Action (CacheStore sets V S) V
  unfolding from_cache
  get_or_set key ttl_seconds producer tags s =
      from_cache key ttl_seconds producer tags (cached key s) s

  unfoldable pub invalidate_tag : ℕ → CacheStore sets V S → CacheStore sets V S
  unfolding delete_all
  invalidate_tag tag s =
      if env.redis_up
      then record s {
        values = delete_all redis (sets.smembers tag env.now s.tags) s.values;
        tags = sets.del_set tag s.tags;
      }
      else s

  unfoldable pub invalidate_tags : List ℕ → CacheStore sets V S → CacheStore sets V S
  unfolding invalidate_tag
  invalidate_tags [] s = s
  invalidate_tags (tag ∷ tags) s = invalidate_tags tags (invalidate_tag tag s)

  unfoldable pub invalidate_key : ℕ → CacheStore sets V S → CacheStore sets V S
  invalidate_key key s = if env.redis_up then record s { values = redis.del key s.values } else s
