-- ===== src/Redis/Sets.antt =====
-- The set commands SADD, EXPIRE and SMEMBERS, and what Redis documents of them.
use tpulse_backend.Prelude.{ℕ, ◌+◌, ◌*◌, ◌<◌, ◌≡◌, ◌≢◌, List, [], Elem}

pub record RedisSets : Type 1 where
  pub Keyspace : Type 0
  pub sadd : (key : ℕ) → List ℕ → (now : ℕ) → Keyspace → Keyspace
  pub expire : (key seconds now : ℕ) → Keyspace → Keyspace
  pub del_set : (key : ℕ) → Keyspace → Keyspace
  pub smembers : (key now : ℕ) → Keyspace → List ℕ

pub record IsRedisSets (sets : RedisSets) : Type 0 where
  -- What was added is there until the set expires.
  pub added :
      (key : ℕ) (ids : List ℕ) (seconds set_at now : ℕ) (m : sets.Keyspace) (id : ℕ)
      → now < set_at + seconds * 1000
      → Elem id ids
      → Elem id
          (sets.smembers key now (sets.expire key seconds set_at (sets.sadd key ids set_at m)))
  pub kept :
      (key : ℕ) (ids : List ℕ) (seconds set_at now : ℕ) (m : sets.Keyspace) (id : ℕ)
      → now < set_at + seconds * 1000
      → Elem id (sets.smembers key set_at m)
      → Elem id
          (sets.smembers key now (sets.expire key seconds set_at (sets.sadd key ids set_at m)))
  pub other :
      (key key' : ℕ) (ids : List ℕ) (seconds set_at now : ℕ) (m : sets.Keyspace)
      → key ≢ key'
      → sets.smembers key' now (sets.expire key seconds set_at (sets.sadd key ids set_at m))
        ≡ sets.smembers key' now m
  pub deleted : (key now : ℕ) (m : sets.Keyspace) → sets.smembers key now (sets.del_set key m) ≡ []
