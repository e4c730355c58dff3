-- ===== src/Common/Freshness.antt =====
-- What an invalidated tag covered is not read from the cache again.
use tpulse_backend.Prelude.{
  ℕ, ◌+◌, ◌*◌, ◌≤◌, ◌<◌, ◌≡◌, ◌≢◌, refl, sym, ◌∙◌, true, false, none, List, [], ◌∷◌, All, Elem,
  ◌==◌, ltb, arith, Bool-cases, inl, inr,
}
use mathlib.Core.Path.{subst}
use tpulse_backend.Redis.{Redis, IsRedis, Entry}
use tpulse_backend.Redis.Sets.{RedisSets, IsRedisSets}
use tpulse_backend.Effects.{Action, ok}
use tpulse_backend.Common.Cache.{
  CacheStore, CacheEnv, tag_ttl_buffer, tag_key, store, delete_all, invalidate_tag, get_or_set,
  from_cache, produce,
}

-- A value that is written to the cache at some time.
pub record Write (V : Type 0) : Type 0 where
  pub key : ℕ
  pub value : V
  pub tags : List ℕ
  pub at : ℕ

-- Redis answers at all times.
abbrev pub clock : {V : Type 0} → (V → V) → ℕ → CacheEnv V
clock json now = record { now = now; redis_up = true; via_json = json }

module _ (redis : Redis) (sets : RedisSets) {V S : Type 0} (json : V → V) where
  abbrev pub write_all : ℕ → List (Write V) → CacheStore sets V S → CacheStore sets V S
  write_all ttl [] s = s
  write_all ttl (w ∷ ws) s =
      write_all ttl ws (store redis sets (clock json w.at) w.key w.value ttl w.tags s)

  -- The store of the cache after the value was cached, others with it, and the tag invalidated.
  abbrev pub cached_then_cut :
      ℕ → List (Write V) → Write V → (tag to : ℕ) → CacheStore sets V S → CacheStore sets V S
  cached_then_cut ttl ws w tag to s =
      invalidate_tag redis sets (clock json to) tag (write_all ttl (w ∷ ws) s)

-- The key is a member of the tag until then.
abbrev HoldsKey : (sets : RedisSets) → (key tag until : ℕ) → sets.Keyspace → Type 0
HoldsKey sets key tag until m = (now : ℕ) → now < until → Elem key (sets.smembers tag now m)

module _ (sets : RedisSets) (set_laws : IsRedisSets sets) where
  tag_key-HoldsKey :
      (key tag until at other seconds : ℕ) (tags : List ℕ) (m : sets.Keyspace)
      → at < until
      → until ≤ at + seconds * 1000
      → HoldsKey sets key tag until m
      → HoldsKey sets key tag until (tag_key sets at other seconds tags m)
  unfolding tag_key
  tag_key-HoldsKey key tag until at other seconds [] m before long h = h
  tag_key-HoldsKey key tag until at other seconds (x ∷ tags) m before long h =
      tag_key-HoldsKey key tag until at other seconds tags _ before long (λ now soon.
        elim (Bool-cases (x == tag)) [
          | inl e ↦
              let same : x ≡ tag = ground (arith, e) in
              subst
                (λ y. Elem key (
                  sets.smembers tag now (sets.expire y seconds at (sets.sadd y (other ∷ []) at m))))
                (sym same)
                (set_laws.kept tag (other ∷ []) seconds at now m key (omega (arith, soon, long))
                  (h at before))
          | inr e ↦
              let away : x ≢ tag = λ same. ground (arith, same, e) in
              subst (Elem key) (sym (set_laws.other x tag (other ∷ []) seconds at now m away))
                (h now soon)
        ])

  tag_key-tagged :
      (key tag at seconds : ℕ) (tags : List ℕ) (m : sets.Keyspace)
      → Elem tag tags
      → 0 < seconds
      → HoldsKey sets key tag (at + seconds * 1000) (tag_key sets at key seconds tags m)
  unfolding tag_key
  tag_key-tagged key tag at seconds [] m e long = absurd e
  tag_key-tagged key tag at seconds (x ∷ tags) m (inl same) long =
      tag_key-HoldsKey key tag (at + seconds * 1000) at key seconds tags _ (omega (arith, long))
        (omega arith)
        (λ now soon.
          subst
            (λ y.
              Elem key
                (sets.smembers tag now (sets.expire y seconds at (sets.sadd y (key ∷ []) at m))))
            same (set_laws.added tag (key ∷ []) seconds at now m key soon (inl refl)))
  tag_key-tagged key tag at seconds (x ∷ tags) m (inr later) long =
      tag_key-tagged key tag at seconds tags _ later long

module _ (redis : Redis) (laws : IsRedis redis) {V : Type 0} where
  delete_all-none :
      (key now : ℕ) (ks : List ℕ) (m : List (Entry V))
      → redis.get key now m ≡ none
      → redis.get key now (delete_all redis ks m) ≡ none
  unfolding delete_all
  delete_all-none key now [] m h = h
  delete_all-none key now (k ∷ ks) m h =
      delete_all-none key now ks (redis.del k m) (elim (Bool-cases (k == key)) [
        | inl e ↦ let same : k ≡ key = ground (arith, e) in rw same (laws.get-del_self key now m)
        | inr e ↦
            let away : k ≢ key = λ same. ground (arith, same, e) in
            laws.get-del_ne k key now m away ∙ h
      ])

  delete_all-gone :
      (key now : ℕ) (ks : List ℕ) (m : List (Entry V))
      → Elem key ks
      → redis.get key now (delete_all redis ks m) ≡ none
  unfolding delete_all
  delete_all-gone key now [] m e = absurd e
  delete_all-gone key now (k ∷ ks) m (inl same) =
      delete_all-none key now ks (redis.del k m) (rw (← same) (laws.get-del_self key now m))
  delete_all-gone key now (k ∷ ks) m (inr e) = delete_all-gone key now ks (redis.del k m) e

-- The writes that come between: of other keys, with one life, from the first write to the invalidation.
abbrev pub Between : {V : Type 0} → (key from to : ℕ) → List (Write V) → Type 0
Between key from to = All (λ w. (w.key ≢ key) × (from ≤ w.at) × (w.at ≤ to))

module _ (redis : Redis) (laws : IsRedis redis) (sets : RedisSets) (set_laws : IsRedisSets sets)
    {V S : Type 0} (json : V → V) where
  write_all-HoldsKey :
      (key tag ttl from to until : ℕ) (ws : List (Write V)) (s : CacheStore sets V S)
      → Between key from to ws
      → to < until
      → until ≤ from + (ttl + tag_ttl_buffer) * 1000
      → HoldsKey sets key tag until s.tags
      → HoldsKey sets key tag until (write_all redis sets json ttl ws s).tags
  unfolding store
  write_all-HoldsKey key tag ttl from to until [] s between before long h = h
  write_all-HoldsKey key tag ttl from to until (w ∷ ws) s between before long h =
      let (ne, after, sooner) = between.0 in
      write_all-HoldsKey key tag ttl from to until ws _ between.1 before long (
        tag_key-HoldsKey sets set_laws key tag until w.at w.key (ttl + tag_ttl_buffer) w.tags s.tags
          (omega (arith, sooner, before)) (omega (arith, after, long)) h)

  write_all-get :
      (key ttl from to now : ℕ) (ws : List (Write V)) (s : CacheStore sets V S)
      → Between key from to ws
      → redis.get key now (write_all redis sets json ttl ws s).values ≡ redis.get key now s.values
  unfolding store
  write_all-get key ttl from to now [] s between = refl
  write_all-get key ttl from to now (w ∷ ws) s between =
      write_all-get key ttl from to now ws _ between.1
      ∙ laws.get-set_ex_ne w.key key (json w.value) ttl w.at now s.values between.0.0

  cut-none :
      (ttl : ℕ) (ws : List (Write V)) (w : Write V) (tag to now : ℕ) (s : CacheStore sets V S)
      → Elem tag w.tags
      → Between w.key w.at to ws
      → to ≤ now
      → redis.get w.key now (cached_then_cut redis sets json ttl ws w tag to s).values ≡ none
  unfolding invalidate_tag store
  cut-none ttl ws w tag to now s tagged between late =
      let until = w.at + (ttl + tag_ttl_buffer) * 1000 in
      let first = store redis sets (clock json w.at) w.key w.value ttl w.tags s in
      let all = write_all redis sets json ttl ws first in
      elim (Bool-cases (ltb to until)) [
        | inl e ↦
            let soon : to < until = ground (arith, e) in
            let holds =
              write_all-HoldsKey w.key tag ttl w.at to until ws first between soon (omega arith) (
                tag_key-tagged sets set_laws w.key tag w.at (ttl + tag_ttl_buffer) w.tags s.tags
                  tagged (omega arith)) in
            delete_all-gone redis laws w.key now (sets.smembers tag to all.tags) all.values
              (holds to soon)
        | inr e ↦
            let over : ltb now (w.at + ttl * 1000) ≡ false = ground (arith, e, late) in
            let expired : redis.get w.key now first.values ≡ none =
              ground
                (arith, over, laws.get-set_ex_self w.key (json w.value) ttl w.at now s.values) in
            delete_all-none redis laws w.key now (sets.smembers tag to all.tags) all.values
              (write_all-get w.key ttl w.at to now ws first between ∙ expired)
      ]

  -- While Redis answers: after a value was cached under a tag, values of other keys were cached
  -- with the same life, under whatever tags, and the tag was then invalidated, a read of that key
  -- answers what its producer answers then, never the cached value; and this at any time, whether or
  -- not the value or the tag's set had expired before.
  pub get_or_set_fresh :
      (ttl : ℕ) (ws : List (Write V)) (w : Write V) (tag to now : ℕ) (producer : Action S V)
      (s : CacheStore sets V S) (v : V)
      → Elem tag w.tags
      → Between w.key w.at to ws
      → to ≤ now
      → (producer (cached_then_cut redis sets json ttl ws w tag to s).source).0 ≡ ok v
      → (get_or_set redis sets
          (clock json now)
          w.key
          ttl
          producer
          w.tags
          (cached_then_cut redis sets json ttl ws w tag to s)).0
        ≡ ok v
  unfolding get_or_set from_cache produce
  get_or_set_fresh ttl ws w tag to now producer s v tagged between late answer =
      let miss = cut-none ttl ws w tag to now s tagged between late in ground (arith, miss, answer)
