-- ===== src/Feed/Lasting.antt =====
-- How long a served post stays in the set of a viewer.
use tpulse_backend.Prelude.{
  ℕ, ◌+◌, ◌*◌, ◌<◌, ◌≤◌, ◌≢◌, ◌≡◌, sym, true, List, [], ◌∷◌, ◌==◌, arith, Elem, Bool-cases, inl,
  inr,
}
use mathlib.Core.Path.{subst}
use tpulse_backend.Redis.Sets.{RedisSets, IsRedisSets}
use tpulse_backend.Db.{Prisma}
use tpulse_backend.Feed.Types.{FeedEnv, FeedQuery, FeedStore}
use tpulse_backend.Feed.Runner.{run, fetch_all}
use tpulse_backend.Feed.Sources.{
  favourite_source, follow_source, discovery_source, get_discovery_posts, discovery_query,
}
use tpulse_backend.Feed.Service.{
  Signals, FeedQueryDto, query_of, get_served, mark_served, feed_stages, for_you,
}

-- What may come between two answers: answers to any viewers, with Redis or without it, at times from
-- the first one to the second and with one life of the served posts, and any change of the posts and
-- of the cache.
pub data Between (sets : RedisSets) (db : Prisma) (first last : FeedEnv) (s : FeedStore sets)
    : FeedStore sets → Type 0 where
  nothing : Between sets db first last s s
  answer :
      {t : FeedStore sets}
      → Between sets db first last s t
      → (env : FeedEnv) (user : ℕ) (dto : FeedQueryDto) (signals : Signals) → first.now ≤ env.now
      → env.now ≤ last.now
      → env.config.served_ttl_seconds ≡ first.config.served_ttl_seconds
      → Between sets db first last s (for_you sets db env user dto signals t).1
  change :
      {t : FeedStore sets}
      → Between sets db first last s t
      → (u : FeedStore sets) → u.served ≡ t.served
      → Between sets db first last s u

-- The post stands in the viewer's set until a time.
abbrev pub HoldsServed : (sets : RedisSets) → ℕ → ℕ → ℕ → sets.Keyspace → Type 0
HoldsServed sets id user until m = (now : ℕ) → now < until → Elem id (sets.smembers user now m)

module _ (sets : RedisSets) (redis_laws : IsRedisSets sets) (db : Prisma) where
  pub mark_served-marked :
      (env : FeedEnv) (user id : ℕ) (ids : List ℕ) (s : FeedStore sets)
      → env.redis_up ≡ true
      → Elem id ids
      → HoldsServed sets id user
          (env.now + env.config.served_ttl_seconds * 1000)
          (mark_served sets db env user ids s).served
  unfolding mark_served
  mark_served-marked env user id [] s up e now soon = absurd e
  mark_served-marked env user id (i ∷ ids) s up e now soon =
      rw up (
        redis_laws.added user (i ∷ ids) env.config.served_ttl_seconds env.now now s.served id soon
          e)

  mark_served-HoldsServed :
      (env : FeedEnv) (id user user' until : ℕ) (ids : List ℕ) (s : FeedStore sets)
      → env.now < until
      → until ≤ env.now + env.config.served_ttl_seconds * 1000
      → HoldsServed sets id user until s.served
      → HoldsServed sets id user until (mark_served sets db env user' ids s).served
  unfolding mark_served
  mark_served-HoldsServed env id user user' until [] s before long h now soon = h now soon
  mark_served-HoldsServed env id user user' until (i ∷ ids) s before long h now soon =
      let seconds = env.config.served_ttl_seconds in
      elim (Bool-cases env.redis_up) [
        | inr down ↦ rw down (h now soon)
        | inl up ↦ rw up (elim (Bool-cases (user' == user)) [
          | inl e ↦
              let same : user' ≡ user = ground (arith, e) in
              subst
                (λ k. Elem id (
                  sets.smembers user now
                    (sets.expire k seconds env.now (sets.sadd k (i ∷ ids) env.now s.served))))
                (sym same)
                (redis_laws.kept user (i ∷ ids) seconds env.now now s.served id
                  (omega (arith, soon, long)) (h env.now before))
          | inr e ↦
              let away : user' ≢ user = λ same. ground (arith, same, e) in
              subst (Elem id)
                (sym (redis_laws.other user' user (i ∷ ids) seconds env.now now s.served away))
                (h now soon)
        ])
      ]

  run-served :
      (env : FeedEnv) (query : FeedQuery) (s : FeedStore sets)
      → (run query (feed_stages sets db env) s).1.served ≡ s.served
  unfolding run fetch_all favourite_source follow_source discovery_source get_discovery_posts
      discovery_query
  run-served env query s = ground arith

  for_you-HoldsServed :
      (env : FeedEnv) (id user user' until : ℕ) (dto : FeedQueryDto) (signals : Signals)
      (s : FeedStore sets)
      → env.now < until
      → until ≤ env.now + env.config.served_ttl_seconds * 1000
      → HoldsServed sets id user until s.served
      → HoldsServed sets id user until (for_you sets db env user' dto signals s).1.served
  unfolding for_you run
  for_you-HoldsServed env id user user' until dto signals s before long h =
      let query = query_of user' dto signals (get_served sets db env user' s) in
      mark_served-HoldsServed env id user user' until _ (run query (feed_stages sets db env) s).1
        before long (subst (HoldsServed sets id user until) (sym (run-served env query s)) h)

  pub Between-HoldsServed :
      (first last : FeedEnv) (id user : ℕ) (s t : FeedStore sets)
      → last.now < first.now + first.config.served_ttl_seconds * 1000
      → HoldsServed sets id user (first.now + first.config.served_ttl_seconds * 1000) s.served
      → Between sets db first last s t
      → HoldsServed sets id user (first.now + first.config.served_ttl_seconds * 1000) t.served
  Between-HoldsServed first last id user s _ soon h nothing = h
  Between-HoldsServed first last id user s _ soon h
        (answer {t} run env user' dto signals after before life) =
      for_you-HoldsServed env id user user' _ dto signals t (omega (arith, soon, before))
        (omega (arith, after, life)) (Between-HoldsServed first last id user s t soon h run)
  Between-HoldsServed first last id user s _ soon h (change {t} run u same) =
      subst (HoldsServed sets id user _) (sym same)
        (Between-HoldsServed first last id user s t soon h run)
