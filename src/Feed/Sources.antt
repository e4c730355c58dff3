-- ===== src/Feed/Sources.antt =====
-- sources/*.ts over prisma-feed.repository.ts
use tpulse_backend.Prelude.{
  ℕ, ◌+◌, ◌*◌, Bool, true, false, ◌&&◌, ◌||◌, not, Option, none, some, List, [], map, if◌then◌else◌,
  ltb, leb, take,
}
use tpulse_backend.Prelude.Sorting.{sort_by}
use tpulse_backend.Redis.Sets.{RedisSets}
use tpulse_backend.Db.{Prisma}
use tpulse_backend.Effects.{Action, ok}
use tpulse_backend.Board.{Post}
use tpulse_backend.Feed.Types.{
  favourite, follow, discovery, Candidate, PostFavouriteTargets, FeedQuery, FeedEnv, DiscoveryCache,
  FeedStore, to_candidate,
}
use tpulse_backend.Feed.Filters.{has_id, is_empty}

abbrev pub opt_in : Option ℕ → List ℕ → Bool
opt_in none ids = false
opt_in (some id) ids = has_id id ids

module _ (sets : RedisSets) (db : Prisma) (env : FeedEnv) where
  open env use {doubles, config}

  -- `orderBy: [{ hotScore: 'desc' }, { createdAtUtc: 'desc' }]`
  abbrev pub ranks_before : Post → Post → Bool
  ranks_before p q =
      if doubles.eq p.hot_score q.hot_score
      then leb q.created_at_utc p.created_at_utc
      else not (doubles.lt p.hot_score q.hot_score)

  unfoldable pub best : (Post → Bool) → ℕ → FeedStore sets → List Post
  best where_ limit s = take limit (sort_by ranks_before (db.find_many where_ s.posts))

  -- The `OR` has only the lists that are not empty; an empty one matches no post anyway.
  abbrev pub matches : PostFavouriteTargets → Post → Bool
  matches targets p =
      opt_in p.player_id targets.player_ids
      || opt_in p.team_id targets.team_ids
      || has_id p.owner_id targets.reporter_user_ids

  abbrev no_targets : PostFavouriteTargets → Bool
  no_targets targets =
      is_empty targets.player_ids && is_empty targets.team_ids && is_empty targets.reporter_user_ids

  unfoldable pub by_favourite : PostFavouriteTargets → ℕ → FeedStore sets → List Post
  unfolding best
  by_favourite targets limit s = if no_targets targets then [] else best (matches targets) limit s

  unfoldable pub by_authors : List ℕ → ℕ → FeedStore sets → List Post
  unfolding best
  by_authors author_ids limit s =
      if is_empty author_ids then [] else best (λ p. has_id p.owner_id author_ids) limit s

  unfoldable pub favourite_source : FeedQuery → Action (FeedStore sets) (List Candidate)
  unfolding by_favourite
  favourite_source query s = (
    ok (
        if no_targets query.favourite
        then []
        else map (λ p. to_candidate doubles p favourite)
            (by_favourite query.favourite config.source_limit s)),
    s,
  )

  unfoldable pub follow_source : FeedQuery → Action (FeedStore sets) (List Candidate)
  unfolding by_authors
  follow_source query s = (
    ok (
        if is_empty query.following_ids
        then []
        else map (λ p. to_candidate doubles p follow)
            (by_authors query.following_ids config.source_limit s)),
    s,
  )

  abbrev pub live_cache : Option DiscoveryCache → Option (List Post)
  live_cache none = none
  live_cache (some c) = if ltb env.now c.expires_at then some c.posts else none

  abbrev new_cache : List Post → DiscoveryCache
  new_cache posts = record {
    posts = posts;
    expires_at = env.now + config.discovery_cache_seconds * 1000;
  }

  unfoldable pub discovery_query : FeedStore sets → List Post × FeedStore sets
  unfolding best
  discovery_query s =
      let posts = best (λ p. true) config.source_limit s in
      (
        posts,
        record s {
          cache = if ltb 0 config.discovery_cache_seconds then some (new_cache posts) else s.cache;
        },
      )

  unfoldable pub get_discovery_posts : FeedStore sets → List Post × FeedStore sets
  unfolding discovery_query
  get_discovery_posts s =
      if ltb 0 config.discovery_cache_seconds
      then elim (live_cache s.cache) [ none ↦ discovery_query s | some posts ↦ (posts, s) ]
      else discovery_query s

  unfoldable pub discovery_source : FeedQuery → Action (FeedStore sets) (List Candidate)
  unfolding get_discovery_posts
  discovery_source query s =
      let (posts, s') = get_discovery_posts s in
      (ok (map (λ p. to_candidate doubles p discovery) posts), s')
