-- ===== src/Feed/Service.antt =====
-- feed.service.ts and feed-served.store.ts
use tpulse_backend.Prelude.{ℕ, String, List, [], ◌∷◌, ◌++◌, map, if◌then◌else◌, take, drop, length}
use tpulse_backend.Pagination.{PagedResult, build_paged, skip_of}
use tpulse_backend.Redis.Sets.{RedisSets}
use tpulse_backend.Db.{Prisma}
use tpulse_backend.Effects.{Action, pure, ◌>>=◌, ◌>>◌, gets, modify}
use tpulse_backend.Board.{Post}
use tpulse_backend.Feed.Types.{
  Candidate, PostFavouriteTargets, FeedQuery, FeedEnv, FeedStore, PipelineStages,
}
use tpulse_backend.Feed.Filters.{
  self_post_filter, blocked_author_filter, muted_keyword_filter, seen_served_filter,
}
use tpulse_backend.Feed.Scorers.{
  weighted_scorer, affinity_scorer, oon_scorer, author_diversity_scorer, top_k_selector,
}
use tpulse_backend.Feed.Runner.{run}
use tpulse_backend.Feed.Sources.{favourite_source, follow_source, discovery_source}

-- What the services of favourites, follows and blocks answer for the viewer.
pub record Signals : Type 0 where
  pub favourite : PostFavouriteTargets
  pub following_ids : List ℕ
  pub suppressed_author_ids : List ℕ
  pub muted_keywords : List String

pub record FeedQueryDto : Type 0 where
  pub page : ℕ
  pub page_size : ℕ
  pub seen_ids : List ℕ

abbrev pub query_of : ℕ → FeedQueryDto → Signals → List ℕ → FeedQuery
query_of user_id dto signals served = record {
  user_id = user_id;
  page = dto.page;
  page_size = dto.page_size;
  favourite = signals.favourite;
  following_ids = signals.following_ids;
  seen_ids = served ++ dto.seen_ids;
  suppressed_author_ids = signals.suppressed_author_ids;
  muted_keywords = signals.muted_keywords;
}

module _ (sets : RedisSets) (db : Prisma) (env : FeedEnv) where
  -- A Redis error reads as the empty set.
  unfoldable pub get_served : ℕ → FeedStore sets → List ℕ
  get_served user_id s = if env.redis_up then sets.smembers user_id env.now s.served else []

  unfoldable pub mark_served : ℕ → List ℕ → FeedStore sets → FeedStore sets
  mark_served user_id [] s = s
  mark_served user_id (id ∷ ids) s =
      if env.redis_up
      then record s {
        served =
            sets.expire user_id env.config.served_ttl_seconds env.now
              (sets.sadd user_id (id ∷ ids) env.now s.served);
      }
      else s

  abbrev pub feed_stages : PipelineStages (FeedStore sets)
  feed_stages = record {
    sources =
        favourite_source sets db env
        ∷ follow_source sets db env
        ∷ discovery_source sets db env
        ∷ [];
    filters =
        self_post_filter
        ∷ blocked_author_filter
        ∷ muted_keyword_filter env
        ∷ seen_served_filter
        ∷ [];
    scorers =
        weighted_scorer env
        ∷ affinity_scorer env
        ∷ oon_scorer env
        ∷ author_diversity_scorer env
        ∷ [];
    selector = top_k_selector env;
  }

  abbrev pub post_of : Candidate → Post
  post_of c = c.post

  abbrev pub page_of : FeedQueryDto → List Candidate → List Post
  page_of dto ranked =
      map post_of (take dto.page_size (drop (skip_of dto.page dto.page_size) ranked))

  -- The page of posts, before each is dressed with the viewer's own likes and votes.
  unfoldable pub for_you : ℕ → FeedQueryDto → Signals → Action (FeedStore sets) (PagedResult Post)
  unfolding get_served mark_served
  for_you user_id dto signals = do
    served ← gets (get_served user_id)
    ranked ← run (query_of user_id dto signals served) feed_stages
    let page_posts = page_of dto ranked
    modify (mark_served user_id (map (λ (p : Post). p.id) page_posts))
    pure (build_paged page_posts (length ranked) dto.page dto.page_size)
