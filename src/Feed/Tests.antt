-- ===== src/Feed/Tests.antt =====
-- Runs of the feed at concrete inputs.
use tpulse_backend.Prelude.{ℕ, ◌≡◌, refl, true, false, none, List, [], ◌∷◌, All, ◌==◌, arith}
use tpulse_backend.Db.Reference.{list_db}
use tpulse_backend.Redis.Reference.{list_sets, list_sets-IsRedisSets}
use tpulse_backend.Effects.{ok}
use tpulse_backend.Board.{Post}
use tpulse_backend.Samples.{doubles, doubles-IsDoubles, a_post}
use tpulse_backend.Feed.Types.{Candidate, FeedEnv, FeedConfig, FeedStore}
use tpulse_backend.Feed.Runner.{run, has_post, dedup, fetch_all}
use tpulse_backend.Feed.Service.{Signals, FeedQueryDto, query_of, feed_stages, for_you}
use tpulse_backend.Feed.Scorers.{
  top_k_selector, author_diversity_scorer, oon_scorer, affinity_scorer, weighted_scorer,
}
use tpulse_backend.Feed.Filters.{
  seen_served_filter, muted_keyword_filter, blocked_author_filter, self_post_filter,
}
use tpulse_backend.Feed.Sources.{favourite_source, follow_source, discovery_source}
use tpulse_backend.Prelude.Sorting.{sort_by}
use tpulse_backend.Feed.Completeness.{run-has_post}
use tpulse_backend.Feed.Pool.{IsPool, run-IsPool}
use tpulse_backend.Feed.Served.{shown, for_you_fresh}
use tpulse_backend.Feed.Lasting.{nothing, answer, change}

abbrev config : FeedConfig
config = record {
  affinity_favourite = 2;
  affinity_follow = 3;
  source_limit = 200;
  max_results = 200;
  oon_attenuation = 1;
  diversity_decay = 1;
  diversity_floor = 0;
  served_ttl_seconds = 86400;
  discovery_cache_seconds = 60;
}

abbrev feed_env : ℕ → FeedEnv
feed_env now = record {
  now = now;
  doubles = doubles;
  to_lower_case = λ s. s;
  config = config;
  redis_up = true;
}

-- Viewer 9 follows user 7 and has muted a word.
abbrev signals : Signals
signals = record {
  favourite = record { player_ids = []; team_ids = []; reporter_user_ids = [] };
  following_ids = 7 ∷ [];
  suppressed_author_ids = 6 ∷ [];
  muted_keywords = "off" ∷ [];
}

abbrev store : FeedStore list_sets
store = record {
  posts =
      a_post 1 7 "goal"
      ∷ a_post 2 8 "offside"
      ∷ a_post 3 9 "mine"
      ∷ a_post 4 6 "x"
      ∷ a_post 5 8 "y"
      ∷ a_post 6 8 "z"
      ∷ [];
  cache = none;
  served = [];
}

abbrev page : ℕ → FeedQueryDto
page n = record { page = n; page_size = 2; seen_ids = [] }

run-IsPool_example :
    (ranked : List Candidate) × (s' : FeedStore list_sets) × (run
        (query_of 9 (page 1) signals [])
        (feed_stages list_sets list_db (feed_env 10))
        store
      ≡ (ok ranked, s'))
    × IsPool (feed_env 10) (query_of 9 (page 1) signals []) ranked
run-IsPool_example =
    run-IsPool (feed_env 10) list_sets list_db doubles-IsDoubles (query_of 9 (page 1) signals [])
      store

run-has_post_example :
    (ranked : List Candidate) × (s' : FeedStore list_sets) × (run
        (query_of 9 (page 1) signals [])
        (feed_stages list_sets list_db (feed_env 10))
        store
      ≡ (ok ranked, s'))
    × (has_post 6 ranked ≡ true)
unfolding dedup fetch_all favourite_source follow_source discovery_source sort_by
run-has_post_example =
    run-has_post (feed_env 10) list_sets list_db (query_of 9 (page 1) signals []) store 6
      (omega arith) refl
      (λ e. cc, (λ e. refl, (λ e. cc, (λ e. cc, (λ e. cc, (λ e. cc, (λ e. cc, tt)))))))

abbrev after_page : FeedStore list_sets
after_page = (for_you list_sets list_db (feed_env 10) 9 (page 1) signals store).1

-- A second page in between, and a new post.
abbrev after_second : FeedStore list_sets
after_second = (for_you list_sets list_db (feed_env 15) 9 (page 1) signals after_page).1

abbrev with_post : FeedStore list_sets
with_post = record after_second { posts = a_post 7 8 "new" ∷ after_second.posts }

for_you_fresh_example :
    All
      (λ p.
        All
          (λ q. (p.id == q.id) ≡ false)
          (shown (for_you list_sets list_db (feed_env 20) 9 (page 1) signals with_post)))
      (shown (for_you list_sets list_db (feed_env 10) 9 (page 1) signals store))
for_you_fresh_example =
    for_you_fresh list_sets list_sets-IsRedisSets list_db (feed_env 10) (feed_env 20)
      doubles-IsDoubles doubles-IsDoubles 9 (page 1) (page 1) signals signals store with_post refl
      refl (omega arith)
      (change (answer nothing (feed_env 15) 9 (page 1) signals (omega arith) (omega arith) refl)
        with_post refl)

-- Three posts are left for the viewer; the first page of two marks them as served, and the second
-- page is cut from the one that is left, past its end: that post is not shown.
ids_of : List Post → List ℕ
ids_of [] = []
ids_of (p ∷ ps) = p.id ∷ ids_of ps

second_page :
    ids_of (shown (for_you list_sets list_db (feed_env 20) 9 (page 2) signals after_page)) ≡ []
unfolding for_you run ids_of sort_by top_k_selector author_diversity_scorer oon_scorer
    affinity_scorer weighted_scorer seen_served_filter muted_keyword_filter blocked_author_filter
    self_post_filter favourite_source follow_source discovery_source
second_page = refl
