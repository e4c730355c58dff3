-- ===== src/Relations/Tests.antt =====
-- Runs of blocks and favourites at concrete inputs.
use tpulse_backend.Prelude.{inr, ◌≡◌, refl, ◌+◌, true, none, [], ◌∷◌}
use tpulse_backend.Db.Reference.{list_db, list_db-IsPrisma}
use tpulse_backend.Redis.Reference.{list_sets}
use tpulse_backend.Samples.{accounts, a_post, doubles, doubles-IsDoubles}
use tpulse_backend.Feed.{FeedEnv, FeedConfig, FeedStore, FeedQueryDto, query_of, feed_stages, run}
use tpulse_backend.Relations.Types.{Ties, TieEnv}
use tpulse_backend.Relations.Blocks.{mute, muted}
use tpulse_backend.Relations.Signals.{signals_of}
use tpulse_backend.Relations.Favourites.{get_targets, set_all}
use tpulse_backend.Relations.Hidden.{HidesAuthor, suppress-HidesAuthor}

abbrev env : TieEnv
env = record { uuid = λ n. n + 500; trim = λ s. s; to_lower_case = λ s. s }

abbrev config : FeedConfig
config = record {
  affinity_favourite = 2;
  affinity_follow = 3;
  source_limit = 200;
  max_results = 200;
  oon_attenuation = 1;
  diversity_decay = 1;
  diversity_floor = 0;
  served_ttl_seconds = 86400;
  discovery_cache_seconds = 60;
}

abbrev feed_env : FeedEnv
feed_env = record {
  now = 9;
  doubles = doubles;
  to_lower_case = λ s. s;
  config = config;
  redis_up = true;
}

-- User 1 favours league 7, which has team 70.
abbrev ties : Ties
ties = record {
  users = accounts.users;
  blocks = [];
  mutes = [];
  follows = [];
  keywords = [];
  favourites = [];
  leagues = 7 ∷ [];
  teams = record { id = 70; league_id = 7 } ∷ [];
  players = [];
  draws = 0;
}

abbrev feed : FeedStore list_sets
feed = record { posts = a_post 1 2 "mine" ∷ a_post 2 8 "goal" ∷ []; cache = none; served = [] }

abbrev page : FeedQueryDto
page = record { page = 1; page_size = 20; seen_ids = [] }

-- User 1 mutes user 2.
suppress-HidesAuthor_example :
    HidesAuthor 2
      (run
        (query_of 1 page (signals_of list_db env 1 (mute list_db env 1 2 ties).1) [])
        (feed_stages list_sets list_db feed_env)
        feed).0
unfolding mute
suppress-HidesAuthor_example =
    suppress-HidesAuthor list_sets list_db list_db-IsPrisma env feed_env doubles-IsDoubles 1 2 ties
      (mute list_db env 1 2 ties).1 muted page [] feed (inr refl)

-- The favourites set twice over hold each target once, and the league's team with them.
favoured_teams :
    (get_targets list_db env 1
      (set_all list_db env 1
        (record { kind = 1; target_id = 7 }
          ∷ record { kind = 1; target_id = 7 }
          ∷ record { kind = 2; target_id = 70 }
          ∷ [])
        ties).1).team_ids
    ≡ 70 ∷ []
unfolding get_targets set_all tpulse_backend.Relations.Favourites.create_each
favoured_teams = refl
