-- ===== src/Feed/Types.antt =====
-- pipeline/types.ts and feed.config.ts.
use tpulse_backend.Prelude.{ℕ, String, Bool, true, false, ◌||◌, Option, List}
use tpulse_backend.Prelude.Int.{pos}
use tpulse_backend.Redis.Sets.{RedisSets}
use tpulse_backend.Doubles.{Double, Doubles}
use tpulse_backend.Effects.{Action}
use tpulse_backend.Board.{Post}

pub data CandidateOrigin : Type 0 where
  favourite follow discovery : CandidateOrigin

-- `Set<CandidateOrigin>`, by what it has.
pub record Origins : Type 0 where
  pub has_favourite : Bool
  pub has_follow : Bool
  pub has_discovery : Bool

abbrev pub only : CandidateOrigin → Origins
only favourite = record { has_favourite = true; has_follow = false; has_discovery = false }
only follow = record { has_favourite = false; has_follow = true; has_discovery = false }
only discovery = record { has_favourite = false; has_follow = false; has_discovery = true }

abbrev pub both : Origins → Origins → Origins
both a b = record {
  has_favourite = a.has_favourite || b.has_favourite;
  has_follow = a.has_follow || b.has_follow;
  has_discovery = a.has_discovery || b.has_discovery;
}

pub record Candidate : Type 0 where
  pub post : Post
  pub score : Double
  pub origins : Origins

pub record PostFavouriteTargets : Type 0 where
  pub player_ids : List ℕ
  pub team_ids : List ℕ
  pub reporter_user_ids : List ℕ

pub record FeedQuery : Type 0 where
  pub user_id : ℕ
  pub page : ℕ
  pub page_size : ℕ
  pub favourite : PostFavouriteTargets
  pub following_ids : List ℕ
  pub seen_ids : List ℕ
  pub suppressed_author_ids : List ℕ
  pub muted_keywords : List String

pub record FeedConfig : Type 0 where
  pub affinity_favourite : Double
  pub affinity_follow : Double
  pub source_limit : ℕ
  pub max_results : ℕ
  pub oon_attenuation : Double
  pub diversity_decay : Double
  pub diversity_floor : Double
  pub served_ttl_seconds : ℕ
  pub discovery_cache_seconds : ℕ

-- The clock, the numbers and the Unicode case mapping of the runtime, and the configuration.
pub record FeedEnv : Type 0 where
  pub now : ℕ
  pub doubles : Doubles
  pub to_lower_case : String → String
  pub config : FeedConfig
  pub redis_up : Bool

pub record DiscoveryCache : Type 0 where
  pub posts : List Post
  pub expires_at : ℕ

-- The table of posts, the cache of the discovery source, and the sets of served posts.
pub record FeedStore (sets : RedisSets) : Type 0 where
  pub posts : List Post
  pub cache : Option DiscoveryCache
  pub served : sets.Keyspace

abbrev pub to_candidate : Doubles → Post → CandidateOrigin → Candidate
to_candidate doubles post origin = record {
  post = post;
  score = doubles.of_int (pos 0);
  origins = only origin;
}

-- What a filter answers.
pub record Split : Type 0 where
  pub kept : List Candidate
  pub removed : List Candidate

pub record PipelineStages (S : Type 0) : Type 0 where
  pub sources : List (FeedQuery → Action S (List Candidate))
  pub filters : List (List Candidate → FeedQuery → Split)
  pub scorers : List (List Candidate → List Candidate)
  pub selector : List Candidate → List Candidate
