-- ===== src/Relations/Signals.antt =====
-- What the feed asks of blocks, follows and favourites (the hydration of the query in
-- feed.service.ts).
use tpulse_backend.Prelude.{ℕ, String, List, [], ◌++◌, ◌==◌, map}
use tpulse_backend.Db.{Prisma}
use tpulse_backend.Feed.{Signals}
use tpulse_backend.Notifications.{distinct_from}
use tpulse_backend.Relations.Types.{Tie, MutedKeyword, Ties, TieEnv}
use tpulse_backend.Relations.Follows.{following_ids}
use tpulse_backend.Relations.Favourites.{get_targets}

module _ (db : Prisma) (env : TieEnv) where
  -- `getSuppressedAuthorIds`
  abbrev pub suppressed_author_ids : ℕ → Ties → List ℕ
  suppressed_author_ids user_id s = distinct_from [] (
      map (λ (t : Tie). t.to_id) (db.find_many (λ t. t.from_id == user_id) s.blocks)
      ++ map (λ (t : Tie). t.to_id) (db.find_many (λ t. t.from_id == user_id) s.mutes))

  -- `getMutedKeywordStrings`
  abbrev pub muted_keyword_strings : ℕ → Ties → List String
  muted_keyword_strings user_id s =
      map (λ (k : MutedKeyword). k.keyword) (db.find_many (λ k. k.user_id == user_id) s.keywords)

  unfoldable pub signals_of : ℕ → Ties → Signals
  signals_of user_id s = record {
    favourite = get_targets db env user_id s;
    following_ids = following_ids db env user_id s;
    suppressed_author_ids = suppressed_author_ids user_id s;
    muted_keywords = muted_keyword_strings user_id s;
  }
