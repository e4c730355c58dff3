-- ===== src/Posts/Tests.antt =====
-- Runs of the posts at concrete inputs.
use tpulse_backend.Prelude.{◌==◌, ℕ, ◌≡◌, refl, true, none, some, [], ◌∷◌, inl, inr, arith}
use tpulse_backend.Db.Reference.{list_db, list_db-IsPrisma}
use tpulse_backend.Redis.Reference.{list_redis}
use tpulse_backend.Board.{Board, Post}
use tpulse_backend.Samples.{board_env, empty_board, a_post}
use tpulse_backend.Messaging.{process, new_post}
use tpulse_backend.Posts.Service.{CreatePostDto, create_async}
use tpulse_backend.Prelude.Int.{pos}
use tpulse_backend.Posts.VoteResult.{PostVoteResult, vote_post}
use tpulse_backend.Posts.Shapes.{Fits, post_shape}
use tpulse_backend.Posts.Bounds.{IsAnswer, vote_post-IsAnswer}
use tpulse_backend.Posts.Runs.{Reach-Fits, next, here, create, ingest, job}

abbrev open_post : Post
open_post = record (a_post 1 7 "goal") { is_voting_enabled = true }

abbrev board : Board
board = record empty_board { posts = open_post ∷ [] }

abbrev first_vote : PostVoteResult
first_vote = record {
  is_applied = true;
  agree_count = pos 1;
  disagree_count = pos 0;
  total_votes = pos 1;
  agree_percentage = pos 100;
  disagree_percentage = pos 0;
  user_vote = some 2;
}

vote_post-IsAnswer_example :
    IsAnswer 1 first_vote (vote_post list_db (board_env 9) 1 7 2 board).1.post_votes
unfolding vote_post tpulse_backend.Votes.vote tpulse_backend.Scoring.recompute
    tpulse_backend.Prelude.Int.◌+ℤ◌ tpulse_backend.Posts.Percent.total_votes
    tpulse_backend.Posts.Percent.agree_percentage tpulse_backend.Posts.Percent.disagree_percentage
vote_post-IsAnswer_example =
    vote_post-IsAnswer list_db list_db-IsPrisma (board_env 9) 1 7 2 board first_vote
      (record { tallied = ((refl, refl), tt); unique = tt }) refl

abbrev on_team : CreatePostDto
on_team = record {
  content = "win";
  post_type = 2;
  player_id = none;
  team_id = some 4;
  from_team_id = none;
  to_team_id = none;
  is_voting_enabled = true;
}

abbrev bare : Board
bare = record empty_board { posts = [] }

-- Post 50 comes from the ingestion and has no references.
abbrev ingested : Board
ingested = record bare { posts = a_post 50 7 "bot" ∷ [] }

abbrev queued : Board
queued = (create_async list_db (board_env 3) on_team 7 ingested).1

abbrev made : Board
made = (process list_redis list_db (board_env 4) 1000 queued).1

abbrev team_post : Post
team_post = new_post 1001 (board_env 4) 7 "win" 2 true none (some 4) none none 3

Reach-Fits_example : Fits (post_shape team_post)
unfolding process create_async tpulse_backend.Messaging.enqueue tpulse_backend.Messaging.handle
    tpulse_backend.Messaging.handle_post_create
Reach-Fits_example =
    Reach-Fits list_redis list_db list_db-IsPrisma (λ i. i == 50) team_post
      (next
        (next (next here (ingest (a_post 50 7 "bot") bare refl refl))
          (create (board_env 3) on_team 7 ingested))
        (job (board_env 4) 1000 queued))
      (record { posts = tt; unique = tt; queued = tt }) (inl refl) refl
