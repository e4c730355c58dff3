-- ===== src/Votes/Tests.antt =====
-- Runs of the votes at concrete inputs.
use tpulse_backend.Prelude.{◌≡◌, true, refl, [], ◌∷◌}
use tpulse_backend.Db.Reference.{list_db, list_db-IsPrisma}
use tpulse_backend.Board.{Board, Post}
use tpulse_backend.Prelude.Int.{pos}
use tpulse_backend.Samples.{board_env, empty_board, a_post}
use tpulse_backend.Votes.Service.{new_vote, vote}
use tpulse_backend.Votes.Tally.{IsFair, vote-IsFair}

abbrev poll : Post
poll = record (a_post 1 7 "goal") { is_voting_enabled = true; disagree_count = pos 1 }

-- User 9 has voted against and now votes for.
abbrev polled : Board
polled = record empty_board { posts = poll ∷ []; post_votes = new_vote 50 1 9 1 ∷ [] }

vote-IsFair_example : IsFair (vote list_db (board_env 10) 1 9 2 polled).1
vote-IsFair_example =
    vote-IsFair list_db list_db-IsPrisma (board_env 10) 1 9 2 polled
      (record { tallied = ((refl, refl), tt); unique = (refl, tt) })

-- The vote moves to the other side.
moved :
    (vote list_db (board_env 10) 1 9 2 polled).1.posts
    ≡ record poll { agree_count = pos 1; disagree_count = pos 0 } ∷ []
unfolding vote tpulse_backend.Prelude.Int.◌+ℤ◌
moved = refl
