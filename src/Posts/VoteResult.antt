-- ===== src/Posts/VoteResult.antt =====
-- `PostsService.vote`: what a vote answers.
use tpulse_backend.Prelude.{ℕ, Bool, true, false, Option}
use tpulse_backend.Prelude.Int.{ℤ}
use tpulse_backend.Db.{Prisma}
use tpulse_backend.Effects.{Action, pure, throw, ◌>>=◌, ◌>>◌, bad_request, not_found}
use tpulse_backend.Board.{Board, Env}
use tpulse_backend.Scoring.{recompute}
use tpulse_backend.Votes.{vote, VoteOutcome, VoteStatus, applied, unchanged, missing, disabled}
use tpulse_backend.Posts.Percent.{total_votes, agree_percentage, disagree_percentage}

-- `is_applied` is true for 'Applied', false for 'Unchanged'.
pub record PostVoteResult : Type 0 where
  pub is_applied : Bool
  pub agree_count : ℤ
  pub disagree_count : ℤ
  pub total_votes : ℤ
  pub agree_percentage : ℤ
  pub disagree_percentage : ℤ
  pub user_vote : Option ℕ

abbrev pub vote_result : Bool → VoteOutcome → PostVoteResult
vote_result b o = record {
  is_applied = b;
  agree_count = o.agree_count;
  disagree_count = o.disagree_count;
  total_votes = total_votes o.agree_count o.disagree_count;
  agree_percentage = agree_percentage o.agree_count o.disagree_count;
  disagree_percentage = disagree_percentage o.agree_count o.disagree_count;
  user_vote = o.user_vote;
}

module _ (db : Prisma) (env : Env) where
  unfoldable pub answer_vote : ℕ → VoteOutcome → VoteStatus → Action Board PostVoteResult
  answer_vote post_id o missing = throw not_found
  answer_vote post_id o disabled = throw bad_request
  answer_vote post_id o applied = do recompute db env post_id; pure (vote_result true o)
  answer_vote post_id o unchanged = pure (vote_result false o)

  unfoldable pub vote_post : ℕ → ℕ → ℕ → Action Board PostVoteResult
  unfolding answer_vote
  vote_post post_id user_id choice = do
    o ← vote db env post_id user_id choice
    answer_vote post_id o o.status
