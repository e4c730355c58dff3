-- ===== src/Votes/Service.antt =====
-- `vote` of prisma-post.repository.ts.
use tpulse_backend.Prelude.{ℕ, Bool, ◌&&◌, not, Option, none, some, List, if◌then◌else◌, ◌==◌}
use tpulse_backend.Prelude.Int.{ℤ, pos, negsuc, ◌+ℤ◌}
use tpulse_backend.Db.{Prisma}
use tpulse_backend.Effects.{Action, pure, gets, write, transaction, ◌>>=◌, ◌>>◌, conflict, internal}
use tpulse_backend.Board.{Board, Env, Post, PostVote, fresh, set_posts}

pub data VoteStatus : Type 0 where
  applied unchanged missing disabled : VoteStatus

pub record VoteOutcome : Type 0 where
  pub status : VoteStatus
  pub agree_count : ℤ
  pub disagree_count : ℤ
  pub user_vote : Option ℕ

-- `PostVoteChoice.Agree`
abbrev pub agrees : ℕ → Bool
agrees choice = choice == 2

abbrev pub is_vote : ℕ → ℕ → PostVote → Bool
is_vote post_id user_id v = v.post_id == post_id && v.user_id == user_id

abbrev pub new_vote : ℕ → ℕ → ℕ → ℕ → PostVote
new_vote id post_id user_id choice = record {
  id = id;
  post_id = post_id;
  user_id = user_id;
  choice = choice;
}

abbrev pub choose : ℕ → PostVote → PostVote
choose c v = record v { choice = c }

-- The two counters: less the vote that was, if any, and with the new one.
abbrev pub down : Bool → ℤ
down b = if b then negsuc 0 else pos 0

abbrev pub up : Bool → ℤ
up b = if b then pos 1 else pos 0

abbrev pub agree_delta : Option PostVote → ℕ → ℤ
agree_delta none choice = up (agrees choice)
agree_delta (some v) choice = down (agrees v.choice) +ℤ up (agrees choice)

abbrev pub disagree_delta : Option PostVote → ℕ → ℤ
disagree_delta none choice = up (not (agrees choice))
disagree_delta (some v) choice = down (not (agrees v.choice)) +ℤ up (not (agrees choice))

abbrev pub add_votes : ℤ → ℤ → Post → Post
add_votes a d p = record p {
  agree_count = p.agree_count +ℤ a;
  disagree_count = p.disagree_count +ℤ d;
}

abbrev pub set_votes : Board → Option (List PostVote) → Option Board
set_votes s none = none
set_votes s (some t) = some (record s { post_votes = t })

abbrev pub outcome : VoteStatus → Post → Option ℕ → VoteOutcome
outcome status p user_vote = record {
  status = status;
  agree_count = p.agree_count;
  disagree_count = p.disagree_count;
  user_vote = user_vote;
}

module _ (db : Prisma) (env : Env) where
  -- `upsert`, of the row that was found.
  unfoldable pub upsert_vote : ℕ → ℕ → ℕ → Option PostVote → Action Board (Unit {0})
  upsert_vote post_id user_id choice none = do
    id ← fresh env
    write
        (λ s.
          set_votes s
            (db.create (is_vote post_id user_id) (new_vote id post_id user_id choice) s.post_votes))
        conflict
  upsert_vote post_id user_id choice (some v) =
      write (λ s. set_votes s (db.update (is_vote post_id user_id) (choose choice) s.post_votes))
        internal

  unfoldable pub apply_vote : ℕ → ℕ → ℕ → Post → Option PostVote → Action Board VoteOutcome
  unfolding upsert_vote
  apply_vote post_id user_id choice p existing = do
    transaction (do
      upsert_vote post_id user_id choice existing
      write
          (λ s. set_posts s (
            db.update (λ q. q.id == post_id)
              (add_votes (agree_delta existing choice) (disagree_delta existing choice)) s.posts))
          internal)
    pure (
        outcome applied (add_votes (agree_delta existing choice) (disagree_delta existing choice) p)
          (some choice))

  unfoldable pub vote_over : ℕ → ℕ → ℕ → Post → Option PostVote → Action Board VoteOutcome
  unfolding apply_vote
  vote_over post_id user_id choice p none = apply_vote post_id user_id choice p none
  vote_over post_id user_id choice p (some v) =
      if v.choice == choice
      then pure (outcome unchanged p (some choice))
      else apply_vote post_id user_id choice p (some v)

  unfoldable pub vote_on : ℕ → ℕ → ℕ → Option Post → Action Board VoteOutcome
  unfolding vote_over
  vote_on post_id user_id choice none =
      pure
        (record { status = missing; agree_count = pos 0; disagree_count = pos 0; user_vote = none })
  vote_on post_id user_id choice (some p) =
      if p.is_voting_enabled
      then (do
        existing ← gets (λ s. db.find_first (is_vote post_id user_id) s.post_votes)
        vote_over post_id user_id choice p existing)
      else pure (outcome disabled p none)

  unfoldable pub vote : ℕ → ℕ → ℕ → Action Board VoteOutcome
  unfolding vote_on
  vote post_id user_id choice = do
    post ← gets (λ s. db.find_first (λ p. p.id == post_id) s.posts)
    vote_on post_id user_id choice post
