-- ===== src/Posts/Bounds.antt =====
-- What the client reads after a vote.
use tpulse_backend.Prelude.{
  ℕ, ◌+◌, ◌-◌, ◌≤◌, ◌≡◌, refl, sym, Bool, true, false, Option, none, some, List, ◌==◌, count, arith,
}
use mathlib.Core.Path.{subst}
use tpulse_backend.Prelude.Int.{pos, ◌+ℤ◌}
use tpulse_backend.Db.{Prisma, IsPrisma}
use tpulse_backend.Effects.{Result, ok, err, ◌>>=◌}
use tpulse_backend.Board.{Board, Env, Post, PostVote}
use tpulse_backend.Scoring.{recompute, score_of, write_score}
use tpulse_backend.Votes.{VoteOutcome, VoteStatus, applied, unchanged, missing, disabled, vote}
use tpulse_backend.Votes.Tally.{IsFair, for_side}
use tpulse_backend.Posts.Percent.{total_votes}
use tpulse_backend.Posts.VoteResult.{PostVoteResult, vote_result, answer_vote, vote_post}
use tpulse_backend.Posts.Percentages.{IsNearest, percentages-IsShared}
use tpulse_backend.Posts.Told.{IsTold, Told, ToldBy, voted-count, vote-Told}

-- What the client reads: the votes that there are on either side, the rounded share of those that
-- agree, and the rest of 100.
pub record IsAnswer (p : ℕ) (r : PostVoteResult) (votes : List PostVote) : Type 0 where
  pub total : r.total_votes ≡ pos (count (for_side true p) votes + count (for_side false p) votes)
  pub agreed : r.agree_count ≡ pos (count (for_side true p) votes)
  pub disagreed : r.disagree_count ≡ pos (count (for_side false p) votes)
  pub percent : ℕ
  pub bound : percent ≤ 100
  pub rounded :
      IsNearest percent
        (count (for_side true p) votes)
        (count (for_side true p) votes + count (for_side false p) votes)
  pub agreeing : r.agree_percentage ≡ pos percent
  pub disagreeing : r.disagree_percentage ≡ pos (100 - percent)

abbrev Shown : ℕ → Result PostVoteResult → Board → Type 0
Shown p (err e) s = Unit
Shown p (ok r) s = IsAnswer p r s.post_votes

told-IsAnswer :
    (p u c : ℕ) (b : Bool) (o : VoteOutcome) (s : Board)
    → IsTold p u c o s
    → IsAnswer p (vote_result b o) s.post_votes
unfolding total_votes ◌+ℤ◌
told-IsAnswer p u c b o s told =
    let share =
      percentages-IsShared (count (for_side true p) s.post_votes)
        (count (for_side false p) s.post_votes) (voted-count p u s.post_votes told.voted) in
    rw (told.agreeing, told.disagreeing)
      (record {
        total = ground arith;
        agreed = refl;
        disagreed = refl;
        percent = share.percent;
        bound = share.bound;
        rounded = share.rounded;
        agreeing = share.agreeing;
        disagreeing = share.disagreeing;
      })

module _ (db : Prisma) (laws : IsPrisma db) (env : Env) where
  score_of-votes :
      (p n : ℕ) (o : Option Post) (s : Board)
      → (score_of db env p o n s).1.post_votes ≡ s.post_votes
  unfolding score_of write_score
  score_of-votes p n none s = refl
  score_of-votes p n (some q) s = ground arith

  recompute-votes : (p : ℕ) (s : Board) → (recompute db env p s).1.post_votes ≡ s.post_votes
  unfolding recompute
  recompute-votes p s = score_of-votes p _ (db.find_first (λ q. q.id == p) s.posts) s

  answer_vote-Shown :
      (p u c : ℕ) (o : VoteOutcome) (status : VoteStatus) (s : Board)
      → o.status ≡ status
      → Told p u c (ok o) s
      → Shown p (answer_vote db env p o status s).0 (answer_vote db env p o status s).1
  unfolding answer_vote recompute
  answer_vote-Shown p u c o applied s e told =
      subst (IsAnswer p (vote_result true o)) (sym (recompute-votes p s))
        (told-IsAnswer p u c true o s (subst (λ x. ToldBy x p u c o s) e told))
  answer_vote-Shown p u c o unchanged s e told =
      told-IsAnswer p u c false o s (subst (λ x. ToldBy x p u c o s) e told)
  answer_vote-Shown p u c o missing s e told = tt
  answer_vote-Shown p u c o disabled s e told = tt

  answered-Shown :
      (p u c : ℕ) (x : Result VoteOutcome × Board)
      → Told p u c x.0 x.1
      → Shown p
          (((λ (s : Board). x) >>= λ o. answer_vote db env p o o.status) x.1).0
          (((λ (s : Board). x) >>= λ o. answer_vote db env p o o.status) x.1).1
  answered-Shown p u c (err f, s) told = tt
  answered-Shown p u c (ok o, s) told = answer_vote-Shown p u c o o.status s refl told

  -- Where each post shows as many votes on either side as it has rows, a vote that is answered is
  -- answered with the numbers of the rows that the post then has for Agree (stored as 2) and against,
  -- and their sum; the percentage that agrees is at most 100 and is the share of the rows for Agree,
  -- rounded to the nearest integer with a half going up, and the other one is the rest of 100.
  pub vote_post-IsAnswer :
      (p u c : ℕ) (s : Board) (r : PostVoteResult)
      → IsFair s
      → (vote_post db env p u c s).0 ≡ ok r
      → IsAnswer p r (vote_post db env p u c s).1.post_votes
  unfolding vote_post
  vote_post-IsAnswer p u c s r fair answered =
      subst (λ x. Shown p x (vote_post db env p u c s).1) answered
        (answered-Shown p u c (vote db env p u c s) (vote-Told db laws env p u c s fair))
