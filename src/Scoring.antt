-- ===== src/Scoring.antt =====
-- src/common/scoring: the time-decayed score of a post, and its update after an engagement.
use tpulse_backend.Prelude.{ℕ, ◌==◌, Bool, true, false, ◌&&◌, Option, none, some}
use tpulse_backend.Prelude.Int.{ℤ, pos, sub_ℕ}
use tpulse_backend.Db.{Prisma}
use tpulse_backend.Doubles.{Double}
use tpulse_backend.Effects.{Action, pure, gets, write, attempt, ◌>>=◌, internal}
use tpulse_backend.Board.{
  Post, ReportTargetType, post, comment, transfer_comment, user, Board, Env, set_posts,
}

pub record HotScoreInput : Type 0 where
  pub like_count : ℤ
  pub agree_count : ℤ
  pub disagree_count : ℤ
  pub comment_count : ℤ
  pub report_count : ℕ
  pub created_at_utc : ℕ

module _ (env : Env) where
  open env use {doubles, weights}
  open doubles use {of_int, add, sub, mul, div, pow, max}

  unfoldable pub compute_hot_score : HotScoreInput → ℕ → Double
  compute_hot_score i now =
      let engagement =
        add
          (add (mul weights.like (of_int i.like_count))
            (mul weights.vote (add (of_int i.agree_count) (of_int i.disagree_count))))
          (mul weights.comment (of_int i.comment_count)) in
      let weighted = sub engagement (mul weights.report (of_int (pos i.report_count))) in
      let age_hours =
        max (of_int (pos 0)) (div (of_int (sub_ℕ now i.created_at_utc)) (of_int (pos 3600000))) in
      div weighted (pow (add age_hours (of_int (pos 2))) weights.gravity)

abbrev pub is_post_target : ReportTargetType → Bool
is_post_target post = true
is_post_target comment = false
is_post_target transfer_comment = false
is_post_target user = false

module _ (db : Prisma) (env : Env) where
  unfoldable pub write_score : ℕ → Double → Action Board (Unit {0})
  write_score post_id score =
      write
        (λ s. set_posts s (
          db.update (λ q. q.id == post_id)
            (λ q. record q { hot_score = score; score_updated_at = env.now }) s.posts))
        internal

  abbrev pub input_of : Post → ℕ → HotScoreInput
  input_of p report_count = record {
    like_count = p.like_count;
    agree_count = p.agree_count;
    disagree_count = p.disagree_count;
    comment_count = p.comment_count;
    report_count = report_count;
    created_at_utc = p.created_at_utc;
  }

  unfoldable pub score_of : ℕ → Option Post → ℕ → Action Board (Unit {0})
  score_of post_id none report_count = pure tt
  score_of post_id (some p) report_count =
      write_score post_id (compute_hot_score env (input_of p report_count) env.now)

  -- Every error is caught, so that the write before it stands.
  unfoldable pub recompute : ℕ → Action Board (Unit {0})
  unfolding score_of
  recompute post_id = attempt (do
    found ← gets (λ s. db.find_first (λ q. q.id == post_id) s.posts)
    report_count ←
        gets (λ s.
          db.count_rows (λ r. is_post_target r.target_type && r.target_id == post_id) s.reports)
    score_of post_id found report_count)
