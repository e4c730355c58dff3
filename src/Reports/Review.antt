-- ===== src/Reports/Review.antt =====
-- What a review does to the report, whether what it asks for succeeds or fails.
use tpulse_backend.Prelude.{
  ℕ, String, ◌≡◌, refl, sym, ap, ◌∙◌, Bool, true, false, not, Option, none, some, List, ◌==◌, any,
  filter, update_where, All-elem, Elem, Elem-any, filter_sound, ◌⊎◌, inl, inr, arith, Option-cases,
}
use mathlib.Core.Path.{subst}
use tpulse_backend.Db.{Prisma, IsPrisma}
use tpulse_backend.Redis.{Redis}
use tpulse_backend.Effects.{
  Action, Result, ok, err, Failure, not_found, pure, or_throw, when, ◌>>=◌, ◌>>◌,
}
use tpulse_backend.Board.{
  Post, Report, ReportTargetType, post, comment, transfer_comment, user, ReportStatus, actioned,
}
use tpulse_backend.Posts.{admin_remove_post, find_post}
use tpulse_backend.Comments.{admin_remove_comment, find_comment, comment_cascade, post_cascade}
use tpulse_backend.Reports.World.{World, Env}
use tpulse_backend.Reports.Service.{
  ReviewReportDto, is_actioned, is_final, with_review, delete_target, owner_of, ban_target,
  log_review, notify_reporter, take_action, close_report, review,
}

-- The call leaves the table of the reports as it is.
abbrev Keeps : {A : Type 0} → Action World A → Type 0
Keeps m = (w : World) → (m w).1.board.reports ≡ w.board.reports

bind-Keeps :
    {A B : Type 0} (m : Action World A) (f : A → Action World B)
    → Keeps m
    → ((a : A) → Keeps (f a))
    → Keeps (m >>= f)
bind-Keeps {A = A} m f first after w = go (m w) (first w)
  where
    go :
        (x : Result A × World)
        → x.1.board.reports ≡ w.board.reports
        → (((λ (w : World). x) >>= f) w).1.board.reports ≡ w.board.reports
    go (ok a, w') e = after a w' ∙ e
    go (err f, w') e = e

when-Keeps : (b : Bool) (m : Action World (Unit {0})) → Keeps m → Keeps (when b m)
when-Keeps true m keep w = keep w
when-Keeps false m keep w = refl

abbrev pub remove_and_ban : ReviewReportDto
remove_and_ban = record { status = actioned; delete_content = true; ban_user = true }

module _ (db : Prisma) (laws : IsPrisma db) (env : Env) where
  delete_target-reports :
      (kind : ReportTargetType) (id : ℕ) (w : World)
      → (delete_target db env kind id w).1.board.reports ≡ w.board.reports
  unfolding delete_target admin_remove_post find_post post_cascade admin_remove_comment find_comment
      comment_cascade
  delete_target-reports post id w = ground arith
  delete_target-reports comment id w = ground arith
  delete_target-reports transfer_comment id w = refl
  delete_target-reports user id w = refl

  ban_target-reports :
      (redis : Redis) (kind : ReportTargetType) (id : ℕ) (reason : Option String) (w : World)
      → (ban_target db env redis kind id reason w).1.board.reports ≡ w.board.reports
  unfolding ban_target
  ban_target-reports redis kind id reason w = ground arith

  take_action-reports :
      (redis : Redis) (report : Report) (dto : ReviewReportDto) (w : World)
      → (take_action db env redis report dto w).1.board.reports ≡ w.board.reports
  unfolding take_action
  take_action-reports redis report dto =
      bind-Keeps
        (when dto.delete_content (delete_target db env report.target_type report.target_id))
        (λ a.
          when dto.ban_user
            (ban_target db env redis report.target_type report.target_id report.note))
        (when-Keeps dto.delete_content (delete_target db env report.target_type report.target_id)
          (delete_target-reports report.target_type report.target_id))
        (λ a.
          when-Keeps dto.ban_user
            (ban_target db env redis report.target_type report.target_id report.note)
            (ban_target-reports redis report.target_type report.target_id report.note))

  notify_reporter-reports :
      (report : Report) (dto : ReviewReportDto) (w : World)
      → (notify_reporter db env report dto w).1.board.reports ≡ w.board.reports
  unfolding notify_reporter
  notify_reporter-reports report dto w = refl

  -- The writes that follow the actions, which change the report's row alone.
  abbrev finish : ℕ → ℕ → ReviewReportDto → Report → Action World Report
  finish id reviewer dto report = do
    close_report db env id reviewer dto.status
    log_review db env reviewer report dto
    when (is_final dto.status) (notify_reporter db env report dto)
    pure (with_review env.board.now reviewer dto.status report)

  finish-reports :
      (id reviewer : ℕ) (dto : ReviewReportDto) (report : Report) (w : World)
      → any (λ r. r.id == id) w.board.reports ≡ true
      → ((finish id reviewer dto report w).0
          ≡ ok (with_review env.board.now reviewer dto.status report))
        × ((finish id reviewer dto report w).1.board.reports
            ≡ update_where
                (λ r. r.id == id)
                (with_review env.board.now reviewer dto.status)
                w.board.reports)
  unfolding close_report log_review notify_reporter
  finish-reports id reviewer dto report w there = ground (
    arith,
    there,
    laws.update_rows (λ r. r.id == id) (with_review env.board.now reviewer dto.status)
        w.board.reports,
  )

  -- A call ends with an error and the reports as they were, or without one and the report closed.
  abbrev pub Closes : ℕ → ℕ → ReportStatus → World → Result Report × World → Type 0
  Closes id reviewer status w x =
      ((e : Failure) × (x.0 ≡ err e) × (x.1.board.reports ≡ w.board.reports))
      ⊎ ((r : Report) × (x.0 ≡ ok r)
          × (x.1.board.reports
              ≡ update_where (λ r. r.id == id) (with_review env.board.now reviewer status)
                  w.board.reports))

  acted-Closes :
      (id reviewer : ℕ) (dto : ReviewReportDto) (report : Report) (w : World)
      → any (λ r. r.id == id) w.board.reports ≡ true
      → (x : Result (Unit {0}) × World) → x.1.board.reports ≡ w.board.reports
      → Closes id reviewer dto.status w (((λ (w : World). x) >> finish id reviewer dto report) w)
  acted-Closes id reviewer dto report w there (err e, w') same = inl (e, refl, same)
  acted-Closes id reviewer dto report w there (ok a, w') same =
      let (answered, rows) =
        finish-reports id reviewer dto report w'
          (subst (λ t. any (λ r. r.id == id) t ≡ true) (sym same) there) in
      inr (
        with_review env.board.now reviewer dto.status report,
        answered,
        rows
            ∙ ap (update_where (λ r. r.id == id) (with_review env.board.now reviewer dto.status))
                same,
      )

  abbrev reviewed_by :
      Redis → ℕ → ℕ → ReviewReportDto → Option Report → World → Result Report × World
  reviewed_by redis id reviewer dto o w =
      (do
        report ← or_throw o not_found
        when (is_actioned dto.status) (take_action db env redis report dto)
        finish id reviewer dto report)
        w

  -- A review that fails, whatever fails and after whichever of its actions, leaves all reports as they
  -- were; one that succeeds writes the new status, the reviewer and the time into the report and
  -- leaves the others.
  pub review-Closes :
      (redis : Redis) (id reviewer : ℕ) (dto : ReviewReportDto) (w : World)
      → Closes id reviewer dto.status w (review db env redis id reviewer dto w)
  unfolding review
  review-Closes redis id reviewer dto w =
      let here = λ (r : Report). r.id == id in
      elim (Option-cases (db.find_first here w.board.reports)) [
        | inl missing ↦
            subst (λ o. Closes id reviewer dto.status w (reviewed_by redis id reviewer dto o w))
              (sym missing) (inl (not_found, refl, refl))
        | inr (report, found) ↦
            let there =
              Elem-any here report w.board.reports
                (laws.find_first_elem here w.board.reports report found)
                (laws.find_first_match here w.board.reports report found) in
            subst (λ o. Closes id reviewer dto.status w (reviewed_by redis id reviewer dto o w))
              (sym found)
              (acted-Closes id reviewer dto report w there
                (when (is_actioned dto.status) (take_action db env redis report dto) w)
                (when-Keeps (is_actioned dto.status) (take_action db env redis report dto)
                  (take_action-reports redis report dto) w))
      ]

  gone :
      {Row : Type 0} (p : Row → Bool) (t : List Row) → db.find_first p (db.delete_many p t) ≡ none
  gone p t = elim (Option-cases (db.find_first p (db.delete_many p t))) [
    | inl e ↦ e
    | inr (r, found) ↦
        let there = laws.find_first_elem p (db.delete_many p t) r found in
        let out =
          All-elem _ r (filter (λ x. not (p x)) t) (filter_sound (λ x. not (p x)) t)
            (subst (Elem r) (laws.delete_many_rows p t) there) in
        let mine = laws.find_first_match p (db.delete_many p t) r found in ground (arith, out, mine)
  ]

  -- A review that is to remove the reported post and to ban its owner fails with 404 whenever the
  -- post is there: the post is removed first, so that its owner is not found then; nobody is banned,
  -- and the report keeps its state.
  pub review-remove_and_ban :
      (redis : Redis) (id reviewer : ℕ) (report : Report) (p : Post) (w : World)
      → db.find_first (λ r. r.id == id) w.board.reports ≡ some report
      → report.target_type ≡ post
      → db.find_first (λ q. q.id == report.target_id) w.board.posts ≡ some p
      → ((review db env redis id reviewer remove_and_ban w).0 ≡ err not_found)
        × (db.find_first
              (λ q. q.id == report.target_id)
              (review db env redis id reviewer remove_and_ban w).1.board.posts
            ≡ none)
        × ((review db env redis id reviewer remove_and_ban w).1.accounts ≡ w.accounts)
        × ((review db env redis id reviewer remove_and_ban w).1.board.reports ≡ w.board.reports)
  unfolding review take_action delete_target ban_target owner_of admin_remove_post find_post
      post_cascade
  review-remove_and_ban redis id reviewer report p w found kind there =
      ground (arith, found, kind, there, gone (λ q. q.id == report.target_id) w.board.posts)
