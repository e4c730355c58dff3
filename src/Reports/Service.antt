-- ===== src/Reports/Service.antt =====
-- `ReportsService` of reports.service.ts.
use tpulse_backend.Prelude.{
  ℕ, String, Bool, true, false, ◌&&◌, ◌||◌, not, Option, none, some, List, ◌∷◌, ◌==◌, ltb, is_some,
  if◌then◌else◌,
}
use tpulse_backend.Db.{Prisma}
use tpulse_backend.Redis.{Redis}
use tpulse_backend.Effects.{
  Action, ok, pure, gets, or_throw, throw, throw_if, write, when, attempt, ◌>>=◌, ◌>>◌, bad_request,
  not_found, conflict, internal,
}
use tpulse_backend.Auth.{Store, User, banned, report_reviewed, send_mail}
use tpulse_backend.Board.{
  Board, Report, ReportTargetType, post, comment, transfer_comment, user, ReportStatus, pending,
  actioned, dismissed, ReportReason, fresh,
}
use tpulse_backend.Users.{update_status}
use tpulse_backend.Posts.{admin_remove_post}
use tpulse_backend.Comments.{admin_remove_comment}
use tpulse_backend.TransferComments.{admin_remove_talk}
use tpulse_backend.Reports.World.{World, Env, AuditRow, on_accounts, on_board, on_talk}

pub record CreateReportDto : Type 0 where
  pub target_type : ReportTargetType
  pub target_id : ℕ
  pub reason : ReportReason
  pub note : Option String

pub record ReviewReportDto : Type 0 where
  pub status : ReportStatus
  pub delete_content : Bool
  pub ban_user : Bool

abbrev pub same_target : ReportTargetType → ReportTargetType → Bool
same_target post post = true
same_target comment comment = true
same_target transfer_comment transfer_comment = true
same_target user user = true
same_target _ _ = false

abbrev pub is_actioned : ReportStatus → Bool
is_actioned actioned = true
is_actioned _ = false

abbrev pub is_final : ReportStatus → Bool
is_final actioned = true
is_final dismissed = true
is_final _ = false

-- The unique constraint of `reports`.
abbrev pub is_report : ℕ → ReportTargetType → ℕ → Report → Bool
is_report reporter kind id r =
    r.reporter_user_id == reporter && same_target r.target_type kind && r.target_id == id

abbrev pub new_report : ℕ → ℕ → ℕ → CreateReportDto → Report
new_report id now reporter dto = record {
  id = id;
  reporter_user_id = reporter;
  target_type = dto.target_type;
  target_id = dto.target_id;
  reason = dto.reason;
  note = dto.note;
  status = pending;
  reviewed_by_user_id = none;
  reviewed_at = none;
  created_at = now;
}

abbrev pub with_review : ℕ → ℕ → ReportStatus → Report → Report
with_review now reviewer status r = record r {
  status = status;
  reviewed_by_user_id = some reviewer;
  reviewed_at = some now;
}

abbrev pub set_reports : Board → Option (List Report) → Option Board
set_reports s none = none
set_reports s (some t) = some (record s { reports = t })

-- `REPORT_TARGET_LABEL`
abbrev pub target_label : ReportTargetType → String
target_label post = "gönderi"
target_label comment = "yorum"
target_label transfer_comment = "transfer yorumu"
target_label user = "profil"

abbrev pub describe_action : (delete_content ban_user : Bool) → String
describe_action true true = "İçerik kaldırıldı ve ilgili kullanıcı askıya alındı."
describe_action true false = "İçerik kaldırıldı."
describe_action false true = "İlgili kullanıcı askıya alındı."
describe_action false false = "Gerekli moderasyon aksiyonu alındı."

module _ (db : Prisma) (env : Env) where
  unfoldable pub target_count : ReportTargetType → ℕ → World → ℕ
  target_count post id w = db.count_rows (λ p. p.id == id) w.board.posts
  target_count comment id w = db.count_rows (λ c. c.id == id) w.board.comments
  target_count transfer_comment id w = db.count_rows (λ c. c.id == id) w.talk.comments
  target_count user id w = db.count_rows (λ u. u.id == id) w.accounts.users

  unfoldable pub create : ℕ → CreateReportDto → Action World Report
  unfolding target_count
  create reporter dto = do
    there ← gets (target_count dto.target_type dto.target_id)
    throw_if (not (ltb 0 there)) not_found
    duplicate ←
        gets (λ w. db.find_first (is_report reporter dto.target_type dto.target_id) w.board.reports)
    throw_if (is_some duplicate) conflict
    id ← on_board (fresh env.board)
    let report = new_report id env.board.now reporter dto
    on_board (
        write
          (λ s. set_reports s (
            db.create (λ r. r.id == id || is_report reporter dto.target_type dto.target_id r) report
              s.reports))
          conflict)
    pure report

  unfoldable pub delete_target : ReportTargetType → ℕ → Action World (Unit {0})
  delete_target post id = on_board (admin_remove_post db env.board id)
  delete_target comment id = on_board (admin_remove_comment db env.board id)
  delete_target transfer_comment id = on_talk (admin_remove_talk db env.board id)
  delete_target user id = throw bad_request

  -- `resolveOwner`
  unfoldable pub owner_of : ReportTargetType → ℕ → World → Option ℕ
  owner_of post id w = elim (db.find_first (λ p. p.id == id) w.board.posts) [
    | none ↦ none
    | some p ↦ some p.owner_id
  ]
  owner_of comment id w = elim (db.find_first (λ c. c.id == id) w.board.comments) [
    | none ↦ none
    | some c ↦ some c.owner_id
  ]
  owner_of transfer_comment id w = elim (db.find_first (λ c. c.id == id) w.talk.comments) [
    | none ↦ none
    | some c ↦ some c.owner_id
  ]
  owner_of user id w = some id

  unfoldable pub ban_target : Redis → ReportTargetType → ℕ → Option String → Action World (Unit {0})
  unfolding owner_of
  ban_target redis kind id reason = do
    owner ← gets (owner_of kind id)
    user_id ← or_throw owner not_found
    response ←
        on_accounts
          (update_status db env.auth redis user_id (record { status = banned; reason = reason }))
    pure tt

  -- `AuditService.log`, which never throws.
  unfoldable pub log_review : ℕ → Report → ReviewReportDto → Action World (Unit {0})
  log_review reviewer report dto w =
      let row : AuditRow = record {
        actor_user_id = reviewer;
        action = "report.review";
        target_type = report.target_type;
        target_id = report.target_id;
        report_id = report.id;
        status = dto.status;
        delete_content = dto.delete_content;
        ban_user = dto.ban_user;
      } in
      (ok tt, if env.audit_written row then record w { audit_logs = row ∷ w.audit_logs } else w)

  unfoldable pub mail_reporter : Option User → Report → ReviewReportDto → Action Store (Unit {0})
  mail_reporter none report dto = pure tt
  mail_reporter (some reporter) report dto = send_mail env.auth (
      report_reviewed reporter.email reporter.nickname
        (if is_actioned dto.status then "upheld" else "dismissed") (target_label report.target_type)
        (if is_actioned dto.status
          then some (describe_action dto.delete_content dto.ban_user)
          else none))

  -- Every error is caught.
  unfoldable pub notify_reporter : Report → ReviewReportDto → Action World (Unit {0})
  unfolding mail_reporter
  notify_reporter report dto = attempt (
      on_accounts (do
        reporter ← gets (λ s. db.find_first (λ u. u.id == report.reporter_user_id) s.users)
        mail_reporter reporter report dto))

  -- What an actioned report asks for comes before the report's own row is written.
  unfoldable pub take_action : Redis → Report → ReviewReportDto → Action World (Unit {0})
  unfolding delete_target ban_target
  take_action redis report dto = do
    when dto.delete_content (delete_target report.target_type report.target_id)
    when dto.ban_user (ban_target redis report.target_type report.target_id report.note)

  unfoldable pub close_report : ℕ → ℕ → ReportStatus → Action World (Unit {0})
  close_report id reviewer status = on_board (
      write
        (λ s.
          set_reports s
            (db.update (λ r. r.id == id) (with_review env.board.now reviewer status) s.reports))
        internal)

  unfoldable pub review : Redis → ℕ → ℕ → ReviewReportDto → Action World Report
  unfolding take_action close_report log_review notify_reporter
  review redis id reviewer dto = do
    found ← gets (λ w. db.find_first (λ r. r.id == id) w.board.reports)
    report ← or_throw found not_found
    when (is_actioned dto.status) (take_action redis report dto)
    close_report id reviewer dto.status
    log_review reviewer report dto
    when (is_final dto.status) (notify_reporter report dto)
    pure (with_review env.board.now reviewer dto.status report)
