-- ===== src/Reports/World.antt =====
-- The stores that a review goes over, and the calls of their services from it.
use tpulse_backend.Prelude.{ℕ, String, Bool, List}
use tpulse_backend.Effects.{Action}
use tpulse_backend.Auth.{Store}
use tpulse_backend.Auth
use tpulse_backend.Board.{Board, ReportTargetType, ReportStatus}
use tpulse_backend.Board
use tpulse_backend.TransferComments.{Talk}

-- A row of `audit_logs` with the metadata of a review.
pub record AuditRow : Type 0 where
  pub actor_user_id : ℕ
  pub action : String
  pub target_type : ReportTargetType
  pub target_id : ℕ
  pub report_id : ℕ
  pub status : ReportStatus
  pub delete_content : Bool
  pub ban_user : Bool

pub record World : Type 0 where
  pub accounts : Store
  pub board : Board
  pub talk : Talk
  pub audit_logs : List AuditRow

-- `audit_written` says whether the database takes the row of the audit.
pub record Env : Type 0 where
  pub auth : tpulse_backend.Auth.Env
  pub board : tpulse_backend.Board.Env
  pub audit_written : AuditRow → Bool

module _ {A : Type 0} where
  abbrev pub on_accounts : Action Store A → Action World A
  on_accounts m w = let (r, s) = m w.accounts in (r, record w { accounts = s })

  abbrev pub on_board : Action Board A → Action World A
  on_board m w = let (r, s) = m w.board in (r, record w { board = s })

  abbrev pub on_talk : Action Talk A → Action World A
  on_talk m w = let (r, s) = m w.talk in (r, record w { talk = s })
