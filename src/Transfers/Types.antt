-- ===== src/Transfers/Types.antt =====
-- The rows of transfers, what is asked of a write, and the store. An amount of a fee is a number of
-- hundredths, as the column keeps it.
use tpulse_backend.Prelude.{ℕ, String, Bool, Option, List}
use tpulse_backend.Board.{Board}

pub data TransferSource : Type 0 where
  manual api_sports bot : TransferSource

pub record Transfer : Type 0 where
  pub id : ℕ
  pub player_id : ℕ
  pub from_team_id : ℕ
  pub to_team_id : ℕ
  pub transfer_date : ℕ
  pub fee_amount : ℕ
  pub fee_currency : String
  pub created_by_user_id : Option ℕ
  pub is_rumour : Bool
  pub is_deleted : Bool
  pub source : TransferSource
  pub source_id : Option String
  pub created_at : ℕ
  pub updated_at : Option ℕ

pub record CreateTransferDto : Type 0 where
  pub player_id : ℕ
  pub from_team_id : ℕ
  pub to_team_id : ℕ
  pub transfer_date : ℕ
  pub fee_amount : ℕ
  pub fee_currency : String

pub record PatchTransferDto : Type 0 where
  pub fee_amount : Option ℕ
  pub fee_currency : Option String
  pub transfer_date : Option ℕ

pub record CreateRumourDto : Type 0 where
  pub player_id : ℕ
  pub from_team_id : ℕ
  pub to_team_id : ℕ
  pub fee_amount : Option ℕ
  pub fee_currency : Option String

pub record ConfirmRumourDto : Type 0 where
  pub fee_amount : ℕ
  pub fee_currency : String
  pub transfer_date : ℕ

-- `AuthUser`
pub record AuthUser : Type 0 where
  pub user_id : ℕ
  pub role : String

-- Of players and teams, the ids alone are asked for. `invalidations` counts the calls of
-- `invalidateTags(CacheTag.Transfers)`.
pub record Market : Type 0 where
  pub transfers : List Transfer
  pub players : List ℕ
  pub teams : List ℕ
  pub board : Board
  pub invalidations : ℕ
