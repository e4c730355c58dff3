-- ===== src/Board.antt =====
-- The rows of prisma/schema.prisma behind posts, comments, reactions, notifications and the outbox,
-- and the store that their services share.
use tpulse_backend.Prelude.{ℕ, ◌+◌, ◌==◌, String, Bool, true, false, Option, none, some, List}
use tpulse_backend.Prelude.Int.{ℤ}
use tpulse_backend.Doubles.{Double, Doubles}
use tpulse_backend.Redis.{Entry}
use tpulse_backend.Effects.{Action, ok}

pub record Post : Type 0 where
  pub id : ℕ
  pub owner_id : ℕ
  pub content : String
  pub post_type : ℕ
  pub player_id : Option ℕ
  pub team_id : Option ℕ
  pub from_team_id : Option ℕ
  pub to_team_id : Option ℕ
  pub like_count : ℤ
  pub is_voting_enabled : Bool
  pub agree_count : ℤ
  pub disagree_count : ℤ
  pub comment_count : ℤ
  pub hot_score : Double
  pub score_updated_at : ℕ
  pub created_at_utc : ℕ

pub record PostLike : Type 0 where
  pub id : ℕ
  pub post_id : ℕ
  pub user_id : ℕ

-- `choice` is 2 for Agree; any other value counts as Disagree, whose value is 1.
pub record PostVote : Type 0 where
  pub id : ℕ
  pub post_id : ℕ
  pub user_id : ℕ
  pub choice : ℕ

pub record Comment : Type 0 where
  pub id : ℕ
  pub owner_id : ℕ
  pub content : Option String
  pub post_id : ℕ
  pub parent_id : Option ℕ
  pub like_count : ℤ
  pub created_at_utc : ℕ

pub record CommentLike : Type 0 where
  pub id : ℕ
  pub comment_id : ℕ
  pub user_id : ℕ

-- src/messaging/events.ts: the event types, each with its payload; `unknown` is any other type.
pub data Event : Type 0 where
  post_create :
      (user_id : ℕ) (content : String) (post_type : ℕ) (is_voting_enabled : Bool)
      (player_id team_id from_team_id to_team_id : Option ℕ) (created_at_utc : ℕ)
      → Event
  post_reaction : (post_id user_id : ℕ) (is_like : Bool) → Event
  comment_create :
      (user_id post_id : ℕ) (content : Option String) (parent_id : Option ℕ) (created_at_utc : ℕ)
      → Event
  comment_reaction : (comment_id user_id : ℕ) (is_like : Bool) → Event
  notification_generate : (transfer_id : ℕ) → Event
  unknown : Event

pub record OutboxMessage : Type 0 where
  pub id : ℕ
  pub event : Event
  pub retry_count : ℕ
  pub created_at_utc : ℕ
  pub processed_at_utc : Option ℕ

pub record Notification : Type 0 where
  pub id : ℕ
  pub user_id : ℕ
  pub event_type : ℕ
  pub title : String
  pub body : String
  pub transfer_id : Option ℕ
  pub is_read : Bool
  pub created_at : ℕ

pub record NotificationPreference : Type 0 where
  pub user_id : ℕ
  pub event_type : ℕ
  pub enabled : Bool

-- `type` of the source is `kind` here: 1 league, 2 team, 3 player, 4 reporter.
pub record UserFavourite : Type 0 where
  pub id : ℕ
  pub user_id : ℕ
  pub kind : ℕ
  pub target_id : ℕ

-- A transfer with the names and leagues that `getTransfer` includes.
pub record TransferForNotif : Type 0 where
  pub id : ℕ
  pub player_id : ℕ
  pub from_team_id : ℕ
  pub to_team_id : ℕ
  pub created_by_user_id : Option ℕ
  pub is_rumour : Bool
  pub player_name : String
  pub from_team_name : String
  pub to_team_name : String
  pub from_league_id : ℕ
  pub to_league_id : ℕ

pub data ReportTargetType : Type 0 where
  post comment transfer_comment user : ReportTargetType

pub data ReportReason : Type 0 where
  spam hate harassment other : ReportReason

pub data ReportStatus : Type 0 where
  pending reviewed actioned dismissed : ReportStatus

pub record Report : Type 0 where
  pub id : ℕ
  pub reporter_user_id : ℕ
  pub target_type : ReportTargetType
  pub target_id : ℕ
  pub reason : ReportReason
  pub note : Option String
  pub status : ReportStatus
  pub reviewed_by_user_id : Option ℕ
  pub reviewed_at : Option ℕ
  pub created_at : ℕ

pub record Board : Type 0 where
  pub posts : List Post
  pub post_likes : List PostLike
  pub post_votes : List PostVote
  pub comments : List Comment
  pub comment_likes : List CommentLike
  pub reports : List Report
  pub outbox : List OutboxMessage
  pub job_locks : List (Entry (Unit {0}))
  pub notifications : List Notification
  pub preferences : List NotificationPreference
  pub favourites : List UserFavourite
  pub transfers : List TransferForNotif
  pub draws : ℕ

pub record HotScoreWeights : Type 0 where
  pub like : Double
  pub vote : Double
  pub comment : Double
  pub report : Double
  pub gravity : Double

-- What the services take from outside: the clock, the ids, the numbers, and whether Redis answers.
pub record Env : Type 0 where
  pub now : ℕ
  pub uuid : ℕ → ℕ
  pub doubles : Doubles
  pub weights : HotScoreWeights
  pub redis_up : Bool

-- The next draw of an id.
abbrev pub fresh : Env → Action Board ℕ
fresh env s = (ok (env.uuid s.draws), record s { draws = s.draws + 1 })

abbrev pub opt_eq : Option ℕ → Option ℕ → Bool
opt_eq none none = true
opt_eq (some a) (some b) = a == b
opt_eq _ _ = false

-- Writing back the outcome of a query that may fail.
abbrev pub set_posts : Board → Option (List Post) → Option Board
set_posts s none = none
set_posts s (some t) = some (record s { posts = t })
