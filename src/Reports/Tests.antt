-- ===== src/Reports/Tests.antt =====
-- Runs of the reviews at concrete inputs.
use tpulse_backend.Prelude.{◌≡◌, refl, true, none, [], ◌∷◌, ◌==◌}
use tpulse_backend.Db.Reference.{list_db, list_db-IsPrisma}
use tpulse_backend.Redis.Reference.{list_redis}
use tpulse_backend.Effects.{err, not_found}
use tpulse_backend.Board.{Report, post, spam, pending}
use tpulse_backend.Samples.{auth_env, board_env, accounts, empty_board, a_post}
use tpulse_backend.Reports.World.{World, Env}
use tpulse_backend.Reports.Service.{review}
use tpulse_backend.Reports.Review.{Closes, review-Closes, review-remove_and_ban, remove_and_ban}

abbrev a_report : Report
a_report = record {
  id = 50;
  reporter_user_id = 2;
  target_type = post;
  target_id = 1;
  reason = spam;
  note = none;
  status = pending;
  reviewed_by_user_id = none;
  reviewed_at = none;
  created_at = 3;
}

abbrev world : World
world = record {
  accounts = accounts;
  board = record empty_board { reports = a_report ∷ [] };
  talk = record { comments = []; likes = []; transfers = []; draws = 0 };
  audit_logs = [];
}

abbrev env : Env
env = record { auth = auth_env 9; board = board_env 9; audit_written = λ row. true }

review-Closes_example :
    Closes list_db list_db-IsPrisma env 50 1 remove_and_ban.status world
      (review list_db env list_redis 50 1 remove_and_ban world)
review-Closes_example =
    review-Closes list_db list_db-IsPrisma env list_redis 50 1 remove_and_ban world

review-remove_and_ban_example :
    ((review list_db env list_redis 50 1 remove_and_ban world).0 ≡ err not_found)
    × (list_db.find_first
          (λ q. q.id == 1)
          (review list_db env list_redis 50 1 remove_and_ban world).1.board.posts
        ≡ none)
    × ((review list_db env list_redis 50 1 remove_and_ban world).1.accounts ≡ accounts)
    × ((review list_db env list_redis 50 1 remove_and_ban world).1.board.reports ≡ a_report ∷ [])
review-remove_and_ban_example =
    review-remove_and_ban list_db list_db-IsPrisma env list_redis 50 1 a_report (a_post 1 7 "goal")
      world refl refl refl
