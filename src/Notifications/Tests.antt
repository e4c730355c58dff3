-- ===== src/Notifications/Tests.antt =====
-- Runs of the notifications at concrete inputs.
use tpulse_backend.Prelude.{
  ℕ, ◌≡◌, ◌≢◌, ◌⊎◌, ◌&&◌, not, refl, true, false, some, [], ◌∷◌, any, filter, All, Elem, arith,
}
use tpulse_backend.Db.Reference.{list_db, list_db-IsPrisma}
use tpulse_backend.Effects.{ok, err, not_found}
use tpulse_backend.Board.{Board, TransferForNotif, UserFavourite}
use tpulse_backend.Samples.{board_env, empty_board}
use tpulse_backend.Notifications.Service.{
  generate_for_transfer, mark_read, mark_all_read, unread_count,
}
use tpulse_backend.Notifications.Notices.{IsNoticeOf, generate-IsNoticeOf}
use tpulse_backend.Notifications.Inbox.{mine, of_user, mark_read_lem, mark_all_read_lem}
use tpulse_backend.Notifications.Telling.{tells, generate-tells}

abbrev transfer : TransferForNotif
transfer = record {
  id = 3;
  player_id = 30;
  from_team_id = 40;
  to_team_id = 41;
  created_by_user_id = some 7;
  is_rumour = false;
  player_name = "Icardi";
  from_team_name = "A";
  to_team_name = "B";
  from_league_id = 50;
  to_league_id = 51;
}

abbrev favours : ℕ → ℕ → ℕ → UserFavourite
favours user_id kind target_id = record {
  id = 0;
  user_id = user_id;
  kind = kind;
  target_id = target_id;
}

-- User 9 follows the player and has switched nothing off; user 8 has switched transfers off.
abbrev fans : Board
fans = record empty_board {
  transfers = transfer ∷ [];
  favourites = favours 9 3 30 ∷ favours 8 2 41 ∷ favours 9 2 40 ∷ favours 7 3 30 ∷ [];
  preferences = record { user_id = 8; event_type = 2; enabled = false } ∷ [];
}

abbrev told : Board
told = (generate_for_transfer list_db (board_env 10) 3 fans).1

generate-IsNoticeOf_example :
    All
      (λ n.
        Elem n fans.notifications
        ⊎ ((t : TransferForNotif) × (some transfer ≡ some t) × IsNoticeOf t fans n))
      told.notifications
generate-IsNoticeOf_example = generate-IsNoticeOf list_db list_db-IsPrisma (board_env 10) 3 fans

generate-tells_example : any (tells transfer 9) told.notifications ≡ true
generate-tells_example =
    generate-tells list_db list_db-IsPrisma (board_env 10) (λ j k e. omega (arith, e)) 3 transfer 9
      fans refl (λ k h. refl) refl refl ((λ e. cc), tt)

mark_read_example :
    ((any (mine 9 1000) told.notifications ≡ true)
        × ((mark_read list_db 9 1000 told).0 ≡ ok tt)
        × (any (λ n. mine 9 1000 n && not n.is_read) (mark_read list_db 9 1000 told).1.notifications
            ≡ false)
      ⊎ (any (mine 9 1000) told.notifications ≡ false)
        × (mark_read list_db 9 1000 told ≡ (err not_found, told)))
    × ((v : ℕ)
        → v ≢ 9
        → filter (of_user v) (mark_read list_db 9 1000 told).1.notifications
          ≡ filter (of_user v) told.notifications)
mark_read_example = mark_read_lem list_db list_db-IsPrisma 9 1000 told

mark_all_read_example :
    ((mark_all_read list_db 9 told).0 ≡ ok (unread_count list_db 9 told))
    × (unread_count list_db 9 (mark_all_read list_db 9 told).1 ≡ 0)
    × ((v : ℕ)
        → v ≢ 9
        → filter (of_user v) (mark_all_read list_db 9 told).1.notifications
          ≡ filter (of_user v) told.notifications)
mark_all_read_example = mark_all_read_lem list_db list_db-IsPrisma 9 told
