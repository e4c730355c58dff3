-- ===== src/Transfers/Tests.antt =====
-- Runs of transfers and rumours at concrete inputs.
use tpulse_backend.Prelude.{ℕ, ◌≡◌, ◌⊎◌, refl, true, none, [], ◌∷◌, any}
use tpulse_backend.Db.Reference.{list_db, list_db-IsPrisma}
use tpulse_backend.Effects.{ok, err, not_found, forbidden}
use tpulse_backend.Samples.{board_env, empty_board}
use tpulse_backend.Transfers.Types.{
  CreateTransferDto, CreateRumourDto, ConfirmRumourDto, AuthUser, Market,
}
use tpulse_backend.Transfers.Repository.{find_rumour}
use tpulse_backend.Transfers.Admin.{create_transfer}
use tpulse_backend.Transfers.Rumours.{create_rumour, remove_rumour, confirm_rumour}
use tpulse_backend.Transfers.Announced.{IsAnnounced, here, next, spread, confirm, Reach-IsAnnounced}
use tpulse_backend.Transfers.Rights.{is_allowed, remove_rumour-cases}

-- Player 5, and teams 1 and 2.
abbrev market : Market
market = record {
  transfers = [];
  players = 5 ∷ [];
  teams = 1 ∷ 2 ∷ [];
  board = empty_board;
  invalidations = 0;
}

abbrev rumour : CreateRumourDto
rumour = record {
  player_id = 5;
  from_team_id = 1;
  to_team_id = 2;
  fee_amount = none;
  fee_currency = none;
}

abbrev move : CreateTransferDto
move = record {
  player_id = 5;
  from_team_id = 1;
  to_team_id = 9;
  transfer_date = 3;
  fee_amount = 100;
  fee_currency = "EUR";
}

abbrev terms : ConfirmRumourDto
terms = record { fee_amount = 100; fee_currency = "EUR"; transfer_date = 3 }

abbrev author : AuthUser
author = record { user_id = 7; role = "User" }

abbrev other : AuthUser
other = record { user_id = 8; role = "User" }

abbrev spread_market : Market
spread_market = (create_rumour list_db (board_env 4) rumour 7 market).1

abbrev rumour_id : ℕ
rumour_id = (board_env 4).uuid 0

Reach-IsAnnounced_example :
    IsAnnounced (confirm_rumour list_db (board_env 4) rumour_id terms spread_market).1
Reach-IsAnnounced_example =
    Reach-IsAnnounced list_db list_db-IsPrisma
      (next (next here (spread (board_env 4) rumour 7 market))
        (confirm (board_env 4) rumour_id terms spread_market))
      tt

remove_rumour-cases_example :
    (remove_rumour list_db (board_env 4) rumour_id author spread_market
      ≡ (err not_found, spread_market))
    ⊎ ((remove_rumour list_db (board_env 4) rumour_id author spread_market
          ≡ (err forbidden, spread_market))
        ⊎ ((any (is_allowed author rumour_id) spread_market.transfers ≡ true)
            × ((remove_rumour list_db (board_env 4) rumour_id author spread_market).0 ≡ ok tt)
            × (find_rumour list_db
                  (board_env 4)
                  rumour_id
                  (remove_rumour list_db (board_env 4) rumour_id author spread_market).1
                ≡ none)))
remove_rumour-cases_example =
    remove_rumour-cases list_db list_db-IsPrisma (board_env 4) rumour_id author spread_market

-- The author withdraws the rumour.
withdrawn : (remove_rumour list_db (board_env 4) rumour_id author spread_market).0 ≡ ok tt
unfolding remove_rumour create_rumour tpulse_backend.Messaging.enqueue
withdrawn = refl

-- Another user may not.
not_withdrawn :
    (remove_rumour list_db (board_env 4) rumour_id other spread_market).0 ≡ err forbidden
unfolding remove_rumour create_rumour tpulse_backend.Messaging.enqueue
not_withdrawn = refl

-- A team that is not there.
unknown_team : (create_transfer list_db (board_env 4) move 7 market) ≡ (err not_found, market)
unfolding create_transfer
unknown_team = refl
