-- ===== src/Relations/Favourites.antt =====
-- `FavouritesService` of favourites.service.ts, with its queries of prisma-favourite.repository.ts.
use tpulse_backend.Prelude.{
  ℕ, Bool, true, false, ◌&&◌, ◌||◌, not, Option, none, some, List, [], ◌∷◌, ◌++◌, ◌==◌, ltb, any,
  map, filter, if◌then◌else◌,
}
use tpulse_backend.Db.{Prisma}
use tpulse_backend.Effects.{
  Action, pure, gets, throw_if, write, try_write, modify, transaction, ◌>>=◌, ◌>>◌, not_found,
  conflict,
}
use tpulse_backend.Board.{UserFavourite}
use tpulse_backend.Feed.{PostFavouriteTargets}
use tpulse_backend.Notifications.{distinct_from}
use tpulse_backend.Relations.Types.{Ties, TieEnv, TeamRow, new_id}

pub record AddFavouriteDto : Type 0 where
  pub kind : ℕ
  pub target_id : ℕ

pub data AddOutcome : Type 0 where
  added already : AddOutcome

abbrev pub is_favourite : ℕ → ℕ → ℕ → UserFavourite → Bool
is_favourite user_id kind target_id f =
    f.user_id == user_id && f.kind == kind && f.target_id == target_id

abbrev pub new_favourite : ℕ → ℕ → AddFavouriteDto → UserFavourite
new_favourite id user_id dto = record {
  id = id;
  user_id = user_id;
  kind = dto.kind;
  target_id = dto.target_id;
}

abbrev pub set_favourites : Ties → Option (List UserFavourite) → Option Ties
set_favourites s none = none
set_favourites s (some t) = some (record s { favourites = t })

-- `createMany` with `skipDuplicates`: rows that are there already are passed over.
unfoldable pub create_each : Prisma → TieEnv → ℕ → List AddFavouriteDto → Action Ties (Unit {0})
create_each db env user_id [] = pure tt
create_each db env user_id (dto ∷ dtos) = do
  id ← new_id env
  created ← try_write (λ s. set_favourites s (
      db.create (λ f. f.id == id || is_favourite user_id dto.kind dto.target_id f)
        (new_favourite id user_id dto) s.favourites))
  create_each db env user_id dtos

-- `FavouriteType`: 1 League, 2 Team, 3 Player, 4 Reporter.
abbrev pub target_of : ℕ → UserFavourite → Bool
target_of kind f = f.kind == kind

module _ (db : Prisma) (env : TieEnv) where
  -- `targetExists`
  unfoldable pub favourite_there : ℕ → ℕ → Ties → Bool
  favourite_there kind id s =
      if kind == 1
      then ltb 0 (db.count_rows (λ l. l == id) s.leagues)
      else (if kind == 2
          then ltb 0 (db.count_rows (λ t. t.id == id) s.teams)
          else (if kind == 3
              then ltb 0 (db.count_rows (λ p. p == id) s.players)
              else (if kind == 4 then ltb 0 (db.count_rows (λ u. u.id == id) s.users) else false)))

  unfoldable pub create_favourite : ℕ → AddFavouriteDto → Action Ties AddOutcome
  create_favourite user_id dto = do
    there ← gets (favourite_there dto.kind dto.target_id)
    throw_if (not there) not_found
    id ← new_id env
    write
        (λ s. set_favourites s (
          db.create (λ f. f.id == id || is_favourite user_id dto.kind dto.target_id f)
            (new_favourite id user_id dto) s.favourites))
        conflict
    pure added

  unfoldable pub add_unless : Bool → ℕ → AddFavouriteDto → Action Ties AddOutcome
  unfolding create_favourite
  add_unless true user_id dto = pure already
  add_unless false user_id dto = create_favourite user_id dto

  unfoldable pub add : ℕ → AddFavouriteDto → Action Ties AddOutcome
  unfolding add_unless
  add user_id dto = do
    n ← gets (λ s. db.count_rows (is_favourite user_id dto.kind dto.target_id) s.favourites)
    add_unless (ltb 0 n) user_id dto

  unfoldable pub remove_favourite : ℕ → ℕ → Action Ties (Unit {0})
  remove_favourite user_id id = do
    deleted ← gets (λ s. db.count_rows (λ f. f.id == id && f.user_id == user_id) s.favourites)
    modify (λ s. record s {
      favourites = db.delete_many (λ f. f.id == id && f.user_id == user_id) s.favourites;
    })
    throw_if (not (ltb 0 deleted)) not_found

  -- `replaceSet`
  unfoldable pub set_all : ℕ → List AddFavouriteDto → Action Ties (Unit {0})
  unfolding create_each
  set_all user_id dtos = transaction (do
    modify (λ s. record s { favourites = db.delete_many (λ f. f.user_id == user_id) s.favourites })
    create_each db env user_id dtos)

  abbrev pub targets_of : ℕ → List UserFavourite → List ℕ
  targets_of kind t = map (λ (f : UserFavourite). f.target_id) (filter (target_of kind) t)

  -- A favourite league stands for its teams.
  unfoldable pub get_targets : ℕ → Ties → PostFavouriteTargets
  get_targets user_id s =
      let mine = db.find_many (λ f. f.user_id == user_id) s.favourites in
      let leagues = targets_of 1 mine in
      record {
        player_ids = targets_of 3 mine;
        team_ids = distinct_from [] (
            targets_of 2 mine
            ++ map (λ (t : TeamRow). t.id)
                (db.find_many (λ t. any (λ l. l == t.league_id) leagues) s.teams));
        reporter_user_ids = targets_of 4 mine;
      }
