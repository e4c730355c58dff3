-- ===== src/Transfers/Repository.antt =====
-- The writes of prisma-transfer.repository.ts, and what soft-delete.extension.ts makes of its queries.
use tpulse_backend.Prelude.{
  ℕ, ◌+◌, String, Bool, true, false, ◌&&◌, not, Option, none, some, List, ◌==◌, any, is_some,
}
use tpulse_backend.Db.{Prisma}
use tpulse_backend.Effects.{
  Action, ok, pure, gets, throw_if, try_write, write, modify, ◌>>=◌, ◌>>◌, not_found, conflict,
}
use tpulse_backend.Board.{Env, fresh, Event}
use tpulse_backend.Messaging.{enqueue}
use tpulse_backend.Transfers.Types.{
  Transfer, manual, CreateTransferDto, PatchTransferDto, CreateRumourDto, ConfirmRumourDto, Market,
}

abbrev pub set_transfers : Market → Option (List Transfer) → Option Market
set_transfers m none = none
set_transfers m (some t) = some (record m { transfers = t })

-- `notDeletedWhere`
abbrev pub not_deleted : (Transfer → Bool) → Transfer → Bool
not_deleted p t = not t.is_deleted && p t

abbrev pub is_same_move : CreateTransferDto → Transfer → Bool
is_same_move dto t =
    t.player_id == dto.player_id
    && t.from_team_id == dto.from_team_id
    && t.to_team_id == dto.to_team_id
    && t.transfer_date == dto.transfer_date

abbrev pub new_transfer : ℕ → ℕ → CreateTransferDto → ℕ → Transfer
new_transfer id now dto user = record {
  id = id;
  player_id = dto.player_id;
  from_team_id = dto.from_team_id;
  to_team_id = dto.to_team_id;
  transfer_date = dto.transfer_date;
  fee_amount = dto.fee_amount;
  fee_currency = dto.fee_currency;
  created_by_user_id = some user;
  is_rumour = false;
  is_deleted = false;
  source = manual;
  source_id = none;
  created_at = now;
  updated_at = none;
}

abbrev pub given_or {ℓ} : {A : Type ℓ} → Option A → A → A
given_or none a = a
given_or (some a) b = a

abbrev pub default_currency : String
default_currency = "EUR"

abbrev pub new_rumour : ℕ → ℕ → CreateRumourDto → ℕ → Transfer
new_rumour id now dto user = record {
  id = id;
  player_id = dto.player_id;
  from_team_id = dto.from_team_id;
  to_team_id = dto.to_team_id;
  transfer_date = now;
  fee_amount = given_or dto.fee_amount 0;
  fee_currency = given_or dto.fee_currency default_currency;
  created_by_user_id = some user;
  is_rumour = true;
  is_deleted = false;
  source = manual;
  source_id = none;
  created_at = now;
  updated_at = none;
}

abbrev pub with_transfer : CreateTransferDto → Transfer → Transfer
with_transfer dto t = record t {
  player_id = dto.player_id;
  from_team_id = dto.from_team_id;
  to_team_id = dto.to_team_id;
  transfer_date = dto.transfer_date;
  fee_amount = dto.fee_amount;
  fee_currency = dto.fee_currency;
}

-- A field that is undefined is left as it is.
abbrev pub with_patch : PatchTransferDto → Transfer → Transfer
with_patch dto t = record t {
  fee_amount = given_or dto.fee_amount t.fee_amount;
  fee_currency = given_or dto.fee_currency t.fee_currency;
  transfer_date = given_or dto.transfer_date t.transfer_date;
}

abbrev pub with_rumour : CreateRumourDto → Transfer → Transfer
with_rumour dto t = record t {
  player_id = dto.player_id;
  from_team_id = dto.from_team_id;
  to_team_id = dto.to_team_id;
  fee_amount = given_or dto.fee_amount 0;
  fee_currency = given_or dto.fee_currency default_currency;
}

abbrev pub confirmed : ℕ → ConfirmRumourDto → Transfer → Transfer
confirmed now dto t = record t {
  is_rumour = false;
  fee_amount = dto.fee_amount;
  fee_currency = dto.fee_currency;
  transfer_date = dto.transfer_date;
  updated_at = some now;
}

abbrev pub deleted : Transfer → Transfer
deleted t = record t { is_deleted = true }

-- The foreign keys of `transfers`.
abbrev pub has_parties : (player from_team to_team : ℕ) → Market → Bool
has_parties player from to m =
    any (λ p. p == player) m.players && any (λ t. t == from) m.teams && any (λ t. t == to) m.teams

module _ (db : Prisma) (env : Env) where
  abbrev pub market_id : Action Market ℕ
  market_id m = (ok (env.uuid m.board.draws), record m { board = (fresh env m.board).1 })

  -- P2003 is answered as 404.
  unfoldable pub insert_transfer : (ℕ → Transfer) → Action Market ℕ
  insert_transfer row = do
    id ← market_id
    there ← gets (has_parties (row id).player_id (row id).from_team_id (row id).to_team_id)
    throw_if (not there) not_found
    write (λ m. set_transfers m (db.create (λ t. t.id == id) (row id) m.transfers)) conflict
    pure id

  -- P2025 is answered as false.
  unfoldable pub change_transfer : ℕ → (Transfer → Transfer) → Action Market Bool
  change_transfer id f =
      try_write (λ m. set_transfers m (db.update (λ t. t.id == id) f m.transfers))

  -- A write that names players and teams: an unknown one is answered as 404.
  unfoldable pub rewrite_transfer :
      ℕ → (player from_team to_team : ℕ) → (Transfer → Transfer) → Action Market Bool
  unfolding change_transfer
  rewrite_transfer id player from to f = do
    row ← gets (λ m. db.count_rows (λ t. t.id == id) m.transfers)
    there ← gets (has_parties player from to)
    throw_if (not (row == 0) && not there) not_found
    change_transfer id f

  -- The extension turns `delete` into an update.
  unfoldable pub soft_delete : ℕ → Action Market Bool
  unfolding change_transfer
  soft_delete id = change_transfer id deleted

  unfoldable pub exists_duplicate : CreateTransferDto → Market → Bool
  exists_duplicate dto m = is_some (db.find_first (not_deleted (is_same_move dto)) m.transfers)

  -- `getRumourMeta`
  unfoldable pub find_rumour : ℕ → Market → Option Transfer
  find_rumour id m = db.find_first (not_deleted (λ t. t.id == id && t.is_rumour)) m.transfers

  unfoldable pub announce : ℕ → Action Market (Unit {0})
  announce transfer_id m =
      let (r, board) = enqueue db env (Event.notification_generate transfer_id) m.board in
      (r, record m { board = board })

  abbrev pub invalidate_transfers : Action Market (Unit {0})
  invalidate_transfers = modify (λ m. record m { invalidations = m.invalidations + 1 })
