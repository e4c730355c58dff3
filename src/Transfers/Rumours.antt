-- ===== src/Transfers/Rumours.antt =====
-- `RumourWriteService` of rumour-write.service.ts.
use tpulse_backend.Prelude.{ℕ, Bool, ◌&&◌, not, str_eq}
use tpulse_backend.Db.{Prisma}
use tpulse_backend.Effects.{
  Action, pure, gets, or_throw, throw_if, transaction, ◌>>=◌, ◌>>◌, not_found, forbidden,
}
use tpulse_backend.Board.{Env, opt_eq}
use tpulse_backend.Prelude.{some}
use tpulse_backend.Transfers.Types.{AuthUser, CreateRumourDto, ConfirmRumourDto, Transfer, Market}
use tpulse_backend.Transfers.Repository.{
  new_rumour, with_rumour, confirmed, insert_transfer, change_transfer, rewrite_transfer,
  soft_delete, find_rumour, announce, invalidate_transfers,
}

-- Neither the author nor an admin.
abbrev pub is_stranger : AuthUser → Transfer → Bool
is_stranger user t =
    not (opt_eq t.created_by_user_id (some user.user_id)) && not (str_eq user.role "Admin")

module _ (db : Prisma) (env : Env) where
  unfoldable pub create_rumour : CreateRumourDto → ℕ → Action Market ℕ
  unfolding insert_transfer announce
  create_rumour dto user_id = do
    id ← transaction (do
      created ← insert_transfer db env (λ id. new_rumour id env.now dto user_id)
      announce db env created
      pure created)
    invalidate_transfers db env
    pure id

  unfoldable pub assert_author_or_admin : ℕ → AuthUser → Action Market (Unit {0})
  unfolding find_rumour
  assert_author_or_admin id user = do
    found ← gets (find_rumour db env id)
    rumour ← or_throw found not_found
    throw_if (is_stranger user rumour) forbidden

  -- What the repository answers is not looked at.
  unfoldable pub update_rumour : ℕ → AuthUser → CreateRumourDto → Action Market (Unit {0})
  unfolding assert_author_or_admin rewrite_transfer
  update_rumour id user dto = do
    assert_author_or_admin id user
    found ←
        rewrite_transfer db env id dto.player_id dto.from_team_id dto.to_team_id (with_rumour dto)
    invalidate_transfers db env

  unfoldable pub remove_rumour : ℕ → AuthUser → Action Market (Unit {0})
  unfolding assert_author_or_admin soft_delete
  remove_rumour id user = do
    assert_author_or_admin id user
    found ← soft_delete db env id
    invalidate_transfers db env

  unfoldable pub confirm_rumour : ℕ → ConfirmRumourDto → Action Market ℕ
  unfolding find_rumour change_transfer announce
  confirm_rumour id dto = do
    found ← gets (find_rumour db env id)
    rumour ← or_throw found not_found
    transaction (do done ← change_transfer db env id (confirmed env.now dto); announce db env id)
    invalidate_transfers db env
    pure id
