-- ===== src/Transfers/Admin.antt =====
-- `AdminTransfersService` of admin-transfers.service.ts.
use tpulse_backend.Prelude.{ℕ, not}
use tpulse_backend.Db.{Prisma}
use tpulse_backend.Effects.{
  Action, pure, gets, throw_if, transaction, ◌>>=◌, ◌>>◌, not_found, conflict,
}
use tpulse_backend.Board.{Env}
use tpulse_backend.Transfers.Types.{CreateTransferDto, PatchTransferDto, Market}
use tpulse_backend.Transfers.Repository.{
  new_transfer, with_transfer, with_patch, insert_transfer, change_transfer, rewrite_transfer,
  soft_delete, exists_duplicate, announce, invalidate_transfers,
}

module _ (db : Prisma) (env : Env) where
  unfoldable pub create_transfer : CreateTransferDto → ℕ → Action Market ℕ
  unfolding exists_duplicate insert_transfer announce
  create_transfer dto user_id = do
    dup ← gets (exists_duplicate db env dto)
    throw_if dup conflict
    id ← transaction (do
      created ← insert_transfer db env (λ id. new_transfer id env.now dto user_id)
      announce db env created
      pure created)
    invalidate_transfers db env
    pure id

  unfoldable pub update_transfer : ℕ → CreateTransferDto → Action Market (Unit {0})
  unfolding rewrite_transfer
  update_transfer id dto = do
    found ←
        rewrite_transfer db env id dto.player_id dto.from_team_id dto.to_team_id (with_transfer dto)
    throw_if (not found) not_found
    invalidate_transfers db env

  unfoldable pub patch_transfer : ℕ → PatchTransferDto → Action Market (Unit {0})
  unfolding change_transfer
  patch_transfer id dto = do
    found ← change_transfer db env id (with_patch dto)
    throw_if (not found) not_found
    invalidate_transfers db env

  unfoldable pub remove_transfer : ℕ → Action Market (Unit {0})
  unfolding soft_delete
  remove_transfer id = do
    found ← soft_delete db env id
    throw_if (not found) not_found
    invalidate_transfers db env
