-- ===== src/Relations/Blocks.antt =====
-- `BlocksService` of blocks.service.ts, with its queries of prisma-block.repository.ts.
use tpulse_backend.Prelude.{
  ℕ, String, Bool, ◌&&◌, not, Option, none, some, List, ◌==◌, ltb, str_eq, if◌then◌else◌,
}
use tpulse_backend.Db.{Prisma}
use tpulse_backend.Effects.{
  Action, pure, gets, throw_if, try_write, modify, ◌>>=◌, ◌>>◌, bad_request, not_found, internal,
}
use tpulse_backend.Relations.Types.{
  Tie, MutedKeyword, Ties, TieEnv, new_id, is_tie, new_tie, has_user,
}

pub data BlockOutcome : Type 0 where
  blocked unblocked muted unmuted unchanged : BlockOutcome

abbrev pub set_blocks : Ties → Option (List Tie) → Option Ties
set_blocks s none = none
set_blocks s (some t) = some (record s { blocks = t })

abbrev pub set_mutes : Ties → Option (List Tie) → Option Ties
set_mutes s none = none
set_mutes s (some t) = some (record s { mutes = t })

abbrev pub set_keywords : Ties → Option (List MutedKeyword) → Option Ties
set_keywords s none = none
set_keywords s (some t) = some (record s { keywords = t })

abbrev pub new_keyword : ℕ → ℕ → String → MutedKeyword
new_keyword id user_id keyword = record { id = id; user_id = user_id; keyword = keyword }

abbrev pub is_keyword : ℕ → String → MutedKeyword → Bool
is_keyword user_id keyword k = k.user_id == user_id && str_eq k.keyword keyword

module _ (db : Prisma) (env : TieEnv) where
  unfoldable pub assert_other_user : ℕ → ℕ → Action Ties (Unit {0})
  assert_other_user user_id target_id = do
    throw_if (user_id == target_id) bad_request
    there ← gets (λ s. db.count_rows (λ u. u.id == target_id) s.users)
    throw_if (not (ltb 0 there)) not_found

  -- `create`, false for P2002.
  unfoldable pub create_block : ℕ → ℕ → Action Ties Bool
  create_block user_id target_id = do
    id ← new_id env
    known ← gets (λ s. has_user user_id s && has_user target_id s)
    throw_if (not known) internal
    try_write (λ s.
        set_blocks s (db.create (is_tie user_id target_id) (new_tie id user_id target_id) s.blocks))

  unfoldable pub block : ℕ → ℕ → Action Ties BlockOutcome
  unfolding assert_other_user create_block
  block user_id target_id = do
    assert_other_user user_id target_id
    created ← create_block user_id target_id
    pure (if created then blocked else unchanged)

  unfoldable pub unblock : ℕ → ℕ → Action Ties BlockOutcome
  unblock user_id target_id = do
    deleted ← gets (λ s. db.count_rows (is_tie user_id target_id) s.blocks)
    modify (λ s. record s { blocks = db.delete_many (is_tie user_id target_id) s.blocks })
    pure (if ltb 0 deleted then unblocked else unchanged)

  unfoldable pub create_mute : ℕ → ℕ → Action Ties Bool
  create_mute user_id target_id = do
    id ← new_id env
    known ← gets (λ s. has_user user_id s && has_user target_id s)
    throw_if (not known) internal
    try_write (λ s.
        set_mutes s (db.create (is_tie user_id target_id) (new_tie id user_id target_id) s.mutes))

  unfoldable pub mute : ℕ → ℕ → Action Ties BlockOutcome
  unfolding assert_other_user create_mute
  mute user_id target_id = do
    assert_other_user user_id target_id
    created ← create_mute user_id target_id
    pure (if created then muted else unchanged)

  unfoldable pub unmute : ℕ → ℕ → Action Ties BlockOutcome
  unmute user_id target_id = do
    deleted ← gets (λ s. db.count_rows (is_tie user_id target_id) s.mutes)
    modify (λ s. record s { mutes = db.delete_many (is_tie user_id target_id) s.mutes })
    pure (if ltb 0 deleted then unmuted else unchanged)

  -- The word as it is kept; `none` if it was there.
  unfoldable pub add_keyword : ℕ → String → Action Ties (Option MutedKeyword)
  add_keyword user_id raw = do
    id ← new_id env
    let keyword = env.to_lower_case (env.trim raw)
    known ← gets (has_user user_id)
    throw_if (not known) internal
    created ← try_write (λ s.
        set_keywords s
          (db.create (is_keyword user_id keyword) (new_keyword id user_id keyword) s.keywords))
    pure (if created then some (new_keyword id user_id keyword) else none)

  unfoldable pub remove_keyword : ℕ → ℕ → Action Ties (Unit {0})
  remove_keyword user_id keyword_id = do
    deleted ← gets (λ s. db.count_rows (λ k. k.id == keyword_id && k.user_id == user_id) s.keywords)
    modify (λ s. record s {
      keywords = db.delete_many (λ k. k.id == keyword_id && k.user_id == user_id) s.keywords;
    })
    throw_if (not (ltb 0 deleted)) not_found
