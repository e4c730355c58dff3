-- ===== src/Relations/Follows.antt =====
-- `FollowsService` of follows.service.ts, with its queries of prisma-follow.repository.ts.
use tpulse_backend.Prelude.{
  ℕ, Bool, ◌&&◌, not, Option, none, some, List, ◌==◌, ltb, map, if◌then◌else◌,
}
use tpulse_backend.Db.{Prisma}
use tpulse_backend.Effects.{
  Action, pure, gets, throw_if, try_write, modify, ◌>>=◌, ◌>>◌, bad_request, not_found, internal,
}
use tpulse_backend.Relations.Types.{Tie, Ties, TieEnv, new_id, is_tie, new_tie, has_user}

pub data FollowOutcome : Type 0 where
  followed unfollowed as_before : FollowOutcome

abbrev pub set_follows : Ties → Option (List Tie) → Option Ties
set_follows s none = none
set_follows s (some t) = some (record s { follows = t })

module _ (db : Prisma) (env : TieEnv) where
  unfoldable pub create_follow : ℕ → ℕ → Action Ties Bool
  create_follow follower_id target_id = do
    id ← new_id env
    known ← gets (λ s. has_user follower_id s && has_user target_id s)
    throw_if (not known) internal
    try_write (λ s.
        set_follows s
          (db.create (is_tie follower_id target_id) (new_tie id follower_id target_id) s.follows))

  unfoldable pub follow : ℕ → ℕ → Action Ties FollowOutcome
  unfolding create_follow
  follow follower_id target_id = do
    throw_if (follower_id == target_id) bad_request
    there ← gets (λ s. db.count_rows (λ u. u.id == target_id) s.users)
    throw_if (not (ltb 0 there)) not_found
    created ← create_follow follower_id target_id
    pure (if created then followed else as_before)

  unfoldable pub unfollow : ℕ → ℕ → Action Ties FollowOutcome
  unfollow follower_id target_id = do
    deleted ← gets (λ s. db.count_rows (is_tie follower_id target_id) s.follows)
    modify (λ s. record s { follows = db.delete_many (is_tie follower_id target_id) s.follows })
    pure (if ltb 0 deleted then unfollowed else as_before)

  abbrev pub following_ids : ℕ → Ties → List ℕ
  following_ids user_id s =
      map (λ (t : Tie). t.to_id) (db.find_many (λ t. t.from_id == user_id) s.follows)
