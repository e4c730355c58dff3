-- ===== src/Messaging/Tests.antt =====
-- Runs of the outbox and its processor at concrete inputs.
use tpulse_backend.Prelude.{◌≡◌, ◌≤◌, ◌⊎◌, refl, true, [], ◌∷◌, length, All, Elem, arith}
use tpulse_backend.Db.Reference.{list_db, list_db-IsPrisma}
use tpulse_backend.Redis.Reference.{list_redis, list_redis-IsRedis}
use tpulse_backend.Prelude.Int.{pos}
use tpulse_backend.Effects.{ok, err, internal}
use tpulse_backend.Board.{Board, post_reaction, OutboxMessage}
use tpulse_backend.Scoring.{recompute, write_score}
use tpulse_backend.Prelude.Sorting.{Sorted}
use tpulse_backend.Samples.{board_env, empty_board, a_post}
use tpulse_backend.Messaging.Outbox.{new_message, batch, is_pending, no_younger, dispatch}
use tpulse_backend.Messaging.Reactions.{new_like, handle_post_reaction, react_to_post}
use tpulse_backend.Messaging.Processor.{process, handle}
use tpulse_backend.Messaging.LikeCounts.{IsSound}
use tpulse_backend.Messaging.Likes.{handle_post_reaction-IsSound}
use tpulse_backend.Messaging.Delivery.{process_retry, process_once}
use tpulse_backend.Messaging.Dispatch.{dispatch_lem}

-- Message 1 likes a post that is there, and message 2 one that is not.
abbrev waiting : Board
waiting = record empty_board {
  outbox = new_message 1 7 (post_reaction 2 9 true) ∷ new_message 2 3 (post_reaction 5 9 true) ∷ [];
}

empty_board-IsSound : IsSound empty_board
empty_board-IsSound = record { counted = (refl, (refl, tt)); unique = tt }

handle_post_reaction-IsSound_example :
    IsSound (handle_post_reaction list_db (board_env 10) 2 9 true empty_board).1
handle_post_reaction-IsSound_example =
    handle_post_reaction-IsSound list_db list_db-IsPrisma (board_env 10) 2 9 true empty_board
      empty_board-IsSound (omega arith)

process_retry_example :
    process list_redis list_db
      (board_env 2010)
      2
      (process list_redis list_db (board_env 10) 2 waiting).1
    ≡ (ok tt, (process list_redis list_db (board_env 10) 2 waiting).1)
unfolding process handle handle_post_reaction react_to_post
process_retry_example =
    process_retry list_redis list_redis-IsRedis list_db list_db-IsPrisma (board_env 10)
      (board_env 2010) 2 waiting internal refl refl (omega arith) refl

process_once_example :
    process list_redis list_db
      (board_env 900000)
      1
      (process list_redis list_db (board_env 10) 1 waiting).1
    ≡ (ok tt, (process list_redis list_db (board_env 10) 1 waiting).1)
unfolding process handle handle_post_reaction react_to_post recompute write_score
    tpulse_backend.Prelude.Int.◌+ℤ◌
process_once_example =
    process_once list_redis list_redis-IsRedis list_db list_db-IsPrisma (board_env 10)
      (board_env 900000) 1 waiting refl refl

dispatch_example :
    (length (dispatch list_db waiting) ≤ batch)
    × All (λ m. is_pending m ≡ true) (dispatch list_db waiting)
    × Sorted no_younger (dispatch list_db waiting)
    × ((m : OutboxMessage)
        → Elem m waiting.outbox
        → is_pending m ≡ true
        → Elem m (dispatch list_db waiting)
          ⊎ ((length (dispatch list_db waiting) ≡ batch)
              × All (λ n. no_younger n m ≡ true) (dispatch list_db waiting)))
dispatch_example = dispatch_lem list_db list_db-IsPrisma waiting

-- A post whose count of likes is as large as the column can hold.
abbrev full : Board
full = record empty_board { posts = record (a_post 1 7 "goal") { like_count = pos 32767 } ∷ [] }

-- A like of it fails, and the row of the like stays.
like_over :
    handle_post_reaction list_db (board_env 10) 1 9 true full
    ≡ (err internal, record full { post_likes = new_like 1000 1 9 ∷ []; draws = 1 })
unfolding handle_post_reaction react_to_post tpulse_backend.Prelude.Int.◌+ℤ◌
like_over = refl

-- The second delivery finds the row and succeeds without counting it.
like_over_again :
    (handle_post_reaction list_db
      (board_env 10)
      1
      9
      true
      (handle_post_reaction list_db (board_env 10) 1 9 true full).1).0
    ≡ ok tt
unfolding handle_post_reaction react_to_post recompute write_score tpulse_backend.Prelude.Int.◌+ℤ◌
like_over_again = refl
