-- ===== src/Comments/Tests.antt =====
-- Runs of the comments at concrete inputs.
use tpulse_backend.Prelude.{ℕ, refl, false, none, some, Option, List, [], ◌∷◌, arith}
use tpulse_backend.Prelude.Int.{pos}
use tpulse_backend.Db.Reference.{list_db, list_db-IsPrisma}
use tpulse_backend.Board.{Board, Comment}
use tpulse_backend.Samples.{board_env, empty_board}
use tpulse_backend.Messaging.{handle_comment_create}
use tpulse_backend.Comments.Service.{remove_comment}
use tpulse_backend.Comments.Tree.{Owner, to_dto, build_comment_tree}
use tpulse_backend.Comments.Completeness.{IsTree, build_comment_tree-IsTree}
use tpulse_backend.Comments.Cascade.{IsLinked}
use tpulse_backend.Comments.Runs.{Reach-IsLinked, next, here, answer, remove}

abbrev a_comment : ℕ → Option ℕ → ℕ → Comment
a_comment id parent at = record {
  id = id;
  owner_id = 7;
  content = some "yes";
  post_id = 1;
  parent_id = parent;
  like_count = pos 0;
  created_at_utc = at;
}

abbrev owner : ℕ → Owner
owner id = record { username = "ada"; profile_pic = none; verification_type = none }

-- A reply to a reply, listed before the comment that it goes back to.
abbrev chain : List Comment
chain = a_comment 3 (some 2) 30 ∷ a_comment 2 (some 1) 20 ∷ a_comment 1 none 10 ∷ []

build_comment_tree-IsTree_example :
    IsTree chain (to_dto owner (λ id. false)) (build_comment_tree chain owner (λ id. false))
build_comment_tree-IsTree_example =
    build_comment_tree-IsTree chain owner (λ id. false)
      (λ q e. ground (arith, e), (λ q e. ground (arith, e), (λ q e. ground (arith, e), tt)))
      (refl, (refl, (refl, tt)))

-- A comment and an answer to it, and then the comment is removed.
abbrev answered : Board
answered =
    (handle_comment_create list_db (board_env 5) 8 1 (some "no") (some 1000) 5
      (handle_comment_create list_db (board_env 4) 7 1 (some "yes") none 4 empty_board).1).1

Reach-IsLinked_example : IsLinked (remove_comment list_db (board_env 6) 1000 7 answered).1
Reach-IsLinked_example =
    Reach-IsLinked list_db list_db-IsPrisma
      (next
        (next (next here (answer (board_env 4) 7 1 (some "yes") none 4 empty_board)) (
          answer (board_env 5) 8 1 (some "no") (some 1000) 5
            (handle_comment_create list_db (board_env 4) 7 1 (some "yes") none 4 empty_board).1))
        (remove (board_env 6) 1000 7 answered))
      (record { threaded = tt; liked = tt })
