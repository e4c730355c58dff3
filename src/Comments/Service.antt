-- ===== src/Comments/Service.antt =====
-- The methods of `CommentsService` that change a comment or queue a change, with their queries of
-- prisma-comment.repository.ts.
use tpulse_backend.Prelude.{ℕ, String, Bool, not, Option, some, ◌==◌, ltb}
use tpulse_backend.Db.{Prisma}
use tpulse_backend.Effects.{Action, gets, or_throw, throw_if, ◌>>=◌, ◌>>◌, not_found, forbidden}
use tpulse_backend.Board.{Board, Env, comment_create, comment_reaction, Comment}
use tpulse_backend.Messaging.{enqueue, change_comment}
use tpulse_backend.Comments.Removal.{comment_cascade}

pub record CreateCommentDto : Type 0 where
  pub content : String
  pub parent_id : Option ℕ

abbrev pub with_content : String → Comment → Comment
with_content content c = record c { content = some content }

module _ (db : Prisma) (env : Env) where
  -- The parent is not looked at here.
  unfoldable pub create_async : ℕ → ℕ → CreateCommentDto → Action Board (Unit {0})
  create_async post_id user_id dto = do
    here ← gets (λ s. db.count_rows (λ p. p.id == post_id) s.posts)
    throw_if (not (ltb 0 here)) not_found
    enqueue db env (comment_create user_id post_id (some dto.content) dto.parent_id env.now)

  -- `getOwner`
  unfoldable pub find_comment : ℕ → Action Board Comment
  find_comment id = do
    found ← gets (λ s. db.find_first (λ c. c.id == id) s.comments)
    or_throw found not_found

  unfoldable pub assert_owner : ℕ → ℕ → Action Board (Unit {0})
  unfolding find_comment
  assert_owner id user_id = do
    comment ← find_comment id
    throw_if (not (comment.owner_id == user_id)) forbidden

  unfoldable pub update_comment : ℕ → ℕ → String → Action Board (Unit {0})
  unfolding assert_owner
  update_comment id user_id content = do
    assert_owner id user_id
    change_comment db env id (with_content content)

  unfoldable pub remove_comment : ℕ → ℕ → Action Board (Unit {0})
  unfolding assert_owner
  remove_comment id user_id = do assert_owner id user_id; comment_cascade db id

  unfoldable pub admin_remove_comment : ℕ → Action Board (Unit {0})
  unfolding find_comment
  admin_remove_comment id = do comment ← find_comment id; comment_cascade db id

  unfoldable pub react_async : ℕ → ℕ → Bool → Action Board (Unit {0})
  react_async comment_id user_id likes = do
    here ← gets (λ s. db.count_rows (λ c. c.id == comment_id) s.comments)
    throw_if (not (ltb 0 here)) not_found
    enqueue db env (comment_reaction comment_id user_id likes)
