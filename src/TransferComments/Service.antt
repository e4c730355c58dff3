-- ===== src/TransferComments/Service.antt =====
-- The methods of `TransferCommentsService` that change a comment, with their queries of
-- prisma-transfer-comment.repository.ts. Nothing here goes over the outbox.
use tpulse_backend.Prelude.{
  ℕ, ◌+◌, String, Bool, true, ◌&&◌, ◌||◌, not, Option, none, some, List, [], ◌∷◌, ◌==◌, ltb, any,
  if◌then◌else◌,
}
use tpulse_backend.Prelude.Int.{ℤ, pos, negsuc, ◌+ℤ◌}
use tpulse_backend.Db.{Prisma}
use tpulse_backend.Effects.{
  Action, pure, gets, or_throw, throw_if, try_write, write, when, modify, ◌>>=◌, ◌>>◌, not_found,
  forbidden, conflict, internal,
}
use tpulse_backend.Board.{Env}
use tpulse_backend.Comments.{is_among, parent_among, CreateCommentDto}

pub record TransferComment : Type 0 where
  pub id : ℕ
  pub transfer_id : ℕ
  pub owner_id : ℕ
  pub content : Option String
  pub parent_id : Option ℕ
  pub like_count : ℤ
  pub created_at_utc : ℕ

pub record TransferCommentLike : Type 0 where
  pub id : ℕ
  pub transfer_comment_id : ℕ
  pub user_id : ℕ

-- The columns of `transfer` that are asked for here.
pub record TransferRow : Type 0 where
  pub id : ℕ
  pub is_deleted : Bool

pub record Talk : Type 0 where
  pub comments : List TransferComment
  pub likes : List TransferCommentLike
  pub transfers : List TransferRow
  pub draws : ℕ

abbrev pub set_talk : Talk → Option (List TransferComment) → Option Talk
set_talk s none = none
set_talk s (some t) = some (record s { comments = t })

abbrev pub set_talk_likes : Talk → Option (List TransferCommentLike) → Option Talk
set_talk_likes s none = none
set_talk_likes s (some t) = some (record s { likes = t })

abbrev pub new_transfer_comment : ℕ → ℕ → ℕ → ℕ → CreateCommentDto → TransferComment
new_transfer_comment id now transfer_id user_id dto = record {
  id = id;
  transfer_id = transfer_id;
  owner_id = user_id;
  content = some dto.content;
  parent_id = dto.parent_id;
  like_count = pos 0;
  created_at_utc = now;
}

abbrev pub is_talk_like : ℕ → ℕ → TransferCommentLike → Bool
is_talk_like comment_id user_id l = l.transfer_comment_id == comment_id && l.user_id == user_id

abbrev pub new_talk_like : ℕ → ℕ → ℕ → TransferCommentLike
new_talk_like id comment_id user_id = record {
  id = id;
  transfer_comment_id = comment_id;
  user_id = user_id;
}

abbrev pub talk_content : String → TransferComment → TransferComment
talk_content content c = record c { content = some content }

abbrev pub add_talk_like : ℤ → TransferComment → TransferComment
add_talk_like d c = record c { like_count = c.like_count +ℤ d }

-- The foreign key of `parentId`.
abbrev pub has_talk_parent : Option ℕ → List TransferComment → Bool
has_talk_parent none t = true
has_talk_parent (some parent) t = any (λ c. c.id == parent) t

-- The comment and all that answer it, directly or not, the newest row first.
unfoldable pub doomed_talk : ℕ → List TransferComment → List ℕ
doomed_talk id [] = []
doomed_talk id (c ∷ t) =
    let older = doomed_talk id t in
    if c.id == id || parent_among older c.parent_id then c.id ∷ older else older

module _ (db : Prisma) (env : Env) where
  unfoldable pub create_talk : ℕ → ℕ → CreateCommentDto → Action Talk ℕ
  create_talk transfer_id user_id dto = do
    here ← gets (λ s. db.count_rows (λ t. t.id == transfer_id && not t.is_deleted) s.transfers)
    throw_if (not (ltb 0 here)) not_found
    n ← gets (λ s. s.draws)
    modify (λ s. record s { draws = n + 1 })
    there ← gets (λ s. has_talk_parent dto.parent_id s.comments)
    throw_if (not there) internal
    let row = new_transfer_comment (env.uuid n) env.now transfer_id user_id dto
    write (λ s. set_talk s (db.create (λ c. c.id == env.uuid n) row s.comments)) conflict
    pure (env.uuid n)

  unfoldable pub find_talk : ℕ → Action Talk TransferComment
  find_talk id = do
    found ← gets (λ s. db.find_first (λ c. c.id == id) s.comments)
    or_throw found not_found

  unfoldable pub change_talk : ℕ → (TransferComment → TransferComment) → Action Talk (Unit {0})
  change_talk id f = write (λ s. set_talk s (db.update (λ c. c.id == id) f s.comments)) internal

  -- `delete`, with the rows that the foreign keys delete.
  unfoldable pub talk_cascade : ℕ → Action Talk (Unit {0})
  talk_cascade id = modify (λ s.
      let ids = doomed_talk id s.comments in
      record s {
        comments = db.delete_many (λ c. is_among ids c.id) s.comments;
        likes = db.delete_many (λ l. is_among ids l.transfer_comment_id) s.likes;
      })

  unfoldable pub assert_talk_owner : ℕ → ℕ → Action Talk (Unit {0})
  unfolding find_talk
  assert_talk_owner id user_id = do
    comment ← find_talk id
    throw_if (not (comment.owner_id == user_id)) forbidden

  unfoldable pub update_talk : ℕ → ℕ → String → Action Talk (Unit {0})
  unfolding assert_talk_owner change_talk
  update_talk id user_id content = do
    assert_talk_owner id user_id
    change_talk id (talk_content content)

  unfoldable pub remove_talk : ℕ → ℕ → Action Talk (Unit {0})
  unfolding assert_talk_owner talk_cascade
  remove_talk id user_id = do assert_talk_owner id user_id; talk_cascade id

  unfoldable pub admin_remove_talk : ℕ → Action Talk (Unit {0})
  unfolding find_talk talk_cascade
  admin_remove_talk id = do comment ← find_talk id; talk_cascade id

  -- The like and the counter are two writes; a like that is there already is passed over.
  unfoldable pub like_talk : ℕ → ℕ → Action Talk (Unit {0})
  unfolding change_talk
  like_talk comment_id user_id = do
    n ← gets (λ s. s.draws)
    modify (λ s. record s { draws = n + 1 })
    created ← try_write (λ s. set_talk_likes s (
        db.create (is_talk_like comment_id user_id) (new_talk_like (env.uuid n) comment_id user_id)
          s.likes))
    when created (change_talk comment_id (add_talk_like (pos 1)))

  unfoldable pub unlike_talk : ℕ → ℕ → Action Talk (Unit {0})
  unfolding change_talk
  unlike_talk comment_id user_id = do
    deleted ← gets (λ s. db.count_rows (is_talk_like comment_id user_id) s.likes)
    modify (λ s. record s { likes = db.delete_many (is_talk_like comment_id user_id) s.likes })
    when (ltb 0 deleted) (change_talk comment_id (add_talk_like (negsuc 0)))

  unfoldable pub react_talk : ℕ → ℕ → Bool → Action Talk (Unit {0})
  unfolding like_talk unlike_talk
  react_talk comment_id user_id likes = do
    here ← gets (λ s. db.count_rows (λ c. c.id == comment_id) s.comments)
    throw_if (not (ltb 0 here)) not_found
    (if likes then like_talk comment_id user_id else unlike_talk comment_id user_id)
