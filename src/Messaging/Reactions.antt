-- ===== src/Messaging/Reactions.antt =====
-- The handlers of reaction.processor.ts.
use tpulse_backend.Prelude.{
  ℕ, String, Bool, true, false, ◌&&◌, not, Option, none, some, List, ltb, leb, ◌==◌, any, is_some,
}
use tpulse_backend.Prelude.Int.{ℤ, pos, negsuc, ◌+ℤ◌}
use tpulse_backend.Db.{Prisma}
use tpulse_backend.Effects.{
  Action, ok, pure, gets, throw_if, try_write, write, when, transaction, ◌>>=◌, ◌>>◌, conflict,
  internal,
}
use tpulse_backend.Board.{Board, Env, Post, PostLike, Comment, CommentLike, fresh, set_posts}
use tpulse_backend.Scoring.{recompute}

abbrev pub one : ℤ
one = pos 1

abbrev pub minus_one : ℤ
minus_one = negsuc 0

-- The values of a column of type SmallInt, as both counts of likes are.
abbrev pub fits_small : ℤ → Bool
fits_small (pos n) = leb n 32767
fits_small (negsuc n) = leb n 32767

-- The row with its count changed; `count_like` refuses a value that the column does not hold.
abbrev pub add_like : ℤ → Post → Post
add_like d p = record p { like_count = p.like_count +ℤ d }

abbrev pub add_comment : ℤ → Post → Post
add_comment d p = record p { comment_count = p.comment_count +ℤ d }

abbrev pub add_comment_like : ℤ → Comment → Comment
add_comment_like d c = record c { like_count = c.like_count +ℤ d }

abbrev pub set_comments : Board → Option (List Comment) → Option Board
set_comments s none = none
set_comments s (some t) = some (record s { comments = t })

abbrev pub set_post_likes : Board → Option (List PostLike) → Option Board
set_post_likes s none = none
set_post_likes s (some t) = some (record s { post_likes = t })

abbrev pub set_comment_likes : Board → Option (List CommentLike) → Option Board
set_comment_likes s none = none
set_comment_likes s (some t) = some (record s { comment_likes = t })

abbrev pub is_like : ℕ → ℕ → PostLike → Bool
is_like post_id user_id l = l.post_id == post_id && l.user_id == user_id

abbrev pub is_comment_like : ℕ → ℕ → CommentLike → Bool
is_comment_like comment_id user_id l = l.comment_id == comment_id && l.user_id == user_id

abbrev pub new_like : ℕ → ℕ → ℕ → PostLike
new_like id post_id user_id = record { id = id; post_id = post_id; user_id = user_id }

abbrev pub new_comment_like : ℕ → ℕ → ℕ → CommentLike
new_comment_like id comment_id user_id = record {
  id = id;
  comment_id = comment_id;
  user_id = user_id;
}

abbrev pub new_comment : ℕ → ℕ → ℕ → Option String → Option ℕ → ℕ → Comment
new_comment id user_id post_id content parent_id created_at = record {
  id = id;
  owner_id = user_id;
  content = content;
  post_id = post_id;
  parent_id = parent_id;
  like_count = pos 0;
  created_at_utc = created_at;
}

-- A new row of `post` with the column defaults of the schema.
abbrev pub new_post : ℕ → Env → ℕ → String → ℕ → Bool → (player team from to : Option ℕ) → ℕ → Post
new_post id env user_id content post_type voting player team from to created_at = record {
  id = id;
  owner_id = user_id;
  content = content;
  post_type = post_type;
  player_id = player;
  team_id = team;
  from_team_id = from;
  to_team_id = to;
  like_count = pos 0;
  is_voting_enabled = voting;
  agree_count = pos 0;
  disagree_count = pos 0;
  comment_count = pos 0;
  hot_score = env.doubles.of_int (pos 0);
  score_updated_at = env.now;
  created_at_utc = created_at;
}

-- The parent, if one is named, has to be there: the foreign key of `parentId`.
abbrev pub has_parent : Option ℕ → List Comment → Bool
has_parent none t = true
has_parent (some parent) t = any (λ c. c.id == parent) t

module _ (db : Prisma) (env : Env) where
  unfoldable pub change_post : ℕ → (Post → Post) → Action Board (Unit {0})
  change_post post_id f =
      write (λ s. set_posts s (db.update (λ p. p.id == post_id) f s.posts)) internal

  unfoldable pub change_comment : ℕ → (Comment → Comment) → Action Board (Unit {0})
  change_comment comment_id f =
      write (λ s. set_comments s (db.update (λ c. c.id == comment_id) f s.comments)) internal

  -- The update of `likeCount`: the database refuses a value out of the range of the column.
  unfoldable pub count_like : ℕ → ℤ → Action Board (Unit {0})
  unfolding change_post
  count_like post_id d = do
    over ← gets (λ s. any (λ p. p.id == post_id && not (fits_small (p.like_count +ℤ d))) s.posts)
    throw_if over internal
    change_post post_id (add_like d)

  unfoldable pub count_comment_like : ℕ → ℤ → Action Board (Unit {0})
  unfolding change_comment
  count_comment_like comment_id d = do
    over ←
        gets (λ s. any (λ c. c.id == comment_id && not (fits_small (c.like_count +ℤ d))) s.comments)
    throw_if over internal
    change_comment comment_id (add_comment_like d)

  -- `postLike.create`: the foreign key wants the post, the unique constraint a new pair. The reply
  -- is false for P2002.
  unfoldable pub create_like : ℕ → ℕ → Action Board Bool
  create_like post_id user_id = do
    id ← fresh env
    there ← gets (λ s. any (λ p. p.id == post_id) s.posts)
    throw_if (not there) internal
    try_write (λ s.
        set_post_likes s
          (db.create (is_like post_id user_id) (new_like id post_id user_id) s.post_likes))

  -- `deleteMany`, with the number of rows deleted.
  unfoldable pub delete_likes : ℕ → ℕ → Action Board ℕ
  delete_likes post_id user_id s = (
    ok (db.count_rows (is_like post_id user_id) s.post_likes),
    record s { post_likes = db.delete_many (is_like post_id user_id) s.post_likes },
  )

  unfoldable pub react_to_post : ℕ → ℕ → Bool → Action Board (Unit {0})
  unfolding create_like delete_likes count_like
  react_to_post post_id user_id true = do
    created ← create_like post_id user_id
    when created (count_like post_id one)
  react_to_post post_id user_id false = do
    deleted ← delete_likes post_id user_id
    when (ltb 0 deleted) (count_like post_id minus_one)

  unfoldable pub handle_post_reaction : ℕ → ℕ → Bool → Action Board (Unit {0})
  handle_post_reaction post_id user_id likes = do
    react_to_post post_id user_id likes
    recompute db env post_id

  unfoldable pub create_comment_like : ℕ → ℕ → Action Board Bool
  create_comment_like comment_id user_id = do
    id ← fresh env
    there ← gets (λ s. any (λ c. c.id == comment_id) s.comments)
    throw_if (not there) internal
    try_write (λ s. set_comment_likes s (
        db.create (is_comment_like comment_id user_id) (new_comment_like id comment_id user_id)
          s.comment_likes))

  unfoldable pub delete_comment_likes : ℕ → ℕ → Action Board ℕ
  delete_comment_likes comment_id user_id s = (
    ok (db.count_rows (is_comment_like comment_id user_id) s.comment_likes),
    record s {
      comment_likes = db.delete_many (is_comment_like comment_id user_id) s.comment_likes;
    },
  )

  unfoldable pub handle_comment_reaction : ℕ → ℕ → Bool → Action Board (Unit {0})
  unfolding create_comment_like delete_comment_likes count_comment_like
  handle_comment_reaction comment_id user_id true = do
    created ← create_comment_like comment_id user_id
    when created (count_comment_like comment_id one)
  handle_comment_reaction comment_id user_id false = do
    deleted ← delete_comment_likes comment_id user_id
    when (ltb 0 deleted) (count_comment_like comment_id minus_one)

  unfoldable pub create_comment : ℕ → ℕ → Option String → Option ℕ → ℕ → Action Board (Unit {0})
  create_comment user_id post_id content parent_id created_at = do
    id ← fresh env
    there ← gets (λ s. has_parent parent_id s.comments)
    throw_if (not there) internal
    write
        (λ s. set_comments s (
          db.create (λ c. c.id == id) (new_comment id user_id post_id content parent_id created_at)
            s.comments))
        conflict

  unfoldable pub add_to_post : Bool → ℕ → ℕ → Option String → Option ℕ → ℕ → Action Board (Unit {0})
  unfolding create_comment change_post
  add_to_post false user_id post_id content parent_id created_at = pure tt
  add_to_post true user_id post_id content parent_id created_at = do
    transaction (do
      create_comment user_id post_id content parent_id created_at
      change_post post_id (add_comment one))
    recompute db env post_id

  -- A comment on a post that is gone is dropped.
  unfoldable pub handle_comment_create :
      ℕ → ℕ → Option String → Option ℕ → ℕ → Action Board (Unit {0})
  unfolding add_to_post
  handle_comment_create user_id post_id content parent_id created_at = do
    found ← gets (λ s. db.find_first (λ p. p.id == post_id) s.posts)
    add_to_post (is_some found) user_id post_id content parent_id created_at

  unfoldable pub handle_post_create :
      ℕ → String → ℕ → Bool → (player team from to : Option ℕ) → ℕ → Action Board (Unit {0})
  handle_post_create user_id content post_type voting player team from to created_at = do
    id ← fresh env
    let row = new_post id env user_id content post_type voting player team from to created_at
    write (λ s. set_posts s (db.create (λ p. p.id == id) row s.posts)) conflict
