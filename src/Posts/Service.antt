-- ===== src/Posts/Service.antt =====
-- The methods of `PostsService` that change a post or answer for one, with their queries of
-- prisma-post.repository.ts.
use tpulse_backend.Prelude.{
  ℕ, String, Bool, true, false, not, Option, none, some, ◌==◌, ltb, is_some,
}
use tpulse_backend.Db.{Prisma}
use tpulse_backend.Effects.{
  Action, pure, gets, or_throw, throw_if, write, ◌>>=◌, ◌>>◌, not_found, forbidden, internal,
}
use tpulse_backend.Board.{Board, Env, Event, post_create, post_reaction, Post, set_posts}
use tpulse_backend.Messaging.{enqueue, is_like}
use tpulse_backend.Posts.Shape.{PostShape, assert_post_shape}
use tpulse_backend.Comments.{post_cascade}

pub record CreatePostDto : Type 0 where
  pub content : String
  pub post_type : ℕ
  pub player_id : Option ℕ
  pub team_id : Option ℕ
  pub from_team_id : Option ℕ
  pub to_team_id : Option ℕ
  pub is_voting_enabled : Bool

pub record UpdatePostDto : Type 0 where
  pub content : String
  pub player_id : Option ℕ
  pub team_id : Option ℕ
  pub from_team_id : Option ℕ
  pub to_team_id : Option ℕ

pub data LikeOutcome : Type 0 where
  queued unchanged : LikeOutcome

abbrev pub shape_of : CreatePostDto → PostShape
shape_of dto = record {
  post_type = dto.post_type;
  player_id = dto.player_id;
  team_id = dto.team_id;
  from_team_id = dto.from_team_id;
  to_team_id = dto.to_team_id;
}

abbrev pub updated_shape : ℕ → UpdatePostDto → PostShape
updated_shape post_type dto = record {
  post_type = post_type;
  player_id = dto.player_id;
  team_id = dto.team_id;
  from_team_id = dto.from_team_id;
  to_team_id = dto.to_team_id;
}

-- A column whose value is undefined is left as it is.
abbrev pub given_id : Option ℕ → Option ℕ → Option ℕ
given_id none old = old
given_id (some new) old = some new

abbrev pub with_post : UpdatePostDto → Post → Post
with_post dto p = record p {
  content = dto.content;
  player_id = given_id dto.player_id p.player_id;
  team_id = given_id dto.team_id p.team_id;
  from_team_id = given_id dto.from_team_id p.from_team_id;
  to_team_id = given_id dto.to_team_id p.to_team_id;
}

abbrev pub creation : Env → ℕ → CreatePostDto → Event
creation env user_id dto =
    post_create user_id dto.content dto.post_type dto.is_voting_enabled dto.player_id dto.team_id
      dto.from_team_id dto.to_team_id env.now

abbrev pub bool_eq : Bool → Bool → Bool
bool_eq true b = b
bool_eq false b = not b

module _ (db : Prisma) (env : Env) where
  unfoldable pub create_async : CreatePostDto → ℕ → Action Board (Unit {0})
  unfolding assert_post_shape
  create_async dto user_id = do
    assert_post_shape (shape_of dto)
    enqueue db env (creation env user_id dto)

  -- `getOwnerAndType`
  unfoldable pub find_post : ℕ → Action Board Post
  find_post id = do
    found ← gets (λ s. db.find_first (λ p. p.id == id) s.posts)
    or_throw found not_found

  unfoldable pub update_post : ℕ → ℕ → UpdatePostDto → Action Board (Unit {0})
  unfolding find_post assert_post_shape
  update_post id user_id dto = do
    post ← find_post id
    throw_if (not (post.owner_id == user_id)) forbidden
    assert_post_shape (updated_shape post.post_type dto)
    write (λ s. set_posts s (db.update (λ p. p.id == id) (with_post dto) s.posts)) internal

  unfoldable pub remove_post : ℕ → ℕ → Action Board (Unit {0})
  unfolding find_post
  remove_post id user_id = do
    post ← find_post id
    throw_if (not (post.owner_id == user_id)) forbidden
    post_cascade db id

  unfoldable pub admin_remove_post : ℕ → Action Board (Unit {0})
  unfolding find_post
  admin_remove_post id = do post ← find_post id; post_cascade db id

  unfoldable pub queue_reaction : ℕ → ℕ → Bool → (same : Bool) → Action Board LikeOutcome
  queue_reaction post_id user_id likes true = pure unchanged
  queue_reaction post_id user_id likes false = do
    enqueue db env (post_reaction post_id user_id likes)
    pure queued

  unfoldable pub react : ℕ → ℕ → Bool → Action Board LikeOutcome
  unfolding queue_reaction
  react post_id user_id likes = do
    here ← gets (λ s. db.count_rows (λ p. p.id == post_id) s.posts)
    throw_if (not (ltb 0 here)) not_found
    like ← gets (λ s. db.find_first (is_like post_id user_id) s.post_likes)
    queue_reaction post_id user_id likes (bool_eq (is_some like) likes)
