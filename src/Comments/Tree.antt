-- ===== src/Comments/Tree.antt =====
-- src/comments/comment.mapper.ts: the comments of a post under those that answer none of them.
use tpulse_backend.Prelude.{
  ℕ, zero, suc, String, Bool, false, ◌&&◌, ◌==◌, Option, none, some, List, [], ◌∷◌, map, find,
  filter, any, leb, if◌then◌else◌,
}
use tpulse_backend.Prelude.Options.{◌>>=◌}
use tpulse_backend.Prelude.Int.{ℤ}
use tpulse_backend.Prelude.Sorting.{sort_by}
use tpulse_backend.Db.{Prisma}
use tpulse_backend.Auth.{VerificationType}
use tpulse_backend.Board.{Board, Comment}

-- The columns of the owner that `commentInclude` joins.
pub record Owner : Type 0 where
  pub username : String
  pub profile_pic : Option String
  pub verification_type : Option VerificationType

-- `replies` of the source is empty but for the comments at the top, which `Thread` holds.
pub record CommentDto : Type 0 where
  pub id : ℕ
  pub owner_id : ℕ
  pub owner_name : String
  pub owner_photo : Option String
  pub verification_type : Option VerificationType
  pub content : Option String
  pub post_id : ℕ
  pub parent_id : Option ℕ
  pub like_count : ℤ
  pub is_liked : Bool
  pub created_at_utc : ℕ

pub record Thread : Type 0 where
  pub top : CommentDto
  pub replies : List CommentDto

abbrev pub to_dto : (ℕ → Owner) → (ℕ → Bool) → Comment → CommentDto
to_dto owner_of liked c = record {
  id = c.id;
  owner_id = c.owner_id;
  owner_name = (owner_of c.owner_id).username;
  owner_photo = (owner_of c.owner_id).profile_pic;
  verification_type = (owner_of c.owner_id).verification_type;
  content = c.content;
  post_id = c.post_id;
  parent_id = c.parent_id;
  like_count = c.like_count;
  is_liked = liked c.id;
  created_at_utc = c.created_at_utc;
}

-- The comment of the list that this one answers.
abbrev pub parent_in : List Comment → Comment → Option Comment
parent_in comments c = elim c.parent_id [ none ↦ none | some p ↦ find (λ q. q.id == p) comments ]

-- The loop of `rootId`, on fuel; `none` if that runs out.
unfoldable pub walk : ℕ → List Comment → Comment → Option ℕ
walk zero comments c = elim (parent_in comments c) [ none ↦ some c.id | some q ↦ none ]
walk (suc fuel) comments c = elim (parent_in comments c) [
  | none ↦ some c.id
  | some q ↦ walk fuel comments q
]

-- Each step goes to an older comment, so that the time of the first bounds the steps.
unfoldable pub root_id : List Comment → Comment → Option ℕ
root_id comments c = walk c.created_at_utc comments c

-- The comments at the top, and the replies that were pushed on the entry of a root.
pub record Pushed : Type 0 where
  pub tops : List Comment
  pub replies : List (ℕ × Comment)

abbrev pub push : ℕ → Comment → Pushed → Pushed
push root c s =
    if root == c.id
    then record s { tops = c ∷ s.tops }
    else record s { replies = (root, c) ∷ s.replies }

-- One pass over the comments: each goes to the entry of its root, in the order of the list.
unfoldable pub push_all : List Comment → List Comment → Option Pushed
unfolding root_id walk
push_all comments [] = some (record { tops = []; replies = [] })
push_all comments (c ∷ rest) = do
  root ← root_id comments c
  s ← push_all comments rest
  some (push root c s)

abbrev pub thread_of : (Comment → CommentDto) → List (ℕ × Comment) → Comment → Thread
thread_of dto replies c = record {
  top = dto c;
  replies = map (λ r. dto (r.1)) (filter (λ r. r.0 == c.id) replies);
}

unfoldable pub build_comment_tree : List Comment → (ℕ → Owner) → (ℕ → Bool) → Option (List Thread)
unfolding push_all
build_comment_tree comments owner_of liked = do
  s ← push_all comments comments
  some (map (thread_of (to_dto owner_of liked) s.replies) s.tops)

-- `orderBy: { createdAtUtc: 'asc' }`
abbrev pub no_newer : Comment → Comment → Bool
no_newer c d = leb c.created_at_utc d.created_at_utc

abbrev pub likes_comment : Prisma → Option ℕ → List Comment → Board → ℕ → Bool
likes_comment db none comments s id = false
likes_comment db (some user) comments s id =
    any (λ l. l.comment_id == id)
      (db.find_many (λ l. (l.user_id == user) && any (λ c. c.id == l.comment_id) comments)
        s.comment_likes)

unfoldable pub get_by_post : Prisma → (ℕ → Owner) → ℕ → Option ℕ → Board → Option (List Thread)
unfolding build_comment_tree
get_by_post db owner_of post_id user s =
    let comments = sort_by no_newer (db.find_many (λ c. c.post_id == post_id) s.comments) in
    build_comment_tree comments owner_of (likes_comment db user comments s)
