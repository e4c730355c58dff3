-- ===== src/Comments/Removal.antt =====
-- What the foreign keys of prisma/schema.prisma delete with a comment or a post (`onDelete: Cascade`).
-- The table has the newest row first, and a comment's parent was there before it.
use tpulse_backend.Prelude.{
  ℕ, Bool, false, ◌||◌, Option, none, some, List, [], ◌∷◌, ◌==◌, any, if◌then◌else◌,
}
use tpulse_backend.Db.{Prisma}
use tpulse_backend.Effects.{Action, modify}
use tpulse_backend.Board.{Board, Comment}

abbrev pub is_among : List ℕ → ℕ → Bool
is_among ids id = any (λ i. i == id) ids

abbrev pub parent_among : List ℕ → Option ℕ → Bool
parent_among ids none = false
parent_among ids (some p) = is_among ids p

-- The ids of the comments that pass the test, and of all that answer one of them, directly or not.
unfoldable pub doomed : (Comment → Bool) → List Comment → List ℕ
doomed p [] = []
doomed p (c ∷ t) =
    let older = doomed p t in if p c || parent_among older c.parent_id then c.id ∷ older else older

abbrev pub without_comments : Prisma → List ℕ → Board → Board
without_comments db ids s = record s {
  comments = db.delete_many (λ c. is_among ids c.id) s.comments;
  comment_likes = db.delete_many (λ l. is_among ids l.comment_id) s.comment_likes;
}

module _ (db : Prisma) where
  unfoldable pub comment_cascade : ℕ → Action Board (Unit {0})
  comment_cascade id = modify (λ s. without_comments db (doomed (λ c. c.id == id) s.comments) s)

  unfoldable pub post_cascade : ℕ → Action Board (Unit {0})
  post_cascade id = modify (λ s.
      let s' = without_comments db (doomed (λ c. c.post_id == id) s.comments) s in
      record s' {
        posts = db.delete_many (λ p. p.id == id) s.posts;
        post_likes = db.delete_many (λ l. l.post_id == id) s.post_likes;
        post_votes = db.delete_many (λ v. v.post_id == id) s.post_votes;
      })
