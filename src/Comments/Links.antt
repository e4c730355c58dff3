-- ===== src/Comments/Links.antt =====
-- Replies and likes of comments stay tied to rows that are there.
use tpulse_backend.Prelude.{
  ℕ, ◌≡◌, refl, ◌∙◌, Bool, not, Option, none, some, List, [], ◌∷◌, filter, any, All, All-map, arith,
  ◌==◌, Bool-cases, update_where, inl, inr,
}
use tpulse_backend.Db.{Prisma, IsPrisma}
use tpulse_backend.Board.{Board, Comment, CommentLike}
use tpulse_backend.Messaging.{has_parent}
use tpulse_backend.Comments.Removal.{is_among, doomed, comment_cascade, post_cascade}
use tpulse_backend.Comments.Cascade.{
  IsThreaded, HasComment, IsLinked, kept, any-kept, filter-IsThreaded, doomed-IsClosed,
}

-- What is left of the likes when the comments of `ids` go.
likes_kept :
    (ids : List ℕ) (t : List Comment) (ls : List CommentLike)
    → All (HasComment t) ls
    → All (HasComment (filter (kept ids) t)) (filter (λ l. not (is_among ids l.comment_id)) ls)
likes_kept ids t [] h = tt
likes_kept ids t (l ∷ ls) h =
    let later = likes_kept ids t ls h.1 in
    elim (Bool-cases (is_among ids l.comment_id)) [
      | inl gone ↦ rw gone later
      | inr stays ↦ rw stays (any-kept ids l.comment_id t h.0 stays, later)
    ]

module _ (db : Prisma) (laws : IsPrisma db) where
  cut-IsLinked :
      (p : Comment → Bool) (s s' : Board)
      → s'.comments ≡ db.delete_many (λ c. is_among (doomed p s.comments) c.id) s.comments
      → s'.comment_likes
        ≡ db.delete_many (λ l. is_among (doomed p s.comments) l.comment_id) s.comment_likes
      → IsLinked s
      → IsLinked s'
  cut-IsLinked p s s' c l h =
      let ids = doomed p s.comments in
      let rows = laws.delete_many_rows (λ c. is_among ids c.id) s.comments in
      let likes = laws.delete_many_rows (λ l. is_among ids l.comment_id) s.comment_likes in
      record {
        threaded =
            rw (c, rows)
              (filter-IsThreaded ids s.comments h.threaded
                (doomed-IsClosed p s.comments h.threaded));
        liked = rw (l, likes, c, rows) (likes_kept ids s.comments s.comment_likes h.liked);
      }

  pub comment_cascade-IsLinked :
      (id : ℕ) (s : Board) → IsLinked s → IsLinked (comment_cascade db id s).1
  unfolding comment_cascade
  comment_cascade-IsLinked id s h = cut-IsLinked (λ c. c.id == id) s _ refl refl h

  pub post_cascade-IsLinked : (id : ℕ) (s : Board) → IsLinked s → IsLinked (post_cascade db id s).1
  unfolding post_cascade
  post_cascade-IsLinked id s h = cut-IsLinked (λ c. c.post_id == id) s _ refl refl h

pub any-change :
    (i : ℕ) (p : Comment → Bool) (f : Comment → Comment) (t : List Comment)
    → ((c : Comment) → (f c).id ≡ c.id)
    → any (λ c. c.id == i) (update_where p f t) ≡ any (λ c. c.id == i) t
any-change i p f [] same = refl
any-change i p f (c ∷ t) same = elim (Bool-cases (p c)) [
  | inl e ↦ rw (e, same c, any-change i p f t same) refl
  | inr e ↦ rw (e, any-change i p f t same) refl
]

has_parent-change :
    (parent : Option ℕ) (p : Comment → Bool) (f : Comment → Comment) (t : List Comment)
    → ((c : Comment) → (f c).id ≡ c.id)
    → has_parent parent (update_where p f t) ≡ has_parent parent t
has_parent-change none p f t same = refl
has_parent-change (some i) p f t same = any-change i p f t same

pub change-IsThreaded :
    (p : Comment → Bool) (f : Comment → Comment) (t : List Comment)
    → ((c : Comment) → (f c).id ≡ c.id)
    → ((c : Comment) → (f c).parent_id ≡ c.parent_id)
    → IsThreaded t
    → IsThreaded (update_where p f t)
change-IsThreaded p f [] same parent h = tt
change-IsThreaded p f (c ∷ t) same parent h =
    let fresh = any-change c.id p f t same ∙ h.0 in
    let answered = has_parent-change c.parent_id p f t same ∙ h.1 in
    let later = change-IsThreaded p f t same parent h.2 in
    elim (Bool-cases (p c)) [
      | inl e ↦ rw (e, same c, parent c) (fresh, answered, later)
      | inr e ↦ rw e (fresh, answered, later)
    ]

pub change-liked :
    (p : Comment → Bool) (f : Comment → Comment) (t : List Comment) (ls : List CommentLike)
    → ((c : Comment) → (f c).id ≡ c.id)
    → All (HasComment t) ls
    → All (HasComment (update_where p f t)) ls
change-liked p f t ls same h =
    All-map _ _ ls (λ l there. any-change l.comment_id p f t same ∙ there) h

pub newer-liked :
    (c : Comment) (t : List Comment) (ls : List CommentLike)
    → All (HasComment t) ls
    → All (HasComment (c ∷ t)) ls
newer-liked c t ls h = All-map _ _ ls (λ l there. ground (arith, there)) h

pub same-IsLinked :
    (s s' : Board)
    → s'.comments ≡ s.comments
    → s'.comment_likes ≡ s.comment_likes
    → IsLinked s
    → IsLinked s'
same-IsLinked s s' c l h = record { threaded = rw c h.threaded; liked = rw (l, c) h.liked }
