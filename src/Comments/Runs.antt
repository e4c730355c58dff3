-- ===== src/Comments/Runs.antt =====
-- Replies and likes of comments stay tied to rows that are there, in every run.
use tpulse_backend.Prelude.{
  ℕ, ◌≡◌, refl, String, Bool, true, false, not, Option, none, some, filter, All-filter, arith, ◌==◌,
}
use tpulse_backend.Db.{Prisma, IsPrisma}
use tpulse_backend.Effects.{transaction, ◌>>◌}
use tpulse_backend.Board.{Board, Env, Comment, Post}
use tpulse_backend.Scoring.{recompute, score_of, write_score}
use tpulse_backend.Messaging.{
  handle_comment_create, handle_comment_reaction, add_to_post, create_comment, change_post,
  change_comment, create_comment_like, delete_comment_likes, add_comment_like, one, minus_one,
  new_comment, new_comment_like, is_comment_like, add_comment,
}
use tpulse_backend.Comments.Service.{
  with_content, update_comment, remove_comment, admin_remove_comment, assert_owner, find_comment,
}
use tpulse_backend.Comments.Cascade.{HasComment, IsLinked}
use tpulse_backend.Posts.{remove_post, admin_remove_post, find_post}
use tpulse_backend.Comments.Links.{
  any-change, change-IsThreaded, change-liked, newer-liked, same-IsLinked, comment_cascade-IsLinked,
  post_cascade-IsLinked,
}

module _ (db : Prisma) (laws : IsPrisma db) (env : Env) where
  score_of-comments :
      (p n : ℕ) (o : Option Post) (s : Board) → (score_of db env p o n s).1.comments ≡ s.comments
  unfolding score_of write_score
  score_of-comments p n none s = refl
  score_of-comments p n (some q) s = ground arith

  score_of-comment_likes :
      (p n : ℕ) (o : Option Post) (s : Board)
      → (score_of db env p o n s).1.comment_likes ≡ s.comment_likes
  unfolding score_of write_score
  score_of-comment_likes p n none s = refl
  score_of-comment_likes p n (some q) s = ground arith

  recompute-IsLinked : (p : ℕ) (s : Board) → IsLinked s → IsLinked (recompute db env p s).1
  unfolding recompute
  recompute-IsLinked p s h =
      let post = db.find_first (λ q. q.id == p) s.posts in
      same-IsLinked s _ (score_of-comments p _ post s) (score_of-comment_likes p _ post s) h

  change_comment-IsLinked :
      (id : ℕ) (f : Comment → Comment) (s : Board)
      → ((c : Comment) → (f c).id ≡ c.id)
      → ((c : Comment) → (f c).parent_id ≡ c.parent_id)
      → IsLinked s
      → IsLinked (change_comment db env id f s).1
  unfolding change_comment
  change_comment-IsLinked id f s same parent h =
      let threaded = change-IsThreaded (λ c. c.id == id) f s.comments same parent h.threaded in
      let liked = change-liked (λ c. c.id == id) f s.comments s.comment_likes same h.liked in
      ground (
        arith,
        h.threaded,
        h.liked,
        threaded,
        liked,
        laws.update_rows (λ c. c.id == id) f s.comments,
      )

  comment_transaction-IsLinked :
      (u p : ℕ) (content : Option String) (parent : Option ℕ) (created : ℕ) (s : Board)
      → IsLinked s
      → IsLinked
          (transaction
            (do
              create_comment db env u p content parent created
              change_post db env p (add_comment one))
            s).1
  unfolding create_comment change_post
  comment_transaction-IsLinked u p content parent created s h =
      let new = new_comment (env.uuid s.draws) u p content parent created in
      let liked = newer-liked new s.comments s.comment_likes h.liked in
      ground (
        arith,
        h.threaded,
        h.liked,
        liked,
        laws.create_rows (λ c. c.id == env.uuid s.draws) new s.comments,
      )

  add_to_post-IsLinked :
      (found : Bool) (u p : ℕ) (content : Option String) (parent : Option ℕ) (created : ℕ)
      (s : Board)
      → IsLinked s
      → IsLinked (add_to_post db env found u p content parent created s).1
  unfolding add_to_post
  add_to_post-IsLinked false u p content parent created s h = h
  add_to_post-IsLinked true u p content parent created s h =
      let added = comment_transaction-IsLinked u p content parent created s h in
      ground (arith, added, recompute-IsLinked p _ added)

  pub comment_create-IsLinked :
      (u p : ℕ) (content : Option String) (parent : Option ℕ) (created : ℕ) (s : Board)
      → IsLinked s
      → IsLinked (handle_comment_create db env u p content parent created s).1
  unfolding handle_comment_create
  comment_create-IsLinked u p content parent created s h =
      add_to_post-IsLinked _ u p content parent created s h

  comment_reaction-IsLinked :
      (c u : ℕ) (likes : Bool) (s : Board)
      → IsLinked s
      → IsLinked (handle_comment_reaction db env c u likes s).1
  unfolding handle_comment_reaction create_comment_like delete_comment_likes change_comment
  comment_reaction-IsLinked c u true s h =
      let like = new_comment_like (env.uuid s.draws) c u in
      let f = add_comment_like one in
      let changed =
        change-liked (λ x. x.id == c) f s.comments s.comment_likes (λ x. refl) h.liked in
      ground (
        arith,
        h.threaded,
        h.liked,
        changed,
        change-IsThreaded (λ x. x.id == c) f s.comments (λ x. refl) (λ x. refl) h.threaded,
        any-change c (λ x. x.id == c) f s.comments (λ x. refl),
        laws.create_rows (is_comment_like c u) like s.comment_likes,
        laws.update_rows (λ x. x.id == c) f s.comments,
      )
  comment_reaction-IsLinked c u false s h =
      let f = add_comment_like minus_one in
      let rest = filter (λ l. not (is_comment_like c u l)) s.comment_likes in
      let left =
        All-filter (HasComment s.comments) (λ l. not (is_comment_like c u l)) s.comment_likes
          h.liked in
      let changed = change-liked (λ x. x.id == c) f s.comments rest (λ x. refl) left in
      ground (
        arith,
        h.threaded,
        h.liked,
        changed,
        left,
        change-IsThreaded (λ x. x.id == c) f s.comments (λ x. refl) (λ x. refl) h.threaded,
        laws.delete_many_rows (is_comment_like c u) s.comment_likes,
        laws.update_rows (λ x. x.id == c) f s.comments,
      )

  update_comment-IsLinked :
      (id user : ℕ) (content : String) (s : Board)
      → IsLinked s
      → IsLinked (update_comment db env id user content s).1
  unfolding update_comment assert_owner find_comment
  update_comment-IsLinked id user content s h =
      ground
        (arith, h, change_comment-IsLinked id (with_content content) s (λ c. refl) (λ c. refl) h)

  remove_comment-IsLinked :
      (id user : ℕ) (s : Board) → IsLinked s → IsLinked (remove_comment db env id user s).1
  unfolding remove_comment assert_owner find_comment
  remove_comment-IsLinked id user s h = ground (arith, h, comment_cascade-IsLinked db laws id s h)

  admin_remove_comment-IsLinked :
      (id : ℕ) (s : Board) → IsLinked s → IsLinked (admin_remove_comment db env id s).1
  unfolding admin_remove_comment find_comment
  admin_remove_comment-IsLinked id s h = ground (arith, h, comment_cascade-IsLinked db laws id s h)

  remove_post-IsLinked :
      (id user : ℕ) (s : Board) → IsLinked s → IsLinked (remove_post db env id user s).1
  unfolding remove_post find_post
  remove_post-IsLinked id user s h = ground (arith, h, post_cascade-IsLinked db laws id s h)

  admin_remove_post-IsLinked :
      (id : ℕ) (s : Board) → IsLinked s → IsLinked (admin_remove_post db env id s).1
  unfolding admin_remove_post find_post
  admin_remove_post-IsLinked id s h = ground (arith, h, post_cascade-IsLinked db laws id s h)

-- One request or one handled event, with any arguments, clock and ids.
pub data Step (db : Prisma) : Board → Board → Type 0 where
  answer :
      (env : Env) (user post : ℕ) (content : Option String) (parent : Option ℕ) (created : ℕ)
      (s : Board)
      → Step db s (handle_comment_create db env user post content parent created s).1
  like :
      (env : Env) (comment user : ℕ) (likes : Bool) (s : Board)
      → Step db s (handle_comment_reaction db env comment user likes s).1
  edit :
      (env : Env) (id user : ℕ) (content : String) (s : Board)
      → Step db s (update_comment db env id user content s).1
  remove : (env : Env) (id user : ℕ) (s : Board) → Step db s (remove_comment db env id user s).1
  admin_remove : (env : Env) (id : ℕ) (s : Board) → Step db s (admin_remove_comment db env id s).1
  end_post : (env : Env) (id user : ℕ) (s : Board) → Step db s (remove_post db env id user s).1
  admin_end_post : (env : Env) (id : ℕ) (s : Board) → Step db s (admin_remove_post db env id s).1

pub data Reach (db : Prisma) (s : Board) : Board → Type 0 where
  here : Reach db s s
  next : {t u : Board} → Reach db s t → Step db t u → Reach db s u

module _ (db : Prisma) (laws : IsPrisma db) where
  step-IsLinked : {s t : Board} → Step db s t → IsLinked s → IsLinked t
  step-IsLinked (answer env u p content parent created s) h =
      comment_create-IsLinked db laws env u p content parent created s h
  step-IsLinked (like env c u likes s) h = comment_reaction-IsLinked db laws env c u likes s h
  step-IsLinked (edit env id u content s) h = update_comment-IsLinked db laws env id u content s h
  step-IsLinked (remove env id u s) h = remove_comment-IsLinked db laws env id u s h
  step-IsLinked (admin_remove env id s) h = admin_remove_comment-IsLinked db laws env id s h
  step-IsLinked (end_post env id u s) h = remove_post-IsLinked db laws env id u s h
  step-IsLinked (admin_end_post env id s) h = admin_remove_post-IsLinked db laws env id s h

  -- However comments are made, liked, edited and removed, and posts removed, each comment keeps an id
  -- of its own, the comment that one answers is an older row of the table, and each like is of a
  -- comment that is there, if that held at first.
  pub Reach-IsLinked : {s t : Board} → Reach db s t → IsLinked s → IsLinked t
  Reach-IsLinked here h = h
  Reach-IsLinked (next run step) h = step-IsLinked step (Reach-IsLinked run h)
