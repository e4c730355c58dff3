-- ===== src/Messaging/Frames.antt =====
-- The handlers leave the locks of the jobs alone.
use tpulse_backend.Prelude.{
  ℕ, ◌≡◌, refl, String, Bool, true, false, Option, none, some, List, [], ◌∷◌, arith, ◌==◌,
}
use tpulse_backend.Db.{Prisma}
use tpulse_backend.Board.{
  Board, Env, Post, Event, post_create, post_reaction, comment_create, comment_reaction,
  notification_generate, unknown, TransferForNotif,
}
use tpulse_backend.Scoring.{recompute, write_score, score_of}
use tpulse_backend.Notifications.{tell, notify_all, generate_for_transfer, generate_of}
use tpulse_backend.Messaging.Reactions.{
  react_to_post, handle_post_reaction, handle_comment_reaction, add_to_post, handle_comment_create,
  handle_post_create,
}
use tpulse_backend.Messaging.Processor.{handle}
use tpulse_backend.Redis.{Redis}

module _ (db : Prisma) (env : Env) where
  score_of-job_locks :
      (p : ℕ) (o : Option Post) (n : ℕ) (s : Board)
      → (score_of db env p o n s).1.job_locks ≡ s.job_locks
  unfolding score_of write_score
  score_of-job_locks p none n s = refl
  score_of-job_locks p (some q) n s = ground arith

  recompute-job_locks : (p : ℕ) (s : Board) → (recompute db env p s).1.job_locks ≡ s.job_locks
  unfolding recompute
  recompute-job_locks p s = score_of-job_locks p _ _ s

  react-job_locks :
      (p u : ℕ) (likes : Bool) (s : Board)
      → (react_to_post db env p u likes s).1.job_locks ≡ s.job_locks
  unfolding react_to_post
  react-job_locks p u true s = ground arith
  react-job_locks p u false s = ground arith

  post_reaction-job_locks :
      (p u : ℕ) (likes : Bool) (s : Board)
      → (handle_post_reaction db env p u likes s).1.job_locks ≡ s.job_locks
  unfolding handle_post_reaction
  post_reaction-job_locks p u likes s = ground (
    arith,
    react-job_locks p u likes s,
    recompute-job_locks p (react_to_post db env p u likes s).1,
  )

  comment_reaction-job_locks :
      (c u : ℕ) (likes : Bool) (s : Board)
      → (handle_comment_reaction db env c u likes s).1.job_locks ≡ s.job_locks
  unfolding handle_comment_reaction
  comment_reaction-job_locks c u true s = ground arith
  comment_reaction-job_locks c u false s = ground arith

  add_to_post-job_locks :
      (found : Bool) (u p : ℕ) (content : Option String) (parent : Option ℕ) (created : ℕ)
      (s : Board)
      → (add_to_post db env found u p content parent created s).1.job_locks ≡ s.job_locks
  unfolding add_to_post
  add_to_post-job_locks false u p content parent created s = refl
  add_to_post-job_locks true u p content parent created s = grind (arith, recompute-job_locks)

  post_create-job_locks :
      (u : ℕ) (content : String) (kind : ℕ) (voting : Bool) (player team from to : Option ℕ)
      (created : ℕ) (s : Board)
      → (handle_post_create db env u content kind voting player team from to created s).1.job_locks
        ≡ s.job_locks
  unfolding handle_post_create
  post_create-job_locks u content kind voting player team from to created s = ground arith

module _ (db : Prisma) (env : Env) where
  notify_all-job_locks :
      (t : TransferForNotif) (out us : List ℕ) (n : ℕ) (s : Board)
      → (notify_all db env t out us n s).1.job_locks ≡ s.job_locks
  unfolding notify_all tell
  notify_all-job_locks t out [] n s = refl
  notify_all-job_locks t out (u ∷ us) n s = grind (arith, notify_all-job_locks t out us)

  generate_of-job_locks :
      (o : Option TransferForNotif) (s : Board) → (generate_of db env o s).1.job_locks ≡ s.job_locks
  unfolding generate_of
  generate_of-job_locks none s = refl
  generate_of-job_locks (some t) s = notify_all-job_locks t _ _ 0 s

  -- No handler sets or frees a lock.
  pub handle-job_locks :
      (redis : Redis) (event : Event) (s : Board)
      → (handle redis db env event s).1.job_locks ≡ s.job_locks
  unfolding handle handle_comment_create generate_for_transfer
  handle-job_locks redis (post_create u content kind voting player team from to created) s =
      post_create-job_locks db env u content kind voting player team from to created s
  handle-job_locks redis (post_reaction p u likes) s = post_reaction-job_locks db env p u likes s
  handle-job_locks redis (comment_create u p content parent created) s =
      add_to_post-job_locks db env _ u p content parent created s
  handle-job_locks redis (comment_reaction c u likes) s =
      comment_reaction-job_locks db env c u likes s
  handle-job_locks redis (notification_generate t) s =
      ground (arith, generate_of-job_locks (db.find_first (λ r. r.id == t) s.transfers) s)
  handle-job_locks redis unknown s = refl
