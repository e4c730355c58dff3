-- ===== src/Posts/Processing.antt =====
-- The jobs of the outbox keep the posts in shape, so that all runs do.
use tpulse_backend.Prelude.{
  ℕ, ◌≡◌, refl, inl, inr, String, Bool, true, false, Option, none, some, List, [], ◌∷◌, ◌==◌, arith,
  All, All-elem, update_where, Elem, Bool-cases,
}
use mathlib.Core.Path.{subst}
use tpulse_backend.Db.{Prisma, IsPrisma}
use tpulse_backend.Redis.{Redis}
use tpulse_backend.Effects.{Result, ok, err, write, when, throw, internal, transaction, ◌>>=◌, ◌>>◌}
use tpulse_backend.Board.{
  Board, Env, Event, post_create, post_reaction, comment_create, comment_reaction,
  notification_generate, unknown, OutboxMessage, TransferForNotif,
}
use tpulse_backend.Notifications.{tell, notify_all, generate_for_transfer, generate_of}
use tpulse_backend.Messaging.{
  set_outbox, add_like, one, minus_one, add_comment, react_to_post, handle_post_reaction,
  handle_comment_reaction, add_to_post, handle_comment_create, handle_post_create, new_post,
  create_comment, change_post, create_like, delete_likes, handle, change_message, run_handler,
  run_message, process_found, process, processed_at, retried, take_lock,
}
use tpulse_backend.Posts.Keys.{update-HasUniqueIds, All-update}
use tpulse_backend.Posts.Shapes.{IsShapely}
use tpulse_backend.Posts.Shapely.{Asks, IsShaped, recompute-IsShaped}

same-IsShaped :
    (exempt : ℕ → Bool) (s s' : Board)
    → s'.posts ≡ s.posts
    → s'.outbox ≡ s.outbox
    → IsShaped exempt s
    → IsShaped exempt s'
same-IsShaped exempt s s' p o h = record {
  posts = rw p h.posts;
  unique = rw p h.unique;
  queued = rw o h.queued;
}

module _ (db : Prisma) (laws : IsPrisma db) (env : Env) (exempt : ℕ → Bool) where
  like-IsShaped :
      (p u : ℕ) (likes : Bool) (s : Board)
      → IsShaped exempt s
      → IsShaped exempt (react_to_post db env p u likes s).1
  unfolding react_to_post change_post create_like delete_likes
  like-IsShaped p u true s h = ground (
    arith,
    h.posts,
    h.queued,
    h.unique,
    laws.update_rows (λ q. q.id == p) (add_like one) s.posts,
    update-HasUniqueIds p (add_like one) s.posts (λ r. refl) h.unique,
    All-update (IsShapely exempt) (λ q. q.id == p) (add_like one) s.posts (λ r e m old. old)
        h.posts,
  )
  like-IsShaped p u false s h = ground (
    arith,
    h.posts,
    h.queued,
    h.unique,
    laws.update_rows (λ q. q.id == p) (add_like minus_one) s.posts,
    update-HasUniqueIds p (add_like minus_one) s.posts (λ r. refl) h.unique,
    All-update (IsShapely exempt) (λ q. q.id == p) (add_like minus_one) s.posts (λ r e m old. old)
        h.posts,
  )

  post_reaction-IsShaped :
      (p u : ℕ) (likes : Bool) (s : Board)
      → IsShaped exempt s
      → IsShaped exempt (handle_post_reaction db env p u likes s).1
  unfolding handle_post_reaction
  post_reaction-IsShaped p u likes s h =
      let liked = like-IsShaped p u likes s h in
      ground (
        arith,
        liked,
        recompute-IsShaped db laws env exempt p (react_to_post db env p u likes s).1 liked,
      )

  comment_reaction-IsShaped :
      (c u : ℕ) (likes : Bool) (s : Board)
      → IsShaped exempt s
      → IsShaped exempt (handle_comment_reaction db env c u likes s).1
  unfolding handle_comment_reaction
  comment_reaction-IsShaped c u true s h = ground (arith, h.posts, h.queued, h.unique)
  comment_reaction-IsShaped c u false s h = ground (arith, h.posts, h.queued, h.unique)

  comment_transaction-IsShaped :
      (u p : ℕ) (content : Option String) (parent : Option ℕ) (created : ℕ) (s : Board)
      → IsShaped exempt s
      → IsShaped exempt
          (transaction
            (do
              create_comment db env u p content parent created
              change_post db env p (add_comment one))
            s).1
  unfolding create_comment change_post
  comment_transaction-IsShaped u p content parent created s h = ground (
    arith,
    h.posts,
    h.queued,
    h.unique,
    laws.update_rows (λ q. q.id == p) (add_comment one) s.posts,
    update-HasUniqueIds p (add_comment one) s.posts (λ r. refl) h.unique,
    All-update (IsShapely exempt) (λ q. q.id == p) (add_comment one) s.posts (λ r e m old. old)
        h.posts,
  )

  add_to_post-IsShaped :
      (found : Bool) (u p : ℕ) (content : Option String) (parent : Option ℕ) (created : ℕ)
      (s : Board)
      → IsShaped exempt s
      → IsShaped exempt (add_to_post db env found u p content parent created s).1
  unfolding add_to_post
  add_to_post-IsShaped false u p content parent created s h = h
  add_to_post-IsShaped true u p content parent created s h =
      let added = comment_transaction-IsShaped u p content parent created s h in
      ground (arith, added, recompute-IsShaped db laws env exempt p _ added)

  post_create-IsShaped :
      (u : ℕ) (content : String) (kind : ℕ) (voting : Bool) (player team from to : Option ℕ)
      (created : ℕ) (s : Board)
      → Asks (post_create u content kind voting player team from to created)
      → IsShaped exempt s
      → IsShaped exempt
          (handle_post_create db env u content kind voting player team from to created s).1
  unfolding handle_post_create
  post_create-IsShaped u content kind voting player team from to created s asks h = ground (
    arith,
    h.posts,
    h.queued,
    h.unique,
    asks,
    laws.create_rows (λ q. q.id == env.uuid s.draws)
        (new_post (env.uuid s.draws) env u content kind voting player team from to created) s.posts,
  )

  notify_all-posts :
      (t : TransferForNotif) (out us : List ℕ) (n : ℕ) (s : Board)
      → (notify_all db env t out us n s).1.posts ≡ s.posts
  unfolding notify_all tell
  notify_all-posts t out [] n s = refl
  notify_all-posts t out (u ∷ us) n s = grind (arith, notify_all-posts t out us)

  notify_all-outbox :
      (t : TransferForNotif) (out us : List ℕ) (n : ℕ) (s : Board)
      → (notify_all db env t out us n s).1.outbox ≡ s.outbox
  unfolding notify_all tell
  notify_all-outbox t out [] n s = refl
  notify_all-outbox t out (u ∷ us) n s = grind (arith, notify_all-outbox t out us)

  generate_of-IsShaped :
      (o : Option TransferForNotif) (s : Board)
      → IsShaped exempt s
      → IsShaped exempt (generate_of db env o s).1
  unfolding generate_of
  generate_of-IsShaped none s h = h
  generate_of-IsShaped (some t) s h =
      same-IsShaped exempt s _ (notify_all-posts t _ _ 0 s) (notify_all-outbox t _ _ 0 s) h

  handle-IsShaped :
      (redis : Redis) (event : Event) (s : Board)
      → Asks event
      → IsShaped exempt s
      → IsShaped exempt (handle redis db env event s).1
  unfolding handle handle_comment_create generate_for_transfer
  handle-IsShaped redis (post_create u content kind voting player team from to created) s asks h =
      post_create-IsShaped u content kind voting player team from to created s asks h
  handle-IsShaped redis (post_reaction p u likes) s asks h = post_reaction-IsShaped p u likes s h
  handle-IsShaped redis (comment_create u p content parent created) s asks h =
      add_to_post-IsShaped _ u p content parent created s h
  handle-IsShaped redis (comment_reaction c u likes) s asks h =
      comment_reaction-IsShaped c u likes s h
  handle-IsShaped redis (notification_generate t) s asks h =
      ground (arith, generate_of-IsShaped (db.find_first (λ r. r.id == t) s.transfers) s h)
  handle-IsShaped redis unknown s asks h = h

  module _ (redis : Redis) where
    written-IsShaped :
        (o : Option (List OutboxMessage)) (s : Board)
        → ((t : List OutboxMessage) → o ≡ some t → All (λ m. Asks m.event) t)
        → IsShaped exempt s
        → IsShaped exempt (write (λ s. set_outbox s o) internal s).1
    written-IsShaped none s rows h = h
    written-IsShaped (some t) s rows h = record {
      posts = h.posts;
      unique = h.unique;
      queued = rows t refl;
    }

    change_message-IsShaped :
        (id : ℕ) (f : OutboxMessage → OutboxMessage) (s : Board)
        → ((m : OutboxMessage) → Asks m.event → Asks (f m).event)
        → IsShaped exempt s
        → IsShaped exempt (change_message redis db env id f s).1
    unfolding change_message
    change_message-IsShaped id f s keep h =
        let changed =
          All-update (λ m. Asks m.event) (λ m. m.id == id) f s.outbox (λ m e mine old. keep m old)
            h.queued in
        written-IsShaped (db.update (λ m. m.id == id) f s.outbox) s
          (λ t e.
            let same : update_where (λ m. m.id == id) f s.outbox ≡ t =
              ground (arith, e, laws.update_rows (λ m. m.id == id) f s.outbox) in
            subst (All (λ m. Asks m.event)) same changed)
          h

    caught-IsShaped :
        (id : ℕ) (x : Result (Unit {0}) × Board)
        → IsShaped exempt x.1
        → IsShaped exempt
            (elim x.0 as (λ r. Result (Unit {0}) × Board) [
              | ok _ ↦ (ok tt, x.1)
              | err e ↦ (do change_message redis db env id retried; throw e) x.1
            ]).1
    caught-IsShaped id (ok a, s) h = h
    caught-IsShaped id (err e, s) h =
        let counted = change_message-IsShaped id retried s (λ m a. a) h in ground (arith, counted)

    marked-IsShaped :
        (id : ℕ) (x : Result (Unit {0}) × Board)
        → IsShaped exempt x.1
        → IsShaped exempt
            (((λ (s : Board). x) >> change_message redis db env id (processed_at env.now)) x.1).1
    marked-IsShaped id (err e, s) h = h
    marked-IsShaped id (ok a, s) h =
        change_message-IsShaped id (processed_at env.now) s (λ m a. a) h

    run_handler-IsShaped :
        (m : OutboxMessage) (s : Board)
        → Asks m.event
        → IsShaped exempt s
        → IsShaped exempt (run_handler redis db env m s).1
    unfolding run_handler
    run_handler-IsShaped m s asks h = caught-IsShaped m.id _ (
        marked-IsShaped m.id (handle redis db env m.event s)
          (handle-IsShaped redis m.event s asks h))

    locked-IsShaped :
        (m : OutboxMessage) (x : Result Bool × Board)
        → Asks m.event
        → IsShaped exempt x.1
        → IsShaped exempt
            (((λ (s : Board). x) >>= λ taken. when taken (run_handler redis db env m)) x.1).1
    locked-IsShaped m (err e, s) asks h = h
    locked-IsShaped m (ok true, s) asks h = run_handler-IsShaped m s asks h
    locked-IsShaped m (ok false, s) asks h = h

    take_lock-IsShaped :
        (id : ℕ) (s : Board) → IsShaped exempt s → IsShaped exempt (take_lock redis db env id s).1
    unfolding take_lock
    take_lock-IsShaped id s h = elim (Bool-cases env.redis_up) [
      | inl up ↦ rw up (record { posts = h.posts; unique = h.unique; queued = h.queued })
      | inr down ↦ rw down h
    ]

    run_message-IsShaped :
        (m : OutboxMessage) (done : Bool) (s : Board)
        → Asks m.event
        → IsShaped exempt s
        → IsShaped exempt (run_message redis db env m done s).1
    unfolding run_message
    run_message-IsShaped m true s asks h = h
    run_message-IsShaped m false s asks h =
        locked-IsShaped m (take_lock redis db env m.id s) asks (take_lock-IsShaped m.id s h)

    found-IsShaped :
        (o : Option OutboxMessage) (s : Board)
        → ((m : OutboxMessage) → o ≡ some m → Elem m s.outbox)
        → IsShaped exempt s
        → IsShaped exempt (process_found redis db env o s).1
    unfolding process_found
    found-IsShaped none s there h = h
    found-IsShaped (some m) s there h =
        run_message-IsShaped m _ s (All-elem _ m s.outbox h.queued (there m refl)) h

    pub process-IsShaped :
        (id : ℕ) (s : Board) → IsShaped exempt s → IsShaped exempt (process redis db env id s).1
    unfolding process
    process-IsShaped id s h =
        found-IsShaped (db.find_first (λ m. m.id == id) s.outbox) s
          (λ m e. laws.find_first_elem (λ m. m.id == id) s.outbox m e) h
