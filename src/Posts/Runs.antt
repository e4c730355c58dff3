-- ===== src/Posts/Runs.antt =====
-- What holds of the posts in every run of the service and the queue.
use tpulse_backend.Prelude.{ℕ, ◌≡◌, Bool, true, false, ◌∷◌, ◌==◌, any, arith, Elem, All-elem}
use tpulse_backend.Db.{Prisma, IsPrisma}
use tpulse_backend.Redis.{Redis}
use tpulse_backend.Board.{Board, Env, Post}
use tpulse_backend.Messaging.{process}
use tpulse_backend.Posts.Service.{
  CreatePostDto, UpdatePostDto, create_async, update_post, remove_post, admin_remove_post, react,
  find_post,
}
use tpulse_backend.Posts.Shapes.{Fits, post_shape, shape_valid_lem}
use tpulse_backend.Posts.Shapely.{
  IsShaped, create_async-IsShaped, react-IsShaped, update_post-IsShaped, remove-IsShaped,
}
use tpulse_backend.Posts.Processing.{process-IsShaped}

-- One request or one job, with any arguments, clock and ids, or one post that the ingestion writes.
pub data Step (redis : Redis) (db : Prisma) (exempt : ℕ → Bool) : Board → Board → Type 0 where
  create :
      (env : Env) (dto : CreatePostDto) (user : ℕ) (s : Board)
      → Step redis db exempt s (create_async db env dto user s).1
  update :
      (env : Env) (id user : ℕ) (dto : UpdatePostDto) (s : Board)
      → Step redis db exempt s (update_post db env id user dto s).1
  remove :
      (env : Env) (id user : ℕ) (s : Board)
      → Step redis db exempt s (remove_post db env id user s).1
  admin_remove :
      (env : Env) (id : ℕ) (s : Board) → Step redis db exempt s (admin_remove_post db env id s).1
  like :
      (env : Env) (id user : ℕ) (likes : Bool) (s : Board)
      → Step redis db exempt s (react db env id user likes s).1
  ingest :
      (p : Post) (s : Board)
      → exempt p.id ≡ true
      → any (λ q. q.id == p.id) s.posts ≡ false
      → Step redis db exempt s (record s { posts = p ∷ s.posts })
  job :
      (env : Env) (message : ℕ) (s : Board)
      → Step redis db exempt s (process redis db env message s).1

pub data Reach (redis : Redis) (db : Prisma) (exempt : ℕ → Bool) (s : Board) : Board → Type 0 where
  here : Reach redis db exempt s s
  next :
      {t u : Board}
      → Reach redis db exempt s t
      → Step redis db exempt t u
      → Reach redis db exempt s u

module _ (redis : Redis) (db : Prisma) (laws : IsPrisma db) (exempt : ℕ → Bool) where
  remove_post-IsShaped :
      (env : Env) (id user : ℕ) (s : Board)
      → IsShaped exempt s
      → IsShaped exempt (remove_post db env id user s).1
  unfolding remove_post find_post
  remove_post-IsShaped env id user s h =
      ground (arith, h, remove-IsShaped db laws env exempt id s h)

  admin_remove_post-IsShaped :
      (env : Env) (id : ℕ) (s : Board)
      → IsShaped exempt s
      → IsShaped exempt (admin_remove_post db env id s).1
  unfolding admin_remove_post find_post
  admin_remove_post-IsShaped env id s h =
      ground (arith, h, remove-IsShaped db laws env exempt id s h)

  ingest-IsShaped :
      (p : Post) (s : Board)
      → exempt p.id ≡ true
      → any (λ q. q.id == p.id) s.posts ≡ false
      → IsShaped exempt s
      → IsShaped exempt (record s { posts = p ∷ s.posts })
  ingest-IsShaped p s bot new h = record {
    posts = (ground (arith, bot), h.posts);
    unique = (new, h.unique);
    queued = h.queued;
  }

  step-IsShaped : {s t : Board} → Step redis db exempt s t → IsShaped exempt s → IsShaped exempt t
  step-IsShaped (create env dto user s) h = create_async-IsShaped db laws env exempt dto user s h
  step-IsShaped (update env id user dto s) h =
      update_post-IsShaped db laws env exempt id user dto s h
  step-IsShaped (remove env id user s) h = remove_post-IsShaped env id user s h
  step-IsShaped (admin_remove env id s) h = admin_remove_post-IsShaped env id s h
  step-IsShaped (like env id user likes s) h = react-IsShaped db laws env exempt id user likes s h
  step-IsShaped (ingest p s bot new) h = ingest-IsShaped p s bot new h
  step-IsShaped (job env message s) h = process-IsShaped db laws env exempt redis message s h

  reach-IsShaped : {s t : Board} → Reach redis db exempt s t → IsShaped exempt s → IsShaped exempt t
  reach-IsShaped here h = h
  reach-IsShaped (next run step) h = step-IsShaped step (reach-IsShaped run h)

  -- In every run of the requests of the service that queue, change, remove or like posts, of the jobs
  -- of the queue, and of the ingestion, which may write posts of any shape and whose posts `exempt`
  -- tells by their ids: from a store in which posts have ids of their own and queued requests and all
  -- posts but those have the references of their kind, each post that the ingestion did not write has
  -- them in the end: a transfer the player and both teams, a post on a team the team, one on a player
  -- the player, and nothing else.
  pub Reach-Fits :
      {s t : Board} (p : Post)
      → Reach redis db exempt s t
      → IsShaped exempt s
      → Elem p t.posts
      → exempt p.id ≡ false
      → Fits (post_shape p)
  Reach-Fits {t = t} p run h there own =
      let kept = All-elem _ p t.posts (reach-IsShaped run h).posts there in
      (shape_valid_lem (post_shape p)).0 (ground (arith, kept, own))
