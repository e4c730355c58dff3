-- ===== src/Posts/Shapely.antt =====
-- Every post has the references of its kind, from the request, over the outbox, to the table.
use tpulse_backend.Prelude.{
  ℕ, ◌≡◌, refl, inl, inr, Bool, true, not, Option, none, some, ◌==◌, arith, All, All-filter, Elem,
  Bool-cases, Option-cases,
}
use mathlib.Core.Path.{subst}
use tpulse_backend.Db.{Prisma, IsPrisma}
use tpulse_backend.Effects.{write, internal}
use tpulse_backend.Board.{Board, Env, set_posts, Event, post_create, post_reaction, Post}
use tpulse_backend.Scoring.{recompute, write_score, score_of}
use tpulse_backend.Messaging.{enqueue, new_message}
use tpulse_backend.Comments.{post_cascade}
use tpulse_backend.Posts.Shape.{shape_valid, assert_post_shape}
use tpulse_backend.Posts.Service.{
  CreatePostDto, UpdatePostDto, shape_of, updated_shape, with_post, creation, create_async,
  update_post, react, queue_reaction, find_post,
}
use tpulse_backend.Posts.Keys.{
  HasUniqueIds, same_row, update-HasUniqueIds, filter-HasUniqueIds, All-update,
}
use tpulse_backend.Posts.Shapes.{IsShapely, update_shape}

-- The post that an event asks for.
abbrev pub Asks : Event → Type 0
Asks (post_create user content kind voting player team from to created) =
    shape_valid (record {
      post_type = kind;
      player_id = player;
      team_id = team;
      from_team_id = from;
      to_team_id = to;
    })
    ≡ true
Asks _ = Unit

pub record IsShaped (exempt : ℕ → Bool) (s : Board) : Type 0 where
  pub posts : All (IsShapely exempt) s.posts
  pub unique : HasUniqueIds s.posts
  pub queued : All (λ m. Asks m.event) s.outbox

module _ (db : Prisma) (laws : IsPrisma db) (env : Env) (exempt : ℕ → Bool) where
  pub enqueue-IsShaped :
      (e : Event) (s : Board) → Asks e → IsShaped exempt s → IsShaped exempt (enqueue db env e s).1
  unfolding enqueue
  enqueue-IsShaped e s asks h = ground (
    arith,
    h.posts,
    h.queued,
    h.unique,
    asks,
    laws.create_rows (λ m. m.id == env.uuid s.draws) (new_message (env.uuid s.draws) env.now e)
        s.outbox,
  )

  pub create_async-IsShaped :
      (dto : CreatePostDto) (u : ℕ) (s : Board)
      → IsShaped exempt s
      → IsShaped exempt (create_async db env dto u s).1
  unfolding create_async
  create_async-IsShaped dto u s h = elim (Bool-cases (shape_valid (shape_of dto))) [
    | inl fits ↦ rw fits (enqueue-IsShaped (creation env u dto) s fits h)
    | inr unfit ↦ rw unfit h
  ]

  pub react-IsShaped :
      (p u : ℕ) (likes : Bool) (s : Board)
      → IsShaped exempt s
      → IsShaped exempt (react db env p u likes s).1
  unfolding react queue_reaction
  react-IsShaped p u likes s h =
      ground (arith, h, enqueue-IsShaped (post_reaction p u likes) s tt h)

  pub write-IsShaped :
      (i : ℕ) (f : Post → Post) (s : Board)
      → ((q : Post)
          → Elem q s.posts
          → (q.id == i) ≡ true
          → IsShapely exempt q
          → IsShapely exempt (f q))
      → ((q : Post) → (f q).id ≡ q.id)
      → IsShaped exempt s
      → IsShaped exempt
          (write (λ s. set_posts s (db.update (λ p. p.id == i) f s.posts)) internal s).1
  write-IsShaped i f s keep same h = ground (
    arith,
    h.posts,
    h.queued,
    h.unique,
    laws.update_rows (λ q. q.id == i) f s.posts,
    update-HasUniqueIds i f s.posts same h.unique,
    All-update (IsShapely exempt) (λ q. q.id == i) f s.posts keep h.posts,
  )

  update_row-IsShaped :
      (i : ℕ) (q : Post) (dto : UpdatePostDto) (s : Board)
      → IsShaped exempt s
      → Elem q s.posts
      → (q.id == i) ≡ true
      → shape_valid (updated_shape q.post_type dto) ≡ true
      → IsShaped exempt
          (write
            (λ s. set_posts s (db.update (λ p. p.id == i) (with_post dto) s.posts))
            internal
            s).1
  update_row-IsShaped i q dto s h there mine fits =
      write-IsShaped i (with_post dto) s
        (λ r here same old. update_shape exempt r dto old (
          subst (λ x. shape_valid (updated_shape x.post_type dto) ≡ true)
            (same_row i q r s.posts h.unique there here mine same) fits))
        (λ r. refl) h

  pub update_post-IsShaped :
      (i u : ℕ) (dto : UpdatePostDto) (s : Board)
      → IsShaped exempt s
      → IsShaped exempt (update_post db env i u dto s).1
  unfolding update_post find_post assert_post_shape
  update_post-IsShaped i u dto s h = elim (Option-cases (db.find_first (λ p. p.id == i) s.posts)) [
    | inl missing ↦ ground (arith, missing, h)
    | inr (q, found) ↦ elim (Bool-cases (shape_valid (updated_shape q.post_type dto))) [
      | inl fits ↦
          let there = laws.find_first_elem (λ p. p.id == i) s.posts q found in
          let mine = laws.find_first_match (λ p. p.id == i) s.posts q found in
          let after = update_row-IsShaped i q dto s h there mine fits in
          ground (arith, h, found, fits, after)
      | inr unfit ↦ ground (arith, h, found, unfit)
    ]
  ]

  pub remove-IsShaped :
      (id : ℕ) (s : Board) → IsShaped exempt s → IsShaped exempt (post_cascade db id s).1
  unfolding post_cascade
  remove-IsShaped id s h = ground (
    arith,
    h.posts,
    h.queued,
    h.unique,
    filter-HasUniqueIds (λ p. not (p.id == id)) s.posts h.unique,
    laws.delete_many_rows (λ p. p.id == id) s.posts,
    All-filter (IsShapely exempt) (λ p. not (p.id == id)) s.posts h.posts,
  )

  score_of-IsShaped :
      (p n : ℕ) (o : Option Post) (s : Board)
      → IsShaped exempt s
      → IsShaped exempt (score_of db env p o n s).1
  unfolding score_of write_score
  score_of-IsShaped p n none s h = h
  score_of-IsShaped p n (some q) s h = write-IsShaped p _ s (λ r e m old. old) (λ r. refl) h

  pub recompute-IsShaped :
      (p : ℕ) (s : Board) → IsShaped exempt s → IsShaped exempt (recompute db env p s).1
  unfolding recompute
  recompute-IsShaped p s h = score_of-IsShaped p _ (db.find_first (λ q. q.id == p) s.posts) s h
