-- ===== src/Feed/Completeness.antt =====
-- That the pipeline loses no post it should show.
use tpulse_backend.Prelude.{
  ℕ, zero, suc, ◌≤◌, ◌≡◌, refl, ap, ◌∙◌, Bool, true, false, ◌||◌, not, List, [], ◌∷◌, map,
  if◌then◌else◌, ◌==◌, arith, length, take, filter, any, All, All-map, Bool-cases, inl, inr,
}
use tpulse_backend.Prelude.Sorting.{sort_by, insert_by, sort-length}
use tpulse_backend.Redis.Sets.{RedisSets}
use tpulse_backend.Db.{Prisma}
use tpulse_backend.Effects.{ok}
use tpulse_backend.Board.{Post}
use tpulse_backend.Feed.Types.{Candidate, FeedQuery, FeedEnv, FeedStore}
use tpulse_backend.Feed.Scorers.{
  weighted_scorer, affinity_scorer, affinity_multiplier, oon_scorer, author_diversity_scorer,
  comes_first, top_k_selector, with_score, is_pure_oon,
}
use tpulse_backend.Feed.Runner.{
  fetch_all, has_post, insert_candidate, dedup_into, dedup, apply_filters, apply_scorers, run,
}
use tpulse_backend.Feed.Service.{feed_stages}
use tpulse_backend.Feed.Pool.{as_candidate, score_stages}
use tpulse_backend.Feed.Filtering.{is_removed, filter_stages, filter_stages_lem}

any-insert :
    {A : Type 0} (no_later : A → A → Bool) (p : A → Bool) (x : A) (ys : List A)
    → any p (insert_by no_later x ys) ≡ (p x || any p ys)
unfolding insert_by
any-insert no_later p x [] = refl
any-insert no_later p x (y ∷ ys) = ground (arith, any-insert no_later p x ys)

any-sort :
    {A : Type 0} (no_later : A → A → Bool) (p : A → Bool) (xs : List A)
    → any p (sort_by no_later xs) ≡ any p xs
unfolding sort_by
any-sort no_later p [] = refl
any-sort no_later p (x ∷ xs) =
    rw (any-insert no_later p x (sort_by no_later xs), any-sort no_later p xs)

take_all : {A : Type 0} (n : ℕ) (xs : List A) → length xs ≤ n → take n xs ≡ xs
take_all zero [] h = refl
take_all zero (x ∷ xs) h = absurd (omega (arith, h))
take_all (suc n) [] h = refl
take_all (suc n) (x ∷ xs) h = ap (λ ys. x ∷ ys) (take_all n xs (omega (arith, h)))

length-map : {A B : Type 0} (f : A → B) (xs : List A) → length (map f xs) ≡ length xs
length-map f [] = refl
length-map f (x ∷ xs) = ap suc (length-map f xs)

length-filter : {A : Type 0} (p : A → Bool) (xs : List A) → length (filter p xs) ≤ length xs
length-filter p [] = omega arith
length-filter p (x ∷ xs) = elim (Bool-cases (p x)) [
  | inl e ↦ rw e (omega (arith, length-filter p xs))
  | inr e ↦ rw e (omega (arith, length-filter p xs))
]

has_post-map :
    (id : ℕ) (f : Candidate → Candidate) (cs : List Candidate)
    → ((c : Candidate) → (f c).post ≡ c.post)
    → has_post id (map f cs) ≡ has_post id cs
has_post-map id f [] h = refl
has_post-map id f (c ∷ cs) h = rw (h c, has_post-map id f cs h)

has_post-insert :
    (id : ℕ) (c : Candidate) (ds : List Candidate)
    → has_post id (insert_candidate c ds) ≡ (c.post.id == id || has_post id ds)
has_post-insert id c [] = refl
has_post-insert id c (d ∷ ds) = elim (Bool-cases (d.post.id == c.post.id)) [
  | inl e ↦ rw e (ground (arith, e))
  | inr e ↦ rw e (ground (arith, has_post-insert id c ds))
]

has_post-dedup_into :
    (id : ℕ) (ds cs : List Candidate)
    → has_post id (dedup_into ds cs) ≡ (has_post id ds || has_post id cs)
unfolding dedup_into
has_post-dedup_into id ds [] = ground arith
has_post-dedup_into id ds (c ∷ cs) =
    ground (arith, has_post-dedup_into id (insert_candidate c ds) cs, has_post-insert id c ds)

-- A test on the post of every candidate, through `dedup`.
insert_candidate-All {κ} :
    (P : Post → Type κ) (c : Candidate) (ds : List Candidate)
    → P c.post
    → All (λ d. P d.post) ds
    → All (λ d. P d.post) (insert_candidate c ds)
insert_candidate-All P c [] h k = (h, tt)
insert_candidate-All P c (d ∷ ds) h k = elim (Bool-cases (d.post.id == c.post.id)) [
  | inl e ↦ rw e ((k.0, k.1))
  | inr e ↦ rw e ((k.0, insert_candidate-All P c ds h k.1))
]

dedup_into-All {κ} :
    (P : Post → Type κ) (ds cs : List Candidate)
    → All (λ d. P d.post) ds
    → All (λ d. P d.post) cs
    → All (λ d. P d.post) (dedup_into ds cs)
unfolding dedup_into
dedup_into-All P ds [] h k = h
dedup_into-All P ds (c ∷ cs) h k =
    dedup_into-All P (insert_candidate c ds) cs (insert_candidate-All P c ds k.0 h) k.1

has_post-filter :
    (id : ℕ) (p : Candidate → Bool) (cs : List Candidate)
    → All (λ c. (c.post.id == id) ≡ true → p c ≡ true) cs
    → has_post id (filter p cs) ≡ has_post id cs
has_post-filter id p [] h = refl
has_post-filter id p (c ∷ cs) h = ground (arith, h.0, has_post-filter id p cs h.1)

module _ (env : FeedEnv) where
  abbrev attenuate : Candidate → Candidate
  attenuate c =
      if is_pure_oon env c
      then with_score (env.doubles.mul c.score env.config.oon_attenuation) c
      else c

  attenuate-post : (c : Candidate) → (attenuate c).post ≡ c.post
  attenuate-post c = ground arith

  has_post-scorers :
      (id : ℕ) (cs : List Candidate)
      → has_post id (apply_scorers (score_stages env) cs) ≡ has_post id cs
  unfolding apply_scorers weighted_scorer affinity_scorer oon_scorer author_diversity_scorer
  has_post-scorers id cs =
      has_post-map id (λ c. with_score _ c) _ (λ c. refl)
      ∙ has_post-map id attenuate _ attenuate-post
      ∙ has_post-map id (λ c. with_score (env.doubles.mul c.score (affinity_multiplier env c)) c) _
          (λ c. refl)
      ∙ has_post-map id (λ c. with_score c.post.hot_score c) cs (λ c. refl)

  length-scorers : (cs : List Candidate) → length (apply_scorers (score_stages env) cs) ≡ length cs
  unfolding apply_scorers weighted_scorer affinity_scorer oon_scorer author_diversity_scorer
  length-scorers cs =
      length-map (λ c. with_score _ c) _
      ∙ length-map attenuate _
      ∙ length-map (λ c. with_score (env.doubles.mul c.score (affinity_multiplier env c)) c) _
      ∙ length-map (λ c. with_score c.post.hot_score c) cs

  pool-has_post :
      (query : FeedQuery) (all : List Candidate) (id : ℕ)
      → length (dedup all) ≤ env.config.max_results
      → has_post id all ≡ true
      → All (λ c. (c.post.id == id) ≡ true → is_removed env query c ≡ false) all
      → has_post id (
          top_k_selector env (
            apply_scorers (score_stages env) (apply_filters (filter_stages env) query (dedup all))))
        ≡ true
  unfolding top_k_selector dedup
  pool-has_post query all id room there allowed =
      let kept = apply_filters (filter_stages env) query (dedup all) in
      let scored = apply_scorers (score_stages env) kept in
      let sorted = sort_by (comes_first env) scored in
      let e1 = filter_stages_lem env query (dedup all) in
      let few : length sorted ≤ env.config.max_results = omega (
        arith,
        room,
        sort-length (comes_first env) scored,
        length-scorers kept,
        ap length e1,
        length-filter (λ c. not (is_removed env query c)) (dedup all),
      ) in
      let still =
        dedup_into-All (λ p. (p.id == id) ≡ true → is_removed env query (as_candidate p) ≡ false) []
          all tt allowed in
      let found : has_post id kept ≡ true = rw e1 (
        has_post-filter id (λ c. not (is_removed env query c)) (dedup all)
          (All-map _ _ _ (λ c h e. ground (arith, h e)) still)
        ∙ has_post-dedup_into id [] all
        ∙ there) in
      rw
        (
          take_all env.config.max_results sorted few,
          any-sort (comes_first env) (λ c. c.post.id == id) scored,
          has_post-scorers id kept,
        )
        found

  abbrev pub brought : (sets : RedisSets) → Prisma → FeedQuery → FeedStore sets → List Candidate
  brought sets db query s = (fetch_all (feed_stages sets db env).sources query s).0

  -- If the sources together bring at most `max_results` different posts, then every post that one of
  -- them brings, and that no filter removes, is in the pool.
  pub run-has_post :
      (sets : RedisSets) (db : Prisma) (query : FeedQuery) (s : FeedStore sets) (id : ℕ)
      → length (dedup (brought sets db query s)) ≤ env.config.max_results
      → has_post id (brought sets db query s) ≡ true
      → All
          (λ c. (c.post.id == id) ≡ true → is_removed env query c ≡ false)
          (brought sets db query s)
      → (ranked : List Candidate) × (s' : FeedStore sets) × (run query (feed_stages sets db env) s
          ≡ (ok ranked, s'))
        × (has_post id ranked ≡ true)
  unfolding run
  run-has_post sets db query s id room there allowed =
      (_, _, refl, pool-has_post query (brought sets db query s) id room there allowed)
