-- ===== src/Feed/Pool.antt =====
-- What the pipeline lets into the pool that the pages are cut from.
use tpulse_backend.Prelude.{
  ◌≤◌, ◌≡◌, refl, Bool, true, false, not, List, [], ◌∷◌, if◌then◌else◌, ◌==◌, arith, length,
  length-take, All, All-map, All-take, filter_sound, Bool-cases, inl, inr,
}
use tpulse_backend.Prelude.Sorting.{sort_by, sort-All, sort-Sorted, take-Sorted, Sorted, Pairwise}
use tpulse_backend.Prelude.Pairs.{All-map_image, take-pairs, filter-pairs, map-pairs, sort-pairs}
use tpulse_backend.Redis.Sets.{RedisSets}
use tpulse_backend.Doubles.{IsDoubles}
use tpulse_backend.Db.{Prisma}
use tpulse_backend.Effects.{ok}
use tpulse_backend.Board.{Post}
use tpulse_backend.Feed.Types.{Candidate, FeedQuery, FeedEnv, FeedStore, only, discovery}
use tpulse_backend.Feed.Scorers.{
  weighted_scorer, affinity_scorer, oon_scorer, author_diversity_scorer, comes_first,
  affinity_multiplier, top_k_selector, with_score, is_pure_oon,
}
use tpulse_backend.Feed.Runner.{
  fetch_all, insert_candidate, dedup_into, dedup, apply_filters, apply_scorers, run,
}
use tpulse_backend.Feed.Service.{feed_stages}
use tpulse_backend.Feed.Filtering.{is_removed, filter_stages, filter_stages_lem}

abbrev pub differ : Candidate → Candidate → Bool
differ a b = not (a.post.id == b.post.id)

insert-differ :
    (a c : Candidate) (ds : List Candidate)
    → differ a c ≡ true
    → All (λ d. differ a d ≡ true) ds
    → All (λ d. differ a d ≡ true) (insert_candidate c ds)
insert-differ a c [] h k = (h, tt)
insert-differ a c (d ∷ ds) h k = elim (Bool-cases (d.post.id == c.post.id)) [
  | inl e ↦ rw e ((k.0, k.1))
  | inr e ↦ rw e ((k.0, insert-differ a c ds h k.1))
]

insert-Pairwise :
    (c : Candidate) (ds : List Candidate)
    → Pairwise differ ds
    → Pairwise differ (insert_candidate c ds)
insert-Pairwise c [] h = (tt, tt)
insert-Pairwise c (d ∷ ds) h = elim (Bool-cases (d.post.id == c.post.id)) [
  | inl e ↦ rw e ((h.0, h.1))
  | inr e ↦ rw e ((insert-differ d c ds (ground (arith, e)) h.0, insert-Pairwise c ds h.1))
]

dedup_into-Pairwise :
    (ds cs : List Candidate) → Pairwise differ ds → Pairwise differ (dedup_into ds cs)
unfolding dedup_into
dedup_into-Pairwise ds [] h = h
dedup_into-Pairwise ds (c ∷ cs) h =
    dedup_into-Pairwise (insert_candidate c ds) cs (insert-Pairwise c ds h)

-- Whatever the sources bring, no two candidates after `dedup` are of one post.
pub dedup-Pairwise : (cs : List Candidate) → Pairwise differ (dedup cs)
unfolding dedup
dedup-Pairwise cs = dedup_into-Pairwise [] cs tt

-- What the filters ask of a candidate they ask of its post.
abbrev pub as_candidate : Post → Candidate
as_candidate p = record { post = p; score = p.hot_score; origins = only discovery }

module _ (env : FeedEnv) where
  abbrev pub score_stages : List (List Candidate → List Candidate)
  score_stages =
      weighted_scorer env ∷ affinity_scorer env ∷ oon_scorer env ∷ author_diversity_scorer env ∷ []

  oon-post {κ} :
      (P : Post → Type κ) (c : Candidate)
      → P c.post
      → P
          (if is_pure_oon env c
            then with_score (env.doubles.mul c.score env.config.oon_attenuation) c
            else c).post
  oon-post P c k = elim (Bool-cases (is_pure_oon env c)) [ inl e ↦ rw e k | inr e ↦ rw e k ]

  oon-post_same :
      (c : Candidate)
      → (if is_pure_oon env c
          then with_score (env.doubles.mul c.score env.config.oon_attenuation) c
          else c).post
        ≡ c.post
  oon-post_same c = ground arith

  -- What depends on the post alone survives the scorers.
  scorers-All {κ} :
      (P : Post → Type κ) (cs : List Candidate)
      → All (λ c. P c.post) cs
      → All (λ c. P c.post) (apply_scorers score_stages cs)
  unfolding apply_scorers weighted_scorer affinity_scorer oon_scorer author_diversity_scorer
  scorers-All P cs h =
      let Q = λ (c : Candidate). P c.post in
      let h1 = All-map_image Q _ cs h in
      let h2 = All-map_image Q _ _ h1 in
      let h3 =
        All-map_image Q (λ c. if is_pure_oon env c then with_score _ c else c) _
          (All-map _ _ _ (λ c k. oon-post P c k) h2) in
      All-map_image Q _ _ h3

  scorers-Pairwise :
      (cs : List Candidate) → Pairwise differ cs → Pairwise differ (apply_scorers score_stages cs)
  unfolding apply_scorers weighted_scorer affinity_scorer oon_scorer author_diversity_scorer
  scorers-Pairwise cs h =
      let h1 = map-pairs differ (λ c. with_score c.post.hot_score c) cs (λ x y e. e) h in
      let h2 =
        map-pairs differ (λ c. with_score (env.doubles.mul c.score (affinity_multiplier env c)) c) _
          (λ x y e. e) h1 in
      let h3 =
        map-pairs differ
          (λ c.
            if is_pure_oon env c
            then with_score (env.doubles.mul c.score env.config.oon_attenuation) c
            else c)
          _ (λ x y e. rw (oon-post_same x, oon-post_same y) e) h2 in
      map-pairs differ (λ c. with_score _ c) _ (λ x y e. e) h3

  -- The pool of a query: allowed posts only, no post twice, at most `max_results`, in the order of
  -- the selector.
  abbrev pub IsPool : FeedQuery → List Candidate → Type 0
  IsPool query ranked =
      All (λ c. is_removed env query c ≡ false) ranked
      × Pairwise differ ranked
      × (length ranked ≤ env.config.max_results)
      × Sorted (comes_first env) ranked

  pool_lem :
      (laws : IsDoubles env.doubles) (query : FeedQuery) (all : List Candidate)
      → IsPool query (
          top_k_selector env
            (apply_scorers score_stages (apply_filters (filter_stages env) query (dedup all))))
  unfolding top_k_selector
  pool_lem laws query all =
      let k = env.config.max_results in
      let kept = apply_filters (filter_stages env) query (dedup all) in
      let allowed : All (λ c. is_removed env query c ≡ false) kept =
        rw (filter_stages_lem env query (dedup all))
          (All-map _ _ _ (λ c e. ground (arith, e)) (filter_sound _ (dedup all))) in
      let apart : Pairwise differ kept =
        rw (filter_stages_lem env query (dedup all))
          (filter-pairs differ _ (dedup all) (dedup-Pairwise all)) in
      let scored = apply_scorers score_stages kept in
      let sorted = sort_by (comes_first env) scored in
      (
        All-take _ k sorted (
            sort-All (comes_first env) _ scored
              (scorers-All (λ p. is_removed env query (as_candidate p) ≡ false) kept allowed)),
        take-pairs differ k sorted (
            sort-pairs differ (λ x y e. ground (arith, e)) (comes_first env) scored
              (scorers-Pairwise kept apart)),
        omega (arith, length-take k sorted),
        take-Sorted (comes_first env) k sorted (
            sort-Sorted (comes_first env)
              (λ x y e.
                ground (arith, e, laws.eq_sym x.score y.score, laws.lt_asym x.score y.score))
              scored),
      )

  -- The pipeline always answers, and with a pool: none of its posts is the viewer's own, of an
  -- author the viewer suppresses, with a muted keyword or seen before; no post is there twice; there
  -- are at most `max_results`, ordered as the selector compares.
  pub run-IsPool :
      (sets : RedisSets) (db : Prisma) (laws : IsDoubles env.doubles) (query : FeedQuery)
      (s : FeedStore sets)
      → (ranked : List Candidate) × (s' : FeedStore sets) × (run query (feed_stages sets db env) s
          ≡ (ok ranked, s'))
        × IsPool query ranked
  unfolding run
  run-IsPool sets db laws query s =
      (_, _, refl, pool_lem laws query (fetch_all (feed_stages sets db env).sources query s).0)
