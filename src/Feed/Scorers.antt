-- ===== src/Feed/Scorers.antt =====
-- scorers/*.ts and selectors/top-k.selector.ts
use tpulse_backend.Prelude.{
  ℕ, Bool, ◌&&◌, not, List, [], ◌∷◌, map, if◌then◌else◌, leb, ◌==◌, count, take,
}
use tpulse_backend.Prelude.Int.{pos}
use tpulse_backend.Prelude.Sorting.{sort_by}
use tpulse_backend.Doubles.{Double}
use tpulse_backend.Feed.Types.{Candidate, FeedEnv}

abbrev pub with_score : Double → Candidate → Candidate
with_score x c = record c { score = x }

-- `Map.get` of the last value that was set, with a default.
abbrev pub lookup : ℕ → Double → List (ℕ × Double) → Double
lookup key default [] = default
lookup key default ((k, x) ∷ m) = let rest = lookup key default m in if k == key then x else rest

module _ (env : FeedEnv) where
  open env use {doubles, config}
  open doubles use {of_int, add, sub, mul, pow, lt, eq}

  unfoldable pub weighted_scorer : List Candidate → List Candidate
  weighted_scorer = map (λ c. with_score c.post.hot_score c)

  abbrev pub affinity_multiplier : Candidate → Double
  affinity_multiplier c =
      if c.origins.has_follow
      then config.affinity_follow
      else (if c.origins.has_favourite then config.affinity_favourite else of_int (pos 1))

  unfoldable pub affinity_scorer : List Candidate → List Candidate
  affinity_scorer = map (λ c. with_score (mul c.score (affinity_multiplier c)) c)

  abbrev pub is_pure_oon : Candidate → Bool
  is_pure_oon c = c.origins.has_discovery && not c.origins.has_favourite && not c.origins.has_follow

  unfoldable pub oon_scorer : List Candidate → List Candidate
  oon_scorer =
      map (λ c. if is_pure_oon c then with_score (mul c.score config.oon_attenuation) c else c)

  -- The comparison `b.score - a.score`: not positive.
  abbrev pub no_lower : Candidate → Candidate → Bool
  no_lower a b = not (lt a.score b.score)

  -- The factor of an author's `n`-th showing.
  abbrev pub diversity : ℕ → Double
  diversity n =
      add
        (mul (sub (of_int (pos 1)) config.diversity_floor)
          (pow config.diversity_decay (of_int (pos n))))
        config.diversity_floor

  -- The loop over the ordered candidates: `shown` has the authors of those before, one entry a
  -- showing, and the result is `adjustedById`, the last entry of a key first.
  unfoldable pub adjusted_by_id : List Candidate → List ℕ → List (ℕ × Double) → List (ℕ × Double)
  adjusted_by_id [] shown m = m
  adjusted_by_id (c ∷ cs) shown m =
      adjusted_by_id cs (c.post.owner_id ∷ shown)
        ((c.post.id, mul c.score (diversity (count (λ a. a == c.post.owner_id) shown))) ∷ m)

  unfoldable pub author_diversity_scorer : List Candidate → List Candidate
  unfolding adjusted_by_id
  author_diversity_scorer cs =
      let adjusted = adjusted_by_id (sort_by no_lower cs) [] [] in
      map (λ c. with_score (lookup c.post.id c.score adjusted) c) cs

  -- The comparison of the selector: by score, and among equal scores the younger post first.
  abbrev pub comes_first : Candidate → Candidate → Bool
  comes_first a b =
      if not (eq b.score a.score)
      then not (lt a.score b.score)
      else leb b.post.created_at_utc a.post.created_at_utc

  unfoldable pub top_k_selector : List Candidate → List Candidate
  top_k_selector cs = take config.max_results (sort_by comes_first cs)
