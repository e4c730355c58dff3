-- ===== src/Feed/Runner.antt =====
-- pipeline/pipeline.runner.ts
use tpulse_backend.Prelude.{ℕ, Bool, List, [], ◌∷◌, ◌++◌, if◌then◌else◌, ◌==◌, any}
use tpulse_backend.Effects.{Action, Result, ok, err}
use tpulse_backend.Feed.Types.{Candidate, FeedQuery, Origins, both, Split, PipelineStages}

abbrev fulfilled : Result (List Candidate) → List Candidate
fulfilled (ok cs) = cs
fulfilled (err e) = []

abbrev pub has_post : ℕ → List Candidate → Bool
has_post id = any (λ (c : Candidate). c.post.id == id)

abbrev pub merge : Origins → Candidate → Candidate
merge origins c = record c { origins = both c.origins origins }

-- One round of `dedup`: the map in the order of insertion.
abbrev pub insert_candidate : Candidate → List Candidate → List Candidate
insert_candidate c [] = c ∷ []
insert_candidate c (d ∷ ds) =
    let rest = insert_candidate c ds in
    if d.post.id == c.post.id then merge c.origins d ∷ ds else d ∷ rest

unfoldable pub dedup_into : List Candidate → List Candidate → List Candidate
dedup_into by_id [] = by_id
dedup_into by_id (c ∷ cs) = dedup_into (insert_candidate c by_id) cs

unfoldable pub dedup : List Candidate → List Candidate
unfolding dedup_into
dedup = dedup_into []

unfoldable pub apply_filters :
    List (List Candidate → FeedQuery → Split) → FeedQuery → List Candidate → List Candidate
apply_filters [] query cs = cs
apply_filters (filter ∷ filters) query cs = apply_filters filters query (filter cs query).kept

unfoldable pub apply_scorers :
    List (List Candidate → List Candidate) → List Candidate → List Candidate
apply_scorers [] cs = cs
apply_scorers (scorer ∷ scorers) cs = apply_scorers scorers (scorer cs)

module _ {S : Type 0} where
  -- `Promise.allSettled` over the sources: a source that fails brings nothing.
  unfoldable pub fetch_all :
      List (FeedQuery → Action S (List Candidate)) → FeedQuery → S → List Candidate × S
  fetch_all [] query s = ([], s)
  fetch_all (source ∷ sources) query s =
      let (r, s') = source query s in
      let (rest, s'') = fetch_all sources query s' in (fulfilled r ++ rest, s'')

  unfoldable pub run : FeedQuery → PipelineStages S → Action S (List Candidate)
  unfolding fetch_all dedup apply_filters apply_scorers
  run query stages s =
      let (all, s') = fetch_all stages.sources query s in
      let kept = apply_filters stages.filters query (dedup all) in
      (ok (stages.selector (apply_scorers stages.scorers kept)), s')
