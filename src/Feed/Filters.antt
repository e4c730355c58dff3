-- ===== src/Feed/Filters.antt =====
-- filters/*.ts
use tpulse_backend.Prelude.{
  ℕ, String, Bool, true, false, List, [], ◌∷◌, if◌then◌else◌, ◌==◌, any, is_some, str_find?,
}
use tpulse_backend.Feed.Types.{Candidate, FeedQuery, FeedEnv, Split}

-- The loop that pushes each candidate to `removed` or to `kept`.
unfoldable pub split_by : (Candidate → Bool) → List Candidate → Split
split_by removes [] = record { kept = []; removed = [] }
split_by removes (c ∷ cs) =
    let rest = split_by removes cs in
    if removes c
    then record { kept = rest.kept; removed = c ∷ rest.removed }
    else record { kept = c ∷ rest.kept; removed = rest.removed }

abbrev pub is_empty : {A : Type 0} → List A → Bool
is_empty [] = true
is_empty (x ∷ xs) = false

abbrev all_kept : List Candidate → Split
all_kept cs = record { kept = cs; removed = [] }

abbrev pub has_id : ℕ → List ℕ → Bool
has_id a = any (λ b. b == a)

abbrev pub is_own : FeedQuery → Candidate → Bool
is_own query c = c.post.owner_id == query.user_id

abbrev pub is_suppressed : FeedQuery → Candidate → Bool
is_suppressed query c = has_id c.post.owner_id query.suppressed_author_ids

abbrev pub includes : String → String → Bool
includes content keyword = is_some (str_find? content keyword)

abbrev pub is_muted : FeedEnv → FeedQuery → Candidate → Bool
is_muted env query c = any (includes (env.to_lower_case c.post.content)) query.muted_keywords

abbrev pub is_seen : FeedQuery → Candidate → Bool
is_seen query c = has_id c.post.id query.seen_ids

unfoldable pub self_post_filter : List Candidate → FeedQuery → Split
unfolding split_by
self_post_filter cs query = split_by (is_own query) cs

unfoldable pub blocked_author_filter : List Candidate → FeedQuery → Split
unfolding split_by
blocked_author_filter cs query =
    if is_empty query.suppressed_author_ids then all_kept cs else split_by (is_suppressed query) cs

unfoldable pub muted_keyword_filter : FeedEnv → List Candidate → FeedQuery → Split
unfolding split_by
muted_keyword_filter env cs query =
    if is_empty query.muted_keywords then all_kept cs else split_by (is_muted env query) cs

unfoldable pub seen_served_filter : List Candidate → FeedQuery → Split
unfolding split_by
seen_served_filter cs query =
    if is_empty query.seen_ids then all_kept cs else split_by (is_seen query) cs
