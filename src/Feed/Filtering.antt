-- ===== src/Feed/Filtering.antt =====
-- The four filters of the feed as one test.
use tpulse_backend.Prelude.{
  ◌≡◌, refl, sym, ap, ◌∙◌, Bool, true, false, ◌||◌, not, List, [], ◌∷◌, ◌==◌, arith, filter, any,
  Bool-cases, inl, inr,
}
use tpulse_backend.Feed.Types.{Candidate, FeedQuery, FeedEnv, Split}
use tpulse_backend.Feed.Filters.{
  split_by, is_empty, is_own, is_suppressed, is_muted, is_seen, self_post_filter,
  blocked_author_filter, muted_keyword_filter, seen_served_filter,
}
use tpulse_backend.Feed.Runner.{apply_filters}

abbrev pub differ : Candidate → Candidate → Bool
differ a b = not (a.post.id == b.post.id)

split_by-kept :
    (p : Candidate → Bool) (cs : List Candidate) → (split_by p cs).kept ≡ filter (λ c. not (p c)) cs
unfolding split_by
split_by-kept p [] = refl
split_by-kept p (c ∷ cs) = ground (arith, split_by-kept p cs)

any-empty : {A : Type 0} (p : A → Bool) (xs : List A) → is_empty xs ≡ true → any p xs ≡ false
any-empty p [] e = refl
any-empty p (x ∷ xs) e = cc

-- A filter that is skipped when its list is empty keeps what the loop would keep.
filter_all :
    (p : Candidate → Bool) (cs : List Candidate)
    → ((c : Candidate) → p c ≡ false)
    → filter (λ c. not (p c)) cs ≡ cs
filter_all p [] h = refl
filter_all p (c ∷ cs) h = ground (arith, h c, filter_all p cs h)

-- The four filters together are one test.
abbrev pub is_removed : FeedEnv → FeedQuery → Candidate → Bool
is_removed env query c =
    is_own query c || is_suppressed query c || is_muted env query c || is_seen query c

self_post_filter-kept :
    (query : FeedQuery) (cs : List Candidate)
    → (self_post_filter cs query).kept ≡ filter (λ c. not (is_own query c)) cs
unfolding self_post_filter
self_post_filter-kept query cs = split_by-kept (is_own query) cs

blocked_author_filter-kept :
    (query : FeedQuery) (cs : List Candidate)
    → (blocked_author_filter cs query).kept ≡ filter (λ c. not (is_suppressed query c)) cs
unfolding blocked_author_filter
blocked_author_filter-kept query cs = elim (Bool-cases (is_empty query.suppressed_author_ids)) [
  | inl e ↦
      rw e
        (sym (filter_all (is_suppressed query) cs (λ c. any-empty _ query.suppressed_author_ids e)))
  | inr e ↦ rw e (split_by-kept (is_suppressed query) cs)
]

muted_keyword_filter-kept :
    (env : FeedEnv) (query : FeedQuery) (cs : List Candidate)
    → (muted_keyword_filter env cs query).kept ≡ filter (λ c. not (is_muted env query c)) cs
unfolding muted_keyword_filter
muted_keyword_filter-kept env query cs = elim (Bool-cases (is_empty query.muted_keywords)) [
  | inl e ↦
      rw e (sym (filter_all (is_muted env query) cs (λ c. any-empty _ query.muted_keywords e)))
  | inr e ↦ rw e (split_by-kept (is_muted env query) cs)
]

seen_served_filter-kept :
    (query : FeedQuery) (cs : List Candidate)
    → (seen_served_filter cs query).kept ≡ filter (λ c. not (is_seen query c)) cs
unfolding seen_served_filter
seen_served_filter-kept query cs = elim (Bool-cases (is_empty query.seen_ids)) [
  | inl e ↦ rw e (sym (filter_all (is_seen query) cs (λ c. any-empty _ query.seen_ids e)))
  | inr e ↦ rw e (split_by-kept (is_seen query) cs)
]

abbrev pub filter_stages : FeedEnv → List (List Candidate → FeedQuery → Split)
filter_stages env =
    self_post_filter ∷ blocked_author_filter ∷ muted_keyword_filter env ∷ seen_served_filter ∷ []

filter-filter :
    (p q : Candidate → Bool) (cs : List Candidate)
    → filter (λ c. not (q c)) (filter (λ c. not (p c)) cs) ≡ filter (λ c. not (p c || q c)) cs
filter-filter p q [] = refl
filter-filter p q (c ∷ cs) = elim (Bool-cases (p c)) [
  | inl e ↦ rw e (filter-filter p q cs)
  | inr e ↦ elim (Bool-cases (q c)) [
    | inl f ↦ rw (e, f) (filter-filter p q cs)
    | inr f ↦ rw (e, f) (ap (λ xs. c ∷ xs) (filter-filter p q cs))
  ]
]

filters_merge :
    (env : FeedEnv) (query : FeedQuery) (cs : List Candidate)
    → filter
        (λ c. not (is_seen query c))
        (filter
          (λ c. not (is_muted env query c))
          (filter (λ c. not (is_suppressed query c)) (filter (λ c. not (is_own query c)) cs)))
      ≡ filter (λ c. not (is_removed env query c)) cs
filters_merge env query cs = rw (
  filter-filter (is_own query) (is_suppressed query) cs,
  filter-filter (λ c. is_own query c || is_suppressed query c) (is_muted env query) cs,
  filter-filter (λ c. is_own query c || is_suppressed query c || is_muted env query c)
      (is_seen query) cs,
)

-- The four filters keep the candidates that none of the four tests removes, in their order.
pub filter_stages_lem :
    (env : FeedEnv) (query : FeedQuery) (cs : List Candidate)
    → apply_filters (filter_stages env) query cs ≡ filter (λ c. not (is_removed env query c)) cs
unfolding apply_filters
filter_stages_lem env query cs =
    let x1 = (self_post_filter cs query).kept in
    let x2 = (blocked_author_filter x1 query).kept in
    let x3 = (muted_keyword_filter env x2 query).kept in
    let e1 = self_post_filter-kept query cs in
    let e2 = blocked_author_filter-kept query x1 in
    let e3 = muted_keyword_filter-kept env query x2 in
    let e4 = seen_served_filter-kept query x3 in
    e4
    ∙ ap (filter (λ c. not (is_seen query c))) (
        e3
        ∙ ap (filter (λ c. not (is_muted env query c)))
            (e2 ∙ ap (filter (λ c. not (is_suppressed query c))) e1))
    ∙ filters_merge env query cs
