-- ===== src/Feed/Served.antt =====
-- What was shown is not shown again.
use tpulse_backend.Prelude.{
  ℕ, ◌+◌, ◌*◌, ◌<◌, ◌≡◌, refl, sym, ap, length, Bool, true, false, List, [], ◌∷◌, ◌++◌, map,
  if◌then◌else◌, ◌==◌, arith, All, All-map, All-from, All-take, All-drop, Elem, Elem-any, Elem-map,
  Bool-cases, inl, inr, ==-refl,
}
use mathlib.Core.Path.{subst}
use tpulse_backend.Prelude.Pairs.{All-map_image}
use tpulse_backend.Redis.Sets.{RedisSets, IsRedisSets}
use tpulse_backend.Doubles.{IsDoubles}
use tpulse_backend.Db.{Prisma}
use tpulse_backend.Pagination.{PagedResult, build_paged, skip_of}
use tpulse_backend.Effects.{Result, ok, err, pure, modify, ◌>>=◌, ◌>>◌}
use tpulse_backend.Board.{Post}
use tpulse_backend.Feed.Types.{Candidate, FeedEnv, FeedStore}
use tpulse_backend.Feed.Filters.{has_id}
use tpulse_backend.Feed.Runner.{run}
use tpulse_backend.Feed.Service.{
  Signals, FeedQueryDto, query_of, get_served, mark_served, feed_stages, page_of, for_you,
}
use tpulse_backend.Feed.Pool.{run-IsPool}
use tpulse_backend.Feed.Lasting.{Between, HoldsServed, mark_served-marked, Between-HoldsServed}

-- The posts of an answer.
abbrev pub shown : {S : Type 0} → Result (PagedResult Post) × S → List Post
shown (ok page, s) = page.items
shown (err e, s) = []

has_id-append : (x : ℕ) (xs ys : List ℕ) → has_id x (xs ++ ys) ≡ false → has_id x xs ≡ false
has_id-append x [] ys e = refl
has_id-append x (z ∷ xs) ys e = ground (arith, e, has_id-append x xs ys)

not_both : {a : Bool} → a ≡ true → a ≡ false → ⊥
not_both e f = cc

module _ (sets : RedisSets) (redis_laws : IsRedisSets sets) (db : Prisma) where
  -- The answer, from the pool.
  for_you-run :
      (env : FeedEnv) (user : ℕ) (dto : FeedQueryDto) (signals : Signals) (s s' : FeedStore sets)
      (ranked : List Candidate)
      → run (query_of user dto signals (get_served sets db env user s)) (feed_stages sets db env) s
        ≡ (ok ranked, s')
      → for_you sets db env user dto signals s ≡ (
        ok (build_paged (page_of sets db env dto ranked) (length ranked) dto.page dto.page_size),
        mark_served sets db env user (map (λ (p : Post). p.id) (page_of sets db env dto ranked)) s',
      )
  unfolding for_you
  for_you-run env user dto signals s s' ranked e =
      ap
        (λ r.
          (do
            ranked ← λ _. r
            let page_posts = page_of sets db env dto ranked
            modify (mark_served sets db env user (map (λ (p : Post). p.id) page_posts))
            pure (build_paged page_posts (length ranked) dto.page dto.page_size))
            s')
        e

  -- A page has only posts that were not served before.
  page-unseen :
      (env : FeedEnv) (laws : IsDoubles env.doubles) (user : ℕ) (dto : FeedQueryDto)
      (signals : Signals) (s : FeedStore sets)
      → All
          (λ p. has_id p.id (get_served sets db env user s) ≡ false)
          (shown (for_you sets db env user dto signals s))
  page-unseen env laws user dto signals s =
      let query = query_of user dto signals (get_served sets db env user s) in
      let (ranked, s', e, pool) = run-IsPool env sets db laws query s in
      rw (for_you-run env user dto signals s s' ranked e) (
        All-map_image _ _ _ (
          All-take _ dto.page_size _ (
            All-drop _ (skip_of dto.page dto.page_size) ranked (
              All-map _ _ ranked
                (λ c h.
                  has_id-append c.post.id (get_served sets db env user s) dto.seen_ids
                    (ground (arith, h)))
                pool.0))))

  abbrev served_in : FeedEnv → ℕ → sets.Keyspace → List ℕ
  served_in later user m = if later.redis_up then sets.smembers user later.now m else []

  -- What is shown to a viewer is not shown again while the set of served posts lives, whatever page
  -- is asked for and whatever came in between: answers to this viewer and to others, with Redis or
  -- without it, changes of the posts, and other signals. Redis answers when the post is shown and when
  -- the second page is asked for, and the life of the set is configured alike all along.
  pub for_you_fresh :
      (env later : FeedEnv) (laws : IsDoubles later.doubles) (first : IsDoubles env.doubles)
      (user : ℕ) (dto dto' : FeedQueryDto) (signals signals' : Signals) (s s' : FeedStore sets)
      → env.redis_up ≡ true
      → later.redis_up ≡ true
      → later.now < env.now + env.config.served_ttl_seconds * 1000
      → Between sets db env later (for_you sets db env user dto signals s).1 s'
      → All
          (λ p.
            All (λ q. (p.id == q.id) ≡ false) (shown (for_you sets db later user dto' signals' s')))
          (shown (for_you sets db env user dto signals s))
  unfolding get_served mark_served
  for_you_fresh env later laws first user dto dto' signals signals' s s' up again soon run =
      let until = env.now + env.config.served_ttl_seconds * 1000 in
      let (ranked, t, e, _) =
        run-IsPool env sets db first (query_of user dto signals (get_served sets db env user s))
          s in
      let answer = for_you-run env user dto signals s t ranked e in
      let page = page_of sets db env dto ranked in
      let ids = map (λ (p : Post). p.id) page in
      let unseen = page-unseen later laws user dto' signals' s' in
      rw answer (
        All-from _ page (λ p there.
          let marked : HoldsServed sets p.id user until
              (mark_served sets db env user ids t).served =
            mark_served-marked sets redis_laws db env user p.id ids t up
              (Elem-map (λ (r : Post). r.id) p page there) in
          let kept =
            Between-HoldsServed sets redis_laws db env later p.id user _ s' soon
              (subst (λ r. HoldsServed sets p.id user until r.1.served) (sym answer) marked) run in
          let held : Elem p.id (get_served sets db later user s') =
            rw again (kept later.now soon) in
          let here : has_id p.id (get_served sets db later user s') ≡ true =
            Elem-any (λ b. b == p.id) p.id _ held (==-refl p.id) in
          All-map _ _ _
            (λ q h. elim (Bool-cases (p.id == q.id)) [
              | inr other ↦ other
              | inl equal ↦
                  let id : p.id ≡ q.id = ground (arith, equal) in
                  absurd (
                    not_both here
                      (subst (λ i. has_id i (get_served sets db later user s') ≡ false) (sym id) h))
            ])
            unseen))
