-- ===== src/Relations/Hidden.antt =====
-- Whom a user blocks or mutes, the user's feed does not show.
use tpulse_backend.Prelude.{
  ◌⊎◌, ap, ℕ, ◌≡◌, refl, sym, true, false, ◌||◌, List, [], ◌∷◌, ◌++◌, ◌==◌, ==-refl, map, any, All,
  All-map, Elem, Elem-any, Elem-filter, Elem-map, any-Elem, arith, Bool-cases, inl, inr,
}
use mathlib.Core.Path.{subst}
use tpulse_backend.Db.{Prisma, IsPrisma}
use tpulse_backend.Redis.Sets.{RedisSets}
use tpulse_backend.Doubles.{IsDoubles}
use tpulse_backend.Effects.{Result, ok, err}
use tpulse_backend.Notifications.Telling.{distinct-Elem}
use tpulse_backend.Feed.{
  Candidate, FeedEnv, FeedQuery, FeedStore, FeedQueryDto, query_of, feed_stages, run, is_suppressed,
}
use tpulse_backend.Feed.Filtering.{is_removed}
use tpulse_backend.Feed.Pool.{run-IsPool}
use tpulse_backend.Relations.Types.{Tie, Ties, TieEnv, is_tie, new_tie}
use tpulse_backend.Relations.Blocks.{
  BlockOutcome, assert_other_user, create_block, block, create_mute, mute,
}
use tpulse_backend.Relations.Signals.{suppressed_author_ids, signals_of}

-- The user blocks or mutes the other.
abbrev pub Suppresses : ℕ → ℕ → Ties → Type 0
Suppresses user target s =
    (any (is_tie user target) s.blocks || any (is_tie user target) s.mutes) ≡ true

Elem-append_left : (x : ℕ) (xs ys : List ℕ) → Elem x xs → Elem x (xs ++ ys)
Elem-append_left x [] ys e = absurd e
Elem-append_left x (y ∷ xs) ys (inl e) = inl e
Elem-append_left x (y ∷ xs) ys (inr e) = inr (Elem-append_left x xs ys e)

Elem-append_right : (x : ℕ) (xs ys : List ℕ) → Elem x ys → Elem x (xs ++ ys)
Elem-append_right x [] ys e = e
Elem-append_right x (y ∷ xs) ys e = inr (Elem-append_right x xs ys e)

module _ (db : Prisma) (laws : IsPrisma db) (env : TieEnv) where
  tied-Elem :
      (user target : ℕ) (t : List Tie)
      → any (is_tie user target) t ≡ true
      → Elem target (map (λ (x : Tie). x.to_id) (db.find_many (λ x. x.from_id == user) t))
  tied-Elem user target t h =
      let (row, there, mine) = any-Elem (is_tie user target) t h in
      let to : row.to_id ≡ target = ground (arith, mine) in
      let from : (row.from_id == user) ≡ true = ground (arith, mine) in
      subst (λ x. Elem x (map (λ (x : Tie). x.to_id) (db.find_many (λ x. x.from_id == user) t))) to
        (Elem-map (λ (x : Tie). x.to_id) row (db.find_many (λ x. x.from_id == user) t)
          (subst (Elem row) (sym (laws.find_many_rows (λ x. x.from_id == user) t))
            (Elem-filter (λ x. x.from_id == user) row t there from)))

  suppressed-Elem :
      (user target : ℕ) (s : Ties)
      → Suppresses user target s
      → Elem target (suppressed_author_ids db env user s)
  suppressed-Elem user target s h =
      distinct-Elem target [] _
        (elim (Bool-cases (any (is_tie user target) s.blocks)) [
          | inl blocks ↦ Elem-append_left target _ _ (tied-Elem user target s.blocks blocks)
          | inr no_block ↦
              Elem-append_right target
                (map (λ (x : Tie). x.to_id) (db.find_many (λ x. x.from_id == user) s.blocks)) _
                (tied-Elem user target s.mutes (ground (arith, h, no_block)))
        ])
        refl

  -- A call that succeeds leaves the other blocked, whether or not the user had blocked them before.
  block-Suppresses :
      (user target : ℕ) (s : Ties) (o : BlockOutcome)
      → (block db env user target s).0 ≡ ok o
      → Suppresses user target (block db env user target s).1
  unfolding block assert_other_user create_block
  block-Suppresses user target s o e = ground (
    arith,
    e,
    laws.create_rows (is_tie user target) (new_tie (env.uuid s.draws) user target) s.blocks,
  )

  mute-Suppresses :
      (user target : ℕ) (s : Ties) (o : BlockOutcome)
      → (mute db env user target s).0 ≡ ok o
      → Suppresses user target (mute db env user target s).1
  unfolding mute assert_other_user create_mute
  mute-Suppresses user target s o e = ground (
    arith,
    e,
    laws.create_rows (is_tie user target) (new_tie (env.uuid s.draws) user target) s.mutes,
  )

-- The posts of an author are not among the candidates.
abbrev pub HidesAuthor : ℕ → Result (List Candidate) → Type 0
HidesAuthor target (err e) = ⊥
HidesAuthor target (ok ranked) = All (λ c. (c.post.owner_id == target) ≡ false) ranked

module _ (sets : RedisSets) (db : Prisma) (laws : IsPrisma db) (env : TieEnv) (feed_env : FeedEnv)
    (numbers : IsDoubles feed_env.doubles) where
  not_suppressed :
      (target : ℕ) (query : FeedQuery) (c : Candidate)
      → Elem target query.suppressed_author_ids
      → is_removed feed_env query c ≡ false
      → (c.post.owner_id == target) ≡ false
  not_suppressed target query c there kept = elim (Bool-cases (c.post.owner_id == target)) [
    | inl same ↦
        let owner : c.post.owner_id ≡ target = ground (arith, same) in
        let listed =
          Elem-any (λ b. b == target) target query.suppressed_author_ids there (==-refl target) in
        let suppressed : is_suppressed query c ≡ true = rw owner listed in
        ground (arith, kept, suppressed)
    | inr other ↦ other
  ]

  feed-HidesAuthor :
      (user target : ℕ) (s : Ties) (dto : FeedQueryDto) (served : List ℕ) (f : FeedStore sets)
      → Suppresses user target s
      → HidesAuthor target
          (run
            (query_of user dto (signals_of db env user s) served)
            (feed_stages sets db feed_env)
            f).0
  unfolding signals_of
  feed-HidesAuthor user target s dto served f h =
      let query = query_of user dto (signals_of db env user s) served in
      let (ranked, f', run_eq, pool) = run-IsPool feed_env sets db numbers query f in
      subst (λ x. HidesAuthor target x.0) (sym run_eq)
        (All-map _ _ ranked
          (λ c kept.
            not_suppressed target query c (suppressed-Elem db laws env user target s h) kept)
          pool.0)

  -- Once a user's call to block or to mute another has succeeded, whatever it answered, the ranking of
  -- the user's feed succeeds and holds no post of the other, for any page, any posts and caches, and
  -- whatever was served before.
  pub suppress-HidesAuthor :
      (user target : ℕ) (s s' : Ties) (o : BlockOutcome) (dto : FeedQueryDto) (served : List ℕ)
      (f : FeedStore sets)
      → ((block db env user target s ≡ (ok o, s')) ⊎ (mute db env user target s ≡ (ok o, s')))
      → HidesAuthor target
          (run
            (query_of user dto (signals_of db env user s') served)
            (feed_stages sets db feed_env)
            f).0
  suppress-HidesAuthor user target s s' o dto served f (inl done) =
      feed-HidesAuthor user target s' dto served f (
        subst (Suppresses user target) (ap (λ x. x.1) done)
          (block-Suppresses db laws env user target s o (ap (λ x. x.0) done)))
  suppress-HidesAuthor user target s s' o dto served f (inr done) =
      feed-HidesAuthor user target s' dto served f (
        subst (Suppresses user target) (ap (λ x. x.1) done)
          (mute-Suppresses db laws env user target s o (ap (λ x. x.0) done)))
