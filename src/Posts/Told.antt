-- ===== src/Posts/Told.antt =====
-- What `vote` of prisma-post.repository.ts answers, against the rows.
use tpulse_backend.Prelude.{
  ℕ, ◌+◌, ◌<◌, ◌≡◌, refl, ap, true, false, Option, none, some, List, [], ◌∷◌, Elem-map, ◌==◌,
  if◌then◌else◌, any, count, All-elem, Elem, Elem-any, update_where, any-none, ◌∙◌, Bool-cases,
  Option-cases, inl, inr, arith,
}
use mathlib.Core.Path.{subst}
use tpulse_backend.Prelude.Int.{pos}
use tpulse_backend.Db.{Prisma, IsPrisma}
use tpulse_backend.Effects.{Result, ok, err}
use tpulse_backend.Board.{Board, Env, Post, PostVote}
use tpulse_backend.Votes.{
  VoteOutcome, VoteStatus, applied, unchanged, missing, disabled, agrees, agree_delta,
  disagree_delta, add_votes, outcome, is_vote, new_vote, choose, vote, vote_on, vote_over,
  apply_vote, upsert_vote,
}
use tpulse_backend.Votes.Tally.{IsFair, for_side, any-choose, apply_vote-IsFair}

-- What a vote that was taken answers: the rows of either side, with the user's own among them.
pub record IsTold (p u c : ℕ) (o : VoteOutcome) (s : Board) : Type 0 where
  pub agreeing : o.agree_count ≡ pos (count (for_side true p) s.post_votes)
  pub disagreeing : o.disagree_count ≡ pos (count (for_side false p) s.post_votes)
  pub voted : any (is_vote p u) s.post_votes ≡ true

abbrev pub ToldBy : VoteStatus → ℕ → ℕ → ℕ → VoteOutcome → Board → Type 0
ToldBy applied p u c o s = IsTold p u c o s
ToldBy unchanged p u c o s = IsTold p u c o s
ToldBy missing p u c o s = Unit
ToldBy disabled p u c o s = Unit

abbrev pub Told : ℕ → ℕ → ℕ → Result VoteOutcome → Board → Type 0
Told p u c (err e) s = Unit
Told p u c (ok o) s = ToldBy o.status p u c o s

-- Whoever voted is on one side.
pub voted-count :
    (p u : ℕ) (t : List PostVote)
    → any (is_vote p u) t ≡ true
    → 0 < count (for_side true p) t + count (for_side false p) t
voted-count p u [] h = ground arith
voted-count p u (v ∷ t) h = elim (Bool-cases (is_vote p u v)) [
  | inl mine ↦ elim (Bool-cases (agrees v.choice)) [
    | inl e ↦ ground (arith, mine, e)
    | inr e ↦ ground (arith, mine, e)
  ]
  | inr other ↦ let later = voted-count p u t (ground (arith, h, other)) in omega (arith, later)
]

-- The counters of a post that is there, after the votes changed.
row-IsTold :
    (p u c : ℕ) (o : VoteOutcome) (q : Post) (s : Board)
    → IsFair s
    → Elem q s.posts
    → (q.id == p) ≡ true
    → o.agree_count ≡ q.agree_count
    → o.disagree_count ≡ q.disagree_count
    → any (is_vote p u) s.post_votes ≡ true
    → IsTold p u c o s
row-IsTold p u c o q s fair there same agree disagree voted =
    let row = All-elem _ q s.posts fair.tallied there in
    let id : q.id ≡ p = ground (arith, same) in
    record {
      agreeing = ground (arith, agree, row.0, id);
      disagreeing = ground (arith, disagree, row.1, id);
      voted = voted;
    }

abbrev moved : Option PostVote → ℕ → Post → Post
moved o c = add_votes (agree_delta o c) (disagree_delta o c)

moved_there :
    (o : Option PostVote) (p c : ℕ) (q : Post) (t : List Post)
    → Elem q t
    → (q.id == p) ≡ true
    → Elem (moved o c q) (update_where (λ x. x.id == p) (moved o c) t)
moved_there o p c q t there same =
    subst (λ x. Elem x (update_where (λ x. x.id == p) (moved o c) t))
      (ap (λ b. if b then moved o c q else q) same)
      (Elem-map (λ x. if x.id == p then moved o c x else x) q t there)

module _ (db : Prisma) (laws : IsPrisma db) (env : Env) where
  -- Where the post is there and the row can be written, all of it is written.
  apply_new :
      (p u c : ℕ) (post : Post) (s : Board)
      → any (is_vote p u) s.post_votes ≡ false
      → any (λ q. q.id == p) s.posts ≡ true
      → apply_vote db env p u c post none s ≡ (
        ok (outcome applied (moved none c post) (some c)),
        record s {
          draws = s.draws + 1;
          post_votes = new_vote (env.uuid s.draws) p u c ∷ s.post_votes;
          posts = update_where (λ q. q.id == p) (moved none c) s.posts;
        },
      )
  unfolding apply_vote upsert_vote
  apply_new p u c post s free there = ground (
    arith,
    laws.create_rows (is_vote p u) (new_vote (env.uuid s.draws) p u c) s.post_votes,
    free,
    laws.update_rows (λ q. q.id == p) (moved none c) s.posts,
    there,
  )

  apply_change :
      (p u c : ℕ) (post : Post) (v : PostVote) (s : Board)
      → any (is_vote p u) s.post_votes ≡ true
      → any (λ q. q.id == p) s.posts ≡ true
      → apply_vote db env p u c post (some v) s ≡ (
        ok (outcome applied (moved (some v) c post) (some c)),
        record s {
          post_votes = update_where (is_vote p u) (choose c) s.post_votes;
          posts = update_where (λ q. q.id == p) (moved (some v) c) s.posts;
        },
      )
  unfolding apply_vote upsert_vote
  apply_change p u c post v s free there = ground (
    arith,
    laws.update_rows (is_vote p u) (choose c) s.post_votes,
    free,
    laws.update_rows (λ q. q.id == p) (moved (some v) c) s.posts,
    there,
  )

  apply_vote-Told :
      (p u c : ℕ) (post : Post) (s : Board)
      → Elem post s.posts
      → (post.id == p) ≡ true
      → IsFair (apply_vote db env p u c post (db.find_first (is_vote p u) s.post_votes) s).1
      → Told p u c
          (apply_vote db env p u c post (db.find_first (is_vote p u) s.post_votes) s).0
          (apply_vote db env p u c post (db.find_first (is_vote p u) s.post_votes) s).1
  apply_vote-Told p u c post s there same fair =
      let here = Elem-any (λ q. q.id == p) post s.posts there same in
      elim (Option-cases (db.find_first (is_vote p u) s.post_votes)) [
        | inl nothing ↦
            let free =
              any-none (is_vote p u) s.post_votes
                (laws.find_first_none (is_vote p u) s.post_votes nothing) in
            let run =
              ap (λ o. apply_vote db env p u c post o s) nothing
              ∙ apply_new p u c post s free here in
            rw run (
              row-IsTold p u c _ (moved none c post) _ (subst (λ x. IsFair x.1) run fair)
                (moved_there none p c post s.posts there same) same refl refl (ground arith))
        | inr (v, found) ↦
            let mine =
              Elem-any (is_vote p u) v s.post_votes
                (laws.find_first_elem (is_vote p u) s.post_votes v found)
                (laws.find_first_match (is_vote p u) s.post_votes v found) in
            let run =
              ap (λ o. apply_vote db env p u c post o s) found
              ∙ apply_change p u c post v s mine here in
            rw run (
              row-IsTold p u c _ (moved (some v) c post) _ (subst (λ x. IsFair x.1) run fair)
                (moved_there (some v) p c post s.posts there same) same refl refl
                (any-choose p u p u c s.post_votes ∙ mine))
      ]

  vote_over-Told :
      (p u c : ℕ) (post : Post) (o : Option PostVote) (s : Board)
      → IsFair s
      → Elem post s.posts
      → (post.id == p) ≡ true
      → ((v : PostVote) → o ≡ some v → any (is_vote p u) s.post_votes ≡ true)
      → Told p u c (apply_vote db env p u c post o s).0 (apply_vote db env p u c post o s).1
      → Told p u c (vote_over db env p u c post o s).0 (vote_over db env p u c post o s).1
  unfolding vote_over
  vote_over-Told p u c post none s fair there same voted told = told
  vote_over-Told p u c post (some v) s fair there same voted told =
      elim (Bool-cases (v.choice == c)) [
        | inl e ↦ rw e (row-IsTold p u c _ post s fair there same refl refl (voted v refl))
        | inr e ↦ rw e told
      ]

  vote_on-Told :
      (p u c : ℕ) (o : Option Post) (s : Board)
      → IsFair s
      → ((q : Post) → o ≡ some q → Elem q s.posts × ((q.id == p) ≡ true))
      → Told p u c (vote_on db env p u c o s).0 (vote_on db env p u c o s).1
  unfolding vote_on
  vote_on-Told p u c none s fair found = tt
  vote_on-Told p u c (some q) s fair found = elim (Bool-cases q.is_voting_enabled) [
    | inl on ↦
        let (there, same) = found q refl in
        let rows = s.post_votes in
        rw on (
          vote_over-Told p u c q (db.find_first (is_vote p u) rows) s fair there same
            (λ v e.
              Elem-any (is_vote p u) v rows (laws.find_first_elem (is_vote p u) rows v e)
                (laws.find_first_match (is_vote p u) rows v e))
            (apply_vote-Told p u c q s there same (apply_vote-IsFair db laws env p u c q s fair)))
    | inr off ↦ rw off tt
  ]

  pub vote-Told :
      (p u c : ℕ) (s : Board)
      → IsFair s
      → Told p u c (vote db env p u c s).0 (vote db env p u c s).1
  unfolding vote
  vote-Told p u c s fair =
      let here = λ (q : Post). q.id == p in
      vote_on-Told p u c (db.find_first here s.posts) s fair
        (λ q e. (laws.find_first_elem here s.posts q e, laws.find_first_match here s.posts q e))
