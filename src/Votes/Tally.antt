-- ===== src/Votes/Tally.antt =====
-- Each post shows as many votes on either side as it has rows.
use tpulse_backend.Prelude.{
  ℕ, ◌+◌, ◌≡◌, refl, sym, ap, ◌∙◌, Bool, true, false, ◌&&◌, not, Option, none, some, List, [], ◌∷◌,
  if◌then◌else◌, ◌==◌, arith, any, count, All, Elem, Elem-any, any-none, update_where, Bool-cases,
  Option-cases, inl, inr,
}
use mathlib.Core.Path.{subst}
use tpulse_backend.Prelude.Int.{ℤ, pos, ◌+ℤ◌}
use tpulse_backend.Db.{Prisma, IsPrisma}
use tpulse_backend.Board.{Board, Env, Post, PostVote}
use tpulse_backend.Votes.Service.{
  agrees, is_vote, new_vote, choose, down, up, agree_delta, disagree_delta, add_votes, upsert_vote,
  apply_vote, vote_over, vote_on, vote,
}

-- The rows of a post for one side: Agree is stored as 2.
abbrev pub for_side : Bool → ℕ → PostVote → Bool
for_side true q v = v.post_id == q && v.choice == 2
for_side false q v = v.post_id == q && not (v.choice == 2)

abbrev pub IsTallied : List PostVote → List Post → Type 0
IsTallied votes = All (λ p.
    (p.agree_count ≡ pos (count (for_side true p.id) votes))
    × (p.disagree_count ≡ pos (count (for_side false p.id) votes)))

-- The unique constraint of `post_vote`.
abbrev pub HasUniqueVotes : List PostVote → Type 0
HasUniqueVotes [] = Unit
HasUniqueVotes (v ∷ t) = (any (is_vote v.post_id v.user_id) t ≡ false) × HasUniqueVotes t

abbrev tally : Bool → ℕ
tally b = if b then 1 else 0

update_none :
    (p : PostVote → Bool) (f : PostVote → PostVote) (t : List PostVote)
    → any p t ≡ false
    → update_where p f t ≡ t
update_none p f [] h = refl
update_none p f (v ∷ t) h = ground (arith, h, update_none p f t)

-- What a changed vote takes from one side and gives to another.
alone :
    (p u : ℕ) (w : PostVote) (t : List PostVote)
    → is_vote p u w ≡ true
    → any (is_vote w.post_id w.user_id) t ≡ false
    → any (is_vote p u) t ≡ false
alone p u w t m h =
    let same_post : w.post_id ≡ p = ground (arith, m) in
    let same_user : w.user_id ≡ u = ground (arith, m) in
    subst (λ b. any (is_vote p b) t ≡ false) same_user
      (subst (λ a. any (is_vote a w.user_id) t ≡ false) same_post h)

not_both : {b : Bool} → b ≡ true → b ≡ false → ⊥
not_both e f = cc

count-choose :
    (side : Bool) (q p u c : ℕ) (t : List PostVote) (v : PostVote)
    → HasUniqueVotes t
    → Elem v t
    → is_vote p u v ≡ true
    → count (for_side side q) (update_where (is_vote p u) (choose c) t) + tally (for_side side q v)
      ≡ count (for_side side q) t + tally (for_side side q (choose c v))
count-choose side q p u c [] v h e m = absurd e
count-choose side q p u c (w ∷ t) v h (inl same) m =
    let mine : is_vote p u w ≡ true = subst (λ x. is_vote p u x ≡ true) same m in
    let rest = update_none (is_vote p u) (choose c) t (alone p u w t mine h.0) in
    rw (same, mine, rest) (omega arith)
count-choose side q p u c (w ∷ t) v h (inr later) m = elim (Bool-cases (is_vote p u w)) [
  | inl mine ↦ absurd (not_both (Elem-any (is_vote p u) v t later m) (alone p u w t mine h.0))
  | inr other ↦ rw other (omega (arith, count-choose side q p u c t v h.1 later m))
]

pub any-choose :
    (a b p u c : ℕ) (t : List PostVote)
    → any (is_vote a b) (update_where (is_vote p u) (choose c) t) ≡ any (is_vote a b) t
any-choose a b p u c [] = refl
any-choose a b p u c (v ∷ t) = ground (arith, any-choose a b p u c t)

choose-HasUniqueVotes :
    (p u c : ℕ) (t : List PostVote)
    → HasUniqueVotes t
    → HasUniqueVotes (update_where (is_vote p u) (choose c) t)
choose-HasUniqueVotes p u c [] h = tt
choose-HasUniqueVotes p u c (v ∷ t) h =
    ground (arith, h.0, choose-HasUniqueVotes p u c t h.1, any-choose v.post_id v.user_id p u c t)

pos-move : (a b : ℕ) (x y : Bool) → b + tally x ≡ a + tally y → pos a +ℤ (down x +ℤ up y) ≡ pos b
unfolding ◌+ℤ◌
pos-move a b x y h = ground (arith, h)

pos-add : (a : ℕ) (y : Bool) → pos a +ℤ up y ≡ pos (a + tally y)
unfolding ◌+ℤ◌
pos-add a y = ground arith

-- Votes that change for one post, and its counters with them.
update-IsTallied :
    (p : ℕ) (a d : ℤ) (votes votes' : List PostVote) (t : List Post)
    → pos (count (for_side true p) votes) +ℤ a ≡ pos (count (for_side true p) votes')
    → pos (count (for_side false p) votes) +ℤ d ≡ pos (count (for_side false p) votes')
    → ((side : Bool) (q : ℕ)
        → (q == p) ≡ false
        → count (for_side side q) votes' ≡ count (for_side side q) votes)
    → IsTallied votes t
    → IsTallied votes' (update_where (λ q. q.id == p) (add_votes a d) t)
update-IsTallied p a d votes votes' [] self_agree self_disagree others h = tt
update-IsTallied p a d votes votes' (q ∷ t) self_agree self_disagree others h = (
  elim (Bool-cases (q.id == p)) [
    | inl e ↦
        let same : p ≡ q.id = ground (arith, e) in
        rw e (
          ap (λ x. x +ℤ a) h.0.0
              ∙ subst
                  (λ i.
                    pos (count (for_side true i) votes) +ℤ a ≡ pos (count (for_side true i) votes'))
                  same self_agree,
          ap (λ x. x +ℤ d) h.0.1
              ∙ subst
                  (λ i.
                    pos (count (for_side false i) votes) +ℤ d
                    ≡ pos (count (for_side false i) votes'))
                  same self_disagree,
        )
    | inr e ↦
        rw e (h.0.0 ∙ ap pos (sym (others true q.id e)), h.0.1 ∙ ap pos (sym (others false q.id e)))
  ],
  update-IsTallied p a d votes votes' t self_agree self_disagree others h.1,
)

-- A new vote, counted.
add-IsTallied :
    (id p u c : ℕ) (votes : List PostVote) (t : List Post)
    → IsTallied votes t
    → IsTallied
        (new_vote id p u c ∷ votes)
        (update_where (λ q. q.id == p) (add_votes (agree_delta none c) (disagree_delta none c)) t)
add-IsTallied id p u c votes t h =
    update-IsTallied p (agree_delta none c) (disagree_delta none c) votes
      (new_vote id p u c ∷ votes) t
      (ground (arith, pos-add (count (for_side true p) votes) (agrees c)))
      (ground (arith, pos-add (count (for_side false p) votes) (not (agrees c))))
      (λ side q other. elim side [ true ↦ ground (arith, other) | false ↦ ground (arith, other) ]) h

untouched :
    (side : Bool) (q c : ℕ) (v : PostVote) (a b : ℕ)
    → (v.post_id == q) ≡ false
    → a + tally (for_side side q v) ≡ b + tally (for_side side q (choose c v))
    → a ≡ b
untouched true q c v a b away h = ground (arith, away, h)
untouched false q c v a b away h = ground (arith, away, h)

-- A changed vote, moved.
choose-IsTallied :
    (p u c : ℕ) (votes : List PostVote) (v : PostVote) (t : List Post)
    → HasUniqueVotes votes
    → Elem v votes
    → is_vote p u v ≡ true
    → IsTallied votes t
    → IsTallied (update_where (is_vote p u) (choose c) votes) (
        update_where
          (λ q. q.id == p)
          (add_votes (agree_delta (some v) c) (disagree_delta (some v) c))
          t)
choose-IsTallied p u c votes v t unique there mine h =
    let counts = λ (side : Bool) (q : ℕ). count-choose side q p u c votes v unique there mine in
    let here : (v.post_id == p) ≡ true = ground (arith, mine) in
    update-IsTallied p (agree_delta (some v) c) (disagree_delta (some v) c) votes
      (update_where (is_vote p u) (choose c) votes) t
      (pos-move (count (for_side true p) votes) _ (agrees v.choice) (agrees c)
        (ground (arith, counts true p, here)))
      (pos-move (count (for_side false p) votes) _ (not (agrees v.choice)) (not (agrees c))
        (ground (arith, counts false p, here)))
      (λ side q other.
        let away : (v.post_id == q) ≡ false = ground (arith, here, other) in
        untouched side q c v _ _ away (counts side q))
      h

pub record IsFair (s : Board) : Type 0 where
  pub tallied : IsTallied s.post_votes s.posts
  pub unique : HasUniqueVotes s.post_votes

module _ (db : Prisma) (laws : IsPrisma db) (env : Env) where
  pub apply_vote-IsFair :
      (p u c : ℕ) (post : Post) (s : Board)
      → IsFair s
      → IsFair (apply_vote db env p u c post (db.find_first (is_vote p u) s.post_votes) s).1
  unfolding apply_vote upsert_vote
  apply_vote-IsFair p u c post s h =
      elim (Option-cases (db.find_first (is_vote p u) s.post_votes)) [
        | inl nothing ↦
            let free =
              any-none (is_vote p u) s.post_votes
                (laws.find_first_none (is_vote p u) s.post_votes nothing) in
            let new = new_vote (env.uuid s.draws) p u c in
            rw nothing (
              ground (
                arith,
                h.tallied,
                h.unique,
                free,
                laws.create_rows (is_vote p u) new s.post_votes,
                laws.update_rows (λ q. q.id == p)
                    (add_votes (agree_delta none c) (disagree_delta none c)) s.posts,
                add-IsTallied (env.uuid s.draws) p u c s.post_votes s.posts h.tallied,
              ))
        | inr (v, found) ↦
            let there = laws.find_first_elem (is_vote p u) s.post_votes v found in
            let mine = laws.find_first_match (is_vote p u) s.post_votes v found in
            rw found (
              ground (
                arith,
                h.tallied,
                h.unique,
                laws.update_rows (is_vote p u) (choose c) s.post_votes,
                laws.update_rows (λ q. q.id == p)
                    (add_votes (agree_delta (some v) c) (disagree_delta (some v) c)) s.posts,
                choose-IsTallied p u c s.post_votes v s.posts h.unique there mine h.tallied,
                choose-HasUniqueVotes p u c s.post_votes h.unique,
              ))
      ]

  vote_over-IsFair :
      (p u c : ℕ) (post : Post) (o : Option PostVote) (s : Board)
      → IsFair s
      → IsFair (apply_vote db env p u c post o s).1
      → IsFair (vote_over db env p u c post o s).1
  unfolding vote_over
  vote_over-IsFair p u c post none s h k = k
  vote_over-IsFair p u c post (some v) s h k = elim (Bool-cases (v.choice == c)) [
    | inl same ↦ rw same h
    | inr other ↦ rw other k
  ]

  vote_on-IsFair :
      (p u c : ℕ) (o : Option Post) (s : Board) → IsFair s → IsFair (vote_on db env p u c o s).1
  unfolding vote_on
  vote_on-IsFair p u c none s h = h
  vote_on-IsFair p u c (some q) s h = elim (Bool-cases q.is_voting_enabled) [
    | inl on ↦ rw on (vote_over-IsFair p u c q _ s h (apply_vote-IsFair p u c q s h))
    | inr off ↦ rw off h
  ]

  -- However a vote ends, each post shows as many votes on either side as there are rows for it, and
  -- no user has two votes on a post, if that held before.
  pub vote-IsFair : (p u c : ℕ) (s : Board) → IsFair s → IsFair (vote db env p u c s).1
  unfolding vote
  vote-IsFair p u c s h = vote_on-IsFair p u c _ s h
