-- ===== src/Comments/Completeness.antt =====
-- The tree of a post's comments shows each of them once.
use tpulse_backend.Prelude.{
  ℕ, zero, suc, ◌+◌, ◌≡◌, refl, sym, ap, ◌∙◌, Bool, true, false, not, Option, none, some, List, [],
  ◌∷◌, ◌++◌, map, filter, any, count, All, All-from, All-filter, ==-refl, Elem, Elem-any, arith,
  ◌==◌, if◌then◌else◌, Bool-cases, inl, inr,
}
use mathlib.Core.Path.{subst}
use tpulse_backend.Board.{Comment}
use tpulse_backend.Comments.Tree.{
  Owner, CommentDto, Thread, to_dto, parent_in, walk, root_id, push_all, thread_of,
  build_comment_tree,
}
use tpulse_backend.Comments.Threads.{IsAged, HasUniqueIds, IsRoot, walk-IsRoot}

abbrev got : Option ℕ → ℕ
got none = 0
got (some r) = r

abbrev rooted : List Comment → Comment → ℕ
rooted comments c = got (root_id comments c)

abbrev is_top : List Comment → Comment → Bool
is_top comments c = rooted comments c == c.id

-- All comments of a thread, in order, and of all threads.
abbrev pub shown : List Thread → List CommentDto
shown [] = []
shown (t ∷ ts) = t.top ∷ (t.replies ++ shown ts)

root_id-IsRoot :
    (comments : List Comment) (c : Comment)
    → IsAged comments
    → Elem c comments
    → (root_id comments c ≡ some (rooted comments c)) × IsRoot comments (rooted comments c)
unfolding root_id
root_id-IsRoot comments c aged there =
    let (r, run, root) = walk-IsRoot c.created_at_utc comments c aged there (omega arith) in
    rw run (refl, root)

abbrev answer : List Comment → Comment → ℕ × Comment
answer comments c = (rooted comments c, c)

push_all-filter :
    (comments rest : List Comment)
    → All (λ c. root_id comments c ≡ some (rooted comments c)) rest
    → push_all comments rest
      ≡ some (record {
        tops = filter (is_top comments) rest;
        replies = map (answer comments) (filter (λ c. not (is_top comments c)) rest);
      })
unfolding push_all
push_all-filter comments [] h = refl
push_all-filter comments (c ∷ rest) h = elim (Bool-cases (is_top comments c)) [
  | inl e ↦ rw (h.0, push_all-filter comments rest h.1, e) refl
  | inr e ↦ rw (h.0, push_all-filter comments rest h.1, e) refl
]

count-append :
    {A : Type 0} (p : A → Bool) (xs ys : List A) → count p (xs ++ ys) ≡ count p xs + count p ys
count-append p [] ys = omega arith
count-append p (x ∷ xs) ys = omega (arith, count-append p xs ys)

count-map :
    {A B : Type 0} (p : B → Bool) (f : A → B) (xs : List A)
    → count p (map f xs) ≡ count (λ x. p (f x)) xs
count-map p f [] = refl
count-map p f (x ∷ xs) = omega (arith, count-map p f xs)

count-partition :
    {A : Type 0} (p g : A → Bool) (xs : List A)
    → count p (filter g xs) + count p (filter (λ x. not (g x)) xs) ≡ count p xs
count-partition p g [] = refl
count-partition p g (x ∷ xs) = elim (Bool-cases (g x)) [
  | inl e ↦ rw e (omega (arith, count-partition p g xs))
  | inr e ↦ rw e (omega (arith, count-partition p g xs))
]

-- The replies that the threads of `tops` show.
abbrev replied : (Comment → Bool) → List (ℕ × Comment) → List Comment → ℕ
replied p replies [] = 0
replied p replies (c ∷ tops) =
    count (λ (r : ℕ × Comment). p r.1) (filter (λ r. r.0 == c.id) replies) + replied p replies tops

replied-none : (p : Comment → Bool) (tops : List Comment) → replied p [] tops ≡ 0
replied-none p [] = refl
replied-none p (c ∷ tops) = omega (arith, replied-none p tops)

replied-cons :
    (p : Comment → Bool) (r : ℕ × Comment) (replies : List (ℕ × Comment)) (tops : List Comment)
    → replied p (r ∷ replies) tops
      ≡ (if p r.1 then count (λ c. r.0 == c.id) tops else 0) + replied p replies tops
replied-cons p r replies [] = ground arith
replied-cons p r replies (c ∷ tops) =
    let later = replied-cons p r replies tops in
    elim (Bool-cases (r.0 == c.id)) [
      | inl e ↦ elim (Bool-cases (p r.1)) [
        | inl shows ↦ rw (e, shows) (ground (arith, later, shows))
        | inr hides ↦ rw (e, hides) (ground (arith, later, hides))
      ]
      | inr e ↦ rw e (ground (arith, later))
    ]

replied-all :
    (p : Comment → Bool) (replies : List (ℕ × Comment)) (tops : List Comment)
    → All (λ (r : ℕ × Comment). count (λ c. r.0 == c.id) tops ≡ 1) replies
    → replied p replies tops ≡ count (λ (r : ℕ × Comment). p r.1) replies
replied-all p [] tops h = replied-none p tops
replied-all p (r ∷ replies) tops h =
    rw (replied-cons p r replies tops, h.0, replied-all p replies tops h.1) refl

count-shown :
    (p : CommentDto → Bool) (dto : Comment → CommentDto) (replies : List (ℕ × Comment))
    (tops : List Comment)
    → count p (shown (map (thread_of dto replies) tops))
      ≡ count (λ c. p (dto c)) tops + replied (λ c. p (dto c)) replies tops
count-shown p dto replies [] = refl
count-shown p dto replies (c ∷ tops) = omega (
  arith,
  count-append p (map (λ (r : ℕ × Comment). dto r.1) (filter (λ r. r.0 == c.id) replies))
      (shown (map (thread_of dto replies) tops)),
  count-map p (λ (r : ℕ × Comment). dto r.1) (filter (λ r. r.0 == c.id) replies),
  count-shown p dto replies tops,
)

count-absent :
    (g : Comment → Bool) (i : ℕ) (t : List Comment)
    → any (λ d. d.id == i) t ≡ false
    → count (λ c. i == c.id) (filter g t) ≡ 0
count-absent g i [] h = refl
count-absent g i (c ∷ t) h = ground (arith, h, count-absent g i t)

-- An id that is used once, by a row that the filter keeps.
count_unique :
    (g : Comment → Bool) (i : ℕ) (d : Comment) (t : List Comment)
    → HasUniqueIds t
    → Elem d t
    → d.id ≡ i
    → g d ≡ true
    → count (λ c. i == c.id) (filter g t) ≡ 1
count_unique g i d [] unique there same keep = absurd there
count_unique g i d (c ∷ t) unique (inl e) same keep =
    let mine : c.id ≡ i = ap (λ x. x.id) (sym e) ∙ same in
    let kept : g c ≡ true = rw (← e) keep in
    let none_later = count-absent g i t (rw (← mine) unique.0) in
    ground (arith, mine, kept, none_later)
count_unique g i d (c ∷ t) unique (inr e) same keep =
    let later = count_unique g i d t unique.1 e same keep in
    let clash = λ (h : (d.id == c.id) ≡ true). Elem-any (λ x. x.id == c.id) d t e h in
    let away : (i == c.id) ≡ false = ground (arith, clash, unique.0, same) in
    ground (arith, away, later)

pub record IsTree (comments : List Comment) (dto : Comment → CommentDto)
    (tree : Option (List Thread)) : Type 0 where
  pub threads : List Thread
  pub built : tree ≡ some threads
  pub each_once :
      (p : CommentDto → Bool) → count p (shown threads) ≡ count (λ c. p (dto c)) comments
  pub roots : All (λ t. IsRoot comments t.top.id) threads

walk-top :
    (fuel : ℕ) (comments : List Comment) (c : Comment)
    → parent_in comments c ≡ none
    → walk fuel comments c ≡ some c.id
unfolding walk
walk-top zero comments c top = ground (arith, top)
walk-top (suc fuel) comments c top = ground (arith, top)

answer_once :
    (comments : List Comment)
    → IsAged comments
    → HasUniqueIds comments
    → (rest : List Comment) → All (λ c. Elem c comments) rest
    → All
        (λ (r : ℕ × Comment). count (λ c. r.0 == c.id) (filter (is_top comments) comments) ≡ 1)
        (map (answer comments) rest)
unfolding root_id
answer_once comments aged unique [] there = tt
answer_once comments aged unique (c ∷ rest) there =
    let (run, root) = root_id-IsRoot comments c aged there.0 in
    let top : is_top comments root.root ≡ true =
      rw (walk-top root.root.created_at_utc comments root.root root.top) (==-refl root.root.id) in
    (
      count_unique (is_top comments) (rooted comments c) root.root comments unique root.there
          root.same top,
      answer_once comments aged unique rest there.1,
    )

top-IsRoot :
    (comments : List Comment) (dto : Comment → CommentDto) (replies : List (ℕ × Comment))
    → ((c : Comment) → (dto c).id ≡ c.id)
    → IsAged comments
    → (rest : List Comment) → All (λ c. Elem c comments) rest
    → All
        (λ t. IsRoot comments t.top.id)
        (map (thread_of dto replies) (filter (is_top comments) rest))
top-IsRoot comments dto replies keeps aged [] there = tt
top-IsRoot comments dto replies keeps aged (c ∷ rest) there =
    let later = top-IsRoot comments dto replies keeps aged rest there.1 in
    elim (Bool-cases (is_top comments c)) [
      | inl e ↦
          let same : rooted comments c ≡ c.id = ground (arith, e) in
          let root = subst (IsRoot comments) same (root_id-IsRoot comments c aged there.0).1 in
          rw (e, keeps c) (root, later)
      | inr e ↦ rw e later
    ]

-- Of comments with ids of their own, each younger than the one it answers, the tree is built: the walk
-- to the root of each ends, the tree shows each comment exactly once, at the top or as a reply, and
-- at its top stand comments that answer none of the list.
pub build_comment_tree-IsTree :
    (comments : List Comment) (owner_of : ℕ → Owner) (liked : ℕ → Bool)
    → IsAged comments
    → HasUniqueIds comments
    → IsTree comments (to_dto owner_of liked) (build_comment_tree comments owner_of liked)
unfolding build_comment_tree
build_comment_tree-IsTree comments owner_of liked aged unique =
    let dto = to_dto owner_of liked in
    let tops = filter (is_top comments) comments in
    let below = filter (λ c. not (is_top comments c)) comments in
    let all = All-from (λ c. Elem c comments) comments (λ c e. e) in
    let pushed =
      push_all-filter comments comments
        (All-from _ comments (λ c e. (root_id-IsRoot comments c aged e).0)) in
    record {
      threads = map (thread_of dto (map (answer comments) below)) tops;
      built = rw pushed refl;
      each_once = λ p.
          let shows = λ (c : Comment). p (dto c) in
          let replies = map (answer comments) below in
          omega (
            arith,
            count-shown p dto replies tops,
            replied-all shows replies tops (
                answer_once comments aged unique below
                  (All-filter (λ c. Elem c comments) (λ c. not (is_top comments c)) comments all)),
            count-map (λ (r : ℕ × Comment). shows r.1) (answer comments) below,
            count-partition shows (is_top comments) comments,
          );
      roots = top-IsRoot comments dto (map (answer comments) below) (λ c. refl) aged comments all;
    }
