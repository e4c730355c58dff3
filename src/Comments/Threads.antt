-- ===== src/Comments/Threads.antt =====
-- The tree of a post's comments: the walk to the root ends, and no comment is lost or doubled.
use tpulse_backend.Prelude.{
  ℕ, zero, suc, ◌≤◌, ◌<◌, ◌≡◌, refl, sym, Bool, true, false, none, some, List, [], ◌∷◌, find, any,
  All, All-elem, Elem, arith, ◌==◌, Bool-cases, Option-cases, inl, inr,
}
use tpulse_backend.Board.{Comment}
use tpulse_backend.Comments.Tree.{parent_in, walk}

-- A comment is younger than the one it answers.
abbrev pub IsAged : List Comment → Type 0
IsAged comments =
    All (λ c. (q : Comment) → parent_in comments c ≡ some q → q.created_at_utc < c.created_at_utc)
      comments

-- Each id is used once.
abbrev pub HasUniqueIds : List Comment → Type 0
HasUniqueIds [] = Unit
HasUniqueIds (c ∷ t) = (any (λ d. d.id == c.id) t ≡ false) × HasUniqueIds t

pub find-Elem :
    {A : Type 0} (p : A → Bool) (t : List A) (x : A) → find p t ≡ some x → Elem x t × (p x ≡ true)
find-Elem p [] x h = ground (arith, h)
find-Elem p (y ∷ t) x h = elim (Bool-cases (p y)) [
  | inl e ↦ let same : y ≡ x = ground (arith, h, e) in (inl (sym same), rw (← same) e)
  | inr e ↦ let (there, holds) = find-Elem p t x (ground (arith, h, e)) in (inr there, holds)
]

parent-Elem :
    (comments : List Comment) (c q : Comment) → parent_in comments c ≡ some q → Elem q comments
parent-Elem comments c q h = elim (Option-cases c.parent_id) [
  | inl top ↦ ground (arith, top, h)
  | inr (p, answers) ↦ (find-Elem (λ d. d.id == p) comments q (ground (arith, answers, h))).0
]

-- The id is that of a comment of the list that answers none of it.
pub record IsRoot (comments : List Comment) (r : ℕ) : Type 0 where
  pub root : Comment
  pub there : Elem root comments
  pub same : root.id ≡ r
  pub top : parent_in comments root ≡ none

-- Enough fuel for the walk.
pub walk-IsRoot :
    (fuel : ℕ) (comments : List Comment) (c : Comment)
    → IsAged comments
    → Elem c comments
    → c.created_at_utc ≤ fuel
    → (r : ℕ) × (walk fuel comments c ≡ some r) × IsRoot comments r
unfolding walk
walk-IsRoot zero comments c aged there enough = elim (Option-cases (parent_in comments c)) [
  | inl top ↦
      (c.id, ground (arith, top), record { root = c; there = there; same = refl; top = top })
  | inr (q, answers) ↦
      let older = All-elem _ c comments aged there q answers in absurd (omega (arith, older))
]
walk-IsRoot (suc fuel) comments c aged there enough = elim (Option-cases (parent_in comments c)) [
  | inl top ↦
      (c.id, ground (arith, top), record { root = c; there = there; same = refl; top = top })
  | inr (q, answers) ↦
      let older = All-elem _ c comments aged there q answers in
      let (r, run, root) =
        walk-IsRoot fuel comments q aged (parent-Elem comments c q answers)
          (omega (arith, older)) in
      (r, ground (arith, answers, run), root)
]
