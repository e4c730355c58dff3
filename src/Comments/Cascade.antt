-- ===== src/Comments/Cascade.antt =====
-- What a removal leaves: no reply without its parent, no like without its comment.
use tpulse_backend.Prelude.{
  ℕ, ◌≡◌, refl, sym, ap, Bool, true, false, not, ◌||◌, Option, none, some, List, [], ◌∷◌, filter,
  any, All, arith, ◌==◌, ==-refl, if◌then◌else◌, Bool-cases, inl, inr,
}
use mathlib.Core.Path.{subst}
use tpulse_backend.Board.{Board, Comment, CommentLike}
use tpulse_backend.Messaging.{has_parent}
use tpulse_backend.Comments.Removal.{is_among, parent_among, doomed}

-- Each comment has an id of its own, and the comment it answers, if any, is older.
abbrev pub IsThreaded : List Comment → Type 0
IsThreaded [] = Unit
IsThreaded (c ∷ t) =
    (any (λ d. d.id == c.id) t ≡ false) × (has_parent c.parent_id t ≡ true) × IsThreaded t

abbrev pub HasComment : List Comment → CommentLike → Type 0
HasComment t l = any (λ c. c.id == l.comment_id) t ≡ true

pub record IsLinked (s : Board) : Type 0 where
  pub threaded : IsThreaded s.comments
  pub liked : All (HasComment s.comments) s.comment_likes

abbrev pub kept : List ℕ → Comment → Bool
kept ids c = not (is_among ids c.id)

-- The ids hold, with a comment, all that answer it.
abbrev IsClosed : List ℕ → List Comment → Type 0
IsClosed ids = All (λ c. parent_among ids c.parent_id ≡ true → is_among ids c.id ≡ true)

pub any-kept :
    (ids : List ℕ) (i : ℕ) (t : List Comment)
    → any (λ c. c.id == i) t ≡ true
    → is_among ids i ≡ false
    → any (λ c. c.id == i) (filter (kept ids) t) ≡ true
any-kept ids i [] h out = ground (arith, h)
any-kept ids i (c ∷ t) h out = elim (Bool-cases (c.id == i)) [
  | inl e ↦ let same : c.id ≡ i = ground (arith, e) in rw (same, out) (ground arith)
  | inr e ↦
      let later = any-kept ids i t (ground (arith, h, e)) out in
      elim (Bool-cases (kept ids c)) [ inl k ↦ rw k (ground (arith, later)) | inr k ↦ rw k later ]
]

none-kept :
    (ids : List ℕ) (i : ℕ) (t : List Comment)
    → any (λ c. c.id == i) t ≡ false
    → any (λ c. c.id == i) (filter (kept ids) t) ≡ false
none-kept ids i [] h = refl
none-kept ids i (c ∷ t) h = ground (arith, h, none-kept ids i t)

parent-kept :
    (ids : List ℕ) (parent : Option ℕ) (t : List Comment)
    → has_parent parent t ≡ true
    → parent_among ids parent ≡ false
    → has_parent parent (filter (kept ids) t) ≡ true
parent-kept ids none t h out = refl
parent-kept ids (some p) t h out = any-kept ids p t h out

pub filter-IsThreaded :
    (ids : List ℕ) (t : List Comment)
    → IsThreaded t
    → IsClosed ids t
    → IsThreaded (filter (kept ids) t)
filter-IsThreaded ids [] h closed = tt
filter-IsThreaded ids (c ∷ t) h closed =
    let later = filter-IsThreaded ids t h.2 closed.1 in
    elim (Bool-cases (is_among ids c.id)) [
      | inl gone ↦ rw gone later
      | inr stays ↦
          let free : parent_among ids c.parent_id ≡ false = ground (arith, closed.0, stays) in
          rw stays (none-kept ids c.id t h.0, parent-kept ids c.parent_id t h.1 free, later)
    ]

-- Every comment's parent is in the table.
parents_there :
    (t u : List Comment)
    → ((i : ℕ) → any (λ c. c.id == i) t ≡ true → any (λ c. c.id == i) u ≡ true)
    → IsThreaded t
    → All (λ c. has_parent c.parent_id u ≡ true) t
parents_there [] u lift h = tt
parents_there (c ∷ t) u lift h = (
  lift_parent c.parent_id t u (λ i e. lift i (ground (arith, e))) h.1,
  parents_there t u (λ i e. lift i (ground (arith, e))) h.2,
)
  where
    lift_parent :
        (parent : Option ℕ) (t u : List Comment)
        → ((i : ℕ) → any (λ c. c.id == i) t ≡ true → any (λ c. c.id == i) u ≡ true)
        → has_parent parent t ≡ true
        → has_parent parent u ≡ true
    lift_parent none t u lift h = refl
    lift_parent (some p) t u lift h = lift p h

-- A parent that is in the table is not the newer row.
among-cons :
    (ids : List ℕ) (i : ℕ) (parent : Option ℕ) (t : List Comment)
    → has_parent parent t ≡ true
    → any (λ c. c.id == i) t ≡ false
    → parent_among (i ∷ ids) parent ≡ true
    → parent_among ids parent ≡ true
among-cons ids i none t there fresh h = h
among-cons ids i (some p) t there fresh h = elim (Bool-cases (i == p)) [
  | inl e ↦ let same : i ≡ p = ground (arith, e) in not_both there (rw (← same) fresh)
  | inr e ↦ ground (arith, h, e)
]
  where
    not_both : {A : Type 0} {b : Bool} → b ≡ true → b ≡ false → A
    not_both e f = cc

IsClosed-cons :
    (ids : List ℕ) (i : ℕ) (t u : List Comment)
    → any (λ c. c.id == i) u ≡ false
    → All (λ c. has_parent c.parent_id u ≡ true) t
    → IsClosed ids t
    → IsClosed (i ∷ ids) t
IsClosed-cons ids i [] u fresh there h = tt
IsClosed-cons ids i (c ∷ t) u fresh there h = (
  λ e. let old = h.0 (among-cons ids i c.parent_id u there.0 fresh e) in ground (arith, old),
  IsClosed-cons ids i t u fresh there.1 h.1,
)

pub doomed-IsClosed :
    (p : Comment → Bool) (t : List Comment) → IsThreaded t → IsClosed (doomed p t) t
unfolding doomed
doomed-IsClosed p [] h = tt
doomed-IsClosed p (c ∷ t) h =
    let older = doomed-IsClosed p t h.2 in
    let there = parents_there t t (λ i e. e) h.2 in
    let grown = λ (b : Bool). if b then c.id ∷ doomed p t else doomed p t in
    elim (Bool-cases (p c || parent_among (doomed p t) c.parent_id)) [
      | inl goes ↦
          subst (λ ids. IsClosed ids (c ∷ t)) (sym (ap grown goes))
            (λ e. ground (arith, ==-refl c.id), IsClosed-cons (doomed p t) c.id t t h.0 there older)
      | inr stays ↦
          subst (λ ids. IsClosed ids (c ∷ t)) (sym (ap grown stays))
            (λ e. ground (arith, stays, e), older)
    ]
