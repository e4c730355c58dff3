-- ===== src/Posts/Keys.antt =====
-- The primary key of `post` under the updates and deletions of rows.
use tpulse_backend.Prelude.{
  ℕ, ◌≡◌, refl, inl, inr, Bool, true, false, List, [], ◌∷◌, ◌==◌, arith, All, any, filter,
  update_where, Elem, Elem-any, sym, ◌∙◌, Bool-cases,
}
use tpulse_backend.Board.{Post}

-- The primary key of `post`.
abbrev pub HasUniqueIds : List Post → Type 0
HasUniqueIds [] = Unit
HasUniqueIds (p ∷ t) = (any (λ q. q.id == p.id) t ≡ false) × HasUniqueIds t

not_both : {A : Type 0} {b : Bool} → b ≡ true → b ≡ false → A
not_both e f = cc

-- Two rows with one id are one row.
pub same_row :
    (i : ℕ) (p q : Post) (t : List Post)
    → HasUniqueIds t
    → Elem p t
    → Elem q t
    → (p.id == i) ≡ true
    → (q.id == i) ≡ true
    → p ≡ q
same_row i p q [] unique there here e f = absurd there
same_row i p q (r ∷ t) unique (inl a) (inl b) e f = a ∙ sym b
same_row i p q (r ∷ t) unique (inl a) (inr b) e f =
    let clash = Elem-any (λ x. x.id == r.id) q t b (rw (← a) (ground (arith, e, f))) in
    not_both clash unique.0
same_row i p q (r ∷ t) unique (inr a) (inl b) e f =
    let clash = Elem-any (λ x. x.id == r.id) p t a (rw (← b) (ground (arith, e, f))) in
    not_both clash unique.0
same_row i p q (r ∷ t) unique (inr a) (inr b) e f = same_row i p q t unique.1 a b e f

any-update :
    (i j : ℕ) (f : Post → Post) (t : List Post)
    → ((x : Post) → (f x).id ≡ x.id)
    → any (λ x. x.id == i) (update_where (λ x. x.id == j) f t) ≡ any (λ x. x.id == i) t
any-update i j f [] same = refl
any-update i j f (x ∷ t) same = elim (Bool-cases (x.id == j)) [
  | inl e ↦ rw (e, same x, any-update i j f t same) refl
  | inr e ↦ rw (e, any-update i j f t same) refl
]

pub update-HasUniqueIds :
    (j : ℕ) (f : Post → Post) (t : List Post)
    → ((x : Post) → (f x).id ≡ x.id)
    → HasUniqueIds t
    → HasUniqueIds (update_where (λ x. x.id == j) f t)
update-HasUniqueIds j f [] same h = tt
update-HasUniqueIds j f (x ∷ t) same h = elim (Bool-cases (x.id == j)) [
  | inl e ↦ rw (e, same x) (any-update x.id j f t same ∙ h.0, update-HasUniqueIds j f t same h.1)
  | inr e ↦ rw e (any-update x.id j f t same ∙ h.0, update-HasUniqueIds j f t same h.1)
]

any-keep :
    (i : ℕ) (p : Post → Bool) (t : List Post)
    → any (λ x. x.id == i) t ≡ false
    → any (λ x. x.id == i) (filter p t) ≡ false
any-keep i p [] h = refl
any-keep i p (x ∷ t) h = ground (arith, h, any-keep i p t)

pub filter-HasUniqueIds :
    (p : Post → Bool) (t : List Post) → HasUniqueIds t → HasUniqueIds (filter p t)
filter-HasUniqueIds p [] h = tt
filter-HasUniqueIds p (x ∷ t) h = elim (Bool-cases (p x)) [
  | inl e ↦ rw e (any-keep x.id p t h.0, filter-HasUniqueIds p t h.1)
  | inr e ↦ rw e (filter-HasUniqueIds p t h.1)
]

pub All-update :
    {A : Type 0} (P : A → Type 0) (p : A → Bool) (f : A → A) (t : List A)
    → ((x : A) → Elem x t → p x ≡ true → P x → P (f x))
    → All P t
    → All P (update_where p f t)
All-update P p f [] keep h = tt
All-update P p f (x ∷ t) keep h =
    let later = All-update P p f t (λ y e. keep y (inr e)) h.1 in
    elim (Bool-cases (p x)) [
      | inl e ↦ rw e (keep x (inl refl) e h.0, later)
      | inr e ↦ rw e (h.0, later)
    ]
