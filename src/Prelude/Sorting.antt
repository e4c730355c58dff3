-- ===== src/Prelude/Sorting.antt =====
-- The stable sort of the host's arrays and of `orderBy`, as an insertion sort, and what it keeps.
use Prim.Native.Nat.{ℕ, zero, suc}
use mathlib.Core.Path.{◌≡◌, refl, sym, subst, ap}
use mathlib.Core.Logic.{◌⊎◌, inl, inr}
use mathlib.Core.Bool.{Bool, true, false}
use mathlib.Core.List.{List, [], ◌∷◌}
use native.Mathlib.Omega.{arith}
use tpulse_backend.Prelude.Tests.{if◌then◌else◌, Bool-cases}
use tpulse_backend.Prelude.Lists.{length, take, All, All-map, All-elem, Elem}

module _ {A : Type 0} (no_later : A → A → Bool) where
  -- `x` goes before the first element that it is no later than.
  unfoldable pub insert_by : A → List A → List A
  insert_by x [] = x ∷ []
  insert_by x (y ∷ ys) =
      let later = insert_by x ys in if no_later x y then x ∷ y ∷ ys else y ∷ later

  unfoldable pub sort_by : List A → List A
  unfolding insert_by
  sort_by [] = []
  sort_by (x ∷ xs) = insert_by x (sort_by xs)

  -- Each element is no later than all after it.
  abbrev pub Pairwise : List A → Type 0
  Pairwise [] = Unit
  Pairwise (x ∷ xs) = All (λ y. no_later x y ≡ true) xs × Pairwise xs

  -- `x` is no later than the first element of the list.
  abbrev pub IsHead : A → List A → Type 0
  IsHead x [] = Unit
  IsHead x (y ∷ ys) = no_later x y ≡ true

  -- Each element is no later than the next.
  abbrev pub Sorted : List A → Type 0
  Sorted [] = Unit
  Sorted (x ∷ xs) = IsHead x xs × Sorted xs

  pub insert-length : (x : A) (ys : List A) → length (insert_by x ys) ≡ suc (length ys)
  unfolding insert_by
  insert-length x [] = refl
  insert-length x (y ∷ ys) = ground (arith, insert-length x ys)

  pub sort-length : (xs : List A) → length (sort_by xs) ≡ length xs
  unfolding sort_by
  sort-length [] = refl
  sort-length (x ∷ xs) = ground (arith, insert-length x (sort_by xs), sort-length xs)

  pub insert-All {κ} :
      (P : A → Type κ) (x : A) (ys : List A) → P x → All P ys → All P (insert_by x ys)
  unfolding insert_by
  insert-All P x [] px h = (px, tt)
  insert-All P x (y ∷ ys) px h = elim (Bool-cases (no_later x y)) [
    | inl e ↦ rw e ((px, h))
    | inr e ↦ rw e ((h.0, insert-All P x ys px h.1))
  ]

  pub sort-All {κ} : (P : A → Type κ) (xs : List A) → All P xs → All P (sort_by xs)
  unfolding sort_by
  sort-All P [] h = tt
  sort-All P (x ∷ xs) h = insert-All P x (sort_by xs) h.0 (sort-All P xs h.1)

  insert_self : (x : A) (ys : List A) → Elem x (insert_by x ys)
  unfolding insert_by
  insert_self x [] = inl refl
  insert_self x (y ∷ ys) = elim (Bool-cases (no_later x y)) [
    | inl e ↦ rw e (inl refl)
    | inr e ↦ rw e (inr (insert_self x ys))
  ]

  insert-Elem : (x z : A) (ys : List A) → Elem z ys → Elem z (insert_by x ys)
  unfolding insert_by
  insert-Elem x z [] h = absurd h
  insert-Elem x z (y ∷ ys) h = elim (Bool-cases (no_later x y)) [
    | inl e ↦ rw e (inr h)
    | inr e ↦ rw e (elim h [ inl same ↦ inl same | inr later ↦ inr (insert-Elem x z ys later) ])
  ]

  pub sort-Elem : (z : A) (xs : List A) → Elem z xs → Elem z (sort_by xs)
  unfolding sort_by
  sort-Elem z [] h = absurd h
  sort-Elem z (x ∷ xs) (inl same) =
      subst (λ v. Elem v (insert_by x (sort_by xs))) (sym same) (insert_self x (sort_by xs))
  sort-Elem z (x ∷ xs) (inr later) = insert-Elem x z (sort_by xs) (sort-Elem z xs later)

  module _ (total : (x y : A) → no_later x y ≡ false → no_later y x ≡ true) where
    insert-IsHead :
        (w x : A) (ys : List A) → no_later w x ≡ true → IsHead w ys → IsHead w (insert_by x ys)
    unfolding insert_by
    insert-IsHead w x [] e h = e
    insert-IsHead w x (y ∷ ys) e h = ground (arith, e, h)

    insert-Sorted : (x : A) (ys : List A) → Sorted ys → Sorted (insert_by x ys)
    unfolding insert_by
    insert-Sorted x [] h = (tt, tt)
    insert-Sorted x (y ∷ ys) h = elim (Bool-cases (no_later x y)) [
      | inl e ↦ rw e ((e, h))
      | inr e ↦ rw e ((insert-IsHead y x ys (total x y e) h.0, insert-Sorted x ys h.1))
    ]

    pub sort-Sorted : (xs : List A) → Sorted (sort_by xs)
    unfolding sort_by
    sort-Sorted [] = tt
    sort-Sorted (x ∷ xs) = insert-Sorted x (sort_by xs) (sort-Sorted xs)

    module _
        (trans : (x y z : A)
          → no_later x y ≡ true
          → no_later y z ≡ true
          → no_later x z ≡ true) where
      insert-Pairwise : (x : A) (ys : List A) → Pairwise ys → Pairwise (insert_by x ys)
      unfolding insert_by
      insert-Pairwise x [] h = (tt, tt)
      insert-Pairwise x (y ∷ ys) h = elim (Bool-cases (no_later x y)) [
        | inl e ↦ rw e (((e, All-map _ _ ys (λ z le. trans x y z e le) h.0), h))
        | inr e ↦ rw e ((insert-All _ x ys (total x y e) h.0, insert-Pairwise x ys h.1))
      ]

      pub sort-Pairwise : (xs : List A) → Pairwise (sort_by xs)
      unfolding sort_by
      sort-Pairwise [] = tt
      sort-Pairwise (x ∷ xs) = insert-Pairwise x (sort_by xs) (sort-Pairwise xs)

  take-IsHead : (n : ℕ) (x : A) (xs : List A) → IsHead x xs → IsHead x (take n xs)
  take-IsHead zero x xs h = tt
  take-IsHead (suc n) x [] h = tt
  take-IsHead (suc n) x (y ∷ ys) h = h

  pub take-Sorted : (n : ℕ) (xs : List A) → Sorted xs → Sorted (take n xs)
  take-Sorted zero xs h = tt
  take-Sorted (suc n) [] h = tt
  take-Sorted (suc n) (x ∷ xs) h = (take-IsHead n x xs h.0, take-Sorted n xs h.1)

  -- What is not among the first `n` comes no earlier than any of them.
  pub take-Pairwise :
      (n : ℕ) (x : A) (xs : List A)
      → Pairwise xs
      → Elem x xs
      → Elem x (take n xs) ⊎ ((length (take n xs) ≡ n) × All (λ y. no_later y x ≡ true) (take n xs))
  take-Pairwise zero x xs h e = inr (refl, tt)
  take-Pairwise (suc n) x [] h e = absurd e
  take-Pairwise (suc n) x (y ∷ ys) h (inl same) = inl (inl same)
  take-Pairwise (suc n) x (y ∷ ys) h (inr later) = elim (take-Pairwise n x ys h.1 later) [
    | inl kept ↦ inl (inr kept)
    | inr (full, before) ↦ inr (ap suc full, (All-elem _ x ys h.0 later, before))
  ]
