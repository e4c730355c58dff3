-- ===== src/Prelude/Pairs.antt =====
-- A test that holds of every two elements of a list, and the list functions that keep it.
use Prim.Native.Nat.{ℕ, zero, suc}
use mathlib.Core.Path.{◌≡◌}
use mathlib.Core.Logic.{inl, inr}
use mathlib.Core.Bool.{Bool, true}
use mathlib.Core.List.{List, [], ◌∷◌, map}
use tpulse_backend.Prelude.Tests.{Bool-cases}
use tpulse_backend.Prelude.Lists.{take, filter, All, All-map, All-take, All-filter}
use tpulse_backend.Prelude.Sorting.{Pairwise, insert_by, sort_by, insert-All, sort-All}

pub All-map_image {κ} :
    {A B : Type 0} (P : B → Type κ) (f : A → B) (xs : List A)
    → All (λ x. P (f x)) xs
    → All P (map f xs)
All-map_image P f [] h = tt
All-map_image P f (x ∷ xs) h = (h.0, All-map_image P f xs h.1)

module _ {A : Type 0} (r : A → A → Bool) where
  pub take-pairs : (n : ℕ) (xs : List A) → Pairwise r xs → Pairwise r (take n xs)
  take-pairs zero xs h = tt
  take-pairs (suc n) [] h = tt
  take-pairs (suc n) (x ∷ xs) h = (All-take _ n xs h.0, take-pairs n xs h.1)

  pub filter-pairs : (p : A → Bool) (xs : List A) → Pairwise r xs → Pairwise r (filter p xs)
  filter-pairs p [] h = tt
  filter-pairs p (x ∷ xs) h = elim (Bool-cases (p x)) [
    | inl e ↦ rw e ((All-filter _ p xs h.0, filter-pairs p xs h.1))
    | inr e ↦ rw e (filter-pairs p xs h.1)
  ]

  pub map-pairs :
      (f : A → A) (xs : List A)
      → ((x y : A) → r x y ≡ true → r (f x) (f y) ≡ true)
      → Pairwise r xs
      → Pairwise r (map f xs)
  map-pairs f [] k h = tt
  map-pairs f (x ∷ xs) k h =
      (All-map_image _ f xs (All-map _ _ xs (λ y e. k x y e) h.0), map-pairs f xs k h.1)

  module _ (symmetric : (x y : A) → r x y ≡ true → r y x ≡ true) (no_later : A → A → Bool) where
    insert-pairs :
        (x : A) (ys : List A)
        → All (λ y. r x y ≡ true) ys
        → Pairwise r ys
        → Pairwise r (insert_by no_later x ys)
    unfolding insert_by
    insert-pairs x [] a h = (tt, tt)
    insert-pairs x (y ∷ ys) a h = elim (Bool-cases (no_later x y)) [
      | inl e ↦ rw e ((a, h))
      | inr e ↦
          rw e ((insert-All no_later _ x ys (symmetric x y a.0) h.0, insert-pairs x ys a.1 h.1))
    ]

    pub sort-pairs : (xs : List A) → Pairwise r xs → Pairwise r (sort_by no_later xs)
    unfolding sort_by
    sort-pairs [] h = tt
    sort-pairs (x ∷ xs) h =
        insert-pairs x (sort_by no_later xs) (sort-All no_later _ xs h.0) (sort-pairs xs h.1)
