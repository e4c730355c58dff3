-- ===== src/Users/Counting.antt =====
-- Users by their ids, and how an update of one user changes a count.
use tpulse_backend.Prelude.{
  ℕ, ◌+◌, ◌≡◌, refl, Bool, false, List, [], ◌∷◌, any, count, Elem, Elem-any, inl, inr,
  if◌then◌else◌, ◌==◌, ==-refl, arith, update_where,
}
use tpulse_backend.Auth.{User}

abbrev pub has_id : ℕ → User → Bool
has_id id u = u.id == id

-- The primary key of `users`.
abbrev pub HasUniqueIds : List User → Type 0
HasUniqueIds [] = Unit
HasUniqueIds (u ∷ t) = (any (has_id u.id) t ≡ false) × HasUniqueIds t

abbrev pub tally : Bool → ℕ
tally b = if b then 1 else 0

update_where-none :
    (id : ℕ) (f : User → User) (t : List User)
    → any (has_id id) t ≡ false
    → update_where (has_id id) f t ≡ t
update_where-none id f [] h = refl
update_where-none id f (u ∷ t) h = ground (arith, update_where-none id f t)

pub count-update_where :
    (p : User → Bool) (f : User → User) (u : User) (t : List User)
    → HasUniqueIds t
    → Elem u t
    → count p (update_where (has_id u.id) f t) + tally (p u) ≡ count p t + tally (p (f u))
count-update_where p f u [] h e = absurd e
count-update_where p f u (x ∷ t) h (inl e) =
    let same = update_where-none u.id f t in rw (← e) (ground (arith, same, h.0, ==-refl u.id))
count-update_where p f u (x ∷ t) h (inr e) =
    let other = Elem-any (has_id x.id) u t e in
    ground (arith, other, h.0, count-update_where p f u t h.1 e)

pub any-update_where :
    (id k : ℕ) (f : User → User) (t : List User)
    → ((u : User) → (f u).id ≡ u.id)
    → any (has_id k) (update_where (has_id id) f t) ≡ any (has_id k) t
any-update_where id k f [] keep = refl
any-update_where id k f (u ∷ t) keep = ground (arith, keep u, any-update_where id k f t keep)

pub update_where-HasUniqueIds :
    (id : ℕ) (f : User → User) (t : List User)
    → ((u : User) → (f u).id ≡ u.id)
    → HasUniqueIds t
    → HasUniqueIds (update_where (has_id id) f t)
update_where-HasUniqueIds id f [] keep h = tt
update_where-HasUniqueIds id f (u ∷ t) keep h = (
  ground (arith, keep u, h.0, any-update_where id u.id f t keep),
  update_where-HasUniqueIds id f t keep h.1,
)
