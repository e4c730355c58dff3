-- ===== src/Messaging/LikeCounts.antt =====
-- The denormalised `likeCount` of a post against the rows of `post_like`.
use tpulse_backend.Prelude.{
  ℕ, ◌+◌, ◌≤◌, ◌<◌, ◌≡◌, ◌&&◌, refl, Bool, true, false, not, List, [], ◌∷◌, ◌==◌, any, count,
  filter, All, update_where, arith, Bool-cases, inl, inr,
}
use tpulse_backend.Prelude.Int.{pos, ◌+ℤ◌}
use tpulse_backend.Board.{Board, Post, PostLike}
use tpulse_backend.Messaging.Reactions.{one, minus_one, fits_small, add_like, is_like, new_like}

abbrev pub likes_of : ℕ → PostLike → Bool
likes_of post_id l = l.post_id == post_id

-- Every post shows as many likes as it has rows.
abbrev pub IsCounted : List PostLike → List Post → Type 0
IsCounted likes = All (λ p. p.like_count ≡ pos (count (likes_of p.id) likes))

-- The unique constraint of `post_like`.
abbrev pub HasUniqueLikes : List PostLike → Type 0
HasUniqueLikes [] = Unit
HasUniqueLikes (l ∷ t) = (any (is_like l.post_id l.user_id) t ≡ false) × HasUniqueLikes t

pub record IsSound (s : Board) : Type 0 where
  pub counted : IsCounted s.post_likes s.posts
  pub unique : HasUniqueLikes s.post_likes

pos-add_one : (n : ℕ) → pos n +ℤ one ≡ pos (n + 1)
unfolding ◌+ℤ◌
pos-add_one n = ground arith

pos-take_one : (n m : ℕ) → n ≡ m + 1 → pos n +ℤ minus_one ≡ pos m
unfolding ◌+ℤ◌
pos-take_one n m h = ground arith

pub count-is_like_none :
    (p u : ℕ) (t : List PostLike) → any (is_like p u) t ≡ false → count (is_like p u) t ≡ 0
count-is_like_none p u [] h = refl
count-is_like_none p u (l ∷ t) h = ground (arith, count-is_like_none p u t)

-- A user likes a post at most once.
pub count-is_like : (p u : ℕ) (t : List PostLike) → HasUniqueLikes t → count (is_like p u) t ≤ 1
count-is_like p u [] h = omega arith
count-is_like p u (l ∷ t) h = elim (Bool-cases (is_like p u l)) [
  | inl same ↦ ground (arith, same, count-is_like_none p u t, h.0)
  | inr other ↦ rw other (omega (arith, count-is_like p u t h.1))
]

-- What a deletion takes from the rows of a post.
count-delete_self :
    (p u : ℕ) (t : List PostLike)
    → count (likes_of p) (filter (λ l. not (is_like p u l)) t) + count (is_like p u) t
      ≡ count (likes_of p) t
count-delete_self p u [] = refl
count-delete_self p u (l ∷ t) = elim (Bool-cases (is_like p u l)) [
  | inl same ↦
      let here : likes_of p l ≡ true = ground arith in
      rw (same, here) (omega (arith, count-delete_self p u t))
  | inr other ↦ rw other (omega (arith, count-delete_self p u t))
]

count-delete_ne :
    (p u q : ℕ) (t : List PostLike)
    → (q == p) ≡ false
    → count (likes_of q) (filter (λ l. not (is_like p u l)) t) ≡ count (likes_of q) t
count-delete_ne p u q [] h = refl
count-delete_ne p u q (l ∷ t) h = elim (Bool-cases (is_like p u l)) [
  | inl same ↦
      let away : likes_of q l ≡ false = ground arith in
      rw (same, away) (omega (arith, count-delete_ne p u q t h))
  | inr other ↦ rw other (omega (arith, count-delete_ne p u q t h))
]

any-delete :
    (p u a b : ℕ) (t : List PostLike)
    → any (is_like a b) t ≡ false
    → any (is_like a b) (filter (λ l. not (is_like p u l)) t) ≡ false
any-delete p u a b [] h = refl
any-delete p u a b (l ∷ t) h = elim (Bool-cases (is_like p u l)) [
  | inl same ↦ rw same (any-delete p u a b t (ground arith))
  | inr other ↦ rw other (ground (arith, any-delete p u a b t))
]

pub delete-HasUniqueLikes :
    (p u : ℕ) (t : List PostLike)
    → HasUniqueLikes t
    → HasUniqueLikes (filter (λ l. not (is_like p u l)) t)
delete-HasUniqueLikes p u [] h = tt
delete-HasUniqueLikes p u (l ∷ t) h = elim (Bool-cases (is_like p u l)) [
  | inl same ↦ rw same (delete-HasUniqueLikes p u t h.1)
  | inr other ↦ rw other (any-delete p u l.post_id l.user_id t h.0, delete-HasUniqueLikes p u t h.1)
]

-- A new row and one more on the post.
pub add-IsCounted :
    (id p u : ℕ) (likes : List PostLike) (t : List Post)
    → IsCounted likes t
    → IsCounted (new_like id p u ∷ likes) (update_where (λ q. q.id == p) (add_like one) t)
add-IsCounted id p u likes [] h = tt
add-IsCounted id p u likes (q ∷ t) h = (
  ground (arith, h.0, pos-add_one (count (likes_of q.id) likes)),
  add-IsCounted id p u likes t h.1,
)

-- A row fewer and one less on the post.
pub delete-IsCounted :
    (p u : ℕ) (likes : List PostLike) (t : List Post)
    → count (is_like p u) likes ≡ 1
    → IsCounted likes t
    → IsCounted
        (filter (λ l. not (is_like p u l)) likes)
        (update_where (λ q. q.id == p) (add_like minus_one) t)
delete-IsCounted p u likes [] n h = tt
delete-IsCounted p u likes (q ∷ t) n h = (
  ground (
    arith,
    h.0,
    count-delete_self p u likes,
    count-delete_ne p u q.id likes,
    pos-take_one (count (likes_of p) likes)
        (count (likes_of p) (filter (λ l. not (is_like p u l)) likes)),
  ),
  delete-IsCounted p u likes t n h.1,
)

-- A deletion that finds no row changes no count.
pub delete_none-IsCounted :
    (p u : ℕ) (likes : List PostLike) (t : List Post)
    → count (is_like p u) likes ≡ 0
    → IsCounted likes t
    → IsCounted (filter (λ l. not (is_like p u l)) likes) t
delete_none-IsCounted p u likes [] n h = tt
delete_none-IsCounted p u likes (q ∷ t) n h = (
  ground (arith, h.0, count-delete_self p u likes, count-delete_ne p u q.id likes),
  delete_none-IsCounted p u likes t n h.1,
)

-- The score is no part of the count.
pub score-IsCounted :
    (p score now : ℕ) (likes : List PostLike) (t : List Post)
    → IsCounted likes t
    → IsCounted likes (
        update_where
          (λ q. q.id == p)
          (λ q. record q { hot_score = score; score_updated_at = now })
          t)
score-IsCounted p score now likes [] h = tt
score-IsCounted p score now likes (q ∷ t) h =
    (ground (arith, h.0), score-IsCounted p score now likes t h.1)

-- A deletion of rows whose post is gone touches no count.
pub delete_gone-IsCounted :
    (p u : ℕ) (likes : List PostLike) (t : List Post)
    → any (λ q. q.id == p) t ≡ false
    → IsCounted likes t
    → IsCounted (filter (λ l. not (is_like p u l)) likes) t
delete_gone-IsCounted p u likes [] n h = tt
delete_gone-IsCounted p u likes (q ∷ t) n h = (
  ground (arith, h.0, n, count-delete_ne p u q.id likes),
  delete_gone-IsCounted p u likes t (ground (arith, n)) h.1,
)

-- The count of a post with fewer likes than the column can hold stays in its range.
pub add-fits :
    (p : ℕ) (likes : List PostLike) (t : List Post)
    → IsCounted likes t
    → count (likes_of p) likes < 32767
    → any (λ q. q.id == p && not (fits_small (q.like_count +ℤ one))) t ≡ false
add-fits p likes [] h few = refl
add-fits p likes (q ∷ t) h few =
    ground (arith, h.0, few, pos-add_one (count (likes_of q.id) likes), add-fits p likes t h.1 few)

pub delete-fits :
    (p : ℕ) (likes : List PostLike) (t : List Post)
    → IsCounted likes t
    → count (likes_of p) likes < 32767
    → any (λ q. q.id == p && not (fits_small (q.like_count +ℤ minus_one))) t ≡ false
unfolding ◌+ℤ◌
delete-fits p likes [] h few = refl
delete-fits p likes (q ∷ t) h few = ground (arith, h.0, few, delete-fits p likes t h.1 few)
