-- ===== src/Posts/Percentages.antt =====
-- What the percentages of votes add up to.
use tpulse_backend.Prelude.{ℕ, zero, suc, ◌+◌, ◌-◌, ◌*◌, ◌/◌, ◌≤◌, ◌<◌, ◌≡◌, refl, arith}
use mathlib.Core.Path.{subst}
use native.Mathlib.Nat.{div-lt_iff_lt-mul, div-mul-le_self}
use tpulse_backend.Prelude.Int.{pos, ◌+ℤ◌}
use tpulse_backend.Posts.Percent.{total_votes, agree_percentage, disagree_percentage}

-- 100 a / t, to the nearest integer.
abbrev nearest : ℕ → ℕ → ℕ
nearest a zero = 0
nearest a (suc k) = (2 * (100 * a) + suc k) / suc (2 * k + 1)

nearest-le : (a t : ℕ) → a ≤ t → nearest a t ≤ 100
nearest-le a zero h = omega arith
nearest-le a (suc k) h =
    let below : (2 * (100 * a) + suc k) / suc (2 * k + 1) < 101 =
      (div-lt_iff_lt-mul (omega arith)).1 (omega (arith, h)) in
    omega (arith, below)

-- `n` is 100 a / t, rounded to the nearest integer, a half going up.
abbrev pub IsNearest : (n a t : ℕ) → Type 0
IsNearest n a t = (n * (2 * t) ≤ 200 * a + t) × (200 * a + t < (n + 1) * (2 * t))

nearest-IsNearest : (a t : ℕ) → 0 < t → IsNearest (nearest a t) a t
nearest-IsNearest a zero h = omega (arith, h)
nearest-IsNearest a (suc k) h =
    let m = 2 * (100 * a) + suc k in
    let twice : suc (2 * k + 1) ≡ 2 * suc k = omega arith in
    let sum : m ≡ 200 * a + suc k = omega arith in
    let low : m / suc (2 * k + 1) * suc (2 * k + 1) ≤ m = div-mul-le_self m (suc (2 * k + 1)) in
    let high : m < (m / suc (2 * k + 1) + 1) * suc (2 * k + 1) =
      (div-lt_iff_lt-mul (omega arith)).0 (omega arith) in
    (
      subst (λ x. nearest a (suc k) * x ≤ 200 * a + suc k) twice (omega (arith, low, sum)),
      subst (λ x. 200 * a + suc k < (nearest a (suc k) + 1) * x) twice (omega (arith, high, sum)),
    )

pub agree_percentage-pos : (a d : ℕ) → agree_percentage (pos a) (pos d) ≡ pos (nearest a (a + d))
unfolding agree_percentage total_votes ◌+ℤ◌
agree_percentage-pos zero zero = refl
agree_percentage-pos zero (suc d) = ground arith
agree_percentage-pos (suc a) d = ground arith

pub record IsShared (a d : ℕ) : Type 0 where
  pub percent : ℕ
  pub bound : percent ≤ 100
  pub rounded : IsNearest percent a (a + d)
  pub agreeing : agree_percentage (pos a) (pos d) ≡ pos percent
  pub disagreeing : disagree_percentage (pos a) (pos d) ≡ pos (100 - percent)

pub percentages-IsShared : (a d : ℕ) → 0 < a + d → IsShared a d
unfolding total_votes ◌+ℤ◌ disagree_percentage
percentages-IsShared a d h = record {
  percent = nearest a (a + d);
  bound = nearest-le a (a + d) (omega arith);
  rounded = nearest-IsNearest a (a + d) h;
  agreeing = agree_percentage-pos a d;
  disagreeing = ground (arith, h, agree_percentage-pos a d, nearest-le a (a + d));
}
