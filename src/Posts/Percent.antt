-- ===== src/Posts/Percent.antt =====
-- src/posts/vote-math.ts. The quotients are far below 2 ^ 52 and a half is exact in a double, so that
-- `Math.round` of the double is the rounding of the fraction, a half going up.
use tpulse_backend.Prelude.{ℕ, zero, suc, ◌+◌, ◌*◌, ◌/◌}
use tpulse_backend.Prelude.Int.{ℤ, pos, negsuc, ◌+ℤ◌, pos_part, neg_part, sub_ℕ}

abbrev pub scale : ℕ → ℤ → ℤ
scale k a = sub_ℕ (k * pos_part a) (k * neg_part a)

-- The greatest integer that is at most a / (k + 1).
abbrev pub floor_div : ℤ → ℕ → ℤ
floor_div (pos n) k = pos (n / suc k)
floor_div (negsuc n) k = negsuc (n / suc k)

-- `Math.round(a / b)` for b not 0: the floor of (2a + b) / 2b, with the signs turned for b below 0.
abbrev pub round_div : ℤ → ℤ → ℤ
round_div a (pos zero) = pos 0
round_div a (pos (suc k)) = floor_div (scale 2 a +ℤ pos (suc k)) (2 * k + 1)
round_div a (negsuc k) =
    floor_div (sub_ℕ (2 * neg_part a) (2 * pos_part a) +ℤ pos (suc k)) (2 * k + 1)

unfoldable pub total_votes : ℤ → ℤ → ℤ
unfolding ◌+ℤ◌
total_votes agree disagree = agree +ℤ disagree

abbrev percentage_of : ℤ → ℤ → ℤ
percentage_of agree (pos zero) = pos 0
percentage_of agree t = round_div (scale 100 agree) t

unfoldable pub agree_percentage : ℤ → ℤ → ℤ
agree_percentage agree disagree = percentage_of agree (total_votes agree disagree)

-- `t === 0 ? 0 : 100 - p`
abbrev rest_of : ℤ → ℤ → ℤ
rest_of (pos zero) p = pos 0
rest_of t p = sub_ℕ (100 + neg_part p) (pos_part p)

unfoldable pub disagree_percentage : ℤ → ℤ → ℤ
disagree_percentage agree disagree =
    rest_of (total_votes agree disagree) (agree_percentage agree disagree)
