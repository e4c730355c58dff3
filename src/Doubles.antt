-- ===== src/Doubles.antt =====
-- The numbers of the language, IEEE doubles, for the scores. A double is named by a number (its bit
-- pattern), and the operations are arguments of whatever computes with them.
use tpulse_backend.Prelude.{ℕ, ◌≡◌, Bool, true, false}
use tpulse_backend.Prelude.Int.{ℤ}

abbrev pub Double : Type 0
Double = ℕ

pub record Doubles : Type 0 where
  pub of_int : ℤ → Double
  pub add : Double → Double → Double
  pub sub : Double → Double → Double
  pub mul : Double → Double → Double
  pub div : Double → Double → Double
  pub pow : Double → Double → Double
  pub max : Double → Double → Double
  pub lt : Double → Double → Bool
  -- `===`, which is false of NaN and itself.
  pub eq : Double → Double → Bool

-- What holds of all doubles, NaN included.
pub record IsDoubles (d : Doubles) : Type 0 where
  pub lt_asym : (a b : Double) → d.lt a b ≡ true → d.lt b a ≡ false
  pub eq_sym : (a b : Double) → d.eq a b ≡ d.eq b a
