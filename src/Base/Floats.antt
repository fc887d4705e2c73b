-- ===== src/Base/Floats.antt =====
-- Go's float64, which the model takes as a parameter: a carrier with the operations that the code
-- uses, and apart from them the laws of the order on values that are not NaN.
use Prim.Native.Nat.{ℕ}
use mathlib.Core.Path.{◌≡◌}
use mathlib.Core.Bool.{Bool, true, false, ◌||◌}
use algod_loadb_mesh.Base.Clock.{Duration}

pub record Float (R : Type 0) : Type 0 where
  pub of_nat : ℕ → R
  pub add : R → R → R
  pub sub : R → R → R
  pub mul : R → R → R
  pub div : R → R → R
  pub lt : R → R → Bool
  pub eq : R → R → Bool
  pub min : R → R → R
  -- `d.Seconds()`, and the conversion of a number of nanoseconds.
  pub seconds : Duration → R
  pub ceil : R → R
  pub to_duration : R → Duration

-- IEEE 754 comparison without NaN: `lt` and `eq` make a total order.
pub record IsOrdered {R : Type 0} (f : Float R) : Type 0 where
  pub lt_asymm : (a b : R) → f.lt a b ≡ true → f.lt b a ≡ false
  pub lt_trans : (a b c : R) → f.lt a b ≡ true → f.lt b c ≡ true → f.lt a c ≡ true
  pub lt_connex : (a b : R) → f.eq a b ≡ false → f.lt a b ≡ false → f.lt b a ≡ true
  pub eq_of_not_lt : (a b : R) → f.lt a b ≡ false → f.lt b a ≡ false → f.eq a b ≡ true
  pub eq_symm : (a b : R) → f.eq a b ≡ true → f.eq b a ≡ true
  pub eq_trans : (a b c : R) → f.eq a b ≡ true → f.eq b c ≡ true → f.eq a c ≡ true
  pub lt_eq : (a b c : R) → f.lt a b ≡ true → f.eq b c ≡ true → f.lt a c ≡ true
  pub eq_lt : (a b c : R) → f.eq a b ≡ true → f.lt b c ≡ true → f.lt a c ≡ true
  pub lt_not_eq : (a b : R) → f.lt a b ≡ true → f.eq a b ≡ false
  pub min_le : (a b : R) → f.lt b (f.min a b) ≡ false
  pub min_le_left : (a b : R) → f.lt a (f.min a b) ≡ false

-- `a >= b`.
abbrev pub ge : {R : Type 0} → Float R → R → R → Bool
ge f a b = f.lt b a || f.eq a b
