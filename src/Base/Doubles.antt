-- ===== src/Base/Doubles.antt =====
-- `double` of the program, which the language has no arithmetic for: a type with the tests,
-- conversions and constants that the code uses, and the laws of IEEE 754 that hold of them. NaN is
-- allowed for: no law says that two values compare, or that a value equals itself.
use mini.Base.Int.{ℤ, pos, negsuc, ltb_ℤ, leb_ℤ, ◌*ℤ◌, ◌≤ℤ◌}
use mathlib.Core.Path.{◌≡◌, refl}
use mathlib.Core.Bool.{Bool, true, false, ◌&&◌}
use native.Mathlib.Omega.{arith}

pub record Floats (F : Type 0) : Type 0 where
  pub lt : F → F → Bool
  pub le : F → F → Bool
  pub of_int : ℤ → F
  -- `static_cast` to an integer type: towards zero. Where the value is not in the range of the type,
  -- the result is not determined: `fits` tells the values in the range of `int`.
  pub trunc : F → ℤ
  pub fits : F → Bool
  pub mul : F → F → F
  pub inf : F
  pub neg_inf : F
  pub lt_irrefl : (a : F) → lt a a ≡ false
  pub lt_trans : (a b c : F) → lt a b ≡ true → lt b c ≡ true → lt a c ≡ true
  pub le_lt_trans : (a b c : F) → le a b ≡ true → lt b c ≡ true → lt a c ≡ true
  pub lt_le_trans : (a b c : F) → lt a b ≡ true → le b c ≡ true → lt a c ≡ true
  pub le_trans : (a b c : F) → le a b ≡ true → le b c ≡ true → le a c ≡ true
  pub lt→le : (a b : F) → lt a b ≡ true → le a b ≡ true
  -- Only NaN does not compare with itself, and two other values compare.
  pub lt_self : (a b : F) → lt a b ≡ true → (le a a ≡ true) × (le b b ≡ true)
  pub le_of_not_lt : (a b : F) → le a a ≡ true → le b b ≡ true → lt a b ≡ false → le b a ≡ true
  pub inf_self : le inf inf ≡ true
  pub neg_inf_self : le neg_inf neg_inf ≡ true
  pub trunc_le : (a b : F) → fits a ≡ true → fits b ≡ true → le a b ≡ true → trunc a ≤ℤ trunc b
  pub trunc-of_int : (n : ℤ) → fits (of_int n) ≡ true → trunc (of_int n) ≡ n

-- An instance to evaluate on: the whole numbers, both infinities and NaN.
pub data Whole : Type 0 where
  nan neg_infinity infinity : Whole
  whole : ℤ → Whole

abbrev whole_lt : Whole → Whole → Bool
whole_lt nan b = false
whole_lt a nan = false
whole_lt neg_infinity neg_infinity = false
whole_lt neg_infinity b = true
whole_lt infinity b = false
whole_lt (whole a) neg_infinity = false
whole_lt (whole a) infinity = true
whole_lt (whole a) (whole b) = ltb_ℤ a b

abbrev whole_le : Whole → Whole → Bool
whole_le nan b = false
whole_le a nan = false
whole_le neg_infinity b = true
whole_le infinity infinity = true
whole_le infinity b = false
whole_le (whole a) neg_infinity = false
whole_le (whole a) infinity = true
whole_le (whole a) (whole b) = leb_ℤ a b

abbrev whole_trunc : Whole → ℤ
whole_trunc (whole a) = a
whole_trunc a = pos 0

-- The range of a 32-bit `int`.
abbrev whole_fits : Whole → Bool
whole_fits (whole a) = leb_ℤ (negsuc 2_147_483_647) a && leb_ℤ a (pos 2_147_483_647)
whole_fits a = false

abbrev whole_mul : Whole → Whole → Whole
whole_mul (whole a) (whole b) = whole (a *ℤ b)
whole_mul a b = nan

pub whole_lt_irrefl : (a : Whole) → whole_lt a a ≡ false
whole_lt_irrefl nan = refl
whole_lt_irrefl a = ground arith

pub whole_lt_trans :
    (a b c : Whole) → whole_lt a b ≡ true → whole_lt b c ≡ true → whole_lt a c ≡ true
whole_lt_trans nan b c p q = ground arith
whole_lt_trans a b c p q = ground arith

pub whole_le_lt_trans :
    (a b c : Whole) → whole_le a b ≡ true → whole_lt b c ≡ true → whole_lt a c ≡ true
whole_le_lt_trans nan b c p q = ground arith
whole_le_lt_trans a b c p q = ground arith

pub whole_lt_le_trans :
    (a b c : Whole) → whole_lt a b ≡ true → whole_le b c ≡ true → whole_lt a c ≡ true
whole_lt_le_trans nan b c p q = ground arith
whole_lt_le_trans a b c p q = ground arith

pub whole_le_trans :
    (a b c : Whole) → whole_le a b ≡ true → whole_le b c ≡ true → whole_le a c ≡ true
whole_le_trans nan b c p q = ground arith
whole_le_trans a b c p q = ground arith

pub whole_lt→le : (a b : Whole) → whole_lt a b ≡ true → whole_le a b ≡ true
whole_lt→le nan b p = ground arith
whole_lt→le a b p = ground arith

pub whole_lt_self :
    (a b : Whole) → whole_lt a b ≡ true → (whole_le a a ≡ true) × (whole_le b b ≡ true)
whole_lt_self nan b p = ground arith
whole_lt_self a b p = ground arith

pub whole_le_of_not_lt :
    (a b : Whole)
    → whole_le a a ≡ true
    → whole_le b b ≡ true
    → whole_lt a b ≡ false
    → whole_le b a ≡ true
whole_le_of_not_lt nan b p q r = ground arith
whole_le_of_not_lt a b p q r = ground arith

pub whole_trunc_le :
    (a b : Whole)
    → whole_fits a ≡ true
    → whole_fits b ≡ true
    → whole_le a b ≡ true
    → whole_trunc a ≤ℤ whole_trunc b
whole_trunc_le (whole a) (whole b) p q r = ground arith
whole_trunc_le a b p q r = ground arith

instance abbrev pub whole_floats : Floats Whole
whole_floats = record {
  lt = whole_lt;
  le = whole_le;
  of_int = whole;
  trunc = whole_trunc;
  fits = whole_fits;
  mul = whole_mul;
  inf = infinity;
  neg_inf = neg_infinity;
  lt_irrefl = whole_lt_irrefl;
  lt_trans = whole_lt_trans;
  le_lt_trans = whole_le_lt_trans;
  lt_le_trans = whole_lt_le_trans;
  le_trans = whole_le_trans;
  lt→le = whole_lt→le;
  lt_self = whole_lt_self;
  le_of_not_lt = whole_le_of_not_lt;
  inf_self = refl;
  neg_inf_self = refl;
  trunc_le = whole_trunc_le;
  trunc-of_int = λ n f. refl;
}
