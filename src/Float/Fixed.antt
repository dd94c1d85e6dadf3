-- ===== src/Float/Fixed.antt =====
-- Fixed-point numbers in thousandths with an infinity on both sides and a NaN: a value of the
-- interface on which definitions run and witnesses are stated. A product with an infinity is NaN.
use imads.Prelude.{
  ℕ, zero, suc, if◌then◌else◌, ◌+◌, ◌-◌, ◌*◌, ◌/◌, ◌^◌, ◌≡◌, refl, Bool, true, false, not, ◌&&◌,
  arith, leb, leb→le,
}
use native.Mathlib.Nat.{mul-le-mul, le_refl}
use imads.Prelude.Int.{ℤ, pos, negsuc, pos_part, neg_part, sub_ℕ}
use imads.Float.{Float, IsIeee}
use imads.Float.Libm.{Libm, IsLibm, IsScaling}

pub data Fixed : Type 0 where
  nan low high : Fixed
  milli : ℤ → Fixed

abbrev pub fixed_le : Fixed → Fixed → Bool
fixed_le nan y = false
fixed_le low nan = false
fixed_le low _ = true
fixed_le high high = true
fixed_le high _ = false
fixed_le (milli a) (milli b) = leb (pos_part a + neg_part b) (pos_part b + neg_part a)
fixed_le (milli a) high = true
fixed_le (milli a) _ = false

abbrev pub fixed_lt : Fixed → Fixed → Bool
fixed_lt x y = fixed_le x y && not (fixed_le y x)

abbrev pub fixed_finite : Fixed → Bool
fixed_finite (milli a) = true
fixed_finite _ = false

abbrev fixed_neg : Fixed → Fixed
fixed_neg nan = nan
fixed_neg low = high
fixed_neg high = low
fixed_neg (milli a) = milli (sub_ℕ (neg_part a) (pos_part a))

abbrev pub fixed_add : Fixed → Fixed → Fixed
fixed_add (milli a) (milli b) = milli (sub_ℕ (pos_part a + pos_part b) (neg_part a + neg_part b))
fixed_add (milli a) y = y
fixed_add nan y = nan
fixed_add low high = nan
fixed_add low nan = nan
fixed_add low _ = low
fixed_add high low = nan
fixed_add high nan = nan
fixed_add high _ = high

-- Rounds toward zero.
abbrev pub fixed_mul : Fixed → Fixed → Fixed
fixed_mul (milli a) (milli b) =
    let plus = pos_part a * pos_part b + neg_part a * neg_part b in
    let minus = pos_part a * neg_part b + neg_part a * pos_part b in
    milli (sub_ℕ (plus / 1000) (minus / 1000))
fixed_mul _ _ = nan

-- Rounds toward zero.
abbrev pub fixed_div : Fixed → Fixed → Fixed
fixed_div (milli a) (milli (pos zero)) = nan
fixed_div (milli a) (milli b) =
    let size = pos_part b + neg_part b in
    let plus = pos_part a * 1000 / size in
    let minus = neg_part a * 1000 / size in
    if leb 1 (neg_part b) then milli (sub_ℕ minus plus) else milli (sub_ℕ plus minus)
fixed_div _ _ = nan

-- The greatest root from `k` on, found in `fuel` steps.
abbrev pub root_from : ℕ → ℕ → ℕ → ℕ
root_from zero k n = k
root_from (suc fuel) k n =
    let rest = root_from fuel (k + 1) n in if leb ((k + 1) * (k + 1)) n then rest else k

abbrev pub fixed_sqrt : Fixed → Fixed
fixed_sqrt high = high
fixed_sqrt (milli (pos a)) = milli (pos (root_from (a * 1000) 0 (a * 1000)))
fixed_sqrt _ = nan

instance abbrev pub fixed_float : Float Fixed
fixed_float = record {
  nought = milli (pos 0);
  one = milli (pos 1000);
  infinity = high;
  is_finite = fixed_finite;
  le = fixed_le;
  lt = fixed_lt;
  add = fixed_add;
  sub = λ x y. fixed_add x (fixed_neg y);
  mul = fixed_mul;
  div = fixed_div;
  sqrt = fixed_sqrt;
  of_int = λ n. milli (sub_ℕ (pos_part n * 1000) (neg_part n * 1000));
  decimal = λ m k. milli (pos (m * 1000 / 10 ^ k));
}

fixed_trans : (x y z : Fixed) → fixed_le x y ≡ true → fixed_le y z ≡ true → fixed_le x z ≡ true
fixed_trans x y z h k = ground arith

fixed_mul_shrinks :
    (x s : Fixed)
    → fixed_le (milli (pos 0)) x ≡ true
    → fixed_le (milli (pos 0)) s ≡ true
    → fixed_le s (milli (pos 1000)) ≡ true
    → fixed_le (fixed_mul x s) (fixed_mul x s) ≡ true
    → fixed_le (fixed_mul x s) x ≡ true
fixed_mul_shrinks (milli (pos a)) (milli (pos b)) h k l n =
    ground (arith, mul-le-mul (le_refl a) (leb→le b 1000 (ground arith)))
fixed_mul_shrinks x s h k l n = ground arith

pub Fixed-IsIeee : IsIeee Fixed
Fixed-IsIeee = record {
  num_of_le = λ x y h. ground arith;
  le_trans = fixed_trans;
  le_total = λ x y h k. ground arith;
  lt-eq = λ x y. refl;
  num_of_finite = λ x h. ground arith;
  nought_le_one = refl;
  mul_num = λ x s h. ground arith;
  mul_shrinks = fixed_mul_shrinks;
}

abbrev fixed_abs : Fixed → Fixed
fixed_abs (milli a) = milli (pos (pos_part a + neg_part a))
fixed_abs nan = nan
fixed_abs _ = high

-- `as usize`
abbrev fixed_to_usize : Fixed → ℕ
fixed_to_usize (milli (pos n)) = n / 1000
fixed_to_usize high = 2 ^ 64 - 1
fixed_to_usize _ = 0

-- The least whole number that is not below; `round` adds a half first and goes down.
abbrev fixed_ceil : Fixed → Fixed
fixed_ceil (milli (pos n)) = milli (pos ((n + 999) / 1000 * 1000))
fixed_ceil (milli a) = milli (sub_ℕ 0 (neg_part a / 1000 * 1000))
fixed_ceil x = x

abbrev fixed_round : Fixed → Fixed
fixed_round (milli (pos n)) = milli (pos ((n + 500) / 1000 * 1000))
fixed_round (milli a) = milli (sub_ℕ 0 ((neg_part a + 500) / 1000 * 1000))
fixed_round x = x

abbrev pub fixed_to_i64 : Fixed → ℤ
fixed_to_i64 nan = pos 0
fixed_to_i64 low = negsuc (2 ^ 63 - 1)
fixed_to_i64 high = pos (2 ^ 63 - 1)
fixed_to_i64 (milli a) = sub_ℕ (pos_part a / 1000) (neg_part a / 1000)

-- `exp` and `ln` to the first order.
instance abbrev pub fixed_libm : Libm Fixed
fixed_libm = record {
  abs = fixed_abs;
  neg = fixed_neg;
  exp = λ x. fixed_add (milli (pos 1000)) x;
  ln = λ x. fixed_add x (milli (negsuc 999));
  round = fixed_round;
  ceil = fixed_ceil;
  to_usize = fixed_to_usize;
  to_i64 = fixed_to_i64;
}

pub Fixed-IsLibm : IsLibm Fixed
Fixed-IsLibm = record {
  num_of_abs = λ x h. ground arith;
  num_of_sub = λ x y h. (ground arith, ground arith);
}

fixed_mul_mono :
    (t x y : Fixed)
    → fixed_finite t ≡ true
    → fixed_le (milli (pos 0)) t ≡ true
    → fixed_le (milli (pos 0)) x ≡ true
    → fixed_le x y ≡ true
    → fixed_finite y ≡ true
    → fixed_le (fixed_mul t x) (fixed_mul t y) ≡ true
fixed_mul_mono (milli (pos a)) (milli (pos b)) (milli (pos c)) f g h k l =
    ground (arith, mul-le-mul (le_refl a) (leb→le b c (ground arith)))
fixed_mul_mono t x y f g h k l = ground arith

pub Fixed-IsScaling : IsScaling Fixed
Fixed-IsScaling = record { finite_of_unit = λ x h k. ground arith; mul_mono = fixed_mul_mono }
