-- ===== src/Float/Laws.antt =====
-- What follows for `max` and `clamp` from the laws of the comparisons.
use imads.Prelude.{arith, Bool-cases}
use imads.Float.{Float, IsIeee, IsNum, ◌≼◌, fmax, clamp}

module _ {ℓ} {F : Type ℓ} ⦃d : Float F⦄ (laws : IsIeee F) where
  open laws use {num_of_le, le_trans, le_total, lt-eq}

  pub le-fmax_right : (x y : F) → IsNum y → y ≼ fmax x y
  unfolding fmax
  le-fmax_right x y n = ground (arith, le_total x y)

  pub le-fmax_left : (x y : F) → IsNum x → x ≼ fmax x y
  unfolding fmax
  le-fmax_left x y n = ground arith

  pub fmax-IsNum : (x y : F) → IsNum y → IsNum (fmax x y)
  unfolding fmax
  fmax-IsNum x y n = ground arith

  -- `max` is at most every bound of its operands; a NaN on the left does not count.
  pub fmax-le : (x y z : F) → (IsNum x → x ≼ z) → y ≼ z → fmax x y ≼ z
  unfolding fmax
  fmax-le x y z h k = ground (arith, Bool-cases (d.le x x))

  -- A clamped number lies in the range.
  pub clamp_bounds :
      (x lo hi : F) → lo ≼ hi → IsNum (clamp x lo hi) → (lo ≼ clamp x lo hi) × (clamp x lo hi ≼ hi)
  unfolding clamp
  clamp_bounds x lo hi h n =
      ground (
        arith,
        lt-eq x lo,
        lt-eq hi x,
        lt-eq hi lo,
        le_total x lo,
        le_total x hi,
        num_of_le lo hi h,
      )
