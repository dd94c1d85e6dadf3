-- ===== src/Float/Libm.antt =====
-- The functions of `f64` that the mesh, the calibrator and DIDS use besides the arithmetic, and
-- what the code relies on: a difference or an absolute value that is a number comes from numbers.
use imads.Prelude.{ℕ, ◌≡◌, Bool, true, not, ◌&&◌, ◌||◌, if◌then◌else◌}
use imads.Prelude.Int.{ℤ}
use imads.Float.{Float, IsNum, ◌≼◌}

pub record Libm {ℓ} (F : Type ℓ) : Type ℓ where
  pub abs : F → F
  pub neg : F → F
  pub exp : F → F
  pub ln : F → F
  pub round : F → F
  pub ceil : F → F
  -- `x as usize`, which saturates and takes NaN to zero
  pub to_usize : F → ℕ
  -- `x as i64`, which saturates and takes NaN to zero
  pub to_i64 : F → ℤ

pub record IsLibm {ℓ} (F : Type ℓ) ⦃d : Float F⦄ ⦃e : Libm F⦄ : Type ℓ where
  pub num_of_abs : (x : F) → IsNum (e.abs x) → IsNum x
  pub num_of_sub : (x y : F) → IsNum (d.sub x y) → IsNum x × IsNum y

-- Rounding is monotone, so larger factors give larger products.
pub record IsScaling {ℓ} (F : Type ℓ) ⦃d : Float F⦄ : Type ℓ where
  pub finite_of_unit : (x : F) → d.nought ≼ x → x ≼ d.one → d.is_finite x ≡ true
  pub mul_mono :
      (t x y : F)
      → d.is_finite t ≡ true
      → d.nought ≼ t
      → d.nought ≼ x
      → x ≼ y
      → d.is_finite y ≡ true
      → d.mul t x ≼ d.mul t y

module _ {ℓ} {F : Type ℓ} ⦃d : Float F⦄ where
  -- A NaN operand yields the other one.
  unfoldable pub fmin : F → F → F
  fmin x y = if d.le x y || not (d.le y y) then x else y

  -- `==` on `f64`
  abbrev pub feq : F → F → Bool
  feq x y = d.le x y && d.le y x
