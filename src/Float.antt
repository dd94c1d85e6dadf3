-- ===== src/Float.antt =====
-- The operations on `f64` that the code uses, and what IEEE 754 says of them. NaN is the value that
-- is not `<=` itself. `max`, `min` and `clamp` are those of Rust's standard library.
pub mod Fixed
pub mod Laws
pub mod Libm
use imads.Prelude.Int.{ℤ}
use imads.Prelude.{ℕ, ◌≡◌, Bool, true, not, ◌&&◌, ◌||◌, ◌⊎◌, if◌then◌else◌}

pub record Float {ℓ} (F : Type ℓ) : Type ℓ where
  pub nought : F
  pub one : F
  pub infinity : F
  pub is_finite : F → Bool
  pub le : F → F → Bool
  pub lt : F → F → Bool
  pub add : F → F → F
  pub sub : F → F → F
  pub mul : F → F → F
  pub div : F → F → F
  pub sqrt : F → F
  -- `n as f64`, of a signed or an unsigned number
  pub of_int : ℤ → F
  -- The literal with the digits `m` and `k` of them behind the point.
  pub decimal : ℕ → ℕ → F

module _ {ℓ} {F : Type ℓ} ⦃d : Float F⦄ where
  abbrev pub IsNum : F → Type 0
  IsNum x = d.le x x ≡ true

  infix 50 ◌≼◌
  abbrev pub ◌≼◌ : F → F → Type 0
  x ≼ y = d.le x y ≡ true

  -- A NaN operand yields the other one.
  unfoldable pub fmax : F → F → F
  fmax x y = if d.le x y || not (d.le x x) then y else x

  unfoldable pub clamp : F → F → F → F
  clamp x lo hi = let y = if d.lt x lo then lo else x in if d.lt hi y then hi else y

pub record IsIeee {ℓ} (F : Type ℓ) ⦃d : Float F⦄ : Type ℓ where
  pub num_of_le : (x y : F) → x ≼ y → IsNum x × IsNum y
  pub le_trans : (x y z : F) → x ≼ y → y ≼ z → x ≼ z
  pub le_total : (x y : F) → IsNum x → IsNum y → (x ≼ y) ⊎ (y ≼ x)
  pub lt-eq : (x y : F) → d.lt x y ≡ (d.le x y && not (d.le y x))
  pub num_of_finite : (x : F) → d.is_finite x ≡ true → IsNum x
  pub nought_le_one : d.nought ≼ d.one
  -- Rounding is monotone, so a factor in [0, 1] does not enlarge.
  pub mul_num : (x s : F) → IsNum (d.mul x s) → IsNum s
  pub mul_shrinks :
      (x s : F) → d.nought ≼ x → d.nought ≼ s → s ≼ d.one → IsNum (d.mul x s) → d.mul x s ≼ x
