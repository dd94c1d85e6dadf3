-- ===== src/Mesh.antt =====
-- imads-core/src/types.rs: the mesh geometries and their refinement. The base steps, which are
-- `f64`, are numbers of type `F`.
pub mod Refine
pub mod Nested
pub mod Quantize
pub mod Tests
use imads.Prelude.{ℕ, List, map, if◌then◌else◌, replicate}
use imads.Prelude.Int.{ℤ, pos, ltb_ℤ}
use imads.Prelude.I64.{max_ℤ, quot, mul_i64}

pub record MeshGeometry {ℓ} (F : Type ℓ) : Type ℓ where
  pub base_step : F
  pub mesh_mul : ℤ
  pub mesh_mul_min : ℤ
  pub refine_div : ℤ
  pub poll_step_mult : ℤ

pub record AnisotropicMeshGeometry {ℓ} (F : Type ℓ) : Type ℓ where
  pub base_steps : List F
  pub mesh_muls : List ℤ
  pub mesh_mul_min : ℤ
  pub refine_div : ℤ
  pub poll_step_mult : ℤ

-- The step of `refine` on one multiplier, with the divisor and the minimum that it has fixed up.
unfoldable pub refine_mul : ℤ → ℤ → ℤ → ℤ
refine_mul div minm mesh_mul =
    if ltb_ℤ minm mesh_mul then (let next = quot mesh_mul div in max_ℤ next minm) else mesh_mul

module _ {ℓ} {F : Type ℓ} where
  unfoldable pub refine : MeshGeometry F → MeshGeometry F
  refine g =
      let div = max_ℤ g.refine_div (pos 2) in
      let minm = max_ℤ g.mesh_mul_min (pos 1) in
      record g { mesh_mul = refine_mul div minm g.mesh_mul }

  unfoldable pub poll_step_units : MeshGeometry F → ℤ
  poll_step_units g = let mult = max_ℤ g.poll_step_mult (pos 1) in mul_i64 g.mesh_mul mult

  unfoldable pub refine_aniso : AnisotropicMeshGeometry F → AnisotropicMeshGeometry F
  refine_aniso g =
      let div = max_ℤ g.refine_div (pos 2) in
      let minm = max_ℤ g.mesh_mul_min (pos 1) in
      record g { mesh_muls = map (refine_mul div minm) g.mesh_muls }

  unfoldable pub poll_step_units_aniso : AnisotropicMeshGeometry F → List ℤ
  poll_step_units_aniso g =
      let mult = max_ℤ g.poll_step_mult (pos 1) in map (λ mm. mul_i64 mm mult) g.mesh_muls

  unfoldable pub to_anisotropic : MeshGeometry F → ℕ → AnisotropicMeshGeometry F
  to_anisotropic g dim = record {
    base_steps = replicate dim g.base_step;
    mesh_muls = replicate dim g.mesh_mul;
    mesh_mul_min = g.mesh_mul_min;
    refine_div = g.refine_div;
    poll_step_mult = g.poll_step_mult;
  }
