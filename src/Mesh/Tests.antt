-- ===== src/Mesh/Tests.antt =====
-- Refinement on concrete geometries.
use imads.Prelude.{◌≡◌, refl, [], ◌∷◌, some, arith}
use imads.Prelude.Int.{pos, negsuc, ◌*ℤ◌}
use imads.Prelude.I64.{max_ℤ, quot, mul_i64, wrap_i64}
use imads.Float.Fixed.{Fixed, fixed_float, fixed_libm, milli}
use imads.Mesh.Quantize.{
  quantize, quantize_real_to_mesh, quantize_real_to_aniso_mesh, quantize-to_anisotropic,
}
use imads.Mesh.{
  MeshGeometry, AnisotropicMeshGeometry, refine_mul, refine, refine_aniso, to_anisotropic,
}
use imads.Mesh.Refine.{Shrinks, minimum, refine_times, refine-Shrinks, refine_times_reaches}
use imads.Mesh.Nested.{OnGrid, refine_aniso_nested}

abbrev geometry : MeshGeometry Fixed
geometry = record {
  base_step = milli (pos 500);
  mesh_mul = pos 8;
  mesh_mul_min = pos 2;
  refine_div = pos 2;
  poll_step_mult = pos 1;
}

refine_runs : ((refine geometry).mesh_mul ≡ pos 4) × ((refine_times 3 geometry).mesh_mul ≡ pos 2)
unfolding refine refine_mul max_ℤ quot
refine_runs = (refl, refl)

refine-Shrinks_example :
    Shrinks (minimum geometry) (pos 8) (refine geometry).mesh_mul
    × (refine geometry ≡ record geometry { mesh_mul = (refine geometry).mesh_mul })
refine-Shrinks_example = refine-Shrinks geometry

refine_times_reaches_example : (refine_times 4 geometry).mesh_mul ≡ minimum geometry
unfolding max_ℤ
refine_times_reaches_example = refine_times_reaches 4 geometry (omega arith) refl

abbrev box : AnisotropicMeshGeometry Fixed
box = record {
  base_steps = milli (pos 500) ∷ milli (pos 1000) ∷ [];
  mesh_muls = pos 4 ∷ pos 8 ∷ [];
  mesh_mul_min = pos 1;
  refine_div = pos 2;
  poll_step_mult = pos 1;
}

refine_aniso_nested_example : OnGrid (refine_aniso box).mesh_muls (negsuc 11 ∷ pos 16 ∷ [])
unfolding max_ℤ ◌*ℤ◌
refine_aniso_nested_example =
    refine_aniso_nested box (negsuc 11 ∷ pos 16 ∷ [])
      (
        (2, 2, refl, refl, omega arith, omega arith),
        ((2, 4, refl, refl, omega arith, omega arith), tt),
      )
      ((negsuc 2, refl), ((pos 2, refl), tt))

quantize-to_anisotropic_example :
    quantize_real_to_aniso_mesh
      (milli (pos 7400) ∷ milli (negsuc 2699) ∷ [])
      (to_anisotropic geometry 2)
    ≡ some (quantize_real_to_mesh (milli (pos 7400) ∷ milli (negsuc 2699) ∷ []) geometry)
quantize-to_anisotropic_example =
    quantize-to_anisotropic geometry (milli (pos 7400) ∷ milli (negsuc 2699) ∷ [])

-- With steps of a half, 7.4 is two steps of eight halves and -2.7 one step down.
quantizes :
    quantize_real_to_mesh (milli (pos 7400) ∷ milli (negsuc 2699) ∷ []) geometry
    ≡ pos 16 ∷ negsuc 7 ∷ []
unfolding quantize_real_to_mesh quantize mul_i64 wrap_i64 max_ℤ ◌*ℤ◌
quantizes = refl
