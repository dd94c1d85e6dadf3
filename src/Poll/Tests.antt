-- ===== src/Poll/Tests.antt =====
-- Poll points on concrete centres.
use imads.Prelude.{◌≡◌, refl, [], ◌∷◌, arith, All}
use imads.Prelude.Int.{pos, negsuc, ◌+ℤ◌, ◌-ℤ◌, ◌*ℤ◌}
use imads.Prelude.I64.{max_ℤ, mul_i64, wrap_i64, saturating_add, saturating_sub, i64_max}
use imads.Float.Fixed.{Fixed, milli}
use imads.Types.{XMesh}
use imads.Mesh.{AnisotropicMeshGeometry, poll_step_units_aniso}
use imads.Mesh.Nested.{OnGrid}
use imads.Poll.{points_from_aniso, generate_points_aniso}
use imads.Poll.Grid.{generate_points_aniso_grid}

abbrev box : AnisotropicMeshGeometry Fixed
box = record {
  base_steps = milli (pos 500) ∷ milli (pos 1000) ∷ [];
  mesh_muls = pos 4 ∷ pos 8 ∷ [];
  mesh_mul_min = pos 1;
  refine_div = pos 2;
  poll_step_mult = pos 0;
}

abbrev center : XMesh
center = negsuc 11 ∷ pos 16 ∷ []

poll_box :
    generate_points_aniso center (poll_step_units_aniso box)
    ≡ (negsuc 7 ∷ pos 16 ∷ [])
      ∷ (negsuc 15 ∷ pos 16 ∷ [])
      ∷ (negsuc 11 ∷ pos 24 ∷ [])
      ∷ (negsuc 11 ∷ pos 8 ∷ [])
      ∷ []
unfolding generate_points_aniso points_from_aniso poll_step_units_aniso max_ℤ mul_i64 wrap_i64 ◌*ℤ◌
    saturating_add saturating_sub
poll_box = refl

-- At the end of the range a move stops short.
saturated : saturating_add i64_max (pos 5) ≡ i64_max
unfolding saturating_add
saturated = refl

generate_points_aniso_grid_example :
    All (OnGrid box.mesh_muls) (generate_points_aniso center (poll_step_units_aniso box))
unfolding max_ℤ ◌*ℤ◌ ◌+ℤ◌ ◌-ℤ◌
generate_points_aniso_grid_example =
    generate_points_aniso_grid box center ((negsuc 2, refl), ((pos 2, refl), tt))
      (omega arith, (omega arith, tt))
