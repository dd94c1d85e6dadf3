-- ===== src/Mesh/Quantize.antt =====
-- imads-core/src/types.rs: the points of the mesh next to real points, and the steps in real units.
use imads.Prelude.{
  ℕ, ◌+◌, ◌≡◌, refl, Option, none, some, List, [], ◌∷◌, map, length, get_elem?, get_elem?-replicate,
  arith, if◌then◌else◌,
}
use imads.Prelude.Int.{ℤ, pos}
use imads.Prelude.I64.{max_ℤ, mul_i64}
use imads.Float.{Float}
use imads.Float.Libm.{Libm}
use imads.Types.{XMesh}
use imads.Mesh.{MeshGeometry, AnisotropicMeshGeometry, to_anisotropic}

module _ {F : Type 0} ⦃d : Float F⦄ where
  -- `XReal::new`: a coordinate that is not finite is an error.
  abbrev pub new_real : List F → Option (List F)
  new_real [] = some []
  new_real (x ∷ xs) =
      let rest = new_real xs in
      if d.is_finite x then elim rest [ none ↦ none | some ys ↦ some (x ∷ ys) ] else none

  abbrev pub scaled_steps : List F → List ℤ → List F
  scaled_steps (bs ∷ base_steps) (mm ∷ mesh_muls) =
      d.mul bs (d.of_int mm) ∷ scaled_steps base_steps mesh_muls
  scaled_steps [] mesh_muls = []
  scaled_steps (bs ∷ base_steps) [] = []

  abbrev pub current_steps : AnisotropicMeshGeometry F → List F
  current_steps geo = scaled_steps geo.base_steps geo.mesh_muls

module _ {F : Type 0} ⦃d : Float F⦄ ⦃e : Libm F⦄ where
  -- The coordinate for a base step and a multiplier that is at least 1.
  unfoldable pub quantize : F → ℤ → F → ℤ
  quantize bs mm x =
      let inv = d.div d.one bs in
      let z = d.mul x inv in let q = e.round (d.div z (d.of_int mm)) in mul_i64 (e.to_i64 q) mm

  unfoldable pub quantize_real_to_mesh : List F → MeshGeometry F → XMesh
  quantize_real_to_mesh x geo = map (quantize geo.base_step (max_ℤ geo.mesh_mul (pos 1))) x

  -- From dimension `i` on; `none` is a dimension that the geometry has not, where the index panics.
  unfoldable pub quantize_from : ℕ → AnisotropicMeshGeometry F → List F → Option XMesh
  quantize_from i geo [] = some []
  quantize_from i geo (x ∷ xs) =
      let rest = quantize_from (i + 1) geo xs in
      elim (get_elem? geo.base_steps i) [
        | none ↦ none
        | some bs ↦ elim (get_elem? geo.mesh_muls i) [
          | none ↦ none
          | some mm ↦ elim rest [
            | none ↦ none
            | some zs ↦ some (quantize bs (max_ℤ mm (pos 1)) x ∷ zs)
          ]
        ]
      ]

  unfoldable pub quantize_real_to_aniso_mesh : List F → AnisotropicMeshGeometry F → Option XMesh
  quantize_real_to_aniso_mesh x geo = quantize_from 0 geo x

  -- `none` is the panic on a coordinate that is not finite, or on too many of them.
  abbrev pub project_to_aniso_mesh : List F → AnisotropicMeshGeometry F → Option XMesh
  project_to_aniso_mesh x geo = elim (new_real x) [
    | none ↦ none
    | some xr ↦ quantize_real_to_aniso_mesh xr geo
  ]

  module _ (g : MeshGeometry F) where
    quantize_from-replicate :
        (i n : ℕ) (x : List F)
        → i + length x ≡ n
        → quantize_from i (to_anisotropic g n) x ≡ some (quantize_real_to_mesh x g)
    unfolding quantize_real_to_mesh to_anisotropic quantize_from
    quantize_from-replicate i n [] h = refl
    quantize_from-replicate i n (x ∷ xs) h = rw (
      quantize_from,
      get_elem?-replicate n i g.base_step (omega arith),
      get_elem?-replicate n i g.mesh_mul (omega arith),
      quantize_from-replicate (i + 1) n xs (omega arith),
    )

    -- On a geometry that has the same step on every axis of the point, the anisotropic quantisation
    -- finds every axis and gives the point that the isotropic one gives.
    pub quantize-to_anisotropic :
        (x : List F)
        → quantize_real_to_aniso_mesh x (to_anisotropic g (length x))
          ≡ some (quantize_real_to_mesh x g)
    unfolding quantize_real_to_aniso_mesh
    quantize-to_anisotropic x = quantize_from-replicate 0 (length x) x (omega arith)
