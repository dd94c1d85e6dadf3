-- ===== src/Poll/Grid.antt =====
-- Poll points of a point on the current mesh lie on the mesh, where no step leaves the range.
use native.Mathlib.Nat.{mul-le-mul}
use imads.Prelude.{
  ℕ, zero, suc, ◌+◌, ◌*◌, ◌≤◌, ◌<◌, ◌≡◌, refl, ap, ap₂, ◌∙◌, List, [], ◌∷◌, map, arith, length,
  get_or, set, All,
}
use imads.Prelude.Int.{
  ℤ, pos, negsuc, pos_part, neg_part, ◌+ℤ◌, ◌-ℤ◌, ◌*ℤ◌, ◌≤ℤ◌, +ℤ_parts, -ℤ_parts, int_laws,
}
use imads.Prelude.I64.{
  IsI64, max_ℤ, mul_i64, wrap_i64_fits, saturating_add, saturating_sub, saturating_add_fits,
  saturating_sub_fits, max_ℤ_bounds,
}
use imads.Types.{XMesh}
use imads.Mesh.{AnisotropicMeshGeometry, poll_step_units_aniso}
use imads.Mesh.Nested.{AtEach, OnMesh, OnGrid, pos-*ℤ}
use imads.Poll.{points_from_aniso, generate_points_aniso}

*ℤ_parts :
    (j : ℤ) (n : ℕ)
    → pos_part (j *ℤ pos n) + neg_part j * n ≡ neg_part (j *ℤ pos n) + pos_part j * n
unfolding ◌*ℤ◌
*ℤ_parts (pos a) n = ground arith
*ℤ_parts (negsuc a) n = ground arith

add_multiple : (k : ℤ) (a b : ℕ) → k *ℤ pos a +ℤ pos (a * b) ≡ (k +ℤ pos b) *ℤ pos a
add_multiple k a b =
    omega
      (int_laws, *ℤ_parts k a, *ℤ_parts (k +ℤ pos b) a, ap (λ (t : ℕ). t * a) (+ℤ_parts k (pos b)))

sub_multiple : (k : ℤ) (a b : ℕ) → k *ℤ pos a -ℤ pos (a * b) ≡ (k -ℤ pos b) *ℤ pos a
sub_multiple k a b =
    omega
      (int_laws, *ℤ_parts k a, *ℤ_parts (k -ℤ pos b) a, ap (λ (t : ℕ). t * a) (-ℤ_parts k (pos b)))

-- The multiplier is positive, and its poll step and both moves fit an `i64`.
pub record HasRoom (mult m x : ℤ) : Type 0 where
  pub positive : pos 1 ≤ℤ m
  pub step_fits : IsI64 (m *ℤ mult)
  pub up_fits : IsI64 (x +ℤ m *ℤ mult)
  pub down_fits : IsI64 (x -ℤ m *ℤ mult)

step_eq :
    (mult m x : ℤ) → pos 1 ≤ℤ mult → HasRoom mult m x → max_ℤ (mul_i64 m mult) (pos 1) ≡ m *ℤ mult
unfolding mul_i64 max_ℤ
step_eq (pos b) (pos a) x hb room =
    rw (wrap_i64_fits _ room.step_fits, pos-*ℤ) (large (a * b) (omega (arith, product)))
  where
    large : (n : ℕ) → 1 ≤ n → max_ℤ (pos n) (pos 1) ≡ pos n
    large n h = ground arith

    product : 1 * 1 ≤ a * b
    product = mul-le-mul {n₁ = 1} {m₁ = 1} (omega (arith, room.positive)) (omega arith)
step_eq (pos b) (negsuc a) x hb room = absurd (omega (arith, room.positive))
step_eq (negsuc b) m x hb room = absurd (omega arith)

-- Where there is room both moves stay on the mesh.
moves-OnMesh :
    (mult m x : ℤ)
    → pos 1 ≤ℤ mult
    → HasRoom mult m x
    → OnMesh m x
    → let s = max_ℤ (mul_i64 m mult) (pos 1) in
      OnMesh m (saturating_add x s) × OnMesh m (saturating_sub x s)
moves-OnMesh (pos b) (pos a) x hb room (k, e) = rw (step_eq (pos b) (pos a) x hb room) (
  (k +ℤ pos b, saturating_add_fits x _ room.up_fits ∙ ap₂ ◌+ℤ◌ e (pos-*ℤ a b) ∙ add_multiple k a b),
  (
    k -ℤ pos b,
    saturating_sub_fits x _ room.down_fits ∙ ap₂ ◌-ℤ◌ e (pos-*ℤ a b) ∙ sub_multiple k a b,
  ),
)
moves-OnMesh (pos b) (negsuc a) x hb room on = absurd (omega (arith, room.positive))
moves-OnMesh (negsuc b) m x hb room on = absurd (omega arith)

AtEach-at :
    (R : ℤ → ℤ → Type 0) (ms xs : List ℤ) (i : ℕ)
    → AtEach R ms xs
    → i < length xs
    → R (get_or ms i (pos 0)) (get_or xs i (pos 0))
AtEach-at R [] [] i h lt = elim lt [ ]
AtEach-at R [] (x ∷ xs) i h lt = absurd h
AtEach-at R (m ∷ ms) [] i h lt = absurd h
AtEach-at R (m ∷ ms) (x ∷ xs) zero h lt = h.0
AtEach-at R (m ∷ ms) (x ∷ xs) (suc i) h lt = AtEach-at R ms xs i h.1 (omega arith)

AtEach-set :
    (R : ℤ → ℤ → Type 0) (ms xs : List ℤ) (i : ℕ) (v : ℤ)
    → AtEach R ms xs
    → R (get_or ms i (pos 0)) v
    → AtEach R ms (set xs i v)
AtEach-set R [] [] i v h r = tt
AtEach-set R [] (x ∷ xs) i v h r = absurd h
AtEach-set R (m ∷ ms) [] i v h r = absurd h
AtEach-set R (m ∷ ms) (x ∷ xs) zero v h r = (r, h.1)
AtEach-set R (m ∷ ms) (x ∷ xs) (suc i) v h r = (h.0, AtEach-set R ms xs i v h.1 r)

axis_step-map :
    (R : ℤ → ℤ → Type 0) (f : ℤ → ℤ) (ms xs : List ℤ) (i : ℕ)
    → AtEach R ms xs
    → i < length xs
    → get_or (map f ms) i (pos 1) ≡ f (get_or ms i (pos 0))
axis_step-map R f [] [] i h lt = elim lt [ ]
axis_step-map R f [] (x ∷ xs) i h lt = absurd h
axis_step-map R f (m ∷ ms) [] i h lt = absurd h
axis_step-map R f (m ∷ ms) (x ∷ xs) zero h lt = refl
axis_step-map R f (m ∷ ms) (x ∷ xs) (suc i) h lt = axis_step-map R f ms xs i h.1 (omega arith)

module _ {ℓ} {F : Type ℓ} (g : AnisotropicMeshGeometry F) (center : XMesh) where
  abbrev pub multiplier : ℤ
  multiplier = max_ℤ g.poll_step_mult (pos 1)

  module _ (on : OnGrid g.mesh_muls center)
      (room : AtEach (HasRoom multiplier) g.mesh_muls center) where
    points-OnGrid :
        (left i : ℕ)
        → i + left ≤ length center
        → All (OnGrid g.mesh_muls) (points_from_aniso left i center (poll_step_units_aniso g))
    unfolding points_from_aniso poll_step_units_aniso
    points-OnGrid zero i h = tt
    points-OnGrid (suc left) i h =
        let lt : i < length center = omega arith in
        let (up, down) =
          moves-OnMesh multiplier _ _ (max_ℤ_bounds g.poll_step_mult (pos 1)).1
            (AtEach-at _ g.mesh_muls center i room lt)
            (AtEach-at OnMesh g.mesh_muls center i on lt) in
        rw (axis_step-map _ (λ mm. mul_i64 mm multiplier) g.mesh_muls center i on lt) (
          AtEach-set OnMesh g.mesh_muls center i _ on up,
          (
            AtEach-set OnMesh g.mesh_muls center i _ on down,
            points-OnGrid left (i + 1) (omega arith),
          ),
        )

    -- If the centre lies on the current mesh and no step or move leaves the range of `i64`, every
    -- poll point lies on the current mesh.
    pub generate_points_aniso_grid :
        All (OnGrid g.mesh_muls) (generate_points_aniso center (poll_step_units_aniso g))
    unfolding generate_points_aniso
    generate_points_aniso_grid = points-OnGrid (length center) 0 (omega arith)
