-- ===== src/Poll/Points.antt =====
-- Which points are generated: both neighbours of the centre on every axis, and no others.
use imads.Prelude.{
  ℕ, zero, suc, ◌+◌, ◌*◌, ◌≤◌, ◌<◌, ◌≡◌, refl, some, List, arith, length, get_elem?, get_or,
  replicate,
}
use imads.Prelude.Int.{ℤ, pos}
use imads.Prelude.I64.{max_ℤ}
use imads.Types.{XMesh}
use imads.Poll.{
  moved_up, moved_down, axis_step, points_from, points_from_aniso, generate_points,
  generate_points_aniso,
}

module _ (center : XMesh) (steps : List ℤ) where
  length-points_from_aniso :
      (left i : ℕ) → length (points_from_aniso left i center steps) ≡ 2 * left
  unfolding points_from_aniso
  length-points_from_aniso zero i = omega arith
  length-points_from_aniso (suc left) i = omega (arith, length-points_from_aniso left (i + 1))

  points_from_aniso_at :
      (left i j : ℕ)
      → j < left
      → (get_elem? (points_from_aniso left i center steps) (2 * j)
          ≡ some (moved_up center (i + j) (axis_step steps (i + j))))
        × (get_elem? (points_from_aniso left i center steps) (2 * j + 1)
            ≡ some (moved_down center (i + j) (axis_step steps (i + j))))
  unfolding points_from_aniso
  points_from_aniso_at zero i j h = elim h [ ]
  points_from_aniso_at (suc left) i zero h = let e : i + zero ≡ i = omega arith in rw e (refl, refl)
  points_from_aniso_at (suc left) i (suc j) h =
      let e : i + suc j ≡ i + 1 + j = omega arith in
      let e2 : 2 * suc j ≡ suc (suc (2 * j)) = omega arith in
      let e3 : suc (suc (2 * j)) + 1 ≡ suc (suc (2 * j + 1)) = omega arith in
      rw (e, e2, e3) (points_from_aniso_at left (i + 1) j (omega arith))

  -- There are two points for each axis: places `2 i` and `2 i + 1` hold the centre moved up and
  -- down along axis `i` by the step of that axis, which is at least 1.
  pub generate_points_aniso_at :
      (length (generate_points_aniso center steps) ≡ 2 * length center)
      × ((i : ℕ)
          → i < length center
          → (get_elem? (generate_points_aniso center steps) (2 * i)
              ≡ some (moved_up center i (axis_step steps i)))
            × (get_elem? (generate_points_aniso center steps) (2 * i + 1)
                ≡ some (moved_down center i (axis_step steps i))))
  unfolding generate_points_aniso
  generate_points_aniso_at = (
    length-points_from_aniso (length center) 0,
    λ i h. let e : 0 + i ≡ i = omega arith in rw e at (points_from_aniso_at (length center) 0 i h),
  )

get_or-replicate : (n i : ℕ) (a : ℤ) → i < n → get_or (replicate n a) i (pos 1) ≡ a
get_or-replicate zero i a h = elim h [ ]
get_or-replicate (suc n) zero a h = refl
get_or-replicate (suc n) (suc i) a h = get_or-replicate n i a (omega arith)

points_from-replicate :
    (center : XMesh) (n left i : ℕ) (step : ℤ)
    → i + left ≤ n
    → points_from left i center (max_ℤ step (pos 1))
      ≡ points_from_aniso left i center (replicate n step)
unfolding points_from points_from_aniso
points_from-replicate center n zero i step h = refl
points_from-replicate center n (suc left) i step h = rw (
  get_or-replicate n i step (omega arith),
  points_from-replicate center n left (i + 1) step (omega arith),
)

-- With one step for all axes the two generators agree.
pub generate_points-replicate :
    (center : XMesh) (step : ℤ)
    → generate_points center step ≡ generate_points_aniso center (replicate (length center) step)
unfolding generate_points generate_points_aniso
generate_points-replicate center step =
    points_from-replicate center (length center) (length center) 0 step (omega arith)
