-- ===== src/Poll.antt =====
-- imads-core/src/core/poll.rs: the poll points, one mesh step from the centre along each axis.
pub mod Points
pub mod Grid
pub mod Tests
use imads.Prelude.{ℕ, zero, suc, ◌+◌, List, [], ◌∷◌, get_or, set, length}
use imads.Prelude.Int.{ℤ, pos}
use imads.Prelude.I64.{max_ℤ, saturating_add, saturating_sub}
use imads.Types.{XMesh}

-- The centre with one coordinate moved up or down by `s`.
abbrev pub moved_up : XMesh → ℕ → ℤ → XMesh
moved_up center i s = set center i (saturating_add (get_or center i (pos 0)) s)

abbrev pub moved_down : XMesh → ℕ → ℤ → XMesh
moved_down center i s = set center i (saturating_sub (get_or center i (pos 0)) s)

-- The loop over `i` with `left` axes to go.
pub points_from : ℕ → ℕ → XMesh → ℤ → List XMesh
points_from zero i center s = []
points_from (suc left) i center s =
    moved_up center i s ∷ moved_down center i s ∷ points_from left (i + 1) center s

pub generate_points : XMesh → ℤ → List XMesh
generate_points center step = let s = max_ℤ step (pos 1) in points_from (length center) 0 center s

abbrev pub axis_step : List ℤ → ℕ → ℤ
axis_step steps i = max_ℤ (get_or steps i (pos 1)) (pos 1)

pub points_from_aniso : ℕ → ℕ → XMesh → List ℤ → List XMesh
points_from_aniso zero i center steps = []
points_from_aniso (suc left) i center steps =
    let s = axis_step steps i in
    moved_up center i s ∷ moved_down center i s ∷ points_from_aniso left (i + 1) center steps

pub generate_points_aniso : XMesh → List ℤ → List XMesh
generate_points_aniso center steps = points_from_aniso (length center) 0 center steps
