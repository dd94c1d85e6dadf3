-- ===== src/Engine/Start.antt =====
-- The start of a run: the dimension, the ladder and the mesh, with the assertions on them.
use imads.Prelude.{
  ℕ, zero, suc, ◌≤◌, ◌≡◌, sym, ◌∙◌, Bool, true, ◌&&◌, Option, none, some, List, [], ◌∷◌, arith,
  if◌then◌else◌, replicate, length, All, length-replicate,
}
use Prim.Native.Nat.{max}
use imads.Prelude.Int.{ℤ, pos, ◌≤ℤ◌}
use imads.Prelude.I64.{max_ℤ, max_ℤ_bounds}
use imads.Float.{Float}
use imads.Types.{Tau, Smc, Phi}
use imads.Config.{EngineConfig}
use imads.Config.Validation.{IsValid}
use imads.Mesh.{MeshGeometry, AnisotropicMeshGeometry, to_anisotropic}
use imads.Ladder.{build_ladder}
use imads.Ladder.Chain.{Chain}
use imads.Ladder.Staircase.{Refines}
use imads.Ladder.Complete.{build_ladder-Refines}
use imads.Engine.Levels.{resolve_ladder_levels, resolve_ladder_levels_positive}

-- `cfg.search_dim.or_else(|| evaluator.search_dim()).unwrap_or(1)`
abbrev pub resolved_dim : Option ℕ → Option ℕ → ℕ
resolved_dim (some n) evaluator_dim = n
resolved_dim none (some n) = n
resolved_dim none none = 1

ladder_of_levels :
    (tau : List Tau) (smc : List Smc)
    → 1 ≤ length tau
    → 1 ≤ length smc
    → (first : Phi) × (rest : List Phi) × (build_ladder tau smc ≡ some (first ∷ rest))
      × Chain Refines first rest
ladder_of_levels [] smc h k = absurd (omega arith)
ladder_of_levels (t ∷ ts) [] h k = absurd (omega arith)
ladder_of_levels (t ∷ ts) (s ∷ ss) h k = build_ladder-Refines t ts s ss

All-replicate {ℓ κ} : {A : Type ℓ} (P : A → Type κ) (n : ℕ) (a : A) → P a → All P (replicate n a)
All-replicate P zero a h = tt
All-replicate P (suc n) a h = (h, All-replicate P n a h)

≤ℤ-trans : (a b c : ℤ) → a ≤ℤ b → b ≤ℤ c → a ≤ℤ c
≤ℤ-trans a b c h k = omega arith

module _ {F : Type 0} ⦃d : Float F⦄ where
  open d use {nought, is_finite, lt}

  abbrev pub is_positive : F → Bool
  is_positive x = is_finite x && lt nought x

  abbrev pub all_positive : List F → Bool
  all_positive [] = true
  all_positive (x ∷ xs) = is_positive x && all_positive xs

  abbrev pub iso_geometry : EngineConfig F → MeshGeometry F
  iso_geometry cfg = record {
    base_step = cfg.mesh_base_step;
    mesh_mul = max_ℤ cfg.mesh_mul_init (pos 1);
    mesh_mul_min = max_ℤ cfg.mesh_mul_min (pos 1);
    refine_div = max_ℤ cfg.mesh_refine_div (pos 2);
    poll_step_mult = max_ℤ cfg.poll_step_mult (pos 1);
  }

  -- `none` is a failed assertion.
  abbrev pub geometry : EngineConfig F → ℕ → Option (AnisotropicMeshGeometry F)
  geometry cfg dim = elim cfg.mesh_base_steps [
    | none ↦ some (to_anisotropic (iso_geometry cfg) (max dim 1))
    | some [] ↦ none
    | some (b ∷ bs) ↦
        if all_positive (b ∷ bs)
        then some (record {
          base_steps = b ∷ bs;
          mesh_muls = replicate (length (b ∷ bs)) (max_ℤ cfg.mesh_mul_init (pos 1));
          mesh_mul_min = max_ℤ cfg.mesh_mul_min (pos 1);
          refine_div = max_ℤ cfg.mesh_refine_div (pos 2);
          poll_step_mult = max_ℤ cfg.poll_step_mult (pos 1);
        })
        else none
  ]

  -- The ladder and the mesh of a run with a ladder policy, or `none` where an assertion fails.
  pub start_from :
      (List Tau → List Smc → Option (List Phi))
      → EngineConfig F
      → Option ℕ
      → Option (List Phi × AnisotropicMeshGeometry F)
  start_from ladder_policy cfg evaluator_dim =
      let dim = resolved_dim cfg.search_dim evaluator_dim in
      let (tau, smc) = resolve_ladder_levels cfg dim in
      elim (ladder_policy tau smc) [
        | none ↦ none
        | some [] ↦ none
        | some (p ∷ ps) ↦
            if is_positive cfg.mesh_base_step
            then elim (geometry cfg dim) [ none ↦ none | some g ↦ some (p ∷ ps, g) ]
            else none
      ]

  -- The start with the staircase ladder.
  abbrev pub start : EngineConfig F → Option ℕ → Option (List Phi × AnisotropicMeshGeometry F)
  start = start_from build_ladder

  pub record Started (cfg : EngineConfig F) (dim : Option ℕ) : Type 0 where
    pub first : Phi
    pub rest : List Phi
    pub geo : AnisotropicMeshGeometry F
    pub starts : start cfg dim ≡ some (first ∷ rest, geo)
    pub refines : Chain Refines first rest
    pub axes : length geo.mesh_muls ≡ length geo.base_steps
    pub above : All (λ m. cfg.mesh_mul_min ≤ℤ m) geo.mesh_muls

  geometry_of : EngineConfig F → ℕ → AnisotropicMeshGeometry F
  geometry_of cfg dim = to_anisotropic (iso_geometry cfg) (max dim 1)

  start_with :
      (cfg : EngineConfig F) (dim : Option ℕ) (p : Phi) (ps : List Phi)
      → let n = resolved_dim cfg.search_dim dim in
        let (tau, smc) = resolve_ladder_levels cfg n in
        build_ladder tau smc ≡ some (p ∷ ps)
        → is_positive cfg.mesh_base_step ≡ true
        → cfg.mesh_base_steps ≡ none
        → start cfg dim ≡ some (p ∷ ps, geometry_of cfg n)
  unfolding start_from geometry_of
  start_with cfg dim p ps e positive no_steps = rw (start_from, e, positive, no_steps)

  -- A validated configuration with no steps per dimension starts, whatever dimension the evaluator
  -- reports: no assertion fails, each step of the ladder refines the one before, and no multiplier
  -- is below the minimum.
  pub start-IsValid :
      (cfg : EngineConfig F) (dim : Option ℕ)
      → IsValid cfg
      → cfg.mesh_base_steps ≡ none
      → Started cfg dim
  unfolding geometry_of to_anisotropic
  start-IsValid cfg dim v no_steps =
      let n = resolved_dim cfg.search_dim dim in
      let (tau, smc) = resolve_ladder_levels cfg n in
      let (tau_some, smc_some, _, _) = resolve_ladder_levels_positive cfg n in
      let (first, rest, e, refines) = ladder_of_levels tau smc tau_some smc_some in
      record {
        first = first;
        rest = rest;
        geo = geometry_of cfg n;
        starts = start_with cfg dim first rest e (ground arith) no_steps;
        refines = refines;
        axes = length-replicate _ _ ∙ sym (length-replicate _ _);
        above = All-replicate _ (max n 1) _ (
            ≤ℤ-trans cfg.mesh_mul_min cfg.mesh_mul_init (max_ℤ cfg.mesh_mul_init (pos 1))
              v.mesh.mul_init (max_ℤ_bounds cfg.mesh_mul_init (pos 1)).0);
      }
