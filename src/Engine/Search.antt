-- ===== src/Engine/Search.antt =====
-- The first phase of an iteration: the search policy's proposals
-- (imads-core/src/policies/search.rs) enter the store of candidates.
use imads.Prelude.{ℕ, ◌+◌, Option, none, some, List, [], ◌∷◌, map, length, get_or}
use imads.Float.{Float}
use imads.Float.Libm.{Libm}
use imads.Types.{XMesh, CandidateStageState}
use imads.Mesh.{AnisotropicMeshGeometry}
use imads.Mesh.Quantize.{current_steps, project_to_aniso_mesh}
use imads.Engine.Store.{new_candidate, push_all}
use imads.Engine.Ready.{sort_scored}
use imads.Engine.State.{RunState}

pub record RawCandidate (F : Type 0) : Type 0 where
  pub id : ℕ
  pub x : List F

pub record SearchContext (F : Type 0) : Type 0 where
  pub dim : ℕ
  pub incumbent_x : Option (List F)
  pub mesh_steps : List F

-- A search policy with its state `Q`; users replace it. The score is for an incumbent's score.
pub record SearchPolicy (F Q : Type 0) : Type 0 where
  pub set_context : Q → SearchContext F → Q
  pub propose : Q → ℕ → ℕ → Q × List (RawCandidate F)
  pub score : Q → RawCandidate F → Option F → Q × F

-- A proposal on the mesh, with its score.
pub record Scored (F : Type 0) : Type 0 where
  pub id : ℕ
  pub x : XMesh
  pub score : F

module _ {F : Type 0} ⦃d : Float F⦄ where
  -- A point in real units from dimension `i` on; a dimension without a base step takes the
  -- first one, which the geometry of a run has.
  abbrev pub real_from : ℕ → AnisotropicMeshGeometry F → XMesh → List F
  real_from i geo [] = []
  real_from i geo (u ∷ us) =
      let step = get_or geo.base_steps i (get_or geo.base_steps 0 d.one) in
      d.mul (d.of_int u) step ∷ real_from (i + 1) geo us

  abbrev pub real_point : AnisotropicMeshGeometry F → XMesh → List F
  real_point geo x = real_from 0 geo x

  abbrev pub search_context : ℕ → AnisotropicMeshGeometry F → Option XMesh → SearchContext F
  search_context default_dim geo none = record {
    dim = default_dim;
    incumbent_x = none;
    mesh_steps = current_steps geo;
  }
  search_context default_dim geo (some x) = record {
    dim = length x;
    incumbent_x = some (real_point geo x);
    mesh_steps = current_steps geo;
  }

  -- `f_best.as_ref().map(|f| f[0])`; the outer `none` is the panic on an incumbent without
  -- objectives.
  abbrev pub incumbent_score : Option (List F) → Option (Option F)
  incumbent_score none = some none
  incumbent_score (some []) = none
  incumbent_score (some (f ∷ fs)) = some (some f)

module _ {F Q : Type 0} ⦃d : Float F⦄ ⦃e : Libm F⦄ where
  -- Each proposal is put on the mesh and scored, in order; `none` is a panic.
  unfoldable pub score_all :
      SearchPolicy F Q
      → AnisotropicMeshGeometry F
      → Option (List F)
      → Q
      → List (RawCandidate F)
      → Option (Q × List (Scored F))
  score_all search geo f_best q [] = some (q, [])
  score_all search geo f_best q (rc ∷ raw) = elim (project_to_aniso_mesh rc.x geo) [
    | none ↦ none
    | some x ↦ elim (incumbent_score f_best) [
      | none ↦ none
      | some hint ↦
          let (q1, score) = search.score q rc hint in
          elim (score_all search geo f_best q1 raw) [
            | none ↦ none
            | some (q2, scored) ↦ some (q2, record { id = rc.id; x = x; score = score } ∷ scored)
          ]
    ]
  ]

module _ {F C D S : Type 0} where
  abbrev pub candidate_of : ℕ → RunState F C D S → Scored F → CandidateStageState F
  candidate_of iter s c = new_candidate c.id c.x c.score iter s.policy_rev s.incumbent_id

  -- The scored proposals, in order, enter the store.
  abbrev pub ingest : ℕ → RunState F C D S → List (Scored F) → RunState F C D S
  ingest iter s scored = record s { store = push_all s.store (map (candidate_of iter s) scored) }

module _ {F C D S Q : Type 0} ⦃d : Float F⦄ ⦃e : Libm F⦄ where
  -- The proposals in the order of their scores; `none` is the panic of a comparison.
  abbrev pub enter :
      ℕ → RunState F C D S → Q → Option (List (Scored F)) → Option (Q × RunState F C D S)
  enter iter s q none = none
  enter iter s q (some sorted) = some (q, ingest iter s sorted)

  abbrev pub found :
      ℕ → RunState F C D S → Option (Q × List (Scored F)) → Option (Q × RunState F C D S)
  found iter s none = none
  found iter s (some (q, scored)) = enter iter s q (sort_scored (λ c. c.score) (λ c. c.id) scored)

  -- The first phase of iteration `iter`; `none` is a panic.
  unfoldable pub search_phase :
      SearchPolicy F Q
      → ℕ
      → ℕ
      → ℕ
      → AnisotropicMeshGeometry F
      → Q
      → RunState F C D S
      → Option (Q × RunState F C D S)
  search_phase search default_dim budget iter geo q s =
      let told = search.set_context q (search_context default_dim geo s.x_best) in
      let (q1, raw) = search.propose told iter budget in
      found iter s (score_all search geo s.f_best q1 raw)
