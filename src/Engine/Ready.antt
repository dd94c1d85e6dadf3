-- ===== src/Engine/Ready.antt =====
-- The view of the ready candidates that the scheduler picks from, and the default scheduler
-- (imads-core/src/policies/scheduler.rs).
pub mod Order
use Prim.Native.Nat.{max}
use imads.Prelude.{
  ℕ, ◌-◌, ◌^◌, Bool, true, false, ◌&&◌, ◌||◌, Option, none, some, List, [], ◌∷◌, map, leb, ◌==◌,
  if◌then◌else◌, length, take, sort_by,
}
use imads.Prelude.Int.{pos}
use imads.Float.{Float}
use imads.Float.Libm.{fmin}
use imads.Types.{XMesh, CandidateStageState, CandidateStatus, ready}
use imads.Margin.{Thresholds}
use imads.Engine.Candidate.{Policies}

pub data ReadyKind : Type 0 where
  kind_new kind_resume : ReadyKind

pub record ReadyCandidateView (F : Type 0) : Type 0 where
  pub id : ℕ
  pub kind : ReadyKind
  pub x : XMesh
  pub next_phi_idx : ℕ
  pub score : F
  pub audit_required : Bool

abbrev pub is_ready : CandidateStatus → Bool
is_ready ready = true
is_ready _ = false

module _ {F : Type 0} ⦃d : Float F⦄ where
  open d use {le, lt, sub, mul, of_int, decimal}

  -- Audited candidates first, old ones a little earlier, then the optimistic bound; a candidate
  -- that is far on the ladder goes a little earlier.
  unfoldable pub ready_score : Policies F → Thresholds F → ℕ → CandidateStageState F → F
  ready_score pol th epoch c =
      let audited =
        if c.audit_required then sub c.base_score (decimal (10 ^ 12) 0) else c.base_score in
      let aged = sub audited (mul (of_int (pos (epoch - c.created_epoch))) (decimal 1 9)) in
      let bounded : F = elim c.last_estimates [
        | none ↦ aged
        | some est ↦ fmin aged (pol.objective_bounds est th).0
      ] in
      sub bounded (mul (of_int (pos c.next_phi_idx)) (decimal 1 6))

  abbrev pub view_of : Policies F → Thresholds F → ℕ → CandidateStageState F → ReadyCandidateView F
  view_of pol th epoch c = record {
    id = c.id;
    kind = if c.next_phi_idx == 0 then kind_new else kind_resume;
    x = c.x;
    next_phi_idx = c.next_phi_idx;
    score = ready_score pol th epoch c;
    audit_required = c.audit_required;
  }

  unfoldable pub make_ready_view :
      Policies F → Thresholds F → ℕ → List (CandidateStageState F) → List (ReadyCandidateView F)
  make_ready_view pol th epoch [] = []
  make_ready_view pol th epoch (c ∷ cands) =
      let rest = make_ready_view pol th epoch cands in
      if is_ready c.status then view_of pol th epoch c ∷ rest else rest

  abbrev pub all_scored : {A : Type 0} → (A → F) → List A → Bool
  all_scored score [] = true
  all_scored score (a ∷ xs) = le (score a) (score a) && all_scored score xs

  -- By score and then by id.
  abbrev pub before : {A : Type 0} → (A → F) → (A → ℕ) → A → A → Bool
  before score id a b = lt (score a) (score b) || le (score a) (score b) && leb (id a) (id b)

  -- `sort_by(|a, b| a.score.partial_cmp(&b.score).unwrap().then(a.id.cmp(&b.id)))`: to compare a
  -- NaN panics, which sorting does as soon as there are two elements.
  unfoldable pub sort_scored : {A : Type 0} → (A → F) → (A → ℕ) → List A → Option (List A)
  sort_scored score id xs =
      if leb (length xs) 1 || all_scored score xs then some (sort_by (before score id) xs) else none

module _ {F : Type 0} where
  -- `DefaultScheduler::select_next` for a number of workers, which is at least 1.
  unfoldable pub select_next : ℕ → List (ReadyCandidateView F) → List ℕ
  select_next workers view = map (λ v. v.id) (take (max workers 1) view)
