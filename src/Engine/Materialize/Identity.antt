-- ===== src/Engine/Materialize/Identity.antt =====
-- The materialisation of an outcome is about one candidate, whatever its result.
use imads.Prelude.{
  ℕ, ◌≡◌, refl, ◌∙◌, Option, none, some, if_both, arith, leb, get_or, length, ◌+◌, if◌then◌else◌,
}
use imads.Float.{Float}
use imads.Types.{
  Phi, EvalMeta, Estimates, JobResult, rejected_cheap, rejected_invalid_eval, early_infeasible,
  partial, truth, CandidateStageState, WorkItem, WorkOutcome,
}
use imads.Engine.Candidate.{
  Policies, Batch, DecisionCache, EngineStats, Materialized, start_audit, cut, go_on,
  apply_state_transition_from_result, keep_estimates,
}
use imads.Engine.Steps.{
  use_cached, first_check, check_cheap, stop_or_go_on, partial_step, truth_step,
}
use imads.Engine.Materialize.{use_estimates, materialize_job_result}

module _ {F : Type 0} where
  start_audit-id :
      (pol : Policies F) (b : Batch F) (cand : CandidateStageState F) (item : WorkItem) (j : ℕ)
      (phi : Phi) (est : Estimates F)
      → (start_audit pol b cand item j phi est).id ≡ cand.id
  unfolding start_audit
  start_audit-id pol b cand item j phi est =
      if_both (λ (c : CandidateStageState F). c.id ≡ cand.id) _ _ _ (λ _. refl) (λ _. refl)

  cut-id :
      (b : Batch F) (cand : CandidateStageState F) (item : WorkItem) (j : ℕ)
      → (cut b cand item j).id ≡ cand.id
  unfolding cut
  cut-id b cand item j =
      if_both (λ (c : CandidateStageState F). c.id ≡ cand.id) _ _ _ (λ _. refl) (λ _. refl)

  apply-id :
      (b : Batch F) (cand : CandidateStageState F) (item : WorkItem) (r : JobResult F)
      → (apply_state_transition_from_result b cand item r).id ≡ cand.id
  unfolding apply_state_transition_from_result go_on
  apply-id b cand item (rejected_cheap meta) = refl
  apply-id b cand item (rejected_invalid_eval meta) = refl
  apply-id b cand item (early_infeasible j est meta) = cut-id b cand item j
  apply-id b cand item (partial est meta) =
      if_both (λ (c : CandidateStageState F). c.id ≡ cand.id) _ _ _ (λ _. refl) (λ _. refl)
  apply-id b cand item (truth f c feasible v meta) = refl

  -- The candidate of the materialised outcome, if there is one, is the one given.
  abbrev pub SameId : CandidateStageState F → Option (Materialized F) → Type 0
  SameId cand none = Unit
  SameId cand (some m) = m.cand.id ≡ cand.id

module _ {F : Type 0} ⦃d : Float F⦄ (pol : Policies F) (b : Batch F) where
  use_cached-id :
      (cand : CandidateStageState F) (item : WorkItem) (r : JobResult F)
      → (use_cached pol b cand item r).0.id ≡ cand.id
  unfolding use_cached
  use_cached-id cand item (partial est meta) =
      apply-id b (keep_estimates cand item est) item (partial est meta)
  use_cached-id cand item (early_infeasible j est meta) =
      cut-id b
        (if leb (get_or b.assignment j (length b.ladder)) (item.phi_idx + 1)
          then start_audit pol b (keep_estimates cand item est) item j meta.phi est
          else keep_estimates cand item est)
        item j
      ∙ if_both (λ (c : CandidateStageState F). c.id ≡ cand.id)
          (leb (get_or b.assignment j (length b.ladder)) (item.phi_idx + 1))
          (start_audit pol b (keep_estimates cand item est) item j meta.phi est)
          (keep_estimates cand item est)
          (λ _. start_audit-id pol b (keep_estimates cand item est) item j meta.phi est) (λ _. refl)
  use_cached-id cand item (truth f c feasible v meta) = refl
  use_cached-id cand item (rejected_cheap meta) = refl
  use_cached-id cand item (rejected_invalid_eval meta) = refl

  check_cheap-id : (cand : CandidateStageState F) → (check_cheap pol b cand).0.id ≡ cand.id
  unfolding check_cheap first_check
  check_cheap-id cand = ground arith

  stop_or_go_on-id :
      (cand : CandidateStageState F) (item : WorkItem) (est : Estimates F) (meta : EvalMeta F)
      → (stop_or_go_on pol b cand item est meta).0.id ≡ cand.id
  unfolding stop_or_go_on go_on
  stop_or_go_on-id cand item est meta = ground arith

  partial_step-id :
      (cand : CandidateStageState F) (item : WorkItem) (est : Estimates F) (meta : EvalMeta F)
      → (partial_step pol b cand item est meta).0.id ≡ cand.id
  unfolding partial_step
  partial_step-id cand item est meta = grind (
    arith,
    λ (j : ℕ). cut-id b (start_audit pol b cand item j item.phi est) item j,
    λ (j : ℕ). start_audit-id pol b cand item j item.phi est,
    stop_or_go_on-id cand item est meta,
  )

  pub materialize_job_result-SameId :
      (cand : CandidateStageState F) (cache : DecisionCache F) (stats : EngineStats)
      (out : WorkOutcome F)
      → SameId cand (materialize_job_result pol b cand cache stats out)
  unfolding materialize_job_result use_estimates truth_step
  materialize_job_result-SameId cand cache stats out = grind (
    arith,
    check_cheap-id cand,
    λ (r : JobResult F). use_cached-id cand out.item r,
    λ (est : Estimates F) (meta : EvalMeta F).
        partial_step-id (keep_estimates (check_cheap pol b cand).0 out.item est) out.item est meta,
  )
