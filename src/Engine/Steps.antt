-- ===== src/Engine/Steps.antt =====
-- What becomes of a candidate and its job: on a decision cache hit, at the check of the cheap
-- constraints, at a step before the last one and at the last.
use imads.Prelude.{
  ◌+◌, Bool, true, false, ◌&&◌, none, some, List, [], ◌∷◌, leb, if◌then◌else◌, length, get_or,
}
use imads.Float.{Float, fmax}
use imads.Types.{
  EvalMeta, Estimates, JobResult, rejected_cheap, rejected_invalid_eval, early_infeasible, partial,
  truth, CandidateStageState, WorkItem, done_rejected_cheap, done_rejected_invalid_eval,
  done_stopped_partial, done_truth,
}
use imads.Cache.Keys.{decision_key}
use imads.Margin.{first_or}
use imads.Engine.Audit.{
  truth_as_estimates, paired_audit_sample_from_estimates, objective_pruning_allowed,
}
use imads.Evaluator.{mesh_to_real_aniso}
use imads.Engine.Candidate.{
  audit_of, Policies, cut, Batch, MaterializedJob, CheapGate, plain, start_audit, cut_job, go_on,
  apply_state_transition_from_result, keep_estimates, invalid, failed, passed,
}

-- A decision cache hit, an outcome of the engine's own and the two together.
module _ {F : Type 0} ⦃d : Float F⦄ where
  open d use {nought, infinity, of_int, le, sub, mul}

  -- The candidate and the job after a hit; a hit leaves the cache and the statistics.
  unfoldable pub use_cached :
      Policies F
      → Batch F
      → CandidateStageState F
      → WorkItem
      → JobResult F
      → CandidateStageState F × MaterializedJob F
  use_cached pol b cand item (partial est meta) =
      let cand1 = keep_estimates cand item est in
      (
        apply_state_transition_from_result b cand1 item (partial est meta),
        record {
          result = partial est meta;
          audited = cand.audit_required;
          audit_of = audit_of cand.audit_origin;
          paired_sample =
              paired_audit_sample_from_estimates cand.audit_origin item.phi_idx meta.phi est;
        },
      )
  use_cached pol b cand item (early_infeasible j est meta) =
      let cand1 = keep_estimates cand item est in
      let aj = get_or b.assignment j (length b.ladder) in
      let cand2 =
        if leb aj (item.phi_idx + 1) then start_audit pol b cand1 item j meta.phi est else cand1 in
      (cut b cand2 item j, cut_job cand2 item meta.phi est (early_infeasible j est meta))
  use_cached pol b cand item (truth f c feasible v meta) = (
    record cand { status = done_truth },
    record {
      result = truth f c feasible v meta;
      audited = false;
      audit_of = none;
      paired_sample =
          paired_audit_sample_from_estimates cand.audit_origin item.phi_idx meta.phi
            (truth_as_estimates meta.phi f c);
    },
  )
  use_cached pol b cand item (rejected_cheap meta) =
      (record cand { status = done_rejected_cheap }, plain (rejected_cheap meta))
  use_cached pol b cand item (rejected_invalid_eval meta) =
      (record cand { status = done_rejected_invalid_eval }, plain (rejected_invalid_eval meta))

  -- The first check of a candidate.
  unfoldable pub first_check :
      Policies F → Batch F → CandidateStageState F → CandidateStageState F × CheapGate
  first_check pol b cand = elim (mesh_to_real_aniso pol.is_valid_number cand.x b.base_steps) [
    | none ↦ (record cand { cheap_checked = true }, invalid)
    | some x_real ↦
        let ok = pol.evaluator.cheap_constraints x_real in
        (record cand { cheap_checked = true; cheap_ok = ok }, if ok then passed else failed)
  ]

  -- The sticky check of the cheap constraints.
  unfoldable pub check_cheap :
      Policies F → Batch F → CandidateStageState F → CandidateStageState F × CheapGate
  check_cheap pol b cand =
      if cand.cheap_checked
      then (cand, if cand.cheap_ok then passed else failed)
      else first_check pol b cand

  abbrev pub meta_of : Batch F → WorkItem → F → EvalMeta F
  meta_of b item cost = record {
    phi = item.phi;
    env_rev = item.env_rev;
    policy_rev = b.policy_rev;
    runtime_cost = cost;
  }

  -- Whether even the optimistic bound does not beat the incumbent, where pruning is allowed.
  unfoldable pub is_hopeless :
      Policies F → Batch F → CandidateStageState F → WorkItem → Estimates F → Bool
  is_hopeless pol b cand item est = elim b.incumbent_f [
    | none ↦ false
    | some best ↦
        let (lcb, _) = pol.objective_bounds est b.th in
        objective_pruning_allowed item.phi_idx b.ladder cand.audit_required b.cfg
        && le (sub (first_or best infinity) b.th.eps_f) lcb
  ]

  -- A step before the last one: stopped by the incumbent, or on to the next step.
  unfoldable pub stop_or_go_on :
      Policies F
      → Batch F
      → CandidateStageState F
      → WorkItem
      → Estimates F
      → EvalMeta F
      → CandidateStageState F × MaterializedJob F
  stop_or_go_on pol b cand item est meta =
      if is_hopeless pol b cand item est
      then (record cand { status = done_stopped_partial item.phi_idx }, plain (partial est meta))
      else (
        go_on b cand item,
        record {
          result = partial est meta;
          audited = cand.audit_required;
          audit_of = audit_of cand.audit_origin;
          paired_sample =
              paired_audit_sample_from_estimates cand.audit_origin item.phi_idx item.phi est;
        },
      )

  -- A step before the last one: cut early where the policy says so and the assignment lets it.
  unfoldable pub partial_step :
      Policies F
      → Batch F
      → CandidateStageState F
      → WorkItem
      → Estimates F
      → EvalMeta F
      → CandidateStageState F × MaterializedJob F
  partial_step pol b cand item est meta =
      let otherwise = stop_or_go_on pol b cand item est meta in
      elim (pol.early_cut est b.th) [
        | none ↦ otherwise
        | some j ↦
            if leb (get_or b.assignment j (length b.ladder)) (item.phi_idx + 1)
            then (let cand1 = start_audit pol b cand item j item.phi est in
                (cut b cand1 item j, cut_job cand1 item item.phi est (early_infeasible j est meta)))
            else otherwise
      ]

  abbrev pub all_met : List F → Bool
  all_met [] = true
  all_met (cj ∷ c) = le cj nought && all_met c

  -- `c.iter().map(|&cj| cj.max(0.0)).fold(acc, f64::max)`
  abbrev pub violation : F → List F → F
  violation acc [] = acc
  violation acc (cj ∷ c) = violation (fmax acc (fmax cj nought)) c

  unfoldable pub truth_step :
      CandidateStageState F
      → WorkItem
      → Estimates F
      → EvalMeta F
      → CandidateStageState F × MaterializedJob F
  truth_step cand item est meta = (
    record cand { status = done_truth },
    record {
      result = truth est.f_hat est.c_hat (all_met est.c_hat) (violation nought est.c_hat) meta;
      audited = false;
      audit_of = none;
      paired_sample =
          paired_audit_sample_from_estimates cand.audit_origin item.phi_idx item.phi est;
    },
  )
