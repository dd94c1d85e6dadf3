-- ===== src/Engine/Materialize/Outcomes.antt =====
-- Every outcome, from the cache or evaluated, advances its candidate.
use imads.Prelude.{
  ◌+◌, ◌<◌, ◌≡◌, refl, inl, inr, Bool, true, false, Option, none, some, arith, length, leb,
  Bool-cases, Option-cases, if◌then◌else◌, get_or,
}
use imads.Float.{Float}
use imads.Types.{
  Estimates, EvalMeta, JobResult, rejected_cheap, rejected_invalid_eval, early_infeasible, partial,
  truth, CandidateStageState, WorkItem, WorkOutcome,
}
use imads.Engine.Audit.Visits.{FromLadder}
use imads.Evaluator.{mesh_to_real_aniso}
use imads.Engine.Candidate.{
  Policies, Batch, DecisionCache, CheapGate, EngineStats, Materialized, MaterializedJob, is_last,
  start_audit, apply_state_transition_from_result, keep_estimates, invalid, passed, failed,
}
use imads.Engine.Materialize.{
  use_estimates, materialize_job_result, from_cache, reject_invalid, reject_cheap, from_estimates,
}
use imads.Engine.Steps.{
  use_cached, check_cheap, first_check, stop_or_go_on, partial_step, truth_step, meta_of,
  is_hopeless,
}
use imads.Engine.Materialize.Advances.{
  Keeps, Advances, Fits, start_audit-Keeps, cut-Advances, go_on-Advances, Keeps-Advances,
  done-Advances, keep_estimates-Keeps, before_last,
}

-- What holds of the first components of both results holds of that of the chosen one.
if_first {ℓ μ κ} :
    {A : Type ℓ} {B : Type μ} (P : A → Type κ) (q : Bool) (x y : A × B)
    → P x.0
    → P y.0
    → P (if q then x else y).0
if_first P true x y h k = h
if_first P false x y h k = k

module _ {F : Type 0} ⦃d : Float F⦄ (pol : Policies F) (b : Batch F) where
  use_cached-Advances :
      (cand : CandidateStageState F) (item : WorkItem) (r : JobResult F)
      → FromLadder b.ladder cand.audit_origin
      → item.phi_idx < length b.ladder
      → Fits b item r
      → Advances b.ladder item.phi_idx cand (use_cached pol b cand item r).0
  unfolding use_cached apply_state_transition_from_result
  use_cached-Advances cand item (rejected_cheap meta) from lt fits =
      done-Advances b.ladder _ cand _ from refl
  use_cached-Advances cand item (rejected_invalid_eval meta) from lt fits =
      done-Advances b.ladder _ cand _ from refl
  use_cached-Advances cand item (truth f c feasible v meta) from lt fits =
      done-Advances b.ladder _ cand _ from refl
  use_cached-Advances cand item (partial est meta) from lt fits =
      let next = before_last b item lt fits in
      let on : leb (length b.ladder) (item.phi_idx + 1) ≡ false = ground arith in
      rw (on) (
        Keeps-Advances _ _ _ (keep_estimates-Keeps b.ladder cand item est from)
          (go_on-Advances b (keep_estimates cand item est) item from next))
  use_cached-Advances cand item (early_infeasible j est meta) from lt fits =
      let next = before_last b item lt fits in
      let kept = keep_estimates cand item est in
      let k = keep_estimates-Keeps b.ladder cand item est from in
      elim (Bool-cases (leb (get_or b.assignment j (length b.ladder)) (item.phi_idx + 1))) [
        | inl e ↦
            let s = start_audit-Keeps pol b kept item j meta.phi est from in
            rw (e) (
              Keeps-Advances _ _ _ k (
                Keeps-Advances _ _ _ s (
                  cut-Advances b (start_audit pol b kept item j meta.phi est) item j s.origin
                    next)))
        | inr e ↦ rw (e) (Keeps-Advances _ _ _ k (cut-Advances b kept item j from next))
      ]

  first_check-Keeps :
      (cand : CandidateStageState F)
      → FromLadder b.ladder cand.audit_origin
      → Keeps b.ladder cand (first_check pol b cand).0
  unfolding first_check
  first_check-Keeps cand from =
      elim (Option-cases (mesh_to_real_aniso pol.is_valid_number cand.x b.base_steps)) [
        | inl e ↦
            rw (first_check, e)
              (record {
                same_id = refl;
                same_x = refl;
                sticky = λ h. h;
                same_audit = λ h. (refl, refl);
                origin = from;
              })
        | inr (x_real, e) ↦
            rw (first_check, e)
              (record {
                same_id = refl;
                same_x = refl;
                sticky = λ h. h;
                same_audit = λ h. (refl, refl);
                origin = from;
              })
      ]

  check_cheap-Keeps :
      (cand : CandidateStageState F)
      → FromLadder b.ladder cand.audit_origin
      → Keeps b.ladder cand (check_cheap pol b cand).0
  unfolding check_cheap
  check_cheap-Keeps cand from =
      if_first (λ c. Keeps b.ladder cand c) cand.cheap_checked _ _
        (record {
          same_id = refl;
          same_x = refl;
          sticky = λ h. h;
          same_audit = λ h. (refl, refl);
          origin = from;
        })
        (first_check-Keeps cand from)

  stop_or_go_on-Advances :
      (cand : CandidateStageState F) (item : WorkItem) (est : Estimates F) (meta : EvalMeta F)
      → FromLadder b.ladder cand.audit_origin
      → item.phi_idx + 1 < length b.ladder
      → Advances b.ladder item.phi_idx cand (stop_or_go_on pol b cand item est meta).0
  unfolding stop_or_go_on
  stop_or_go_on-Advances cand item est meta from next =
      elim (Bool-cases (is_hopeless pol b cand item est)) [
        | inl e ↦ rw (e) (done-Advances b.ladder _ cand _ from refl)
        | inr e ↦ rw (e) (go_on-Advances b cand item from next)
      ]

  partial_step-Advances :
      (cand : CandidateStageState F) (item : WorkItem) (est : Estimates F) (meta : EvalMeta F)
      → FromLadder b.ladder cand.audit_origin
      → item.phi_idx + 1 < length b.ladder
      → Advances b.ladder item.phi_idx cand (partial_step pol b cand item est meta).0
  unfolding partial_step
  partial_step-Advances cand item est meta from next =
      let otherwise = stop_or_go_on-Advances cand item est meta from next in
      elim (Option-cases (pol.early_cut est b.th)) [
        | inl e ↦ rw (partial_step, e) otherwise
        | inr (j, e) ↦
            elim (Bool-cases (leb (get_or b.assignment j (length b.ladder)) (item.phi_idx + 1))) [
              | inl le ↦
                  let s = start_audit-Keeps pol b cand item j item.phi est from in
                  rw (partial_step, e, le)
                    (Keeps-Advances _ _ _ s (
                      cut-Advances b (start_audit pol b cand item j item.phi est) item j s.origin
                        next))
              | inr gt ↦ rw (partial_step, e, gt) otherwise
            ]
      ]

  -- The truth step or the step before it, as the outcome's index says.
  own_step-Advances :
      (cand : CandidateStageState F) (item : WorkItem) (est : Estimates F) (meta : EvalMeta F)
      → FromLadder b.ladder cand.audit_origin
      → item.phi_idx < length b.ladder
      → Advances b.ladder item.phi_idx cand
          (if is_last b item
            then truth_step cand item est meta
            else partial_step pol b cand item est meta).0
  unfolding truth_step
  own_step-Advances cand item est meta from lt = elim (Bool-cases (is_last b item)) [
    | inl e ↦ rw (e) (done-Advances b.ladder _ cand _ from refl)
    | inr e ↦ rw (e) (partial_step-Advances cand item est meta from (before_last b item lt e))
  ]

  use_estimates-Advances :
      (cand : CandidateStageState F) (out : WorkOutcome F) (est : Estimates F)
      → FromLadder b.ladder cand.audit_origin
      → out.item.phi_idx < length b.ladder
      → out.estimates ≡ some est
      → (after : CandidateStageState F × MaterializedJob F) × (use_estimates pol b cand out
          ≡ some after)
        × Advances b.ladder out.item.phi_idx cand after.0
  unfolding use_estimates
  use_estimates-Advances cand out est from lt e =
      let meta = meta_of b out.item out.runtime_cost in
      let kept = keep_estimates cand out.item est in
      (
        if is_last b out.item
            then truth_step kept out.item est meta
            else partial_step pol b kept out.item est meta,
        rw (use_estimates, e),
        Keeps-Advances _ _ _ (keep_estimates-Keeps b.ladder cand out.item est from)
            (own_step-Advances kept out.item est meta from lt),
      )

  -- An outcome brings a cached decision that fits its step, or estimates.
  abbrev pub IsUsable : WorkItem → Option (JobResult F) → Option (Estimates F) → Type 0
  IsUsable item (some r) est = Fits b item r
  IsUsable item none (some est) = Unit
  IsUsable item none none = ⊥

  passed_returns :
      (cand : CandidateStageState F) (cache : DecisionCache F) (stats : EngineStats)
      (out : WorkOutcome F) (after : CandidateStageState F × MaterializedJob F)
      → out.cached_decision ≡ none
      → (check_cheap pol b cand).1 ≡ passed
      → use_estimates pol b (check_cheap pol b cand).0 out ≡ some after
      → materialize_job_result pol b cand cache stats out
        ≡ some (from_estimates b cache stats out.item after)
  unfolding materialize_job_result
  passed_returns cand cache stats out after c g u = rw (materialize_job_result, c, g, u)

  -- On every outcome at a step of the ladder that brings a cached decision of its step or estimates,
  -- for a candidate whose audit checkpoints, if any, are those of the ladder, the engine returns. The
  -- candidate keeps its id and its point; where an audit was running it still is, with the same
  -- origin, its checkpoints included, and the same estimates of the cut; the checkpoints of an audit
  -- that has started are those of the ladder; and the candidate is done, or ready for a later step
  -- of the ladder.
  pub materialize_job_result-Advances :
      (cand : CandidateStageState F) (cache : DecisionCache F) (stats : EngineStats)
      (out : WorkOutcome F)
      → FromLadder b.ladder cand.audit_origin
      → out.item.phi_idx < length b.ladder
      → IsUsable out.item out.cached_decision out.estimates
      → (m : Materialized F) × (materialize_job_result pol b cand cache stats out ≡ some m)
        × Advances b.ladder out.item.phi_idx cand m.cand
  unfolding materialize_job_result
  materialize_job_result-Advances cand cache stats out from lt usable =
      by_source out.cached_decision out.estimates refl refl usable
    where
      checked : Keeps b.ladder cand (check_cheap pol b cand).0
      checked = check_cheap-Keeps cand from

      by_gate :
          (est : Estimates F) (gate : CheapGate)
          → out.cached_decision ≡ none
          → out.estimates ≡ some est
          → (check_cheap pol b cand).1 ≡ gate
          → (m : Materialized F) × (materialize_job_result pol b cand cache stats out ≡ some m)
            × Advances b.ladder out.item.phi_idx cand m.cand
      by_gate est invalid c e g = (
        reject_invalid b (check_cheap pol b cand).0 cache stats out.item,
        rw (materialize_job_result, c, g),
        Keeps-Advances _ _ _ checked (done-Advances b.ladder _ _ _ checked.origin refl),
      )
      by_gate est failed c e g = (
        reject_cheap b (check_cheap pol b cand).0 cache stats out.item,
        rw (materialize_job_result, c, g),
        Keeps-Advances _ _ _ checked (done-Advances b.ladder _ _ _ checked.origin refl),
      )
      by_gate est passed c e g =
          let (after, u, adv) =
            use_estimates-Advances (check_cheap pol b cand).0 out est checked.origin lt e in
          (
            from_estimates b cache stats out.item after,
            passed_returns cand cache stats out after c g u,
            Keeps-Advances _ _ _ checked adv,
          )

      by_source :
          (c : Option (JobResult F)) (e : Option (Estimates F))
          → out.cached_decision ≡ c
          → out.estimates ≡ e
          → IsUsable out.item c e
          → (m : Materialized F) × (materialize_job_result pol b cand cache stats out ≡ some m)
            × Advances b.ladder out.item.phi_idx cand m.cand
      by_source (some r) e c' e' u = (
        from_cache pol b cand cache stats out.item r,
        rw (materialize_job_result, c'),
        use_cached-Advances cand out.item r from lt u,
      )
      by_source none (some est) c' e' u = by_gate est (check_cheap pol b cand).1 c' e' refl
      by_source none none c' e' u = elim u [ ]
