-- ===== src/Engine/Materialize/Tags.antt =====
-- The entries that the engine adds to the decision cache are of the kind of their tag.
use imads.Prelude.{
  ◌+◌, ◌≡◌, refl, sym, subst, Option, none, some, arith, leb, Bool-cases, Option-cases, inl, inr,
  length, get_or,
}
use imads.Float.{Float}
use imads.Types.{
  Phi, Estimates, EvalMeta, JobResult, early_infeasible, tag_partial, CandidateStageState, WorkItem,
  WorkOutcome,
}
use imads.Evaluator.Finite.{OnSome}
use imads.Executor.Outcomes.{TagFits, IsTagged, put-IsTagged}
use imads.Engine.Candidate.{
  Policies, Batch, DecisionCache, EngineStats, CheapGate, invalid, passed, failed, Materialized,
  MaterializedJob, is_last, item_tag, start_audit, cut_job, keep_estimates,
}
use imads.Engine.Materialize.{
  use_estimates, materialize_job_result, from_cache, reject_invalid, reject_cheap, from_estimates,
}
use imads.Engine.Steps.{check_cheap, is_hopeless, stop_or_go_on, partial_step, truth_step, meta_of}

module _ {F : Type 0} where
  cut_job-result :
      (cand : CandidateStageState F) (item : WorkItem) (phi : Phi) (est : Estimates F)
      (jr : JobResult F)
      → (cut_job cand item phi est jr).result ≡ jr
  cut_job-result cand item phi est jr = ground arith

module _ {F : Type 0} ⦃d : Float F⦄ (pol : Policies F) (b : Batch F) where
  stop_or_go_on-TagFits :
      (cand : CandidateStageState F) (item : WorkItem) (est : Estimates F) (meta : EvalMeta F)
      → TagFits tag_partial (stop_or_go_on pol b cand item est meta).1.result
  unfolding stop_or_go_on
  stop_or_go_on-TagFits cand item est meta = elim (Bool-cases (is_hopeless pol b cand item est)) [
    | inl e ↦ rw (stop_or_go_on, e) refl
    | inr e ↦ rw (stop_or_go_on, e) refl
  ]

  partial_step-TagFits :
      (cand : CandidateStageState F) (item : WorkItem) (est : Estimates F) (meta : EvalMeta F)
      → TagFits tag_partial (partial_step pol b cand item est meta).1.result
  unfolding partial_step
  partial_step-TagFits cand item est meta =
      let otherwise = stop_or_go_on-TagFits cand item est meta in
      elim (Option-cases (pol.early_cut est b.th)) [
        | inl e ↦ rw (partial_step, e) otherwise
        | inr (j, e) ↦
            elim (Bool-cases (leb (get_or b.assignment j (length b.ladder)) (item.phi_idx + 1))) [
              | inl le ↦
                  rw (partial_step, e, le)
                    (subst (TagFits tag_partial)
                      (sym (
                        cut_job-result (start_audit pol b cand item j item.phi est) item item.phi
                          est (early_infeasible j est meta)))
                      refl)
              | inr gt ↦ rw (partial_step, e, gt) otherwise
            ]
      ]

  use_estimates-TagFits :
      (cand : CandidateStageState F) (out : WorkOutcome F)
      → OnSome
          (λ after. TagFits (item_tag b out.item) after.1.result)
          (use_estimates pol b cand out)
  unfolding use_estimates truth_step
  use_estimates-TagFits cand out = elim (Option-cases out.estimates) [
    | inl e ↦ rw (use_estimates, e) tt
    | inr (est, e) ↦ elim (Bool-cases (is_last b out.item)) [
      | inl last ↦ rw (use_estimates, e, last) refl
      | inr before ↦
          rw (use_estimates, e, before)
            (partial_step-TagFits (keep_estimates cand out.item est) out.item est
              (meta_of b out.item out.runtime_cost))
    ]
  ]

  materialize_job_result-tags :
      (cand : CandidateStageState F) (cache : DecisionCache F) (stats : EngineStats)
      (out : WorkOutcome F)
      → IsTagged cache
      → OnSome (λ m. IsTagged m.cache) (materialize_job_result pol b cand cache stats out)
  unfolding materialize_job_result
  materialize_job_result-tags cand cache stats out tagged =
      by_source out.cached_decision (check_cheap pol b cand).1
        (use_estimates pol b (check_cheap pol b cand).0 out)
        (use_estimates-TagFits (check_cheap pol b cand).0 out)
    where
      by_source :
          (c : Option (JobResult F)) (gate : CheapGate)
          (own : Option (CandidateStageState F × MaterializedJob F))
          → OnSome (λ after. TagFits (item_tag b out.item) after.1.result) own
          → OnSome
              (λ m. IsTagged m.cache)
              (elim c [
                | some cached ↦ some (from_cache pol b cand cache stats out.item cached)
                | none ↦ elim gate [
                  | invalid ↦
                      some (reject_invalid b (check_cheap pol b cand).0 cache stats out.item)
                  | failed ↦ some (reject_cheap b (check_cheap pol b cand).0 cache stats out.item)
                  | passed ↦ elim own [
                    | none ↦ none
                    | some after ↦ some (from_estimates b cache stats out.item after)
                  ]
                ]
              ])
      by_source (some cached) gate own h = tagged
      by_source none invalid own h = put-IsTagged cache _ _ tagged tt
      by_source none failed own h = put-IsTagged cache _ _ tagged refl
      by_source none passed none h = tt
      by_source none passed (some (cand', job)) h = put-IsTagged cache _ job.result tagged h

  -- If every entry of the decision cache is of the kind of its tag (a partial result or an early
  -- cut under `Partial`, a full one under `Truth`, a rejection under `Cheap`, an invalid evaluation
  -- under any), so it is after an outcome is materialised.
  pub materialize_job_result-IsTagged :
      (cand : CandidateStageState F) (cache : DecisionCache F) (stats : EngineStats)
      (out : WorkOutcome F) (m : Materialized F)
      → IsTagged cache
      → materialize_job_result pol b cand cache stats out ≡ some m
      → IsTagged m.cache
  materialize_job_result-IsTagged cand cache stats out m tagged e =
      subst (OnSome (λ q. IsTagged q.cache)) e
        (materialize_job_result-tags cand cache stats out tagged)
