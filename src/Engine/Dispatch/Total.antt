-- ===== src/Engine/Dispatch/Total.antt =====
-- Executor and engine together do not panic.
use imads.Prelude.{◌<◌, ◌≡◌, sym, subst, Option, none, some, arith, length}
use imads.Float.{Float}
use imads.Types.{
  Estimates, JobResult, rejected_cheap, rejected_invalid_eval, early_infeasible, partial, truth,
  CandidateStageState, WorkItem,
}
use imads.Executor.{ExecCtx, Caches, step_tag, execute_one}
use imads.Executor.Outcomes.{TagFits, IsTagged, IsCoherent, Usable, execute_one-Sound}
use imads.Engine.Audit.Visits.{FromLadder}
use imads.Engine.Candidate.{Policies, Batch, EngineStats, Materialized}
use imads.Engine.Materialize.{materialize_job_result}
use imads.Engine.Materialize.Advances.{Advances, Fits}
use imads.Engine.Materialize.Outcomes.{IsUsable, materialize_job_result-Advances}

module _ {F : Type 0} ⦃d : Float F⦄ (pol : Policies F) (b : Batch F) where
  TagFits-Fits :
      (ctx : ExecCtx F) (item : WorkItem) (r : JobResult F)
      → ctx.ladder_len ≡ length b.ladder
      → TagFits (step_tag ctx item) r
      → Fits b item r
  TagFits-Fits ctx item (rejected_cheap meta) same h = tt
  TagFits-Fits ctx item (rejected_invalid_eval meta) same h = tt
  TagFits-Fits ctx item (early_infeasible j est meta) same h = ground arith
  TagFits-Fits ctx item (partial est meta) same h = ground arith
  TagFits-Fits ctx item (truth f c feasible v meta) same h = ground arith

  Usable-IsUsable :
      (ctx : ExecCtx F) (item : WorkItem) (c : Option (JobResult F)) (e : Option (Estimates F))
      → ctx.ladder_len ≡ length b.ladder
      → Usable (step_tag ctx item) c e
      → IsUsable pol b item c e
  Usable-IsUsable ctx item (some r) e same h = TagFits-Fits ctx item r same h
  Usable-IsUsable ctx item none (some est) same h = tt
  Usable-IsUsable ctx item none none same h = h

  -- For a work item at a step of the ladder, executor and engine return without a panic, if the two
  -- agree on the length of the ladder, the decisions in the cache are of the kinds of their tags,
  -- the estimates in the cache are evaluations and the candidate's audit checkpoints are those of
  -- the ladder. The candidate is then done, or ready for a later step.
  pub execute_one_materializes :
      (ctx : ExecCtx F) (s : Caches F) (wi : WorkItem) (cand : CandidateStageState F)
      (stats : EngineStats)
      → ctx.ladder_len ≡ length b.ladder
      → wi.phi_idx < length b.ladder
      → IsTagged s.decision
      → IsCoherent ctx s.eval
      → FromLadder b.ladder cand.audit_origin
      → let (out, s') = execute_one ctx s wi in
        (m : Materialized F) × (materialize_job_result pol b cand s'.decision stats out ≡ some m)
        × Advances b.ladder wi.phi_idx cand m.cand
  execute_one_materializes ctx s wi cand stats same lt tagged coherent from =
      let sound = execute_one-Sound ctx s wi tagged coherent in
      let (out, s') = execute_one ctx s wi in
      let lt' : out.item.phi_idx < length b.ladder =
        subst (λ i. i.phi_idx < length b.ladder) (sym sound.item) lt in
      let usable : Usable (step_tag ctx out.item) out.cached_decision out.estimates =
        subst (λ i. Usable (step_tag ctx i) out.cached_decision out.estimates) (sym sound.item)
          sound.usable in
      let (m, e, adv) =
        materialize_job_result-Advances pol b cand s'.decision stats out from lt'
          (Usable-IsUsable ctx out.item out.cached_decision out.estimates same usable) in
      (m, e, subst (λ i. Advances b.ladder i.phi_idx cand m.cand) sound.item adv)
