-- ===== src/Engine/Materialize/Stops.antt =====
-- A stop by the incumbent, and what the decision cache makes of it.
use imads.Prelude.{◌+◌, ◌<◌, ◌≡◌, refl, true, false, arith, length, leb}
use imads.Float.{Float}
use imads.Types.{Estimates, EvalMeta, CandidateStageState, WorkItem, ready, done_stopped_partial}
use imads.Engine.Candidate.{Policies, Batch, apply_state_transition_from_result, go_on}
use imads.Engine.Steps.{use_cached, is_hopeless, stop_or_go_on}

module _ {F : Type 0} ⦃d : Float F⦄ where
  -- Before the last step, a candidate that the incumbent stops is done, but the result that is
  -- remembered of it makes a candidate that hits it ready for another step.
  pub use_cached-stop_or_go_on :
      (pol : Policies F) (b : Batch F) (cand other : CandidateStageState F) (item : WorkItem)
      (est : Estimates F) (meta : EvalMeta F)
      → item.phi_idx + 1 < length b.ladder
      → is_hopeless pol b cand item est ≡ true
      → let (stopped, job) = stop_or_go_on pol b cand item est meta in
        (stopped.status ≡ done_stopped_partial item.phi_idx)
        × ((use_cached pol b other item job.result).0.status ≡ ready)
  unfolding use_cached stop_or_go_on apply_state_transition_from_result go_on
  use_cached-stop_or_go_on pol b cand other item est meta lt hopeless =
      let on : leb (length b.ladder) (item.phi_idx + 1) ≡ false = ground arith in
      (
        rw (stop_or_go_on, hopeless) refl,
        rw (stop_or_go_on, hopeless, use_cached, apply_state_transition_from_result, on) refl,
      )
