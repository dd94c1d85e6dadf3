-- ===== src/Engine/Run/Uses.antt =====
-- A batch uses as many steps as it has outcomes, and does not touch the loop's other variables.
use imads.Prelude.{
  ℕ, ◌-◌, ◌≡◌, refl, ap, ◌∙◌, Option, none, some, List, [], ◌∷◌, leb, length, length-sort_by, subst,
}
use imads.Float.{Float}
use imads.Types.{
  XMesh, JobResult, rejected_cheap, rejected_invalid_eval, early_infeasible, partial, truth,
  WorkOutcome, CandidateStageState,
}
use imads.Acceptance.{AcceptanceState, TruthDecision, accept, reject, decide_truth}
use imads.Margin.{Thresholds, first_or}
use imads.Calibrator.{CalibEvent}
use imads.Engine.Candidate.{Materialized}
use imads.Engine.Store.{find}
use imads.Engine.State.{Bundle, RunEnv, RunState}
use imads.Engine.Batches.{
  by_candidate, settle, completed, process_found, with_event, accept_truth, complete, process_one,
  process_all, after_update, at_boundary, complete_batch, counted,
}

module _ {F C D S : Type 0} where
  -- The loop's variables are untouched.
  abbrev pub SameRound : RunState F C D S → RunState F C D S → Type 0
  SameRound s s' = (s'.steps_left ≡ s.steps_left) × (s'.poll_generated ≡ s.poll_generated)

  -- A batch of `n` outcomes has used `n` steps.
  abbrev pub Uses : ℕ → RunState F C D S → Option (RunState F C D S) → Type 0
  Uses n s none = Unit
  Uses n s (some s') = (s'.steps_left ≡ s.steps_left - n) × (s'.poll_generated ≡ s.poll_generated)

module _ {F C D S : Type 0} ⦃d : Float F⦄ (bundle : Bundle F C D S) (env : RunEnv F) where
  settle-SameRound :
      (s : RunState F C D S) (x : XMesh) (f : List F) (v : AcceptanceState F × TruthDecision)
      → SameRound s (settle s x f v)
  settle-SameRound s x f (acc, accept) = (refl, refl)
  settle-SameRound s x f (acc, reject) = (refl, refl)

  accept_truth-SameRound :
      (s : RunState F C D S) (x : XMesh) (r : JobResult F) → SameRound s (accept_truth env s x r)
  unfolding accept_truth
  accept_truth-SameRound s x (truth f c feasible v meta) =
      settle-SameRound s x f (decide_truth env.accept_cfg s.accept (first_or f d.infinity) v)
  accept_truth-SameRound s x (rejected_cheap meta) = (refl, refl)
  accept_truth-SameRound s x (rejected_invalid_eval meta) = (refl, refl)
  accept_truth-SameRound s x (early_infeasible j est meta) = (refl, refl)
  accept_truth-SameRound s x (partial est meta) = (refl, refl)

  complete-SameRound :
      (s : RunState F C D S) (out : WorkOutcome F) (place : ℕ) (m : Materialized F)
      → SameRound s (complete bundle env s out place m).0
  unfolding complete
  complete-SameRound s out place m = accept_truth-SameRound _ m.cand.x m.job.result

  -- What has not panicked leaves the loop's variables untouched.
  abbrev SameAfter {κ} : {E : Type κ} → RunState F C D S → Option (RunState F C D S × E) → Type 0
  SameAfter s none = Unit
  SameAfter s (some (s', ev)) = SameRound s s'

  completed-SameAfter :
      (s : RunState F C D S) (out : WorkOutcome F) (place : ℕ) (m : Option (Materialized F))
      → SameAfter s (completed bundle env s out place m)
  completed-SameAfter s out place none = tt
  completed-SameAfter s out place (some m) = complete-SameRound s out place m

  process_found-SameAfter :
      (th : Thresholds F) (s : RunState F C D S) (out : WorkOutcome F)
      (found : Option (ℕ × CandidateStageState F))
      → SameAfter s (process_found bundle env th s out found)
  process_found-SameAfter th s out none = tt
  process_found-SameAfter th s out (some (place, cand)) = completed-SameAfter s out place _

  process_one-SameAfter :
      (th : Thresholds F) (s : RunState F C D S) (out : WorkOutcome F)
      → SameAfter s (process_one bundle env th s out)
  unfolding process_one
  process_one-SameAfter th s out = process_found-SameAfter th s out (find s.store out.item.cand_id)

  with_event-SameAfter :
      (s : RunState F C D S) (ev : CalibEvent F)
      (r : Option (RunState F C D S × List (CalibEvent F)))
      → SameAfter s r
      → SameAfter s (with_event ev r)
  with_event-SameAfter s ev none h = tt
  with_event-SameAfter s ev (some (s', evs)) h = h

  SameAfter-trans {κ} :
      {E : Type κ} (s s1 : RunState F C D S) (r : Option (RunState F C D S × E))
      → SameRound s s1
      → SameAfter s1 r
      → SameAfter s r
  SameAfter-trans s s1 none h k = tt
  SameAfter-trans s s1 (some (s2, ev)) h k = (k.0 ∙ h.0, k.1 ∙ h.1)

  process_all-SameAfter :
      (th : Thresholds F) (s : RunState F C D S) (outcomes : List (WorkOutcome F))
      → SameAfter s (process_all bundle env th s outcomes)
  unfolding process_all
  process_all-SameAfter th s [] = (refl, refl)
  process_all-SameAfter th s (out ∷ outcomes) =
      elim (process_one bundle env th s out)
          as (λ r.
            SameAfter s r
            → SameAfter s (elim r [
              | none ↦ none
              | some (s1, ev) ↦ with_event ev (process_all bundle env th s1 outcomes)
            ])) [
              | none ↦ λ h. tt
              | some (s1, ev) ↦ λ h.
                  with_event-SameAfter s ev _
                    (SameAfter-trans s s1 _ h (process_all-SameAfter th s1 outcomes))
            ]
        (process_one-SameAfter th s out)

  after_update-Uses :
      (s : RunState F C D S) (outcomes : List (WorkOutcome F)) (u : Option (C × ℕ))
      → Uses (length outcomes) s (after_update bundle env s outcomes u)
  after_update-Uses s outcomes none = tt
  after_update-Uses s outcomes (some (calibrator, delta)) = (refl, refl)

  pub Uses-same :
      (n : ℕ) (s s1 : RunState F C D S) (r : Option (RunState F C D S))
      → SameRound s s1
      → Uses n s1 r
      → Uses n s r
  Uses-same n s s1 none h k = tt
  Uses-same n s s1 (some s2) h k = (k.0 ∙ ap (λ m. m - n) h.0, k.1 ∙ h.1)

  at_boundary-Uses :
      (s : RunState F C D S) (outcomes : List (WorkOutcome F))
      (r : Option (RunState F C D S × List (CalibEvent F)))
      → SameAfter s r
      → Uses (length outcomes) s (at_boundary bundle env outcomes r)
  at_boundary-Uses s outcomes none h = tt
  at_boundary-Uses s outcomes (some (s1, events)) h =
      Uses-same (length outcomes) s s1 _ h (after_update-Uses s1 outcomes _)

  pub complete_batch-Uses :
      (th : Thresholds F) (s : RunState F C D S) (outcomes : List (WorkOutcome F))
      → Uses (length outcomes) s (complete_batch bundle env th s outcomes)
  unfolding complete_batch
  complete_batch-Uses th s outcomes =
      let sorted = by_candidate outcomes in
      subst (λ n. Uses n s (complete_batch bundle env th s outcomes))
        (length-sort_by (λ a b. leb a.item.cand_id b.item.cand_id) outcomes)
        (Uses-same (length sorted) s (counted env s sorted) _ (refl, refl)
          (at_boundary-Uses (counted env s sorted) sorted _
            (process_all-SameAfter th (counted env s sorted) sorted)))
