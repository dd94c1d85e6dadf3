-- ===== src/Engine/Run/Found.antt =====
-- The outcomes of a batch find their candidates, and the store stays in order.
use imads.Prelude.{
  ℕ, ◌≡◌, refl, sym, ap, subst, ◌∙◌, inl, inr, Option-cases, Option, none, some, List, [], ◌∷◌, All,
  All-map,
}
use imads.Float.{Float}
use imads.Types.{
  XMesh, JobResult, rejected_cheap, rejected_invalid_eval, early_infeasible, partial, truth,
  WorkOutcome, CandidateStageState,
}
use imads.Acceptance.{AcceptanceState, TruthDecision, accept, reject, decide_truth}
use imads.Margin.{Thresholds, first_or}
use imads.Cache.{get}
use imads.Cache.Keys.{nat_key}
use imads.Calibrator.{CalibEvent}
use imads.Engine.Candidate.{Materialized}
use imads.Engine.Materialize.Identity.{SameId, materialize_job_result-SameId}
use imads.Engine.Store.{Store, find}
use imads.Engine.Store.Placed.{IsPlaced, IsKnown, find-IsPlaced, write-IsPlaced}
use imads.Engine.State.{Bundle, RunEnv, RunState}
use imads.Engine.Batches.{
  settle, completed, with_event, accept_truth, complete, process_one, process_all,
}
use imads.Engine.Run.Sent.{find-there}

module _ {F C D S : Type 0} where
  -- The store is in order, and its index is that of `s`.
  pub record Keeps (s s' : RunState F C D S) : Type 0 where
    pub placed : IsPlaced s'.store
    pub same_index : s'.store.index ≡ s.store.index

  abbrev pub KeepsAfter : {E : Type 0} → RunState F C D S → Option (RunState F C D S × E) → Type 0
  KeepsAfter s none = Unit
  KeepsAfter s (some (s', ev)) = Keeps s s'

module _ {F C D S : Type 0} ⦃d : Float F⦄ (bundle : Bundle F C D S) (env : RunEnv F) where
  settle-store :
      (s : RunState F C D S) (x : XMesh) (f : List F) (v : AcceptanceState F × TruthDecision)
      → (settle s x f v).store ≡ s.store
  settle-store s x f (acc, accept) = refl
  settle-store s x f (acc, reject) = refl

  accept_truth-store :
      (s : RunState F C D S) (x : XMesh) (r : JobResult F)
      → (accept_truth env s x r).store ≡ s.store
  unfolding accept_truth
  accept_truth-store s x (truth f c feasible v meta) =
      settle-store s x f (decide_truth env.accept_cfg s.accept (first_or f d.infinity) v)
  accept_truth-store s x (rejected_cheap meta) = refl
  accept_truth-store s x (rejected_invalid_eval meta) = refl
  accept_truth-store s x (early_infeasible j est meta) = refl
  accept_truth-store s x (partial est meta) = refl

  completed-KeepsAfter :
      (s : RunState F C D S) (out : WorkOutcome F) (place : ℕ) (cand : CandidateStageState F)
      (m : Option (Materialized F))
      → IsPlaced s.store
      → find s.store out.item.cand_id ≡ some (place, cand)
      → SameId cand m
      → KeepsAfter s (completed bundle env s out place m)
  unfolding complete
  completed-KeepsAfter s out place cand none placed e h = tt
  completed-KeepsAfter s out place cand (some m) placed e same =
      let (_, there) = find-there s.store out.item.cand_id place cand e in
      let stored = accept_truth-store _ m.cand.x m.job.result in
      record {
        placed =
            subst IsPlaced (sym stored)
              (write-IsPlaced s.store place cand m.cand placed there same);
        same_index = ap (λ (t : Store F). t.index) stored;
      }

  -- The outcome's candidate is there, so `expect("candidate exists")` does not panic.
  pub record IsFound (s : RunState F C D S) (out : WorkOutcome F) : Type 0 where
    pub place : ℕ
    pub cand : CandidateStageState F
    pub finds : find s.store out.item.cand_id ≡ some (place, cand)
    pub same : cand.id ≡ out.item.cand_id

  process_one-KeepsAfter :
      (th : Thresholds F) (s : RunState F C D S) (out : WorkOutcome F)
      → IsPlaced s.store
      → IsFound s out
      → KeepsAfter s (process_one bundle env th s out)
  unfolding process_one
  process_one-KeepsAfter th s out placed found =
      rw (process_one, found.finds)
        (completed-KeepsAfter s out found.place found.cand _ placed found.finds
          (materialize_job_result-SameId _ _ found.cand _ _ out))

  with_event-KeepsAfter :
      (s s1 : RunState F C D S) (ev : CalibEvent F)
      (r : Option (RunState F C D S × List (CalibEvent F)))
      → Keeps s s1
      → KeepsAfter s1 r
      → KeepsAfter s (with_event ev r)
  with_event-KeepsAfter s s1 ev none h k = tt
  with_event-KeepsAfter s s1 ev (some (s2, evs)) h k = record {
    placed = k.placed;
    same_index = k.same_index ∙ h.same_index;
  }

  -- Each outcome finds its candidate when its turn comes, until one panics.
  pub data AllFound (th : Thresholds F) : RunState F C D S → List (WorkOutcome F) → Type 0 where
    all_done : {s : RunState F C D S} → AllFound th s []
    panics :
        {s : RunState F C D S} {out : WorkOutcome F} {outcomes : List (WorkOutcome F)}
        → IsFound s out
        → process_one bundle env th s out ≡ none
        → AllFound th s (out ∷ outcomes)
    goes_on :
        {s s1 : RunState F C D S} {out : WorkOutcome F} {outcomes : List (WorkOutcome F)}
        {ev : CalibEvent F}
        → IsFound s out
        → process_one bundle env th s out ≡ some (s1, ev)
        → AllFound th s1 outcomes
        → AllFound th s (out ∷ outcomes)

  abbrev pub AreKnown : RunState F C D S → List (WorkOutcome F) → Type 0
  AreKnown s = All (λ out. IsKnown s.store out.item.cand_id)

  IsFound-known :
      (s : RunState F C D S) (out : WorkOutcome F)
      → IsPlaced s.store
      → IsKnown s.store out.item.cand_id
      → IsFound s out
  IsFound-known s out placed known =
      let (place, cand, finds, same) = find-IsPlaced s.store out.item.cand_id placed known in
      record { place = place; cand = cand; finds = finds; same = same }

  known_after :
      (s s1 : RunState F C D S) (outcomes : List (WorkOutcome F))
      → Keeps s s1
      → AreKnown s outcomes
      → AreKnown s1 outcomes
  known_after s s1 outcomes kept known =
      All-map (λ out k. (k.0, ap (λ m. get m out.item.cand_id) kept.same_index ∙ k.1)) outcomes
        known

  -- From a store in order, outcomes of known candidates all find them.
  pub process_all-AllFound :
      (th : Thresholds F) (s : RunState F C D S) (outcomes : List (WorkOutcome F))
      → IsPlaced s.store
      → AreKnown s outcomes
      → AllFound th s outcomes × KeepsAfter s (process_all bundle env th s outcomes)
  unfolding process_all
  process_all-AllFound th s [] placed known =
      (all_done, record { placed = placed; same_index = refl })
  process_all-AllFound th s (out ∷ outcomes) placed known =
      let found = IsFound-known s out placed known.0 in
      let kept = process_one-KeepsAfter th s out placed found in
      elim (Option-cases (process_one bundle env th s out)) [
        | inl e ↦ (panics found e, rw (process_all, e) tt)
        | inr ((s1, ev), e) ↦
            let kept1 : Keeps s s1 = subst (KeepsAfter s) e kept in
            let (rest, after) =
              process_all-AllFound th s1 outcomes kept1.placed
                (known_after s s1 outcomes kept1 known.1) in
            (
              goes_on found e rest,
              rw (process_all, e) (with_event-KeepsAfter s s1 ev _ kept1 after),
            )
      ]
