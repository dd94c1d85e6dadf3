-- ===== src/Engine/Dispatch/Bounded.antt =====
-- A candidate is dispatched at most once for each step of the ladder that it has left.
use imads.Prelude.{
  ℕ, zero, suc, ◌-◌, ◌≤◌, ◌<◌, ◌≡◌, refl, sym, ap, ◌∙◌, subst, inl, inr, true, false, Option, none,
  some, List, [], ◌∷◌, arith, length, get_elem?,
}
use mathlib.Core.Option.{some-injective}
use imads.Float.{Float}
use imads.Types.{
  Phi, CandidateStageState, CandidateStatus, WorkItem, WorkOutcome, ready, in_flight,
  done_rejected_cheap, done_rejected_invalid_eval, done_early_infeasible, done_stopped_partial,
  done_truth,
}
use imads.Evaluator.Finite.{OnSome}
use imads.Engine.Audit.Visits.{FromLadder}
use imads.Engine.Candidate.{Policies, Batch, DecisionCache, EngineStats, Materialized}
use imads.Engine.Materialize.{materialize_job_result}
use imads.Engine.Materialize.Advances.{Advances, is_done}
use imads.Engine.Materialize.Outcomes.{IsUsable, materialize_job_result-Advances}
use imads.Engine.Dispatch.{dispatch, sent}

get_elem?-lt : (ladder : List Phi) (i : ℕ) → OnSome (λ p. i < length ladder) (get_elem? ladder i)
get_elem?-lt [] i = tt
get_elem?-lt (p ∷ ps) zero = omega arith
get_elem?-lt (p ∷ ps) (suc i) = above (get_elem? ps i) (get_elem?-lt ps i)
  where
    above :
        (o : Option Phi) → OnSome (λ q. i < length ps) o → OnSome (λ q. suc i < suc (length ps)) o
    above none h = tt
    above (some q) h = omega (arith, h)

module _ {F : Type 0} ⦃d : Float F⦄ (ladder : List Phi) where
  -- What a dispatch says of its candidate.
  record Dispatched (cand c1 : CandidateStageState F) (item : WorkItem) : Type 0 where
    is_ready : is_done cand.status ≡ false
    step : item.phi_idx ≡ cand.next_phi_idx
    within : cand.next_phi_idx < length ladder
    origin : c1.audit_origin ≡ cand.audit_origin

  dispatch-Dispatched :
      (env_rev policy_rev incumbent_id : ℕ) (cand : CandidateStageState F)
      → OnSome (λ r. Dispatched cand r.0 r.1) (dispatch ladder env_rev policy_rev incumbent_id cand)
  unfolding dispatch
  dispatch-Dispatched env_rev policy_rev incumbent_id cand =
      on_status cand.status refl (get_elem? ladder cand.next_phi_idx)
        (get_elem?-lt ladder cand.next_phi_idx)
    where
      on_status :
          (s : CandidateStatus)
          → cand.status ≡ s
          → (o : Option Phi) → OnSome (λ p. cand.next_phi_idx < length ladder) o
          → OnSome
              (λ r. Dispatched cand r.0 r.1)
              (elim s [
                | ready ↦ elim o [
                  | none ↦ none
                  | some phi ↦ some (sent env_rev policy_rev incumbent_id cand phi)
                ]
                | _ ↦ none
              ])
      on_status ready e none h = tt
      on_status ready e (some phi) h = record {
        is_ready = ap is_done e;
        step = refl;
        within = h;
        origin = refl;
      }
      on_status (in_flight i) e o h = tt
      on_status done_rejected_cheap e o h = tt
      on_status done_rejected_invalid_eval e o h = tt
      on_status (done_early_infeasible j i) e o h = tt
      on_status (done_stopped_partial i) e o h = tt
      on_status done_truth e o h = tt

  -- `n` rounds of one candidate: each dispatches it and materialises an outcome of the item that
  -- brings a cached decision of its step or estimates.
  -- Policies, caches and statistics may be others in each round.
  pub data Rounds : ℕ → CandidateStageState F → CandidateStageState F → Type 0 where
    rest : {c : CandidateStageState F} → Rounds 0 c c
    round :
        {n : ℕ} {c c1 c' : CandidateStageState F} {item : WorkItem} (pol : Policies F) (b : Batch F)
        (env_rev incumbent_id : ℕ) (cache : DecisionCache F) (stats : EngineStats)
        (out : WorkOutcome F) (m : Materialized F)
        → b.ladder ≡ ladder
        → dispatch ladder env_rev b.policy_rev incumbent_id c ≡ some (c1, item)
        → out.item ≡ item
        → IsUsable pol b out.item out.cached_decision out.estimates
        → materialize_job_result pol b c1 cache stats out ≡ some m
        → Rounds n m.cand c'
        → Rounds (suc n) c c'

  dispatched :
      (env_rev policy_rev incumbent_id : ℕ) (c c1 : CandidateStageState F) (item : WorkItem)
      → dispatch ladder env_rev policy_rev incumbent_id c ≡ some (c1, item)
      → Dispatched c c1 item
  dispatched env_rev policy_rev incumbent_id c c1 item h =
      subst (OnSome (λ r. Dispatched c r.0 r.1)) h
        (dispatch-Dispatched env_rev policy_rev incumbent_id c)

  Rounds-done :
      {n : ℕ} {c c' : CandidateStageState F} → is_done c.status ≡ true → Rounds n c c' → n ≡ 0
  Rounds-done h rest = refl
  Rounds-done h (round pol b env_rev incumbent_id cache stats out m same went named usable e more) =
      let s = dispatched env_rev b.policy_rev incumbent_id _ _ _ went in absurd (ground arith)

  -- What one round does.
  round-Advances :
      (pol : Policies F) (b : Batch F) (c c1 : CandidateStageState F) (item : WorkItem)
      (cache : DecisionCache F) (stats : EngineStats) (out : WorkOutcome F) (m : Materialized F)
      → b.ladder ≡ ladder
      → Dispatched c c1 item
      → out.item ≡ item
      → IsUsable pol b out.item out.cached_decision out.estimates
      → materialize_job_result pol b c1 cache stats out ≡ some m
      → FromLadder ladder c.audit_origin
      → Advances ladder c.next_phi_idx c1 m.cand
  round-Advances pol b c c1 item cache stats out m same s named usable e from =
      let at : out.item.phi_idx ≡ c.next_phi_idx = ap (λ i. i.phi_idx) named ∙ s.step in
      let from1 : FromLadder b.ladder c1.audit_origin =
        subst (λ l. FromLadder l c1.audit_origin) (sym same)
          (subst (FromLadder ladder) (sym s.origin) from) in
      let lt : out.item.phi_idx < length b.ladder =
        subst (λ i. i < length b.ladder) (sym at)
          (subst (λ l. c.next_phi_idx < length l) (sym same) s.within) in
      let (m', e', adv) =
        materialize_job_result-Advances pol b c1 cache stats out from1 lt usable in
      let adv_m : Advances b.ladder out.item.phi_idx c1 m.cand =
        subst (λ q. Advances b.ladder out.item.phi_idx c1 q.cand) (some-injective _ _ (sym e' ∙ e))
          adv in
      subst (λ i. Advances ladder i c1 m.cand) at
        (subst (λ l. Advances l out.item.phi_idx c1 m.cand) same adv_m)

  -- A candidate at step `i` of the ladder, whose audit checkpoints, if any, are those of the
  -- ladder, goes through at most `length ladder - i` rounds, provided that in every round the
  -- outcome's cached decision is one that its step can have (a truth result on the last step, a
  -- partial or early infeasible one before it, or a reject), or that it has none and has estimates.
  -- The policies, the caches and the statistics may be others in each round.
  pub Rounds-bound :
      {n : ℕ} {c c' : CandidateStageState F}
      → FromLadder ladder c.audit_origin
      → Rounds n c c'
      → n ≤ length ladder - c.next_phi_idx
  Rounds-bound from rest = omega arith
  Rounds-bound from
        (round pol b env_rev incumbent_id cache stats out m same went named usable e more) =
      let s = dispatched env_rev b.policy_rev incumbent_id _ _ _ went in
      let adv = round-Advances pol b _ _ _ cache stats out m same s named usable e from in
      let within = s.within in
      elim adv.moves [
        | inl done ↦ let none_left = Rounds-done done more in omega arith
        | inr (_, later, inside) ↦ let left = Rounds-bound adv.keeps.origin more in omega arith
      ]
