-- ===== src/Engine/Run/Orderly.antt =====
-- The store of candidates is in order at every round.
use Prim.Native.Nat.{min}
use imads.Prelude.{
  ℕ, zero, suc, ◌+◌, ◌≡◌, ap, subst, ◌∙◌, not, ◌&&◌, Option, none, some, List, [], ◌∷◌, leb, ◌==◌,
  if_both, length, take, All, All-map, Any, here, there, All-sort_by,
}
use imads.Float.{Float}
use imads.Types.{XMesh, WorkItem, WorkOutcome}
use imads.Margin.{Thresholds}
use imads.Mesh.{AnisotropicMeshGeometry}
use imads.Calibrator.{CalibEvent}
use imads.Executor.{Caches}
use imads.Cache.{get}
use imads.Cache.Keys.{nat_key}
use imads.Engine.Store.{Store}
use imads.Engine.Store.Placed.{IsPlaced, IsKnown, push_all-IsPlaced}
use imads.Engine.Ready.{ReadyCandidateView, make_ready_view}
use imads.Engine.State.{Bundle, RunEnv, RunState, OnePerItem, IsExecutor}
use imads.Engine.Batches.{
  by_candidate, counted, process_all, after_update, at_boundary, complete_batch,
}
use imads.Engine.Run.{
  Turn, again, done, panicked, hung, Ending, ended, crashed, waiting, out_of_fuel, inject_poll,
  poll_around, after_batch, returned, with_outcomes, send_picked, pick, exec_ctx, when_exhausted,
  execute_picked, run_picked, when_ready, turn, turns,
}
use imads.Engine.Run.Sent.{Sends, send_all-Sends}
use imads.Engine.Run.Found.{KeepsAfter, AllFound, process_all-AllFound}

module _ {F C D S : Type 0} where
  -- Of a state that there may be, the store is in order.
  abbrev pub PlacedAfter : Option (RunState F C D S) → Type 0
  PlacedAfter none = Unit
  PlacedAfter (some s) = IsPlaced s.store

  abbrev pub TurnPlaced : Turn (RunState F C D S) → Type 0
  TurnPlaced (again s) = IsPlaced s.store
  TurnPlaced (done s) = IsPlaced s.store
  TurnPlaced panicked = Unit
  TurnPlaced hung = Unit

  abbrev pub EndPlaced : Ending (RunState F C D S) → Type 0
  EndPlaced (ended s) = IsPlaced s.store
  EndPlaced crashed = Unit
  EndPlaced waiting = Unit
  EndPlaced out_of_fuel = Unit

All-from_Any :
    {A : Type 0} (P : A → Type 0) (items : List A) (x : A)
    → All P items
    → Any (λ i. i ≡ x) items
    → P x
All-from_Any P [] x h a = elim a [ ]
All-from_Any P (i ∷ items) x h (here e) = subst P e h.0
All-from_Any P (i ∷ items) x h (there a) = All-from_Any P items x h.1 a

module _ {F C D S : Type 0} ⦃d : Float F⦄ (bundle : Bundle F C D S) (env : RunEnv F) where
  after_update-Placed :
      (s : RunState F C D S) (outcomes : List (WorkOutcome F)) (u : Option (C × ℕ))
      → IsPlaced s.store
      → PlacedAfter (after_update bundle env s outcomes u)
  after_update-Placed s outcomes none placed = tt
  after_update-Placed s outcomes (some (calibrator, delta)) placed = placed

  at_boundary-Placed :
      (s : RunState F C D S) (outcomes : List (WorkOutcome F))
      (r : Option (RunState F C D S × List (CalibEvent F)))
      → KeepsAfter s r
      → PlacedAfter (at_boundary bundle env outcomes r)
  at_boundary-Placed s outcomes none h = tt
  at_boundary-Placed s outcomes (some (s1, events)) h = after_update-Placed s1 outcomes _ h.placed

  after_batch-Placed :
      (stopped : RunState F C D S) (items : List WorkItem) (r : Option (RunState F C D S))
      → IsPlaced stopped.store
      → PlacedAfter r
      → TurnPlaced (after_batch stopped items r)
  after_batch-Placed stopped [] r placed h = placed
  after_batch-Placed stopped (item ∷ items) none placed h = tt
  after_batch-Placed stopped (item ∷ items) (some s) placed h = h

  poll_around-Placed :
      (geo : AnisotropicMeshGeometry F) (s : RunState F C D S) (center : Option XMesh)
      → IsPlaced s.store
      → TurnPlaced (poll_around env geo s center)
  unfolding inject_poll
  poll_around-Placed geo s none placed = placed
  poll_around-Placed geo s (some center) placed =
      if_both TurnPlaced (not s.poll_generated && not s.iter_improved)
        (again (inject_poll env geo s center)) (done s) (λ _. push_all-IsPlaced s.store _ placed)
        (λ _. placed)

  -- Of a batch that has returned: every outcome finds its candidate, and the store stays in order.
  abbrev OutcomesFound :
      Thresholds F → Option (RunState F C D S × List WorkItem × List (WorkOutcome F)) → Type 0
  OutcomesFound th none = Unit
  OutcomesFound th (some (sent, work, outcomes)) =
      let sorted = by_candidate outcomes in
      AllFound bundle env th (counted env sent sorted) sorted
      × KeepsAfter (counted env sent sorted)
          (process_all bundle env th (counted env sent sorted) sorted)

  returned-OutcomesFound :
      (th : Thresholds F) (s : RunState F C D S) (store : Store F) (work : List WorkItem)
      (r : Option (List (WorkOutcome F) × Caches F))
      → Sends s.store (store, work)
      → OnePerItem work r
      → OutcomesFound th (returned s store work r)
  returned-OutcomesFound th s store work none sends h = tt
  returned-OutcomesFound th s store work (some (outcomes, caches)) sends h =
      let sent : RunState F C D S = record s {
        store = store;
        caches = caches;
        batch_no = s.batch_no + 1;
      } in
      let sorted = by_candidate outcomes in
      let known =
        All-map (λ item k. (k.0, ap (λ m. get m item.cand_id) sends.same_index ∙ k.1)) work
          sends.known in
      process_all-AllFound bundle env th (counted env sent sorted) sorted sends.placed (
        All-sort_by (λ out. IsKnown store out.item.cand_id)
          (λ a b. leb a.item.cand_id b.item.cand_id) outcomes
          (All-map
            (λ out a. All-from_Any (λ item. IsKnown store item.cand_id) work out.item known a)
            outcomes h.1))

  abbrev PlacedSent : Option (RunState F C D S × List WorkItem × List (WorkOutcome F)) → Type 0
  PlacedSent none = Unit
  PlacedSent (some (sent, work, outcomes)) = IsPlaced sent.store

  returned-Placed :
      (s : RunState F C D S) (store : Store F) (work : List WorkItem)
      (r : Option (List (WorkOutcome F) × Caches F))
      → IsPlaced store
      → PlacedSent (returned s store work r)
  returned-Placed s store work none placed = tt
  returned-Placed s store work (some (outcomes, caches)) placed = placed

  with_outcomes-Placed :
      (th : Thresholds F) (r : Option (RunState F C D S × List WorkItem × List (WorkOutcome F)))
      → OutcomesFound th r
      → PlacedSent r
      → TurnPlaced (with_outcomes bundle env th r)
  unfolding complete_batch
  with_outcomes-Placed th none h placed = tt
  with_outcomes-Placed th (some (sent, work, outcomes)) h placed =
      after_batch-Placed sent work _ placed (
        at_boundary-Placed (counted env sent (by_candidate outcomes)) (by_candidate outcomes) _ h.1)

  module _ (executes : IsExecutor bundle) (s : RunState F C D S) (picked : List ℕ)
      (placed : IsPlaced s.store) where
    sent-Sends : Sends s.store (send_picked env s picked)
    sent-Sends =
        send_all-Sends env s s.store
          (take (min (min (length picked) env.boundary) s.steps_left) picked) placed

    execute_picked-OutcomesFound :
        (th : Thresholds F) → OutcomesFound th (execute_picked bundle env s picked)
    unfolding execute_picked
    execute_picked-OutcomesFound th =
        let (store, work) = send_picked env s picked in
        returned-OutcomesFound th s store work _ sent-Sends
          (executes s.batch_no s.chunk_base (exec_ctx bundle env) s.caches work)

    -- In a round that starts with a store in order, with an executor that gives as many outcomes as
    -- there are items, each of one of them, and whatever the other policies do: when the batch
    -- returns, every outcome finds its candidate when its turn comes, under its own id, so that the
    -- lookup of a completed candidate does not panic.
    pub execute_picked-AllFound :
        (th : Thresholds F) (sent : RunState F C D S) (work : List WorkItem)
        (outcomes : List (WorkOutcome F))
        → execute_picked bundle env s picked ≡ some (sent, work, outcomes)
        → AllFound bundle env th (counted env sent (by_candidate outcomes)) (by_candidate outcomes)
    execute_picked-AllFound th sent work outcomes e =
        (subst (OutcomesFound th) e (execute_picked-OutcomesFound th)).0

    run_picked-Placed : TurnPlaced (run_picked bundle env s picked)
    unfolding run_picked execute_picked
    run_picked-Placed =
        let (store, work) = send_picked env s picked in
        let th = bundle.thresholds (bundle.calib_state s.calibrator) in
        if_both TurnPlaced (length work == 0) (done (record s { store = store }))
          (with_outcomes bundle env th (execute_picked bundle env s picked))
          (λ _. sent-Sends.placed)
          (λ _.
            with_outcomes-Placed th _ (execute_picked-OutcomesFound th)
              (returned-Placed s store work _ sent-Sends.placed))

  module _ (executes : IsExecutor bundle) where
    pick-Placed :
        (s : RunState F C D S) (sorted : Option (List (ReadyCandidateView F)))
        → IsPlaced s.store
        → TurnPlaced (pick bundle env s sorted)
    pick-Placed s none placed = tt
    pick-Placed s (some sorted) placed =
        let (scheduler, picked) = bundle.next_picks s.scheduler sorted in
        let s1 : RunState F C D S = record s { scheduler = scheduler } in
        if_both TurnPlaced (length picked == 0) (done s1) (run_picked bundle env s1 picked)
          (λ _. placed) (λ _. run_picked-Placed executes s1 picked placed)

    turn-Placed :
        (geo : AnisotropicMeshGeometry F) (s : RunState F C D S)
        → IsPlaced s.store
        → TurnPlaced (turn bundle env geo s)
    unfolding turn when_ready when_exhausted
    turn-Placed geo s placed =
        let th = bundle.thresholds (bundle.calib_state s.calibrator) in
        let view = make_ready_view bundle.policies th env.iter s.store.cands in
        if_both TurnPlaced (s.steps_left == 0) _ _ (λ _. placed)
          (λ _.
            if_both TurnPlaced (length view == 0) _ _
              (λ _. poll_around-Placed geo s s.x_best placed) (λ _. pick-Placed s _ placed))

    pub turns-Placed :
        (geo : AnisotropicMeshGeometry F) (fuel : ℕ) (s : RunState F C D S)
        → IsPlaced s.store
        → EndPlaced (turns fuel bundle env geo s)
    unfolding turns
    turns-Placed geo zero s placed = tt
    turns-Placed geo (suc fuel) s placed =
        elim (turn bundle env geo s)
            as (λ t.
              TurnPlaced t
              → EndPlaced (elim t [
                | again s' ↦ turns fuel bundle env geo s'
                | done s' ↦ ended s'
                | panicked ↦ crashed
                | hung ↦ waiting
              ])) [
                | again s' ↦ λ k. turns-Placed geo fuel s' k
                | done s' ↦ λ k. k
                | panicked ↦ λ k. tt
                | hung ↦ λ k. tt
              ]
          (turn-Placed geo s placed)
