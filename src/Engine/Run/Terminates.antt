-- ===== src/Engine/Run/Terminates.antt =====
-- The rounds of an iteration come to an end: a round that leads to another one injects the poll
-- points, once, or uses steps.
use imads.Prelude.{
  ℕ, zero, suc, ◌+◌, ◌≤◌, ◌<◌, ◌≢◌, refl, not, Option, none, some, List, [], ◌∷◌, arith,
  if◌then◌else◌, ◌==◌, ◌&&◌, if_both, length, subst,
}
use imads.Float.{Float}
use imads.Types.{XMesh, WorkItem, WorkOutcome}
use imads.Mesh.{AnisotropicMeshGeometry}
use imads.Executor.{Caches}
use imads.Margin.{Thresholds}
use imads.Engine.Store.{Store}
use imads.Engine.Ready.{ReadyCandidateView, make_ready_view}
use imads.Engine.State.{Bundle, RunEnv, RunState, OnePerItem, IsExecutor, AlwaysReturns}
use imads.Engine.Batches.{complete_batch}
use imads.Engine.Run.{
  Turn, again, done, panicked, hung, ended, crashed, waiting, Halts, inject_poll, poll_around,
  after_batch, returned, with_outcomes, send_picked, pick, when_exhausted, execute_picked,
  run_picked, when_ready, turn, turns,
}
use imads.Engine.Run.Uses.{Uses, Uses-same, complete_batch-Uses}

module _ {F C D S : Type 0} where
  -- The rounds that can still lead to another one.
  abbrev pub rounds_left : RunState F C D S → ℕ
  rounds_left s = s.steps_left + (if s.poll_generated then 0 else 1)

module _ {F C D S : Type 0} ⦃d : Float F⦄ (bundle : Bundle F C D S) (env : RunEnv F) where
  -- A round that leads to another one leaves fewer rounds, and none waits for ever.
  Progress : RunState F C D S → Turn (RunState F C D S) → Type 0
  Progress s (again s') = rounds_left s' < rounds_left s
  Progress s (done s') = Unit
  Progress s panicked = Unit
  Progress s hung = ⊥

  after_batch-Progress :
      (s stopped : RunState F C D S) (items : List WorkItem) (r : Option (RunState F C D S))
      → 1 ≤ s.steps_left
      → Uses (length items) s r
      → Progress s (after_batch stopped items r)
  unfolding Progress
  after_batch-Progress s stopped [] r some_left h = tt
  after_batch-Progress s stopped (item ∷ items) none some_left h = tt
  after_batch-Progress s stopped (item ∷ items) (some s') some_left h = rw (h.0, h.1) (omega arith)

  returned-Progress :
      (th : Thresholds F) (s : RunState F C D S) (store : Store F) (work : List WorkItem)
      (r : Option (List (WorkOutcome F) × Caches F))
      → 1 ≤ s.steps_left
      → OnePerItem work r
      → r ≢ none
      → Progress s (with_outcomes bundle env th (returned s store work r))
  returned-Progress th s store work none some_left h returns = absurd (returns refl)
  returned-Progress th s store work (some (outcomes, caches)) some_left h returns =
      let sent : RunState F C D S = record s {
        store = store;
        caches = caches;
        batch_no = s.batch_no + 1;
      } in
      let r = complete_batch bundle env th sent outcomes in
      after_batch-Progress s sent work r some_left (
        subst (λ n. Uses n s r) h.0
          (Uses-same bundle env (length outcomes) s sent r (refl, refl)
            (complete_batch-Uses bundle env th sent outcomes)))

  poll_around-Progress :
      (geo : AnisotropicMeshGeometry F) (s : RunState F C D S) (center : Option XMesh)
      → Progress s (poll_around env geo s center)
  unfolding Progress inject_poll
  poll_around-Progress geo s none = tt
  poll_around-Progress geo s (some center) =
      if_both (Progress s) (not s.poll_generated && not s.iter_improved)
        (again (inject_poll env geo s center)) (done s) (λ h. ground arith) (λ _. tt)

  module _ (executes : IsExecutor bundle) (returns : AlwaysReturns bundle) where
    run_picked-Progress :
        (s : RunState F C D S) (picked : List ℕ)
        → 1 ≤ s.steps_left
        → Progress s (run_picked bundle env s picked)
    unfolding run_picked Progress execute_picked
    run_picked-Progress s picked some_left =
        let (store, work) = send_picked env s picked in
        let th = bundle.thresholds (bundle.calib_state s.calibrator) in
        if_both (Progress s) (length work == 0) (done (record s { store = store }))
          (with_outcomes bundle env th (execute_picked bundle env s picked)) (λ _. tt)
          (λ _.
            returned-Progress th s store work _ some_left
              (executes s.batch_no s.chunk_base _ s.caches work)
              (returns s.batch_no s.chunk_base _ s.caches work))

    pick-Progress :
        (s : RunState F C D S) (sorted : Option (List (ReadyCandidateView F)))
        → 1 ≤ s.steps_left
        → Progress s (pick bundle env s sorted)
    unfolding Progress
    pick-Progress s none some_left = tt
    pick-Progress s (some sorted) some_left =
        let (scheduler, picked) = bundle.next_picks s.scheduler sorted in
        let s1 : RunState F C D S = record s { scheduler = scheduler } in
        if_both (Progress s) (length picked == 0) (done s1) (run_picked bundle env s1 picked)
          (λ _. tt) (λ _. run_picked-Progress s1 picked some_left)

    turn-Progress :
        (geo : AnisotropicMeshGeometry F) (s : RunState F C D S)
        → Progress s (turn bundle env geo s)
    unfolding turn Progress when_ready when_exhausted
    turn-Progress geo s =
        let th = bundle.thresholds (bundle.calib_state s.calibrator) in
        let view = make_ready_view bundle.policies th env.iter s.store.cands in
        if_both (Progress s) (s.steps_left == 0) _ _ (λ _. tt)
          (λ some_left.
            if_both (Progress s) (length view == 0) _ _ (λ _. poll_around-Progress geo s s.x_best)
              (λ _. pick-Progress s _ (ground arith)))

    -- Enough fuel for the rounds that are left: the loop comes to its end.
    pub turns-Halts :
        (geo : AnisotropicMeshGeometry F) (fuel : ℕ) (s : RunState F C D S)
        → rounds_left s < fuel
        → Halts (turns fuel bundle env geo s)
    unfolding turns Progress
    turns-Halts geo zero s h = absurd (omega arith)
    turns-Halts geo (suc fuel) s h =
        elim (turn bundle env geo s)
            as (λ t.
              Progress s t
              → Halts (elim t [
                | again s' ↦ turns fuel bundle env geo s'
                | done s' ↦ ended s'
                | panicked ↦ crashed
                | hung ↦ waiting
              ])) [
                | again s' ↦ λ k. turns-Halts geo fuel s' (omega arith)
                | done s' ↦ λ k. tt
                | panicked ↦ λ k. tt
                | hung ↦ λ k. k
              ]
          (turn-Progress geo s)
