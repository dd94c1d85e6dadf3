-- ===== src/Engine/Run.antt =====
-- The main loop of `Engine::run_with_evaluator`: iterations, and the rounds of an iteration.
pub mod Uses
pub mod Terminates
pub mod Sent
pub mod Found
pub mod Orderly
use Prim.Native.Nat.{min, max}
use imads.Prelude.{
  ℕ, zero, suc, ◌+◌, ◌-◌, ◌*◌, ◌^◌, Bool, true, false, not, ◌&&◌, Option, none, some, List, [], ◌∷◌,
  leb, ◌==◌, if◌then◌else◌, length, take, get_or, replicate,
}
use imads.Prelude.Int.{pos}
use imads.Float.{Float}
use imads.Types.{XMesh, Phi, CandidateStageState, WorkItem, WorkOutcome}
use imads.Acceptance.{AcceptanceConfig, AcceptanceState, AcceptanceState_new, on_iteration_end}
use imads.Mesh.{AnisotropicMeshGeometry, refine_aniso, poll_step_units_aniso}
use imads.Poll.{generate_points_aniso}
use imads.Config.{EngineConfig}
use imads.Executor.{ExecCtx, Caches}
use imads.Margin.{Thresholds}
use imads.Engine.Candidate.{EngineStats}
use imads.Engine.Dispatch.{dispatch}
use imads.Engine.Start.{resolved_dim}
use imads.Engine.Store.{Store, new_candidate, push_all, find, write}
use imads.Engine.Ready.{ReadyCandidateView, make_ready_view, sort_scored}
use imads.Engine.State.{Bundle, RunEnv, RunState}
use imads.Engine.Batches.{complete_batch}

-- A poll point's id has the high bit, the iteration and the point's number; these bits do not
-- overlap for fewer than 2 ^ 32 points and 2 ^ 31 iterations.
abbrev pub poll_id : ℕ → ℕ → ℕ
poll_id iter n = 2 ^ 63 + iter * 2 ^ 32 + n

module _ {F C D S : Type 0} where
  -- The picked candidates go in flight, each with a work item; one that is not known, not ready or
  -- past the ladder is passed over.
  unfoldable pub send_all : RunEnv F → RunState F C D S → Store F → List ℕ → Store F × List WorkItem
  send_all env s store [] = (store, [])
  send_all env s store (id ∷ ids) = elim (find store id) [
    | none ↦ send_all env s store ids
    | some (place, cand) ↦ elim (dispatch env.ladder env.env_rev s.policy_rev s.incumbent_id cand) [
      | none ↦ send_all env s store ids
      | some (cand', item) ↦
          let (store', items) = send_all env s (write store place cand') ids in
          (store', item ∷ items)
    ]
  ]

module _ {F C D S : Type 0} ⦃d : Float F⦄ where
  abbrev pub poll_candidates :
      RunEnv F → RunState F C D S → ℕ → List XMesh → List (CandidateStageState F)
  poll_candidates env s n [] = []
  poll_candidates env s n (x ∷ points) =
      new_candidate (poll_id env.iter n) x d.infinity env.iter s.policy_rev s.incumbent_id
      ∷ poll_candidates env s (n + 1) points

  -- The poll points around the incumbent enter the store.
  unfoldable pub inject_poll :
      RunEnv F → AnisotropicMeshGeometry F → RunState F C D S → XMesh → RunState F C D S
  inject_poll env geo s center =
      let points = generate_points_aniso center (poll_step_units_aniso geo) in
      record s { store = push_all s.store (poll_candidates env s 0 points); poll_generated = true }

  abbrev pub exec_ctx : Bundle F C D S → RunEnv F → ExecCtx F
  exec_ctx bundle env = record {
    evaluator = bundle.policies.evaluator;
    is_valid_number = bundle.policies.is_valid_number;
    ladder_len = length env.ladder;
    base_steps = env.base_steps;
  }

-- What a round leads to: another round, the end of the iteration, a panic, or a wait for a batch that
-- does not return.
pub data Turn (A : Type 0) : Type 0 where
  again done : A → Turn A
  panicked hung : Turn A

module _ {F C D S : Type 0} ⦃d : Float F⦄ where
  -- Nothing is ready: the poll points are injected, once in an iteration that has not improved.
  abbrev pub poll_around :
      RunEnv F
      → AnisotropicMeshGeometry F
      → RunState F C D S
      → Option XMesh
      → Turn (RunState F C D S)
  poll_around env geo s none = done s
  poll_around env geo s (some center) =
      if not s.poll_generated && not s.iter_improved
      then again (inject_poll env geo s center)
      else done s

  unfoldable pub when_exhausted :
      RunEnv F → AnisotropicMeshGeometry F → RunState F C D S → Turn (RunState F C D S)
  when_exhausted env geo s = poll_around env geo s s.x_best

  -- The end of a round: no work item at all ends the iteration.
  abbrev pub after_batch :
      RunState F C D S → List WorkItem → Option (RunState F C D S) → Turn (RunState F C D S)
  after_batch s [] r = done s
  after_batch s (item ∷ items) none = panicked
  after_batch s (item ∷ items) (some s') = again s'

  abbrev pub returned :
      RunState F C D S
      → Store F
      → List WorkItem
      → Option (List (WorkOutcome F) × Caches F)
      → Option (RunState F C D S × List WorkItem × List (WorkOutcome F))
  returned s store work none = none
  returned s store work (some (outcomes, caches)) =
      some (record s { store = store; caches = caches; batch_no = s.batch_no + 1 }, work, outcomes)

  -- The picked candidates are sent.
  abbrev pub send_picked : RunEnv F → RunState F C D S → List ℕ → Store F × List WorkItem
  send_picked env s picked =
      let take_n = min (min (length picked) env.boundary) s.steps_left in
      send_all env s s.store (take take_n picked)

  -- Their batch is executed; `none` is a batch that does not return.
  unfoldable pub execute_picked :
      Bundle F C D S
      → RunEnv F
      → RunState F C D S
      → List ℕ
      → Option (RunState F C D S × List WorkItem × List (WorkOutcome F))
  execute_picked bundle env s picked =
      let (store, work) = send_picked env s picked in
      returned s store work
        (bundle.execute s.batch_no s.chunk_base (exec_ctx bundle env) s.caches work)

  abbrev pub with_outcomes :
      Bundle F C D S
      → RunEnv F
      → Thresholds F
      → Option (RunState F C D S × List WorkItem × List (WorkOutcome F))
      → Turn (RunState F C D S)
  with_outcomes bundle env th none = hung
  with_outcomes bundle env th (some (sent, work, outcomes)) =
      after_batch sent work (complete_batch bundle env th sent outcomes)

  -- Without a work item the executor is not called.
  unfoldable pub run_picked :
      Bundle F C D S → RunEnv F → RunState F C D S → List ℕ → Turn (RunState F C D S)
  run_picked bundle env s picked =
      let (store, work) = send_picked env s picked in
      let th = bundle.thresholds (bundle.calib_state s.calibrator) in
      if length work == 0
      then done (record s { store = store })
      else with_outcomes bundle env th (execute_picked bundle env s picked)

  abbrev pub pick :
      Bundle F C D S
      → RunEnv F
      → RunState F C D S
      → Option (List (ReadyCandidateView F))
      → Turn (RunState F C D S)
  pick bundle env s none = panicked
  pick bundle env s (some sorted) =
      let (scheduler, picked) = bundle.next_picks s.scheduler sorted in
      let s1 : RunState F C D S = record s { scheduler = scheduler } in
      if length picked == 0 then done s1 else run_picked bundle env s1 picked

  -- The ready candidates in order, for the scheduler.
  unfoldable pub when_ready :
      Bundle F C D S
      → RunEnv F
      → RunState F C D S
      → List (ReadyCandidateView F)
      → Turn (RunState F C D S)
  when_ready bundle env s view = pick bundle env s (sort_scored (λ r. r.score) (λ r. r.id) view)

  -- One round of the `while` loop.
  unfoldable pub turn :
      Bundle F C D S
      → RunEnv F
      → AnisotropicMeshGeometry F
      → RunState F C D S
      → Turn (RunState F C D S)
  turn bundle env geo s =
      let th = bundle.thresholds (bundle.calib_state s.calibrator) in
      let view = make_ready_view bundle.policies th env.iter s.store.cands in
      if s.steps_left == 0
      then done s
      else if length view == 0
      then when_exhausted env geo s
      else when_ready bundle env s view

-- How the loop ends, on fuel.
pub data Ending (A : Type 0) : Type 0 where
  ended : A → Ending A
  crashed waiting out_of_fuel : Ending A

-- The loop has come to its end or has panicked: it does not wait for a batch, and has fuel left.
abbrev pub Halts : {A : Type 0} → Ending A → Type 0
Halts (ended s) = Unit
Halts crashed = Unit
Halts waiting = ⊥
Halts out_of_fuel = ⊥

module _ {F C D S : Type 0} ⦃d : Float F⦄ where
  unfoldable pub turns :
      ℕ
      → Bundle F C D S
      → RunEnv F
      → AnisotropicMeshGeometry F
      → RunState F C D S
      → Ending (RunState F C D S)
  turns zero bundle env geo s = out_of_fuel
  turns (suc fuel) bundle env geo s = elim (turn bundle env geo s) [
    | again s' ↦ turns fuel bundle env geo s'
    | done s' ↦ ended s'
    | panicked ↦ crashed
    | hung ↦ waiting
  ]
