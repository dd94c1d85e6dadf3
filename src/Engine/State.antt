-- ===== src/Engine/State.antt =====
-- The policies of the engine's main loop, and the state that the loop keeps.
use imads.Prelude.{ℕ, ◌≡◌, ◌≢◌, Bool, Option, none, some, List, length, All, Any}
use imads.Types.{XMesh, Phi, JobResult, WorkItem, WorkOutcome}
use imads.Acceptance.{AcceptanceConfig, AcceptanceState}
use imads.Margin.{Thresholds}
use imads.Config.{EngineConfig}
use imads.Executor.{ExecCtx, Caches}
use imads.Calibrator.{CalibState, CalibratorConfig, CalibEvent}
use imads.Engine.Candidate.{Policies, EngineStats}
use imads.Engine.Store.{Store}
use imads.Engine.Ready.{ReadyCandidateView}

-- The policies that users replace, each with its state: the calibrator's `C`, the one of DIDS `D`,
-- the scheduler's `S`. `none` is a panic, and of the executor a batch that does not return.
pub record Bundle (F C D S : Type 0) : Type 0 where
  pub policies : Policies F
  pub thresholds : CalibState F → Thresholds F
  pub calib_init : C → ℕ → C
  pub calib_configure : C → CalibratorConfig F → Option C
  pub calib_state : C → CalibState F
  pub calib_update : C → List (CalibEvent F) → Option (C × ℕ)
  pub dids_init : D → ℕ → D
  pub dids_record : D → XMesh → Phi → ℕ → JobResult F → D
  pub dids_update : D → ℕ → CalibState F → D × List ℕ × ℕ
  pub scheduler_configure : S → ℕ → S
  pub batch_size : S → ℕ
  pub next_picks : S → List (ReadyCandidateView F) → S × List ℕ
  pub on_complete : S → ℕ → JobResult F → S
  -- `run_batch` of the executor, which is configured with the workers of the run and a chunk size. The
  -- first argument is the number of the batch in the run: with the same items a concurrent executor
  -- may give something else each time.
  pub execute :
      ℕ → ℕ → ExecCtx F → Caches F → List WorkItem → Option (List (WorkOutcome F) × Caches F)

-- What does not change during an iteration.
pub record RunEnv (F : Type 0) : Type 0 where
  pub cfg : EngineConfig F
  pub accept_cfg : AcceptanceConfig F
  pub base_steps : List F
  pub ladder : List Phi
  pub env_rev : ℕ
  pub boundary : ℕ
  pub iter : ℕ

pub record RunState (F C D S : Type 0) : Type 0 where
  pub store : Store F
  pub caches : Caches F
  pub stats : EngineStats
  pub accept : AcceptanceState F
  pub x_best : Option XMesh
  pub f_best : Option (List F)
  pub incumbent_id : ℕ
  pub policy_rev : ℕ
  pub assignment : List ℕ
  pub calibrator : C
  pub dids : D
  pub scheduler : S
  pub chunk_base : ℕ
  -- the batches so far, which the code does not count
  pub batch_no : ℕ
  pub iter_improved : Bool
  pub poll_generated : Bool
  pub steps_left : ℕ

module _ {F : Type 0} where
  -- One outcome per item, in any order, of a batch that returns.
  abbrev pub OnePerItem : List WorkItem → Option (List (WorkOutcome F) × Caches F) → Type 0
  OnePerItem items none = Unit
  OnePerItem items (some (outcomes, caches)) =
      (length outcomes ≡ length items) × All (λ out. Any (λ wi. wi ≡ out.item) items) outcomes

module _ {F C D S : Type 0} where
  -- The contract of `Executor::run_batch`.
  abbrev pub IsExecutor : Bundle F C D S → Type 0
  IsExecutor bundle =
      (batch_no chunk_base : ℕ) (ctx : ExecCtx F) (caches : Caches F) (items : List WorkItem)
      → OnePerItem items (bundle.execute batch_no chunk_base ctx caches items)

  -- Every batch of the executor returns.
  abbrev pub AlwaysReturns : Bundle F C D S → Type 0
  AlwaysReturns bundle =
      (batch_no chunk_base : ℕ) (ctx : ExecCtx F) (caches : Caches F) (items : List WorkItem)
      → bundle.execute batch_no chunk_base ctx caches items ≢ none
