-- ===== src/Lib.antt =====
-- A model of imads-core, the optimiser of this repository (mesh adaptive direct search with staged
-- evaluations), with theorems on what its parts guarantee.
--
-- The engine (imads-core/src/core/engine.rs) takes candidates through a ladder of fidelity steps. It
-- dispatches a work item for a candidate's next step, an executor (core/executor.rs) evaluates the item
-- against two caches (backends/cache.rs), and the engine materialises the outcome: a result, a new
-- state of the candidate and an entry of the decision cache. A margin policy may cut a candidate early;
-- some cuts are audited, and audited candidates go on to later steps that pair with the cut. A result
-- on the last step (TRUTH) goes to the acceptance policy. If poll points bring no improvement, the mesh
-- is refined and the barrier tightened.
--
-- The files:
--   Float        `f64` as an interface: the operations that the code uses, and the laws of IEEE 754
--                that theorems rely on, as the record `IsIeee`; Float/Libm has `exp`, `ln`, `round` and the
--                like with their laws; Float/Fixed is an instance that runs.
--   Types        types.rs: fidelity steps, candidates, results, cache keys; `WorkOutcome`.
--   Acceptance   core/acceptance.rs: barrier, filter, incumbent (`decide_truth`, `on_iteration_end`).
--   Ladder       policies/ladder.rs: `StaircaseLadder::build_ladder`.
--   Mesh         types.rs: the mesh geometries, `refine` and the quantisation of points.
--   Poll         core/poll.rs: `generate_points`, `generate_points_aniso`.
--   Cache        backends/cache.rs: the in-memory caches, and equality of their keys.
--   Config       core/engine.rs: `EngineConfig` and `EngineConfig::new`.
--   Margin       policies/margin.rs: the early cut and the objective bounds.
--   Calibrator   policies/calibrator.rs: Counting has the counts of audits, Delta the calibrator of the
--                slacks; Samples, Coefficients, Buckets and DeltaK the one that also learns the coefficients.
--   Dids         policies/dids.rs: Evidence has the statistics, Levels `compute_assignment`.
--   Evaluator    core/evaluator.rs: `EvaluatorErased`; core/executor.rs: `compute_estimates`.
--   Executor     core/executor.rs: `execute_one` and the inline executor.
--   Pool         core/executor.rs: the barrier of a batch in the worker pool (`worker_loop`, `run_batch`),
--                whose states are tasks in their phases and the engine's thread.
--   Engine       core/engine.rs: Levels and Start are the start of a run; Audit has the audit path and the
--                pruning gate; Candidate, Steps and Materialize are `materialize_job_result`;
--                Dispatch has the dispatch of a candidate and the statistics. Store, Ready, Tuning,
--                Search, State, Batches, Run and Main are `run_with_evaluator`: the store of
--                candidates, the Ready view with the scheduler (policies/scheduler.rs), the chunk
--                size, the proposals, the state, one batch, the rounds of an iteration and the whole
--                run, with the executor as a parameter; Defaults is `DefaultBundle` on one worker.
--                Examples is the run that Tests uses.
-- The child modules hold the theorems, and Tests the theorems at concrete inputs.
--
-- Conventions. A method with `&mut self` returns the new state. A panic or a failed assertion is `none`.
-- An `i64` is an integer, with the wrap-around or the saturation of its operations written out; `u32`,
-- `u64` and `usize` are natural numbers, since indices and counts stay below the lengths they belong to.
-- The clones of a cache that the engine and the executor hold share one map, so the caches are passed
-- from one to the other. Policies and the evaluator, which users implement, are records of functions. An
-- executor is a function too, of the number of the batch, the chunk size, the context, the caches and
-- the items: by the number it may give something else each time, as a concurrent one does.
-- `NonNaNFinite::new` of the crate num-valid is a function that theorems take as it comes.
--
-- Counts are natural numbers without overflow. An unstable sort is the stable one: samples that compare as
-- equal are the same to the code, and levels that are equal differ only in the order in which their weights
-- are summed. Sorting panics on a NaN when there are two elements. A `BTreeMap` is the list of its entries,
-- and its keys are sorted where the code goes through them.
--
-- Loops are structural recursion, but for two `while` loops. That of `build_ladder` has as much fuel as
-- there are levels, since each step moves on by one of them. That of an iteration in `run_with_evaluator`
-- has as much fuel as there are steps left and two more, since each round but the last takes a step or
-- injects the poll points, which happens once.
--
-- Not modelled: the queue and the shutdown of the worker pool, the proposals of the two search policies,
-- the audit policy, the hash functions and the presets, which are parameters where other parts use them.
-- The incumbent's effect on jobs in flight is not there either, since the engine ignores it. Also not
-- modelled are the bindings to other languages, which hold no logic of the optimiser.
pub mod Prelude
pub mod Float
pub mod Acceptance
pub mod Types
pub mod Ladder
pub mod Mesh
pub mod Poll
pub mod Cache
pub mod Config
pub mod Margin
pub mod Calibrator
pub mod Dids
pub mod Evaluator
pub mod Executor
pub mod Pool
pub mod Engine
