-- ===== src/Pool.antt =====
-- imads-core/src/core/executor.rs: the barrier of a batch in the worker pool, as a step relation.
-- A step is one access to shared memory of a worker or of the engine's thread. Which worker takes a
-- task does not matter here, so a task stands for the worker that has it.
pub mod Barrier
pub mod Wakeup
pub mod Tests
use imads.Prelude.{
  ℕ, ◌+◌, ◌≡◌, Bool, true, false, List, [], ◌∷◌, ◌++◌, ltb, ◌==◌, if◌then◌else◌, replicate,
}

-- How far a task is. After `fetch_add` a worker knows whether its task was the last one.
pub data TaskPhase : Type 0 where
  queued written : TaskPhase
  counted : Bool → TaskPhase
  settled : TaskPhase

-- Where `run_batch` is: in the spin phase, at the test of the wait loop, past the test, in
-- `cv.wait`, or behind the barrier.
pub data WaiterPhase : Type 0 where
  spinning testing falling_asleep waiting collecting : WaiterPhase

pub record BatchSink : Type 0 where
  pub total : ℕ
  pub done : ℕ
  pub tasks : List TaskPhase
  pub waiter : WaiterPhase

abbrev pub BatchSink_new : ℕ → BatchSink
BatchSink_new total = record {
  total = total;
  done = 0;
  tasks = replicate total queued;
  waiter = spinning;
}

-- `notify_one`: without a waiter nothing happens.
abbrev pub notify_one : WaiterPhase → WaiterPhase
notify_one waiting = testing
notify_one w = w

pub data Step (s : BatchSink) : BatchSink → Type 0 where
  -- A worker executes the task and writes its slot.
  write :
      (xs ys : List TaskPhase)
      → s.tasks ≡ xs ++ queued ∷ ys
      → Step s (record s { tasks = xs ++ written ∷ ys })
  count :
      (xs ys : List TaskPhase)
      → s.tasks ≡ xs ++ written ∷ ys
      → Step s
          (record s { done = s.done + 1; tasks = xs ++ counted ((s.done + 1) == s.total) ∷ ys })
  settle :
      (xs ys : List TaskPhase)
      → s.tasks ≡ xs ++ counted false ∷ ys
      → Step s (record s { tasks = xs ++ settled ∷ ys })
  notify :
      (xs ys : List TaskPhase)
      → s.tasks ≡ xs ++ counted true ∷ ys
      → Step s (record s { tasks = xs ++ settled ∷ ys; waiter = notify_one s.waiter })
  -- The engine's thread leaves the spin phase with all done, or takes the mutex.
  spin_done :
      s.waiter ≡ spinning → ltb s.done s.total ≡ false → Step s (record s { waiter = collecting })
  spin_stop :
      s.waiter ≡ spinning → ltb s.done s.total ≡ true → Step s (record s { waiter = testing })
  test_done :
      s.waiter ≡ testing → ltb s.done s.total ≡ false → Step s (record s { waiter = collecting })
  test_wait :
      s.waiter ≡ testing → ltb s.done s.total ≡ true → Step s (record s { waiter = falling_asleep })
  sleep : s.waiter ≡ falling_asleep → Step s (record s { waiter = waiting })
  -- A condition variable may wake a waiter without a notification.
  spurious : s.waiter ≡ waiting → Step s (record s { waiter = testing })

-- The states that a batch of `n` items can come to.
pub data Reachable (n : ℕ) : BatchSink → Type 0 where
  begin : Reachable n (BatchSink_new n)
  then : {s t : BatchSink} → Reachable n s → Step s t → Reachable n t
