-- ===== src/Pool/Barrier.antt =====
-- Behind the barrier every slot is written.
use imads.Prelude.{
  ℕ, zero, suc, ◌+◌, ◌≤◌, ◌≡◌, refl, sym, ap, ◌∙◌, Bool, true, false, List, [], ◌∷◌, ◌++◌, ◌==◌,
  arith, ltb, All, length, length-append, replicate, length-replicate,
}
use imads.Pool.{
  TaskPhase, queued, written, counted, settled, WaiterPhase, collecting, BatchSink, notify_one,
  Step, write, count, settle, notify, spin_done, spin_stop, test_done, test_wait, sleep, spurious,
  Reachable, begin, then,
}

abbrev weight : TaskPhase → ℕ
weight queued = 0
weight written = 0
weight (counted b) = 1
weight settled = 1

-- The number of tasks that are counted.
abbrev num_counted : List TaskPhase → ℕ
num_counted [] = 0
num_counted (p ∷ ps) = weight p + num_counted ps

num_counted-append :
    (xs : List TaskPhase) (p : TaskPhase) (ys : List TaskPhase)
    → num_counted (xs ++ p ∷ ys) ≡ num_counted xs + weight p + num_counted ys
num_counted-append [] p ys = omega arith
num_counted-append (x ∷ xs) p ys = omega (arith, num_counted-append xs p ys)

num_counted-le : (xs : List TaskPhase) → num_counted xs ≤ length xs
num_counted-le [] = omega arith
num_counted-le (queued ∷ xs) = omega (arith, num_counted-le xs)
num_counted-le (written ∷ xs) = omega (arith, num_counted-le xs)
num_counted-le (counted b ∷ xs) = omega (arith, num_counted-le xs)
num_counted-le (settled ∷ xs) = omega (arith, num_counted-le xs)

-- The slot of the task is written.
abbrev pub is_written : TaskPhase → Bool
is_written queued = false
is_written _ = true

All-counted : (xs : List TaskPhase) → length xs ≤ num_counted xs → All (λ p. is_written p ≡ true) xs
All-counted [] h = tt
All-counted (queued ∷ xs) h = absurd (let le = num_counted-le xs in omega arith)
All-counted (written ∷ xs) h = absurd (let le = num_counted-le xs in omega arith)
All-counted (counted b ∷ xs) h = (refl, All-counted xs (omega arith))
All-counted (settled ∷ xs) h = (refl, All-counted xs (omega arith))

num_counted-replicate : (n : ℕ) → num_counted (replicate n queued) ≡ 0
num_counted-replicate zero = refl
num_counted-replicate (suc n) = omega (arith, num_counted-replicate n)

record IsSink (n : ℕ) (s : BatchSink) : Type 0 where
  total : s.total ≡ n
  size : length s.tasks ≡ n
  done : s.done ≡ num_counted s.tasks
  passed : s.waiter ≡ collecting → n ≤ s.done

-- Another phase of one task, and what it does to the counts.
task_moves :
    (ts xs ys : List TaskPhase) (p q : TaskPhase)
    → ts ≡ xs ++ p ∷ ys
    → (length (xs ++ q ∷ ys) ≡ length ts)
      × (num_counted (xs ++ q ∷ ys) + weight p ≡ num_counted ts + weight q)
task_moves ts xs ys p q e =
    let a = num_counted-append xs p ys in
    let b = num_counted-append xs q ys in
    let c = length-append xs (p ∷ ys) in
    let g = length-append xs (q ∷ ys) in
    let l : length ts ≡ length (xs ++ p ∷ ys) = ap length e in
    let m : num_counted ts ≡ num_counted (xs ++ p ∷ ys) = ap num_counted e in
    (omega arith, omega arith)

notified : (w : WaiterPhase) → notify_one w ≡ collecting → w ≡ collecting
notified w h = ground arith

all_done : (n : ℕ) (s : BatchSink) → IsSink n s → ltb s.done s.total ≡ false → n ≤ s.done
all_done n s w h = let e = w.total in ground arith

Step-IsSink : (n : ℕ) (s t : BatchSink) → IsSink n s → Step s t → IsSink n t
Step-IsSink n s t w (write xs ys e) =
    let (l, c) = task_moves s.tasks xs ys queued written e in
    record { total = w.total; size = l ∙ w.size; done = omega (arith, w.done); passed = w.passed }
Step-IsSink n s t w (count xs ys e) =
    let (l, c) = task_moves s.tasks xs ys written (counted ((s.done + 1) == s.total)) e in
    record {
      total = w.total;
      size = l ∙ w.size;
      done = omega (arith, w.done);
      passed = λ h. let le : n ≤ s.done = w.passed h in omega arith;
    }
Step-IsSink n s t w (settle xs ys e) =
    let (l, c) = task_moves s.tasks xs ys (counted false) settled e in
    record { total = w.total; size = l ∙ w.size; done = omega (arith, w.done); passed = w.passed }
Step-IsSink n s t w (notify xs ys e) =
    let (l, c) = task_moves s.tasks xs ys (counted true) settled e in
    record {
      total = w.total;
      size = l ∙ w.size;
      done = omega (arith, w.done);
      passed = λ h. w.passed (notified s.waiter h);
    }
Step-IsSink n s t w (spin_done e h) = record {
  total = w.total;
  size = w.size;
  done = w.done;
  passed = λ k. all_done n s w h;
}
Step-IsSink n s t w (spin_stop e h) = record {
  total = w.total;
  size = w.size;
  done = w.done;
  passed = λ k. ground arith;
}
Step-IsSink n s t w (test_done e h) = record {
  total = w.total;
  size = w.size;
  done = w.done;
  passed = λ k. all_done n s w h;
}
Step-IsSink n s t w (test_wait e h) = record {
  total = w.total;
  size = w.size;
  done = w.done;
  passed = λ k. ground arith;
}
Step-IsSink n s t w (sleep e) = record {
  total = w.total;
  size = w.size;
  done = w.done;
  passed = λ k. ground arith;
}
Step-IsSink n s t w (spurious e) = record {
  total = w.total;
  size = w.size;
  done = w.done;
  passed = λ k. ground arith;
}

Reachable-IsSink : (n : ℕ) (s : BatchSink) → Reachable n s → IsSink n s
Reachable-IsSink n s begin = record {
  total = refl;
  size = length-replicate n queued;
  done = sym (num_counted-replicate n);
  passed = λ k. ground arith;
}
Reachable-IsSink n s (then r step) = Step-IsSink n _ s (Reachable-IsSink n _ r) step

-- When `run_batch` collects the outcomes of a batch of `n` items, there are `n` slots and each of
-- them is written, in whatever order workers and engine ran.
pub Reachable-written :
    (n : ℕ) (s : BatchSink)
    → Reachable n s
    → s.waiter ≡ collecting
    → (length s.tasks ≡ n) × All (λ p. is_written p ≡ true) s.tasks
Reachable-written n s r h =
    let w = Reachable-IsSink n s r in
    let le : n ≤ s.done = w.passed h in
    (w.size, All-counted s.tasks (omega (arith, w.size, w.done)))
