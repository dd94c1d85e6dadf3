-- ===== src/Pool/Wakeup.antt =====
-- A wakeup that is lost: the last worker notifies between the engine's test and its wait.
use mathlib.Core.List.{append_assoc}
use imads.Prelude.{
  ℕ, zero, suc, ◌+◌, ◌≡◌, refl, sym, ap, subst, inl, inr, true, false, List, [], ◌∷◌, ◌++◌, ◌==◌,
  arith, ltb, All, All-append, Bool-cases, replicate,
}
use imads.Pool.{
  TaskPhase, queued, written, counted, settled, testing, falling_asleep, waiting, BatchSink, Step,
  write, count, settle, notify, spin_done, spin_stop, test_done, test_wait, sleep, spurious,
  Reachable, begin, then,
}

-- The engine's thread holds the mutex, has read `done < total` and is not yet in `cv.wait`.
abbrev between : ℕ → ℕ → List TaskPhase → BatchSink
between total done tasks = record {
  total = total;
  done = done;
  tasks = tasks;
  waiter = falling_asleep;
}

abbrev pub AllSettled : List TaskPhase → Type 0
AllSettled tasks = All (λ p. p ≡ settled) tasks

-- One task runs from the queue to its end meanwhile; a notification reaches nobody.
one_task :
    (n d : ℕ) (xs ys : List TaskPhase)
    → Reachable n (between n d (xs ++ queued ∷ ys))
    → Reachable n (between n (d + 1) (xs ++ settled ∷ ys))
one_task n d xs ys r =
    let r' = then (then r (write xs ys refl)) (count xs ys refl) in
    elim (Bool-cases ((d + 1) == n)) [
      | inl e ↦ then r' (notify xs ys (ap (λ b. xs ++ counted b ∷ ys) e))
      | inr e ↦ then r' (settle xs ys (ap (λ b. xs ++ counted b ∷ ys) e))
    ]

all_tasks :
    (n m d : ℕ) (xs : List TaskPhase)
    → Reachable n (between n d (xs ++ replicate m queued))
    → AllSettled xs
    → (e : ℕ) × (ts : List TaskPhase) × Reachable n (between n e ts) × AllSettled ts
all_tasks n zero d xs r h = (d, xs ++ [], r, All-append _ xs [] h tt)
all_tasks n (suc m) d xs r h =
    let r' = one_task n d xs (replicate m queued) r in
    all_tasks n m (d + 1) (xs ++ settled ∷ [])
      (subst (λ ts. Reachable n (between n (d + 1) ts))
        (sym (append_assoc xs (settled ∷ []) (replicate m queued))) r')
      (All-append _ xs (settled ∷ []) h (refl, tt))

All-middle {κ} :
    (P : TaskPhase → Type κ) (ts xs ys : List TaskPhase) (p : TaskPhase)
    → ts ≡ xs ++ p ∷ ys
    → All P ts
    → P p
All-middle P ts xs ys p e h = at xs (subst (All P) e h)
  where
    at : (zs : List TaskPhase) → All P (zs ++ p ∷ ys) → P p
    at [] k = k.0
    at (z ∷ zs) k = at zs k.1

-- With all tasks settled nothing but a spurious wakeup gets the waiter out of its wait.
only_spurious :
    (s t : BatchSink)
    → s.waiter ≡ waiting
    → AllSettled s.tasks
    → Step s t
    → t ≡ record s { waiter = testing }
only_spurious s t w h (write xs ys e) =
    absurd (let k = All-middle _ s.tasks xs ys queued e h in ground arith)
only_spurious s t w h (count xs ys e) =
    absurd (let k = All-middle _ s.tasks xs ys written e h in ground arith)
only_spurious s t w h (settle xs ys e) =
    absurd (let k = All-middle _ s.tasks xs ys (counted false) e h in ground arith)
only_spurious s t w h (notify xs ys e) =
    absurd (let k = All-middle _ s.tasks xs ys (counted true) e h in ground arith)
only_spurious s t w h (spin_done e k) = absurd (ground arith)
only_spurious s t w h (spin_stop e k) = absurd (ground arith)
only_spurious s t w h (test_done e k) = absurd (ground arith)
only_spurious s t w h (test_wait e k) = absurd (ground arith)
only_spurious s t w h (sleep e) = absurd (ground arith)
only_spurious s t w h (spurious e) = refl

-- For a batch of any size but zero a run leads to a state in which every task is settled and the
-- engine's thread waits; from there no step is left but a spurious wakeup of the condition
-- variable.
pub run_batch_hangs :
    (k : ℕ)
    → (s : BatchSink) × Reachable (suc k) s
      × (s.waiter ≡ waiting)
      × AllSettled s.tasks
      × ((t : BatchSink) → Step s t → t ≡ record s { waiter = testing })
run_batch_hangs k =
    let less : ltb 0 (suc k) ≡ true = ground arith in
    let asleep = then (then begin (spin_stop refl less)) (test_wait refl less) in
    let (d, ts, r, h) = all_tasks (suc k) (suc k) 0 [] asleep tt in
    let s : BatchSink = record { total = suc k; done = d; tasks = ts; waiter = waiting } in
    (s, then r (sleep refl), refl, h, λ t step. only_spurious s t refl h step)
