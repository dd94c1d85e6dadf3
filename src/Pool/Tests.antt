-- ===== src/Pool/Tests.antt =====
-- The theorems on the barrier at small batches.
use imads.Prelude.{◌≡◌, refl, true, [], ◌∷◌, All, length}
use imads.Pool.{
  settled, waiting, testing, collecting, BatchSink, Step, write, count, notify, spin_done,
  Reachable, begin, then,
}
use imads.Pool.Barrier.{is_written, Reachable-written}
use imads.Pool.Wakeup.{AllSettled, run_batch_hangs}

-- One item, done before the spin phase ends.
abbrev finished : BatchSink
finished = record { total = 1; done = 1; tasks = settled ∷ []; waiter = collecting }

reached : Reachable 1 finished
reached =
    then (then (then (then begin (write [] [] refl)) (count [] [] refl)) (notify [] [] refl))
      (spin_done refl refl)

Reachable-written_example :
    (length finished.tasks ≡ 1) × All (λ p. is_written p ≡ true) finished.tasks
Reachable-written_example = Reachable-written 1 finished reached refl

run_batch_hangs_example :
    (s : BatchSink) × Reachable 4 s
    × (s.waiter ≡ waiting)
    × AllSettled s.tasks
    × ((t : BatchSink) → Step s t → t ≡ record s { waiter = testing })
run_batch_hangs_example = run_batch_hangs 3
