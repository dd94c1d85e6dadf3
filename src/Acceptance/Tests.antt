-- ===== src/Acceptance/Tests.antt =====
-- The acceptance policy on concrete calls, in fixed-point numbers.
use imads.Prelude.{
  true, false, ◌≡◌, refl, ◌↔◌, some, List, [], ◌∷◌, arith, ap, ℕ, ◌*◌, All, retain, sort_by,
  insert_by,
}
use imads.Prelude.Int.{pos}
use imads.Float.{◌≼◌, fmax, clamp}
use imads.Float.Fixed.{Fixed, milli, fixed_float, Fixed-IsIeee}
use imads.Acceptance.{
  AcceptanceConfig, AcceptanceState, FilterPoint, Call, truth, iteration_end, accept, reject,
  BarrierState_new, AcceptanceState_new, point_le, tighten_on_poll_fail, dominates, is_dominated,
  shrink_to_cap, filter_insert, decide_truth, on_iteration_end, step, run,
}
use imads.Acceptance.Barrier.{IsBarrier, BarrierState_new-IsBarrier, run-IsBarrier}
use imads.Acceptance.Filter.{IsFilter, Undominated, decide_truth_iff, run-IsFilter}
use imads.Acceptance.Incumbent.{NoBetter, incumbent-NoBetter}
use imads.Acceptance.Evict.{decide_truth_evicts}

abbrev num : ℕ → Fixed
num n = milli (pos (n * 1000))

abbrev wide : AcceptanceConfig Fixed
wide = record {
  h0 = num 10;
  h_min = num 1;
  h_shrink = milli (pos 500);
  eps_f = num 0;
  eps_v = num 0;
  filter_cap = 2;
}

start : AcceptanceState Fixed
start = AcceptanceState_new wide

abbrev calls : List (Call Fixed)
calls =
    truth (num 10) (num 1)
    ∷ truth (num 9) (num 2)
    ∷ truth (num 12) (num 0)
    ∷ truth (num 11) (num 0)
    ∷ iteration_end true false
    ∷ truth (num 3) (num 6)
    ∷ []

-- Two of the points that are let through stay, the barrier falls to 5, and the last call is
-- turned down by it.
run-calls : run wide start calls ≡ record {
  barrier = record { h = num 5 };
  filter = record {
    points = record { f = num 10; v = num 1 } ∷ record { f = num 11; v = num 0 } ∷ [];
    incumbent_feasible_f = some (num 11);
  };
}
unfolding start AcceptanceState_new BarrierState_new run step decide_truth on_iteration_end
    tighten_on_poll_fail filter_insert is_dominated dominates shrink_to_cap fmax clamp retain
    sort_by insert_by
run-calls = refl

start-IsBarrier : IsBarrier Fixed-IsIeee wide start.barrier
unfolding start AcceptanceState_new
start-IsBarrier = BarrierState_new-IsBarrier Fixed-IsIeee wide

start-IsFilter : IsFilter wide (num 10) start.filter.points
unfolding start AcceptanceState_new
start-IsFilter = record { incomparable = tt; capped = omega arith; gated = tt }

start_at_10 : start.barrier.h ≼ num 10
unfolding start AcceptanceState_new BarrierState_new fmax
start_at_10 = refl

run-IsBarrier_example :
    IsBarrier Fixed-IsIeee wide (run wide start calls).barrier
    × ((run wide start calls).barrier.h ≼ start.barrier.h)
run-IsBarrier_example = run-IsBarrier Fixed-IsIeee wide start calls start-IsBarrier

run-IsFilter_example : IsFilter wide (num 10) (run wide start calls).filter.points
run-IsFilter_example =
    run-IsFilter Fixed-IsIeee wide (num 10) start calls start-IsBarrier start_at_10 start-IsFilter

decide_truth_iff_example :
    let p : FilterPoint Fixed = record { f = num 8; v = num 3 } in
    let (s', decision) = decide_truth wide (run wide start calls) (num 8) (num 3) in
    ((decision ≡ accept) ↔ (
      (fixed_float.lt (run wide start calls).barrier.h (num 3) ≡ false)
      × Undominated wide (run wide start calls).filter.points p))
    × (decision ≡ reject → s'.filter.points ≡ (run wide start calls).filter.points)
    × (s'.barrier ≡ (run wide start calls).barrier)
decide_truth_iff_example = decide_truth_iff wide (run wide start calls) (num 8) (num 3)

run_incumbent : (run wide start calls).filter.incumbent_feasible_f ≡ some (num 11)
run_incumbent = ap (λ s. s.filter.incumbent_feasible_f) run-calls

incumbent-NoBetter_example : All (NoBetter (num 11)) calls
unfolding start AcceptanceState_new
incumbent-NoBetter_example =
    incumbent-NoBetter Fixed-IsIeee wide start calls (num 11) start-IsBarrier refl
      (refl, (refl, (refl, (refl, (tt, (refl, tt)))))) run_incumbent

-- The filter is full: (11, 0) and (10, 1).
abbrev full : AcceptanceState Fixed
full = record {
  barrier = record { h = num 5 };
  filter = record {
    points = record { f = num 11; v = num 0 } ∷ record { f = num 10; v = num 1 } ∷ [];
    incumbent_feasible_f = some (num 11);
  };
}

decide_truth_evicts_example :
    let (s', decision) = decide_truth wide full (num 9) (num 4) in
    (decision ≡ accept) × (s'.filter.points ≡ sort_by point_le full.filter.points)
unfolding dominates fmax
decide_truth_evicts_example =
    decide_truth_evicts wide full (num 9) (num 4) refl refl ((refl, refl), ((refl, refl), tt))
      ((refl, refl), ((refl, refl), tt))
