-- ===== src/Acceptance/Barrier.antt =====
-- The progressive barrier `h` of `DefaultAcceptance`, over any history of calls.
use imads.Prelude.{not, ◌&&◌, ◌≡◌, inl, inr, List, [], ◌∷◌, arith, Bool-cases}
use imads.Float.{Float, IsIeee, IsNum, ◌≼◌, fmax, clamp}
use imads.Float.Laws.{le-fmax_right, fmax-IsNum, fmax-le, clamp_bounds}
use imads.Acceptance.{
  AcceptanceConfig, BarrierState, AcceptanceState, Call, truth, iteration_end, barrier_floor,
  BarrierState_new, tighten_on_poll_fail, decide_truth, on_iteration_end, step, run,
}

module _ {ℓ} {F : Type ℓ} ⦃d : Float F⦄ (laws : IsIeee F) where
  open laws use {num_of_le, le_trans, nought_le_one, mul_num, mul_shrinks}

  pub record IsBarrier (cfg : AcceptanceConfig F) (b : BarrierState F) : Type 0 where
    pub nonneg : d.nought ≼ b.h
    pub floor : barrier_floor cfg ≼ b.h

  nought-IsNum : IsNum d.nought
  nought-IsNum = (num_of_le d.nought d.one nought_le_one).0

  floor_nonneg : (cfg : AcceptanceConfig F) → d.nought ≼ barrier_floor cfg
  floor_nonneg cfg = le-fmax_right laws cfg.h_min d.nought nought-IsNum

  above_floor : (cfg : AcceptanceConfig F) (x : F) → barrier_floor cfg ≼ fmax x (barrier_floor cfg)
  above_floor cfg x = le-fmax_right laws x _ (fmax-IsNum laws cfg.h_min d.nought nought-IsNum)

  pub BarrierState_new-IsBarrier : (cfg : AcceptanceConfig F) → IsBarrier cfg (BarrierState_new cfg)
  unfolding BarrierState_new
  BarrierState_new-IsBarrier cfg = record {
    nonneg = le_trans _ _ _ (floor_nonneg cfg) (above_floor cfg _);
    floor = above_floor cfg _;
  }

  tighten_lem :
      (cfg : AcceptanceConfig F) (b : BarrierState F)
      → IsBarrier cfg b
      → IsBarrier cfg (tighten_on_poll_fail cfg b) × ((tighten_on_poll_fail cfg b).h ≼ b.h)
  unfolding tighten_on_poll_fail
  tighten_lem cfg b valid = (
    record {
      nonneg = le_trans _ _ _ (floor_nonneg cfg) (above_floor cfg _);
      floor = above_floor cfg _;
    },
    fmax-le laws _ _ _ shrunk valid.floor,
  )
    where
      s : F
      s = clamp cfg.h_shrink d.nought d.one

      shrunk : IsNum (d.mul b.h s) → d.mul b.h s ≼ b.h
      shrunk n =
          let bounds =
            clamp_bounds laws cfg.h_shrink d.nought d.one nought_le_one (mul_num b.h s n) in
          mul_shrinks b.h s valid.nonneg bounds.0 bounds.1 n

  barrier-decide_truth :
      (cfg : AcceptanceConfig F) (s : AcceptanceState F) (f v : F)
      → (decide_truth cfg s f v).0.barrier ≡ s.barrier
  unfolding decide_truth
  barrier-decide_truth cfg s f v = ground arith

  pub step-IsBarrier :
      (cfg : AcceptanceConfig F) (s : AcceptanceState F) (c : Call F)
      → IsBarrier cfg s.barrier
      → IsBarrier cfg (step cfg s c).barrier × ((step cfg s c).barrier.h ≼ s.barrier.h)
  unfolding step on_iteration_end
  step-IsBarrier cfg s (truth f v) b =
      rw (step, barrier-decide_truth cfg s f v) (b, (num_of_le _ _ b.nonneg).1)
  step-IsBarrier cfg s (iteration_end poll improved) b = elim (Bool-cases (poll && not improved)) [
    | inl e ↦ rw (e, step, on_iteration_end) (tighten_lem cfg s.barrier b)
    | inr e ↦ rw (e, step, on_iteration_end) (b, (num_of_le _ _ b.nonneg).1)
  ]

  -- With numbers that obey IEEE 754, a barrier at or above `h_min` and zero does not rise over any
  -- history of calls, whatever the configuration, and it stays at or above `h_min` and zero.
  pub run-IsBarrier :
      (cfg : AcceptanceConfig F) (s : AcceptanceState F) (cs : List (Call F))
      → IsBarrier cfg s.barrier
      → IsBarrier cfg (run cfg s cs).barrier × ((run cfg s cs).barrier.h ≼ s.barrier.h)
  unfolding run
  run-IsBarrier cfg s [] b = (b, (num_of_le _ _ b.nonneg).1)
  run-IsBarrier cfg s (c ∷ cs) b =
      let (b1, le1) = step-IsBarrier cfg s c b in
      let (b2, le2) = run-IsBarrier cfg (step cfg s c) cs b1 in (b2, le_trans _ _ _ le2 le1)
