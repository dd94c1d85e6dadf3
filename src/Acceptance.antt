-- ===== src/Acceptance.antt =====
-- imads-core/src/core/acceptance.rs: the progressive barrier and the filter of TRUTH results.
-- A number of type `F` is an `f64`. `XMesh` is unused by the policy and left out.
pub mod Barrier
pub mod Filter
pub mod Evict
pub mod Incumbent
pub mod Tests
use imads.Prelude.{
  ℕ, Bool, true, false, not, ◌&&◌, ◌||◌, Option, none, some, List, [], ◌∷◌, ◌++◌, if◌then◌else◌,
  ltb, length, take, retain, sort_by,
}
use Prim.Native.Nat.{max}
use imads.Float.{Float, fmax, clamp}

pub record AcceptanceConfig {ℓ} (F : Type ℓ) : Type ℓ where
  pub h0 : F
  pub h_min : F
  pub h_shrink : F
  pub eps_f : F
  pub eps_v : F
  pub filter_cap : ℕ

pub record BarrierState {ℓ} (F : Type ℓ) : Type ℓ where
  pub h : F

pub record FilterPoint {ℓ} (F : Type ℓ) : Type ℓ where
  pub f : F
  pub v : F

pub record FilterState {ℓ} (F : Type ℓ) : Type ℓ where
  pub points : List (FilterPoint F)
  pub incumbent_feasible_f : Option F

pub record AcceptanceState {ℓ} (F : Type ℓ) : Type ℓ where
  pub barrier : BarrierState F
  pub filter : FilterState F

pub data TruthDecision : Type 0 where
  reject accept : TruthDecision

module _ {ℓ} {F : Type ℓ} ⦃d : Float F⦄ where
  open d use {nought, one, is_finite, le, lt, add, sub, mul}

  -- `h_min.max(0.0)`
  abbrev pub barrier_floor : AcceptanceConfig F → F
  barrier_floor cfg = fmax cfg.h_min nought

  pub BarrierState_new : AcceptanceConfig F → BarrierState F
  BarrierState_new cfg =
      let h0 = if not (is_finite cfg.h0) || lt cfg.h0 nought then nought else cfg.h0 in
      record { h = fmax h0 (barrier_floor cfg) }

  pub tighten_on_poll_fail : AcceptanceConfig F → BarrierState F → BarrierState F
  tighten_on_poll_fail cfg b =
      let shrink = clamp cfg.h_shrink nought one in
      let next = mul b.h shrink in record { h = fmax next (barrier_floor cfg) }

  unfoldable pub dominates : FilterPoint F → FilterPoint F → F → F → Bool
  dominates a b eps_f eps_v =
      let ef = fmax eps_f nought in
      let ev = fmax eps_v nought in
      let f_le = le a.f (add b.f ef) in
      let v_le = le a.v (add b.v ev) in
      let f_lt = lt a.f (sub b.f ef) in
      let v_lt = lt a.v (sub b.v ev) in f_le && v_le && (f_lt || v_lt)

  -- The loop at the head of `filter_insert`: some stored point dominates `p`.
  pub is_dominated : AcceptanceConfig F → List (FilterPoint F) → FilterPoint F → Bool
  is_dominated cfg [] p = false
  is_dominated cfg (q ∷ qs) p = dominates q p cfg.eps_f cfg.eps_v || is_dominated cfg qs p

  -- `partial_cmp(..).unwrap_or(Equal)` is not `Greater`, by `v` and then by `f`.
  abbrev pub point_le : FilterPoint F → FilterPoint F → Bool
  point_le a b = if lt a.v b.v then true else if lt b.v a.v then false else not (lt b.f a.f)

  abbrev pub capacity : AcceptanceConfig F → ℕ
  capacity cfg = max cfg.filter_cap 1

  pub shrink_to_cap : AcceptanceConfig F → List (FilterPoint F) → List (FilterPoint F)
  shrink_to_cap cfg points =
      if ltb (capacity cfg) (length points)
      then take (capacity cfg) (sort_by point_le points)
      else points

  pub filter_insert :
      AcceptanceConfig F → List (FilterPoint F) → FilterPoint F → Bool × List (FilterPoint F)
  filter_insert cfg points p =
      let kept = retain (λ q. not (dominates p q cfg.eps_f cfg.eps_v)) points in
      if is_dominated cfg points p
      then (false, points)
      else (true, shrink_to_cap cfg (kept ++ p ∷ []))

  pub AcceptanceState_new : AcceptanceConfig F → AcceptanceState F
  AcceptanceState_new cfg = record {
    barrier = BarrierState_new cfg;
    filter = record { points = []; incumbent_feasible_f = none };
  }

  abbrev pub better_incumbent : Option F → F → Option F
  better_incumbent none f = some f
  better_incumbent (some best) f = if lt f best then some f else some best

  pub decide_truth :
      AcceptanceConfig F → AcceptanceState F → F → F → AcceptanceState F × TruthDecision
  decide_truth cfg s f v =
      let old = s.filter.incumbent_feasible_f in
      let incumbent = if le v nought then better_incumbent old f else old in
      let (accepted, points) = filter_insert cfg s.filter.points (record { f = f; v = v }) in
      let s' : AcceptanceState F = record s {
        filter = record { points = points; incumbent_feasible_f = incumbent };
      } in
      if lt s.barrier.h v then (s, reject) else (s', (if accepted then accept else reject))

  pub on_iteration_end : AcceptanceConfig F → AcceptanceState F → Bool → Bool → AcceptanceState F
  on_iteration_end cfg s poll_attempted iter_improved =
      if poll_attempted && not iter_improved
      then record s { barrier = tighten_on_poll_fail cfg s.barrier }
      else s

-- The two ways in which the engine calls the policy.
pub data Call {ℓ} (F : Type ℓ) : Type ℓ where
  truth : F → F → Call F
  iteration_end : Bool → Bool → Call F

module _ {ℓ} {F : Type ℓ} ⦃d : Float F⦄ where
  pub step : AcceptanceConfig F → AcceptanceState F → Call F → AcceptanceState F
  step cfg s (truth f v) = (decide_truth cfg s f v).0
  step cfg s (iteration_end poll improved) = on_iteration_end cfg s poll improved

  pub run : AcceptanceConfig F → AcceptanceState F → List (Call F) → AcceptanceState F
  run cfg s [] = s
  run cfg s (c ∷ cs) = run cfg (step cfg s c) cs
