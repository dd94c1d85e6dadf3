-- ===== src/Acceptance/Filter.antt =====
-- The filter of `DefaultAcceptance`: what is accepted, and what the stored points have in common.
use imads.Prelude.{
  Bool, false, not, ◌&&◌, ◌≡◌, refl, ◌≤◌, ◌↔◌, inl, inr, List, [], ◌∷◌, ◌++◌, arith, Bool-cases,
  length, length-take, ltb, retain, sort_by, All, Pairs, All-retain_of, All-retain, All-both,
  All-append, All-take, All-sort_by, Pairs-retain, Pairs-snoc, Pairs-sort_by, Pairs-take,
}
use imads.Float.{Float, IsIeee, ◌≼◌}
use imads.Acceptance.Barrier.{IsBarrier, step-IsBarrier}
use imads.Acceptance.{
  AcceptanceConfig, AcceptanceState, FilterPoint, Call, truth, iteration_end, accept, reject,
  capacity, dominates, is_dominated, point_le, shrink_to_cap, filter_insert, decide_truth,
  on_iteration_end, step, run,
}

module _ {ℓ} {F : Type ℓ} ⦃d : Float F⦄ where
  -- Neither point dominates the other, within the slack of the configuration.
  abbrev pub Incomparable : AcceptanceConfig F → FilterPoint F → FilterPoint F → Type 0
  Incomparable cfg a b =
      (dominates a b cfg.eps_f cfg.eps_v ≡ false) × (dominates b a cfg.eps_f cfg.eps_v ≡ false)

  abbrev pub Undominated : AcceptanceConfig F → List (FilterPoint F) → FilterPoint F → Type 0
  Undominated cfg points p = All (λ q. dominates q p cfg.eps_f cfg.eps_v ≡ false) points

  pub is_dominated_iff :
      (cfg : AcceptanceConfig F) (points : List (FilterPoint F)) (p : FilterPoint F)
      → (is_dominated cfg points p ≡ false) ↔ Undominated cfg points p
  unfolding is_dominated
  is_dominated_iff cfg [] p = (λ _. tt, λ _. refl)
  is_dominated_iff cfg (q ∷ qs) p =
      let (to, from) = is_dominated_iff cfg qs p in
      (λ e. ground (arith, to), λ h. ground (arith, from h.1))

  -- What holds of the stored points: pairwise incomparable, no more than the cap, and each let
  -- through by a barrier that stood no higher than `top`.
  pub record IsFilter (cfg : AcceptanceConfig F) (top : F) (points : List (FilterPoint F))
      : Type 0 where
    pub incomparable : Pairs (Incomparable cfg) points
    pub capped : length points ≤ capacity cfg
    pub gated : All (λ q. d.lt top q.v ≡ false) points

  module _ (cfg : AcceptanceConfig F) where
    abbrev kept : FilterPoint F → List (FilterPoint F) → List (FilterPoint F)
    kept p = retain (λ q. not (dominates p q cfg.eps_f cfg.eps_v))

    snoc-Incomparable :
        (points : List (FilterPoint F)) (p : FilterPoint F)
        → Pairs (Incomparable cfg) points
        → Undominated cfg points p
        → Pairs (Incomparable cfg) (kept p points ++ p ∷ [])
    snoc-Incomparable points p pairs free =
        Pairs-snoc (Incomparable cfg) (kept p points) p
          (Pairs-retain (Incomparable cfg) keep points pairs)
          (All-both _ _ (kept p points) (All-retain _ keep points free)
            (All-retain_of _ keep (λ q e. ground arith) points))
      where
        keep : FilterPoint F → Bool
        keep q = not (dominates p q cfg.eps_f cfg.eps_v)

    shrink_to_cap-Incomparable :
        (points : List (FilterPoint F))
        → Pairs (Incomparable cfg) points
        → Pairs (Incomparable cfg) (shrink_to_cap cfg points)
    unfolding shrink_to_cap
    shrink_to_cap-Incomparable points pairs =
        elim (Bool-cases (ltb (capacity cfg) (length points))) [
          | inl e ↦
              rw (e, shrink_to_cap)
                (Pairs-take _ (capacity cfg) (sort_by point_le points)
                  (Pairs-sort_by (Incomparable cfg) (λ x y r. (r.1, r.0)) point_le points pairs))
          | inr e ↦ rw (e, shrink_to_cap) pairs
        ]

    length-shrink_to_cap :
        (points : List (FilterPoint F)) → length (shrink_to_cap cfg points) ≤ capacity cfg
    unfolding shrink_to_cap
    length-shrink_to_cap points =
        ground (arith, length-take (capacity cfg) (sort_by point_le points))

    shrink_to_cap-All :
        (P : FilterPoint F → Type 0) (points : List (FilterPoint F))
        → All P points
        → All P (shrink_to_cap cfg points)
    unfolding shrink_to_cap
    shrink_to_cap-All P points h = elim (Bool-cases (ltb (capacity cfg) (length points))) [
      | inl e ↦
          rw (e, shrink_to_cap)
            (All-take P (capacity cfg) (sort_by point_le points) (All-sort_by P point_le points h))
      | inr e ↦ rw (e, shrink_to_cap) h
    ]

    filter_insert-IsFilter :
        (top : F) (points : List (FilterPoint F)) (p : FilterPoint F)
        → IsFilter cfg top points
        → d.lt top p.v ≡ false
        → IsFilter cfg top (filter_insert cfg points p).1
    unfolding filter_insert
    filter_insert-IsFilter top points p w gate = elim (Bool-cases (is_dominated cfg points p)) [
      | inl e ↦ rw (e, filter_insert) w
      | inr e ↦
          rw (e, filter_insert)
            (record {
              incomparable =
                  shrink_to_cap-Incomparable _ (
                    snoc-Incomparable points p w.incomparable
                      ((is_dominated_iff cfg points p).0 e));
              capped = length-shrink_to_cap _;
              gated = shrink_to_cap-All _ _ (
                  All-append _ (kept p points) (p ∷ []) (All-retain _ _ points w.gated) (gate, tt));
            })
    ]

    -- A TRUTH result is accepted exactly when the barrier lets it through and no stored point
    -- dominates it. A rejected one leaves the stored points and the barrier as they were.
    pub decide_truth_iff :
        (s : AcceptanceState F) (f v : F)
        → let p : FilterPoint F = record { f = f; v = v } in
          let (s', decision) = decide_truth cfg s f v in
          ((decision ≡ accept) ↔ ((d.lt s.barrier.h v ≡ false) × Undominated cfg s.filter.points p))
          × (decision ≡ reject → s'.filter.points ≡ s.filter.points)
          × (s'.barrier ≡ s.barrier)
    unfolding decide_truth filter_insert
    decide_truth_iff s f v =
        let p : FilterPoint F = record { f = f; v = v } in
        let (to, from) = is_dominated_iff cfg s.filter.points p in
        (
          (λ e. (ground arith, to (ground arith)), λ (g, u). ground (arith, from u)),
          λ e. ground arith,
          ground arith,
        )

-- The gate of a call, read at a barrier that stands higher.
module _ {ℓ} {F : Type ℓ} ⦃d : Float F⦄ (laws : IsIeee F) where
  open laws use {le_trans, lt-eq}

  gate_mono : (h top v : F) → h ≼ top → d.lt h v ≡ false → d.lt top v ≡ false
  gate_mono h top v le g =
      ground (arith, lt-eq h v, lt-eq top v, le_trans h top v le, le_trans v h top)

  step-IsFilter :
      (cfg : AcceptanceConfig F) (top : F) (s : AcceptanceState F) (c : Call F)
      → s.barrier.h ≼ top
      → IsFilter cfg top s.filter.points
      → IsFilter cfg top (step cfg s c).filter.points
  unfolding step decide_truth on_iteration_end
  step-IsFilter cfg top s (truth f v) le w = elim (Bool-cases (d.lt s.barrier.h v)) [
    | inl e ↦ rw (e, step, decide_truth) w
    | inr e ↦
        rw (e, step, decide_truth)
          (filter_insert-IsFilter cfg top s.filter.points _ w (gate_mono s.barrier.h top v le e))
  ]
  step-IsFilter cfg top s (iteration_end poll improved) le w =
      elim (Bool-cases (poll && not improved)) [
        | inl e ↦ rw (e, step, on_iteration_end) w
        | inr e ↦ rw (e, step, on_iteration_end) w
      ]

  -- With numbers that obey IEEE 754, from a state whose barrier is valid and at most `top` and
  -- whose filter is as follows, the filter holds over any history of calls at most `max(filter_cap,
  -- 1)` points, no two of which dominate one another, and no point whose violation is above `top`.
  pub run-IsFilter :
      (cfg : AcceptanceConfig F) (top : F) (s : AcceptanceState F) (cs : List (Call F))
      → IsBarrier laws cfg s.barrier
      → s.barrier.h ≼ top
      → IsFilter cfg top s.filter.points
      → IsFilter cfg top (run cfg s cs).filter.points
  unfolding run
  run-IsFilter cfg top s [] b le w = w
  run-IsFilter cfg top s (c ∷ cs) b le w =
      let (b', le') = step-IsBarrier laws cfg s c b in
      run-IsFilter cfg top (step cfg s c) cs b' (le_trans _ _ _ le' le)
        (step-IsFilter cfg top s c le w)
