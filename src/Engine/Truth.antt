-- ===== src/Engine/Truth.antt =====
-- The verdict of a TRUTH result: feasible exactly when the violation is zero.
use imads.Prelude.{◌≡◌, refl, ◌↔◌, true, some, List, [], ◌∷◌, arith, All, All-map}
use imads.Float.{Float, IsIeee, IsNum, ◌≼◌, fmax}
use imads.Float.Laws.{le-fmax_left, le-fmax_right, fmax-le, fmax-IsNum}
use imads.Types.{Phi, Estimates}
use imads.Evaluator.{Evaluator, compute_estimates}
use imads.Evaluator.Finite.{compute_estimates-IsSummary}
use imads.Engine.Steps.{all_met, violation}

module _ {F : Type 0} ⦃d : Float F⦄ (laws : IsIeee F) where
  open d use {nought}
  open laws use {le_trans, num_of_le, nought_le_one, num_of_finite}

  nought-IsNum : IsNum nought
  nought-IsNum = (num_of_le _ _ nought_le_one).0

  all_met-All : (c : List F) → all_met c ≡ true → All (λ cj. cj ≼ nought) c
  all_met-All [] h = tt
  all_met-All (cj ∷ c) h = (ground arith, all_met-All c (ground arith))

  All-all_met : (c : List F) → All (λ cj. cj ≼ nought) c → all_met c ≡ true
  All-all_met [] h = refl
  All-all_met (cj ∷ c) h = rw (h.0, All-all_met c h.1)

  -- The running maximum of a list bounds where it starts and every number in the list.
  violation_bounds :
      (acc : F) (c : List F)
      → IsNum acc
      → All IsNum c
      → (acc ≼ violation acc c) × All (λ cj. cj ≼ violation acc c) c
  violation_bounds acc [] n h = (n, tt)
  violation_bounds acc (cj ∷ c) n h =
      let top = fmax cj nought in
      let m : IsNum top = fmax-IsNum laws cj nought nought-IsNum in
      let (le, rest) = violation_bounds (fmax acc top) c (fmax-IsNum laws acc top m) h.1 in
      (
        le_trans _ _ _ (le-fmax_left laws acc top n) le,
        (
          le_trans _ _ _ (le-fmax_left laws cj nought h.0)
              (le_trans _ _ _ (le-fmax_right laws acc top m) le),
          rest,
        ),
      )

  -- It is no more than a bound of all of them.
  violation-le :
      (acc : F) (c : List F) → acc ≼ nought → All (λ cj. cj ≼ nought) c → violation acc c ≼ nought
  violation-le acc [] h k = h
  violation-le acc (cj ∷ c) h k =
      violation-le (fmax acc (fmax cj nought)) c
        (fmax-le laws acc (fmax cj nought) nought (λ _. h)
          (fmax-le laws cj nought nought (λ _. k.0) nought-IsNum))
        k.1

  feasible_iff_number :
      (c : List F) → All IsNum c → (all_met c ≡ true) ↔ (violation nought c ≼ nought)
  feasible_iff_number c num = (
    (λ h. violation-le nought c nought-IsNum (all_met-All c h)),
    (λ h.
        All-all_met c (
          All-map (λ cj le. le_trans _ _ _ le h) c (violation_bounds nought c nought-IsNum num).1)),
  )

  -- With numbers that obey IEEE 754, for estimates that an evaluation yields, the result says
  -- feasible exactly when its violation is not above zero, which is the test by which the
  -- acceptance policy takes an incumbent.
  pub feasible_iff :
      (ev : Evaluator F) (x : List F) (phi : Phi) (est : Estimates F)
      → compute_estimates ev x phi ≡ some est
      → (all_met est.c_hat ≡ true) ↔ (violation nought est.c_hat ≼ nought)
  feasible_iff ev x phi est h =
      let (_, _, finite, _) = (compute_estimates-IsSummary ev x phi est h).finite in
      feasible_iff_number est.c_hat (All-map (λ cj f. num_of_finite cj f) est.c_hat finite)
