-- ===== src/Ladder.antt =====
-- imads-core/src/policies/ladder.rs: the staircase ladder.
pub mod Chain
pub mod Staircase
pub mod Complete
pub mod Tests
use imads.Prelude.{
  ℕ, zero, suc, ◌+◌, Bool, true, false, Option, none, some, List, [], ◌∷◌, ◌++◌, if◌then◌else◌, ltb,
  leb, ◌||◌, length, get_or, sort_by, reverse,
}
use imads.Types.{Phi, Tau, Smc}

abbrev pub at_levels : List Tau → List Smc → ℕ → ℕ → Phi
at_levels tau smc i_tau i_s = record { tau = get_or tau i_tau 0; smc = get_or smc i_s 0 }

-- The first half of a round: one step along the sample counts, if there is one.
abbrev pub raise_smc : List Tau → List Smc → ℕ → ℕ → List Phi → ℕ × List Phi
raise_smc tau smc i_tau i_s ladder =
    if ltb (i_s + 1) (length smc)
    then (i_s + 1, ladder ++ at_levels tau smc i_tau (i_s + 1) ∷ [])
    else (i_s, ladder)

-- The second half: one step along the tolerances, if there is one.
abbrev pub tighten_tau : List Tau → List Smc → ℕ → ℕ → List Phi → ℕ × List Phi
tighten_tau tau smc i_tau i_s ladder =
    if ltb (i_tau + 1) (length tau)
    then (i_tau + 1, ladder ++ at_levels tau smc (i_tau + 1) i_s ∷ [])
    else (i_tau, ladder)

-- The `while` loop; `none` is fuel that ran out.
pub climb : ℕ → List Tau → List Smc → ℕ → ℕ → List Phi → Option (List Phi)
climb zero tau smc i_tau i_s ladder = none
climb (suc fuel) tau smc i_tau i_s ladder =
    let (i_s', ladder1) = raise_smc tau smc i_tau i_s ladder in
    let (i_tau', ladder2) = tighten_tau tau smc i_tau i_s' ladder1 in
    let rest = climb fuel tau smc i_tau' i_s' ladder2 in
    if ltb (i_tau + 1) (length tau) || ltb (i_s + 1) (length smc) then rest else some ladder

-- `none` is a failed assertion: a list of levels is empty.
pub build_ladder : List Tau → List Smc → Option (List Phi)
build_ladder [] smc_levels = none
build_ladder (t ∷ ts) [] = none
build_ladder (t ∷ ts) (s ∷ ss) =
    let tau = reverse (sort_by leb (t ∷ ts)) in
    let smc = sort_by leb (s ∷ ss) in
    climb (length tau + length smc) tau smc 0 0 (at_levels tau smc 0 0 ∷ [])
