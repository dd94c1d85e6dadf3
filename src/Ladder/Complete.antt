-- ===== src/Ladder/Complete.antt =====
-- `build_ladder` from the given levels: total, from the coarsest step to the finest, and complete.
use native.Mathlib.Nat.{le_refl, le_trans}
use mathlib.Core.Option.{some-injective}
use imads.Prelude.{
  ℕ, suc, ◌+◌, ◌-◌, ◌≤◌, ◌<◌, ◌≡◌, ◌≢◌, refl, sym, subst, some, List, [], ◌∷◌, arith, length,
  length-reverse, length-sort_by, get_or, ◌∙◌, All, All-map, All-both, Any, here, Pairs,
  Pairs-reverse, Pairs-sort_by, All-of_reverse, All-of_sort_by, All-of_get_or, sort_by-Sorted, leb,
  leb→le, sort_by, reverse,
}
use imads.Types.{Phi, Tau, Smc}
use imads.Ladder.{at_levels, build_ladder}
use imads.Ladder.Chain.{Chain, last_or, get_or-All}
use imads.Ladder.Staircase.{Climbs, Refines, StrictlyRefines, Built, climb_total}

abbrev loose_first : List Tau → List Tau
loose_first levels = reverse (sort_by leb levels)

abbrev few_first : List Smc → List Smc
few_first levels = sort_by leb levels

sorted : (xs : List ℕ) → Pairs (λ x y. x ≤ y) (sort_by leb xs)
sorted =
    sort_by-Sorted (λ x y. x ≤ y) leb (λ x y e. leb→le x y e) (λ x y e. ground arith)
      (λ x y z p q. le_trans p q)

abbrev pub AreDistinct : List ℕ → Type 0
AreDistinct = Pairs (λ x y. x ≢ y)

strict_pairs : (xs : List ℕ) → Pairs (λ x y. x ≤ y) xs → AreDistinct xs → Pairs (λ x y. x < y) xs
strict_pairs [] p q = tt
strict_pairs (x ∷ xs) p q = (
  All-map (λ y h. let (le, ne) = h in omega arith) xs (All-both _ _ xs p.0 q.0),
  strict_pairs xs p.1 q.1,
)

strictly_sorted : (xs : List ℕ) → AreDistinct xs → Pairs (λ x y. x < y) (sort_by leb xs)
strictly_sorted xs distinct =
    strict_pairs (sort_by leb xs) (sorted xs)
      (Pairs-sort_by (λ x y. x ≢ y) (λ x y h e. h (sym e)) leb xs distinct)

-- In a sorted list the first and the last are the bounds.
first_bounds :
    (R : ℕ → ℕ → Type 0) (same : (x : ℕ) → R x x) (xs : List ℕ)
    → Pairs R xs
    → All (R (get_or xs 0 0)) xs
first_bounds R same [] p = tt
first_bounds R same (x ∷ xs) p = (same x, p.0)

last_bounds :
    (R : ℕ → ℕ → Type 0) (same : (x : ℕ) → R x x) (xs : List ℕ)
    → Pairs R xs
    → All (λ x. R x (get_or xs (length xs - 1) 0)) xs
last_bounds R same [] p = tt
last_bounds R same (x ∷ []) p = (same x, tt)
last_bounds R same (x ∷ y ∷ ys) p =
    let e : suc (suc (length ys)) - 1 ≡ suc (length ys) = omega arith in
    let e' : suc (length ys) - 1 ≡ length ys = omega arith in
    subst (λ n. All (λ z. R z (get_or (x ∷ y ∷ ys) n 0)) (x ∷ y ∷ ys)) (sym e)
      (
        get_or-All (R x) (y ∷ ys) (length ys) 0 p.0 (omega arith),
        subst (λ n. All (λ z. R z (get_or (y ∷ ys) n 0)) (y ∷ ys)) e'
            (last_bounds R same (y ∷ ys) p.1),
      )

abbrev pub HasTau : List Phi → Tau → Type 0
HasTau ladder x = Any (λ p. p.tau ≡ x) ladder

abbrev pub HasSmc : List Phi → Smc → Type 0
HasSmc ladder x = Any (λ p. p.smc ≡ x) ladder

-- The two ends of a ladder bound the levels of both axes.
abbrev Bounds : List Tau → List Smc → Phi → Phi → Type 0
Bounds tau smc first last =
    All (λ x. (last.tau ≤ x) × (x ≤ first.tau)) tau
    × All (λ x. (first.smc ≤ x) × (x ≤ last.smc)) smc

abbrev Ends : List Tau → List Smc → List Phi → Type 0
Ends tau smc [] = Unit
Ends tau smc (first ∷ rest) = Bounds tau smc first (last_or first rest)

module _ (t : Tau) (ts : List Tau) (s : Smc) (ss : List Smc) where
  unsort_tau : (P : Tau → Type 0) → All P (loose_first (t ∷ ts)) → All P (t ∷ ts)
  unsort_tau P h = All-of_sort_by P leb (t ∷ ts) (All-of_reverse P (sort_by leb (t ∷ ts)) h)

  module _ (fewer : Smc → Smc → Type 0) (looser : Tau → Tau → Type 0)
      (loosening : Pairs looser (loose_first (t ∷ ts)))
      (growing : Pairs fewer (few_first (s ∷ ss))) where
    built :
        (out : List Phi) × (build_ladder (t ∷ ts) (s ∷ ss) ≡ some out)
        × Built fewer looser
            (loose_first (t ∷ ts))
            (few_first (s ∷ ss))
            (length (loose_first (t ∷ ts)) - 1)
            (length (few_first (s ∷ ss)) - 1)
            out
    unfolding build_ladder
    built =
        climb_total fewer looser tau smc loosening growing (length tau + length smc) 0 0
          (at_levels tau smc 0 0 ∷ [])
          (record {
            rest = [];
            shape = refl;
            refined = tt;
            top = refl;
            count = omega arith;
            all_tau = λ i h. here (
                let e : 0 ≡ i = omega arith in subst (λ k. get_or tau 0 0 ≡ get_or tau k 0) e refl);
            all_smc = λ i h. here (
                let e : 0 ≡ i = omega arith in subst (λ k. get_or smc 0 0 ≡ get_or smc k 0) e refl);
          })
          (omega (arith, length-reverse (sort_by leb (t ∷ ts)), length-sort_by leb (t ∷ ts)))
          (omega (arith, length-sort_by leb (s ∷ ss))) (omega arith)
      where
        tau : List Tau
        tau = loose_first (t ∷ ts)

        smc : List Smc
        smc = few_first (s ∷ ss)

    climbs :
        (first : Phi) × (rest : List Phi) × (build_ladder (t ∷ ts) (s ∷ ss) ≡ some (first ∷ rest))
        × Chain (Climbs fewer looser) first rest
        × (length (first ∷ rest) + 1 ≡ length (t ∷ ts) + length (s ∷ ss))
    climbs =
        let (out, e, b) = built in
        (
          at_levels (loose_first (t ∷ ts)) (few_first (s ∷ ss)) 0 0,
          b.rest,
          rw (← b.shape) e,
          b.refined,
          omega (
            arith,
            b.count,
            length-reverse (sort_by leb (t ∷ ts)),
            length-sort_by leb (t ∷ ts),
            length-sort_by leb (s ∷ ss),
          ),
        )

  loosening : Pairs (λ x y. y ≤ x) (loose_first (t ∷ ts))
  loosening = Pairs-reverse _ _ (sorted (t ∷ ts))

  -- From levels on both axes, equal ones among them or not, each step of the ladder is no looser
  -- than the one before.
  pub build_ladder-Refines :
      (first : Phi) × (rest : List Phi) × (build_ladder (t ∷ ts) (s ∷ ss) ≡ some (first ∷ rest))
      × Chain Refines first rest
  build_ladder-Refines =
      let (first, rest, e, c, _) = climbs _ _ loosening (sorted (s ∷ ss)) in (first, rest, e, c)

  -- From levels on both axes, on each of which they are pairwise distinct, a ladder is built. Each
  -- step changes one axis and keeps the other: to a tighter tolerance, or to more samples. There is
  -- one step fewer than levels.
  pub build_ladder-Chain :
      AreDistinct (t ∷ ts)
      → AreDistinct (s ∷ ss)
      → (first : Phi) × (rest : List Phi) × (build_ladder (t ∷ ts) (s ∷ ss) ≡ some (first ∷ rest))
        × Chain StrictlyRefines first rest
        × (length (first ∷ rest) + 1 ≡ length (t ∷ ts) + length (s ∷ ss))
  build_ladder-Chain tau_distinct smc_distinct =
      climbs _ _ (Pairs-reverse _ _ (strictly_sorted (t ∷ ts) tau_distinct))
        (strictly_sorted (s ∷ ss) smc_distinct)

  -- The first step has the loosest tolerance and the fewest samples of all levels, and the last one
  -- the tightest tolerance and the most samples.
  pub build_ladder_ends :
      (first : Phi) (rest : List Phi)
      → build_ladder (t ∷ ts) (s ∷ ss) ≡ some (first ∷ rest)
      → All (λ x. ((last_or first rest).tau ≤ x) × (x ≤ first.tau)) (t ∷ ts)
        × All (λ x. (first.smc ≤ x) × (x ≤ (last_or first rest).smc)) (s ∷ ss)
  build_ladder_ends first rest h =
      let (out, e, b) = built _ _ loosening (sorted (s ∷ ss)) in
      subst (Ends (t ∷ ts) (s ∷ ss)) (sym b.shape ∙ some-injective _ _ (sym e ∙ h)) (
        subst (Bounds (t ∷ ts) (s ∷ ss) _) (sym b.top) (
          unsort_tau _ (
              All-both _ _ tau (last_bounds _ le_refl tau loosening)
                (first_bounds _ le_refl tau loosening)),
          All-of_sort_by _ leb (s ∷ ss) (
              All-both _ _ smc (first_bounds _ le_refl smc growing)
                (last_bounds _ le_refl smc growing)),
        ))
    where
      tau : List Tau
      tau = loose_first (t ∷ ts)

      smc : List Smc
      smc = few_first (s ∷ ss)

      growing : Pairs (λ x y. x ≤ y) smc
      growing = sorted (s ∷ ss)

  -- Every level of either axis occurs on the ladder.
  pub build_ladder_covers :
      (ladder : List Phi)
      → build_ladder (t ∷ ts) (s ∷ ss) ≡ some ladder
      → All (HasTau ladder) (t ∷ ts) × All (HasSmc ladder) (s ∷ ss)
  build_ladder_covers ladder h =
      let (out, e, b) = built _ _ loosening (sorted (s ∷ ss)) in
      subst (λ l. All (HasTau l) (t ∷ ts) × All (HasSmc l) (s ∷ ss))
        (some-injective _ _ (sym e ∙ h))
        (
          unsort_tau _ (All-of_get_or _ (loose_first (t ∷ ts)) 0 λ i lt. b.all_tau i (omega arith)),
          All-of_sort_by _ leb (s ∷ ss)
              (All-of_get_or _ (few_first (s ∷ ss)) 0 λ i lt. b.all_smc i (omega arith)),
        )
