-- ===== src/Ladder/Tests.antt =====
-- The staircase of the default levels in one dimension.
use imads.Prelude.{arith, ◌≤◌, All, ◌+◌, ◌≡◌, refl, some, List, [], ◌∷◌, length, sort_by, insert_by}
use imads.Types.{Phi, Tau, Smc}
use imads.Ladder.{climb, build_ladder}
use imads.Ladder.Chain.{Chain}
use imads.Ladder.Staircase.{StrictlyRefines}
use imads.Ladder.Complete.{
  HasTau, HasSmc, build_ladder-Chain, build_ladder_ends, build_ladder_covers,
}

abbrev phi : Tau → Smc → Phi
phi t s = record { tau = t; smc = s }

abbrev stairs : List Phi
stairs = phi 100 8 ∷ phi 100 32 ∷ phi 10 32 ∷ phi 10 128 ∷ phi 1 128 ∷ []

-- The levels may come in any order.
build_stairs : build_ladder (10 ∷ 100 ∷ 1 ∷ []) (32 ∷ 8 ∷ 128 ∷ []) ≡ some stairs
unfolding build_ladder climb sort_by insert_by
build_stairs = refl

build_ladder-Chain_example :
    (first : Phi) × (rest : List Phi) × (build_ladder (10 ∷ 100 ∷ 1 ∷ []) (32 ∷ 8 ∷ 128 ∷ [])
      ≡ some (first ∷ rest))
    × Chain StrictlyRefines first rest
    × (length (first ∷ rest) + 1 ≡ 6)
build_ladder-Chain_example =
    build_ladder-Chain 10 (100 ∷ 1 ∷ []) 32 (8 ∷ 128 ∷ [])
      ((omega arith, (omega arith, tt)), ((omega arith, tt), (tt, tt)))
      ((omega arith, (omega arith, tt)), ((omega arith, tt), (tt, tt)))

build_ladder_ends_example :
    All (λ x. (1 ≤ x) × (x ≤ 100)) (10 ∷ 100 ∷ 1 ∷ [])
    × All (λ x. (8 ≤ x) × (x ≤ 128)) (32 ∷ 8 ∷ 128 ∷ [])
build_ladder_ends_example =
    build_ladder_ends 10 (100 ∷ 1 ∷ []) 32 (8 ∷ 128 ∷ []) (phi 100 8)
      (phi 100 32 ∷ phi 10 32 ∷ phi 10 128 ∷ phi 1 128 ∷ []) build_stairs

build_ladder_covers_example :
    All (HasTau stairs) (10 ∷ 100 ∷ 1 ∷ []) × All (HasSmc stairs) (32 ∷ 8 ∷ 128 ∷ [])
build_ladder_covers_example =
    build_ladder_covers 10 (100 ∷ 1 ∷ []) 32 (8 ∷ 128 ∷ []) stairs build_stairs
