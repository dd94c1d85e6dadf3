-- ===== src/Ladder/Staircase.antt =====
-- The staircase goes from the loosest tolerance and the fewest samples to the tightest and the
-- most, one level of one axis at a time.
use imads.Prelude.{
  ℕ, zero, suc, ◌+◌, ◌-◌, ◌≤◌, ◌<◌, ◌≡◌, refl, ap, ◌⊎◌, inl, inr, some, List, [], ◌∷◌, ◌++◌, arith,
  length, length-append, get_or, Any, Pairs, Any-append_left, Any-snoc, ltb, Bool-cases, ltb→lt,
}
use native.Mathlib.Decide.{dec_le}
use native.Mathlib.Numerals.{add-one}
use imads.Types.{Phi, Tau, Smc}
use imads.Ladder.{at_levels, climb}
use imads.Ladder.Chain.{Chain, Chain-snoc, last_or, last_or-snoc, get_or-Pairs}

-- The next step changes one axis: along `fewer` at the same tolerance, or along `looser` with the
-- same samples.
abbrev pub Climbs : (Smc → Smc → Type 0) → (Tau → Tau → Type 0) → Phi → Phi → Type 0
Climbs fewer looser p q =
    ((q.tau ≡ p.tau) × fewer p.smc q.smc) ⊎ ((q.smc ≡ p.smc) × looser p.tau q.tau)

-- No fewer samples at the same tolerance, or no looser tolerance with the same samples.
abbrev pub Refines : Phi → Phi → Type 0
Refines = Climbs (λ x y. x ≤ y) (λ x y. y ≤ x)

-- More samples at the same tolerance, or a tighter tolerance with the same samples.
abbrev pub StrictlyRefines : Phi → Phi → Type 0
StrictlyRefines = Climbs (λ x y. x < y) (λ x y. y < x)

module _ (fewer : Smc → Smc → Type 0) (looser : Tau → Tau → Type 0) (tau : List Tau)
    (smc : List Smc) where
  -- The ladder built so far, when the loop stands at the two indices.
  pub record Built (i_tau i_s : ℕ) (ladder : List Phi) : Type 0 where
    pub rest : List Phi
    pub shape : ladder ≡ at_levels tau smc 0 0 ∷ rest
    pub refined : Chain (Climbs fewer looser) (at_levels tau smc 0 0) rest
    pub top : last_or (at_levels tau smc 0 0) rest ≡ at_levels tau smc i_tau i_s
    pub count : length rest ≡ i_tau + i_s
    pub all_tau : (i : ℕ) → i ≤ i_tau → Any (λ p. p.tau ≡ get_or tau i 0) ladder
    pub all_smc : (i : ℕ) → i ≤ i_s → Any (λ p. p.smc ≡ get_or smc i 0) ladder

  Built-snoc :
      (i_tau i_s j_tau j_s : ℕ) (ladder : List Phi)
      → Built i_tau i_s ladder
      → Climbs fewer looser (at_levels tau smc i_tau i_s) (at_levels tau smc j_tau j_s)
      → j_tau + j_s ≡ i_tau + i_s + 1
      → i_tau ≤ j_tau
      → i_s ≤ j_s
      → Built j_tau j_s (ladder ++ at_levels tau smc j_tau j_s ∷ [])
  Built-snoc i_tau i_s j_tau j_s ladder b r e le_tau le_s = record {
    rest = b.rest ++ next ∷ [];
    shape = ap (λ l. l ++ next ∷ []) b.shape;
    refined = Chain-snoc (Climbs fewer looser) _ b.rest next b.refined (rw b.top r);
    top = last_or-snoc _ b.rest next;
    count = omega (arith, length-append b.rest (next ∷ []), b.count);
    all_tau = λ i h. elim (dec_le i i_tau) [
      | yes old ↦ Any-append_left _ ladder _ (b.all_tau i old)
      | no new ↦
          Any-snoc _ ladder next (ap (λ k. get_or tau k 0) (let e' : j_tau ≡ i = omega arith in e'))
    ];
    all_smc = λ i h. elim (dec_le i i_s) [
      | yes old ↦ Any-append_left _ ladder _ (b.all_smc i old)
      | no new ↦
          Any-snoc _ ladder next (ap (λ k. get_or smc k 0) (let e' : j_s ≡ i = omega arith in e'))
    ];
  }
    where
      next : Phi
      next = at_levels tau smc j_tau j_s

  module _ (loosening : Pairs looser tau) (growing : Pairs fewer smc) where
    up-Built :
        (i_tau i_s : ℕ) (ladder : List Phi)
        → Built i_tau i_s ladder
        → i_s + 1 < length smc
        → Built i_tau (i_s + 1) (ladder ++ at_levels tau smc i_tau (i_s + 1) ∷ [])
    up-Built i_tau i_s ladder b lt =
        Built-snoc i_tau i_s i_tau (i_s + 1) ladder b (inl (refl, more)) (omega arith) (omega arith)
          (omega arith)
      where
        more : fewer (get_or smc i_s 0) (get_or smc (i_s + 1) 0)
        more = rw add-one (get_or-Pairs fewer smc i_s 0 growing (omega arith))

    down-Built :
        (i_tau i_s : ℕ) (ladder : List Phi)
        → Built i_tau i_s ladder
        → i_tau + 1 < length tau
        → Built (i_tau + 1) i_s (ladder ++ at_levels tau smc (i_tau + 1) i_s ∷ [])
    down-Built i_tau i_s ladder b lt =
        Built-snoc i_tau i_s (i_tau + 1) i_s ladder b (inr (refl, tighter)) (omega arith)
          (omega arith) (omega arith)
      where
        tighter : looser (get_or tau i_tau 0) (get_or tau (i_tau + 1) 0)
        tighter = rw add-one (get_or-Pairs looser tau i_tau 0 loosening (omega arith))

    -- Each round takes a level off what is left on some axis, so this fuel is enough, and the loop
    -- ends at the last level of both.
    pub climb_total :
        (fuel i_tau i_s : ℕ) (ladder : List Phi)
        → Built i_tau i_s ladder
        → i_tau < length tau
        → i_s < length smc
        → (length tau - i_tau) + (length smc - i_s) ≤ fuel + 1
        → (out : List Phi) × (climb fuel tau smc i_tau i_s ladder ≡ some out)
          × Built (length tau - 1) (length smc - 1) out
    unfolding climb
    climb_total zero i_tau i_s ladder b lt_tau lt_s h = absurd (omega arith)
    climb_total (suc fuel) i_tau i_s ladder b lt_tau lt_s h =
        elim (Bool-cases (ltb (i_s + 1) (length smc))) [
          | inl up ↦
              let lt_s' = ltb→lt _ _ up in
              let b1 = up-Built i_tau i_s ladder b lt_s' in
              elim (Bool-cases (ltb (i_tau + 1) (length tau))) [
                | inl down ↦
                    let lt_tau' = ltb→lt _ _ down in
                    rw (up, down, climb)
                      (climb_total fuel (i_tau + 1) (i_s + 1) _
                        (down-Built i_tau (i_s + 1) _ b1 lt_tau') lt_tau' lt_s' (omega arith))
                | inr low ↦
                    rw (up, low, climb)
                      (climb_total fuel i_tau (i_s + 1) _ b1 lt_tau lt_s' (omega arith))
              ]
          | inr at_top ↦ elim (Bool-cases (ltb (i_tau + 1) (length tau))) [
            | inl down ↦
                let lt_tau' = ltb→lt _ _ down in
                rw (at_top, down, climb)
                  (climb_total fuel (i_tau + 1) i_s _ (down-Built i_tau i_s ladder b lt_tau')
                    lt_tau' lt_s (omega arith))
            | inr low ↦
                let e_tau : length tau - 1 ≡ i_tau = ground arith in
                let e_s : length smc - 1 ≡ i_s = ground arith in
                (ladder, rw (at_top, low, climb), rw (e_tau, e_s) b)
          ]
        ]
