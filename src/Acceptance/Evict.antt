-- ===== src/Acceptance/Evict.antt =====
-- The cap of the filter: a point that it drops again is reported as accepted.
use imads.Prelude.{
  not, ◌≡◌, true, false, ◌∙◌, ap, sym, List, [], ◌∷◌, ◌++◌, arith, All, All-map, length,
  length-append, length-sort_by, retain, retain-All, sort_by, sort_by-snoc, take, take-append, ltb,
}
use imads.Float.{Float}
use imads.Acceptance.{
  AcceptanceConfig, AcceptanceState, FilterPoint, accept, capacity, dominates, is_dominated,
  point_le, shrink_to_cap, filter_insert, decide_truth,
}
use imads.Acceptance.Filter.{Incomparable, is_dominated_iff}

module _ {ℓ} {F : Type ℓ} ⦃d : Float F⦄ (cfg : AcceptanceConfig F) where
  -- The violation of `q` is below that of `p`.
  abbrev pub LessViolating : FilterPoint F → FilterPoint F → Type 0
  LessViolating p q = (d.lt q.v p.v ≡ true) × (d.lt p.v q.v ≡ false)

  full-shrink_to_cap :
      (points : List (FilterPoint F)) (p : FilterPoint F)
      → length points ≡ capacity cfg
      → All (LessViolating p) points
      → shrink_to_cap cfg (points ++ p ∷ []) ≡ sort_by point_le points
  unfolding shrink_to_cap
  full-shrink_to_cap points p full less = rw (over, shrink_to_cap, sorted) cut
    where
      over : ltb (capacity cfg) (length (points ++ p ∷ [])) ≡ true
      over = ground (arith, length-append points (p ∷ []), full)

      sorted : sort_by point_le (points ++ p ∷ []) ≡ sort_by point_le points ++ p ∷ []
      sorted = sort_by-snoc point_le p points (All-map (λ q l. ground arith) points less)

      cut : take (capacity cfg) (sort_by point_le points ++ p ∷ []) ≡ sort_by point_le points
      cut =
          ap (λ n. take n (sort_by point_le points ++ p ∷ []))
            (sym full ∙ sym (length-sort_by point_le points))
          ∙ take-append (sort_by point_le points) (p ∷ [])

  filter_insert-evicts :
      (points : List (FilterPoint F)) (p : FilterPoint F)
      → length points ≡ capacity cfg
      → All (Incomparable cfg p) points
      → All (LessViolating p) points
      → filter_insert cfg points p ≡ (true, sort_by point_le points)
  unfolding filter_insert
  filter_insert-evicts points p full inc less =
      rw (free, filter_insert, all_kept, full-shrink_to_cap points p full less)
    where
      free : is_dominated cfg points p ≡ false
      free = (is_dominated_iff cfg points p).1 (All-map (λ q i. i.1) points inc)

      all_kept : retain (λ q. not (dominates p q cfg.eps_f cfg.eps_v)) points ≡ points
      all_kept = retain-All _ points (All-map (λ q i. ground arith) points inc)

  -- If the filter is full, no stored point and the new point dominate one another, and the
  -- violation of the new point is above that of every stored one but not above the barrier, then
  -- the result is accepted and the filter holds only the old points.
  pub decide_truth_evicts :
      (s : AcceptanceState F) (f v : F)
      → let p : FilterPoint F = record { f = f; v = v } in
        d.lt s.barrier.h v ≡ false
        → length s.filter.points ≡ capacity cfg
        → All (Incomparable cfg p) s.filter.points
        → All (LessViolating p) s.filter.points
        → let (s', decision) = decide_truth cfg s f v in
          (decision ≡ accept) × (s'.filter.points ≡ sort_by point_le s.filter.points)
  unfolding decide_truth
  decide_truth_evicts s f v gate full inc less =
      let e = filter_insert-evicts s.filter.points (record { f = f; v = v }) full inc less in
      (rw (gate, decide_truth, e), rw (gate, decide_truth, e))
