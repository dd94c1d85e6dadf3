-- ===== src/Engine/Ready/Order.antt =====
-- What the default scheduler picks from the Ready view, and what it leaves.
use Prim.Native.Nat.{min, max}
use imads.Prelude.{
  ℕ, zero, suc, ◌≡◌, ◌∙◌, refl, ap, length-map, length-take, true, false, ◌||◌, some, List, [], ◌∷◌,
  map, arith, leb, tests, length, take, drop, sort_by, All, Pairs, Bool-cases, inl, inr, Any, here,
  there, All-map, subst, insert_by, leb→le, length-sort_by, All-of_sort_by, sort_by-Sorted_on,
}
use imads.Float.{Float, IsIeee, IsNum}
use imads.Engine.Ready.{ReadyCandidateView, all_scored, before, sort_scored, select_next}

module _ {F : Type 0} ⦃d : Float F⦄ (laws : IsIeee F) {A : Type 0} (score : A → F)
    (id : A → ℕ) where
  open laws use {num_of_le, le_trans, le_total, lt-eq}

  -- `a` goes before `b`: its score is less, or it is equal and its id is not greater.
  abbrev pub Before : A → A → Type 0
  Before a b = before score id a b ≡ true

  Before-trans : (a b c : A) → Before a b → Before b c → Before a c
  Before-trans a b c h k = grind (
    tests,
    lt-eq (score a) (score b),
    lt-eq (score b) (score c),
    lt-eq (score a) (score c),
    le_trans (score a) (score b) (score c),
    le_trans (score c) (score a) (score b),
    le_trans (score b) (score c) (score a),
  )

  not_before :
      (a b : A) → IsNum (score a) → IsNum (score b) → before score id a b ≡ false → Before b a
  not_before a b m n h = grind (
    tests,
    lt-eq (score a) (score b),
    lt-eq (score b) (score a),
    le_total (score a) (score b) m n,
  )

  all_scored-All : (xs : List A) → all_scored score xs ≡ true → All (λ x. IsNum (score x)) xs
  all_scored-All [] h = tt
  all_scored-All (x ∷ xs) h = (ground arith, all_scored-All xs (ground arith))

  sort_by-InOrder :
      (xs : List A)
      → (leb (length xs) 1 || all_scored score xs) ≡ true
      → Pairs Before (sort_by (before score id) xs)
  unfolding sort_by insert_by
  sort_by-InOrder [] h = tt
  sort_by-InOrder (x ∷ []) h = (tt, tt)
  sort_by-InOrder (x ∷ y ∷ xs) h =
      sort_by-Sorted_on (λ a. IsNum (score a)) Before (before score id) (λ a b e. e) not_before
        Before-trans (x ∷ y ∷ xs)
        (all_scored-All (x ∷ y ∷ xs) (ground (arith, leb→le (suc (suc (length xs))) 1)))

  -- The sorted list is in order, and has every element.
  pub record Arranged (xs sorted : List A) : Type 0 where
    pub in_order : Pairs Before sorted
    pub same_length : length sorted ≡ length xs
    pub complete : All (λ x. Any (λ y. y ≡ x) sorted) xs

  All-self : (xs : List A) → All (λ x. Any (λ y. y ≡ x) xs) xs
  All-self [] = tt
  All-self (x ∷ xs) = (here refl, All-map (λ y a. there a) xs (All-self xs))

  pub sort_scored-Arranged :
      (xs sorted : List A) → sort_scored score id xs ≡ some sorted → Arranged xs sorted
  unfolding sort_scored
  sort_scored-Arranged xs sorted h = elim (Bool-cases (leb (length xs) 1 || all_scored score xs)) [
    | inl ok ↦
        let e : sort_by (before score id) xs ≡ sorted = ground arith in
        subst (Arranged xs) e (record {
          in_order = sort_by-InOrder xs ok;
          same_length = length-sort_by (before score id) xs;
          complete =
              All-of_sort_by (λ x. Any (λ y. y ≡ x) (sort_by (before score id) xs))
                (before score id) xs (All-self (sort_by (before score id) xs));
        })
    | inr bad ↦ absurd (ground arith)
  ]

module _ {A : Type 0} (R : A → A → Type 0) where
  All-drop : (P : A → Type 0) (n : ℕ) (xs : List A) → All P xs → All P (drop n xs)
  All-drop P zero xs h = h
  All-drop P (suc n) [] h = tt
  All-drop P (suc n) (x ∷ xs) h = All-drop P n xs h.1

  -- In an ordered list the first `n` go before the others.
  All-take : (n : ℕ) (xs : List A) → Pairs R xs → All (λ a. All (R a) (drop n xs)) (take n xs)
  All-take zero xs p = tt
  All-take (suc n) [] p = tt
  All-take (suc n) (x ∷ xs) p = (All-drop (R x) n xs p.0, All-take n xs p.1)

module _ {F : Type 0} ⦃d : Float F⦄ (laws : IsIeee F) where
  -- The choice of the picked candidates and the others.
  pub record Picks (workers : ℕ) (view sorted : List (ReadyCandidateView F)) : Type 0 where
    pub ids : select_next workers sorted ≡ map (λ v. v.id) (take (max workers 1) sorted)
    pub count : length (select_next workers sorted) ≡ min (max workers 1) (length view)
    pub first :
        All
          (λ a. All (Before laws (λ v. v.score) (λ v. v.id) a) (drop (max workers 1) sorted))
          (take (max workers 1) sorted)
    pub arranged : Arranged laws (λ v. v.score) (λ v. v.id) view sorted

  -- With numbers that obey IEEE 754, when the Ready view has been sorted, the default scheduler
  -- picks as many candidates as there are workers, one if there are none, or all where fewer are
  -- ready. Each picked one has a lower score, or the same score and no greater id, than each one
  -- that it leaves; the sorted view is as long as the view and has every candidate of it.
  pub select_next-Picks :
      (workers : ℕ) (view sorted : List (ReadyCandidateView F))
      → sort_scored (λ v. v.score) (λ v. v.id) view ≡ some sorted
      → Picks workers view sorted
  unfolding select_next
  select_next-Picks workers view sorted h =
      let a = sort_scored-Arranged laws (λ v. v.score) (λ v. v.id) view sorted h in
      record {
        ids = refl;
        count =
            length-map (take (max workers 1) sorted) (λ v. v.id)
            ∙ length-take (max workers 1) sorted
            ∙ ap (min (max workers 1)) a.same_length;
        first = All-take (Before laws (λ v. v.score) (λ v. v.id)) (max workers 1) sorted a.in_order;
        arranged = a;
      }
