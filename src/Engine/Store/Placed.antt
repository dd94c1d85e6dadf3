-- ===== src/Engine/Store/Placed.antt =====
-- The index of the store and the store agree.
use imads.Prelude.{
  ℕ, zero, suc, ◌<◌, ◌≡◌, refl, sym, ap, subst, ◌∙◌, ◌⊎◌, inl, inr, Bool, true, false, Option, none,
  some, List, [], ◌∷◌, ◌++◌, arith, length, get_elem?, set, get_elem?-set_self, get_elem?-set_ne,
  Bool-cases, ◌==◌, if◌then◌else◌, ==_iff,
}
use imads.Types.{CandidateStageState}
use imads.Cache.{get, get-put}
use imads.Cache.Keys.{nat_key}
use imads.Engine.Store.{Store, push_at, push_new, push_all, find, write}

module _ {F : Type 0} where
  -- The candidate at a place has the id.
  pub record At (cands : List (CandidateStageState F)) (id place : ℕ) : Type 0 where
    pub cand : CandidateStageState F
    pub there : get_elem? cands place ≡ some cand
    pub same : cand.id ≡ id

  -- Every known id leads to the place of the candidate that has it.
  abbrev pub IsPlaced : Store F → Type 0
  IsPlaced s = (id place : ℕ) → get s.index id ≡ some place → At s.cands id place

  abbrev pub IsKnown : Store F → ℕ → Type 0
  IsKnown s id = (place : ℕ) × (get s.index id ≡ some place)

  pub empty-IsPlaced : IsPlaced (record { cands = []; index = [] })
  unfolding get
  empty-IsPlaced = λ id place h. absurd (grind (arith, h))

  get_elem?-in :
      (xs : List (CandidateStageState F)) (i : ℕ) (c : CandidateStageState F)
      → get_elem? xs i ≡ some c
      → i < length xs
  get_elem?-in [] i c h = grind arith
  get_elem?-in (x ∷ xs) zero c h = omega arith
  get_elem?-in (x ∷ xs) (suc i) c h = omega (arith, get_elem?-in xs i c h)

  get_elem?-append :
      (xs ys : List (CandidateStageState F)) (i : ℕ) (c : CandidateStageState F)
      → get_elem? xs i ≡ some c
      → get_elem? (xs ++ ys) i ≡ some c
  get_elem?-append [] ys i c h = grind arith
  get_elem?-append (x ∷ xs) ys zero c h = h
  get_elem?-append (x ∷ xs) ys (suc i) c h = get_elem?-append xs ys i c h

  get_elem?-last :
      (xs : List (CandidateStageState F)) (c : CandidateStageState F)
      → get_elem? (xs ++ c ∷ []) (length xs) ≡ some c
  get_elem?-last [] c = refl
  get_elem?-last (x ∷ xs) c = get_elem?-last xs c

  -- A known id is found, at a candidate with that id.
  pub find-IsPlaced :
      (s : Store F) (id : ℕ)
      → IsPlaced s
      → IsKnown s id
      → (place : ℕ) × (cand : CandidateStageState F) × (find s id ≡ some (place, cand))
        × (cand.id ≡ id)
  unfolding find
  find-IsPlaced s id placed (place, e) =
      let a = placed id place e in (place, a.cand, rw (find, e, a.there) refl, a.same)

  added :
      (s : Store F) (cand : CandidateStageState F) (id place : ℕ) (b : Bool)
      → IsPlaced s
      → (cand.id == id) ≡ b
      → (if b then some (length s.cands) else get s.index id) ≡ some place
      → At (s.cands ++ cand ∷ []) id place
  added s cand id place true placed eq e =
      let last : length s.cands ≡ place = grind (arith, e) in
      record {
        cand = cand;
        there =
            subst (λ p. get_elem? (s.cands ++ cand ∷ []) p ≡ some cand) last
              (get_elem?-last s.cands cand);
        same = (==_iff cand.id id).0 eq;
      }
  added s cand id place false placed eq e =
      let a = placed id place e in
      record {
        cand = a.cand;
        there = get_elem?-append s.cands (cand ∷ []) place a.cand a.there;
        same = a.same;
      }

  push_at-IsPlaced :
      (s : Store F) (cand : CandidateStageState F) (known : Option ℕ)
      → IsPlaced s
      → IsPlaced (push_at s cand known)
  push_at-IsPlaced s cand (some place) placed = placed
  push_at-IsPlaced s cand none placed = λ id place e.
      added s cand id place (cand.id == id) placed refl
        (sym (get-put s.index cand.id id (length s.cands)) ∙ e)

  push_new-IsPlaced :
      (s : Store F) (cand : CandidateStageState F) → IsPlaced s → IsPlaced (push_new s cand)
  unfolding push_new
  push_new-IsPlaced s cand placed = push_at-IsPlaced s cand (get s.index cand.id) placed

  pub push_all-IsPlaced :
      (s : Store F) (cands : List (CandidateStageState F))
      → IsPlaced s
      → IsPlaced (push_all s cands)
  unfolding push_all
  push_all-IsPlaced s [] placed = placed
  push_all-IsPlaced s (cand ∷ cands) placed =
      push_all-IsPlaced (push_new s cand) cands (push_new-IsPlaced s cand placed)

  rewritten :
      (s : Store F) (place : ℕ) (old cand : CandidateStageState F) (id p : ℕ)
      → get_elem? s.cands place ≡ some old
      → cand.id ≡ old.id
      → At s.cands id p
      → ((place == p) ≡ true) ⊎ ((place == p) ≡ false)
      → At (set s.cands place cand) id p
  rewritten s place old cand id p there same a (inl eq) =
      let e : place ≡ p = (==_iff place p).0 eq in
      let at : get_elem? s.cands p ≡ some old =
        subst (λ i. get_elem? s.cands i ≡ some old) e there in
      let one : old ≡ a.cand = grind (arith, at, a.there) in
      record {
        cand = cand;
        there =
            subst (λ i. get_elem? (set s.cands place cand) i ≡ some cand) e
              (get_elem?-set_self s.cands place cand (get_elem?-in s.cands place old there));
        same = same ∙ ap (λ (c : CandidateStageState F). c.id) one ∙ a.same;
      }
  rewritten s place old cand id p there same a (inr ne) = record {
    cand = a.cand;
    there = get_elem?-set_ne s.cands cand (λ e. ground (arith, ==_iff place p)) ∙ a.there;
    same = a.same;
  }

  -- A write of a candidate over one that has its id.
  pub write-IsPlaced :
      (s : Store F) (place : ℕ) (old cand : CandidateStageState F)
      → IsPlaced s
      → get_elem? s.cands place ≡ some old
      → cand.id ≡ old.id
      → IsPlaced (write s place cand)
  write-IsPlaced s place old cand placed there same =
      λ id p e. rewritten s place old cand id p there same (placed id p e) (Bool-cases (place == p))
