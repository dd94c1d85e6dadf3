-- ===== src/Engine/Store.antt =====
-- The run-global store of candidates: the list in the order of their arrival, and the index from a
-- candidate's id to its place in the list.
pub mod Placed
use imads.Prelude.{
  ℕ, ◌+◌, ◌≡◌, false, Option, none, some, List, [], ◌∷◌, ◌++◌, length, get_elem?, set,
}
use imads.Float.{Float}
use imads.Types.{XMesh, CandidateStageState, ready}
use imads.Cache.{MemoryCache, get, put}
use imads.Cache.Keys.{nat_key}

pub record Store (F : Type 0) : Type 0 where
  pub cands : List (CandidateStageState F)
  pub index : MemoryCache ℕ ℕ

module _ {F : Type 0} where
  -- A new candidate at `x`, ready for the first step of the ladder.
  abbrev pub new_candidate : ℕ → XMesh → F → ℕ → ℕ → ℕ → CandidateStageState F
  new_candidate id x base_score epoch policy_rev incumbent_id = record {
    id = id;
    x = x;
    base_score = base_score;
    created_epoch = epoch;
    next_phi_idx = 0;
    last_estimates_phi_idx = none;
    last_estimates = none;
    audit_required = false;
    audit_origin = none;
    audit_cut_estimates = none;
    cheap_checked = false;
    cheap_ok = false;
    submitted_policy_rev = policy_rev;
    submitted_incumbent_id = incumbent_id;
    status = ready;
  }

  -- The store for the index's answer on the candidate's id: a known one is passed over.
  abbrev pub push_at : Store F → CandidateStageState F → Option ℕ → Store F
  push_at s cand (some place) = s
  push_at s cand none = record {
    cands = s.cands ++ cand ∷ [];
    index = put s.index cand.id (length s.cands);
  }

  unfoldable pub push_new : Store F → CandidateStageState F → Store F
  push_new s cand = push_at s cand (get s.index cand.id)

  unfoldable pub push_all : Store F → List (CandidateStageState F) → Store F
  push_all s [] = s
  push_all s (cand ∷ cands) = push_all (push_new s cand) cands

  -- The place and the candidate of an id.
  unfoldable pub find : Store F → ℕ → Option (ℕ × CandidateStageState F)
  find s id = elim (get s.index id) [
    | none ↦ none
    | some place ↦ elim (get_elem? s.cands place) [ none ↦ none | some cand ↦ some (place, cand) ]
  ]

  -- `cands[place] = cand`
  abbrev pub write : Store F → ℕ → CandidateStageState F → Store F
  write s place cand = record s { cands = set s.cands place cand }
