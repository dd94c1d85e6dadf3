-- ===== src/Engine/Audit/Visits.antt =====
-- Where an audited candidate goes next.
use imads.Prelude.{
  ℕ, ◌+◌, ◌≤◌, ◌<◌, ◌≡◌, refl, sym, subst, ◌⊎◌, inl, inr, true, Option, none, some, List, [], ◌∷◌,
  arith, ltb, ltb→lt, Bool-cases, length, get_elem?, drop, All, All-map, Pairs,
}
use imads.Types.{Phi, CandidateAuditOrigin}
use imads.Engine.Audit.{
  is_pair, paired_from, collect_paired_phi_indices, contains, first_above, next_audit_target_idx,
  is_paired_checkpoint,
}
use imads.Engine.Audit.Targets.{
  collect_paired_phi_indices_iff, contains_cons, contains_nil, get_elem?-bound,
}

-- The origin of an audit was collected on the ladder.
abbrev pub FromLadder : List Phi → Option CandidateAuditOrigin → Type 0
FromLadder ladder none = Unit
FromLadder ladder (some o) =
    o.paired_phi_indices ≡ collect_paired_phi_indices ladder o.phi_idx_at_cut

-- The first index above `i` of an ascending list is the least one; without one it is the default.
data Target (js : List ℕ) (i default : ℕ) : ℕ → Type 0 where
  no_index : All (λ j. j ≤ i) js → Target js i default default
  least :
      {t : ℕ} → contains js t ≡ true → i < t → All (λ j. i < j → t ≤ j) js → Target js i default t

Target-next :
    {k : ℕ} (js : List ℕ) {i default t : ℕ}
    → k ≤ i
    → Target js i default t
    → Target (k ∷ js) i default t
Target-next js le (no_index all) = no_index (le, all)
Target-next js le (least c lt all) =
    least ((contains_cons _ js _).1 (inr c)) lt ((λ h. omega arith), all)

first_above-Target :
    (js : List ℕ) (i default : ℕ)
    → Pairs (λ a b. a < b) js
    → Target js i default (first_above js i default)
unfolding first_above
first_above-Target [] i default asc = no_index tt
first_above-Target (k ∷ js) i default asc = elim (Bool-cases (ltb i k)) [
  | inl e ↦ rw (e) (
      least ((contains_cons k js k).1 (inl refl)) (ltb→lt i k e)
        ((λ h. omega arith), All-map (λ j lt h. omega arith) js asc.0))
  | inr e ↦ rw (e) (Target-next js (ground arith) (first_above-Target js i default asc.1))
]

from_next :
    (j : ℕ) (xs : List ℕ) → All (λ i. j + 1 ≤ i) xs → All (λ i. j ≤ i) xs × All (λ i. j < i) xs
from_next j [] h = (tt, tt)
from_next j (x ∷ xs) h =
    let (p, q) = from_next j xs h.1 in
    let below : j < x = omega (arith, h.0) in ((omega arith, p), (below, q))

-- The collected indices ascend from `j` on.
paired_from-ascending :
    (cur : Phi) (j : ℕ) (ps : List Phi)
    → All (λ i. j ≤ i) (paired_from cur j ps) × Pairs (λ a b. a < b) (paired_from cur j ps)
unfolding paired_from
paired_from-ascending cur j [] = (tt, tt)
paired_from-ascending cur j (p ∷ ps) =
    let (above, asc) = paired_from-ascending cur (j + 1) ps in
    let (later, apart) = from_next j (paired_from cur (j + 1) ps) above in
    let reflexive : j ≤ j = omega arith in
    elim (Bool-cases (is_pair cur p)) [
      | inl e ↦ rw (e) ((reflexive, later), (apart, asc))
      | inr e ↦ rw (e) (later, asc)
    ]

pub collect_paired_phi_indices-ascending :
    (ladder : List Phi) (cut : ℕ) → Pairs (λ a b. a < b) (collect_paired_phi_indices ladder cut)
unfolding collect_paired_phi_indices
collect_paired_phi_indices-ascending ladder cut =
    elim (get_elem? ladder cut)
      as (λ o.
        Pairs (λ a b. a < b)
          (elim o [ none ↦ [] | some cur ↦ paired_from cur (cut + 1) (drop (cut + 1) ladder) ])) [
            | none ↦ tt
            | some cur ↦ (paired_from-ascending cur (cut + 1) (drop (cut + 1) ladder)).1
          ]

-- Where an audited candidate goes from step `i`: to a later step of the ladder, which is the next
-- checkpoint, or the last step where there is no checkpoint left.
pub record Visits (ladder : List Phi) (origin : Option CandidateAuditOrigin) (i t : ℕ)
    : Type 0 where
  pub later : i < t
  pub within : t < length ladder
  pub kind : (t + 1 ≡ length ladder) ⊎ (is_paired_checkpoint origin t ≡ true)
  pub skips_none : (j : ℕ) → is_paired_checkpoint origin j ≡ true → i < j → t ≤ j

All-contains {κ} : (P : ℕ → Type κ) (js : List ℕ) (j : ℕ) → All P js → contains js j ≡ true → P j
All-contains P [] j h c = absurd (contains_nil j c)
All-contains P (k ∷ js) j h c = elim ((contains_cons k js j).0 c) [
  | inl e ↦ subst P e h.0
  | inr c' ↦ All-contains P js j h.1 c'
]

Target-Visits :
    (ladder : List Phi) (o : CandidateAuditOrigin) (i n t : ℕ)
    → FromLadder ladder (some o)
    → n + 1 ≡ length ladder
    → i < n
    → Target o.paired_phi_indices i n t
    → Visits ladder (some o) i t
unfolding is_paired_checkpoint
Target-Visits ladder o i n t from e lt (no_index all) = record {
  later = lt;
  within = omega arith;
  kind = inl e;
  skips_none =
      λ j c h. absurd (let le : j ≤ i = All-contains _ o.paired_phi_indices j all c in omega arith);
}
Target-Visits ladder o i n t from e lt (least c above all) = record {
  later = above;
  within =
      let pair =
        (collect_paired_phi_indices_iff ladder o.phi_idx_at_cut t).0
          (subst (λ js. contains js t ≡ true) from c) in
      get_elem?-bound ladder t pair.step pair.at_step;
  kind = inr c;
  skips_none = λ j c' h. All-contains _ o.paired_phi_indices j all c' h;
}

-- Before the last step an audited candidate whose checkpoints were collected on the ladder moves
-- on: to the first checkpoint of its origin above the current step, or to the last step of the
-- ladder where no checkpoint is left.
pub next_audit_target_idx-Visits :
    (ladder : List Phi) (origin : Option CandidateAuditOrigin) (i : ℕ)
    → FromLadder ladder origin
    → i + 1 < length ladder
    → Visits ladder origin i (next_audit_target_idx origin i (length ladder))
unfolding next_audit_target_idx is_paired_checkpoint
next_audit_target_idx-Visits [] origin i from lt = absurd (omega arith)
next_audit_target_idx-Visits (p ∷ ps) none i from lt = record {
  later = omega arith;
  within = omega arith;
  kind = inl (omega arith);
  skips_none = λ j c h. ground arith;
}
next_audit_target_idx-Visits (p ∷ ps) (some o) i from lt =
    Target-Visits (p ∷ ps) o i (length ps) _ from (omega arith) (omega arith) (
      first_above-Target o.paired_phi_indices i (length ps) (
        subst (Pairs (λ a b. a < b)) (sym from)
          (collect_paired_phi_indices-ascending (p ∷ ps) o.phi_idx_at_cut)))
