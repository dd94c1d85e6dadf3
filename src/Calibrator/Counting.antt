-- ===== src/Calibrator/Counting.antt =====
-- The counts of early cuts, of audits and of what the audits found, per constraint and per step of
-- the ladder. An audit is pending from its first checkpoint to its TRUTH result.
pub mod Balance
use imads.Prelude.{
  ℕ, zero, suc, ◌+◌, ◌-◌, ◌≤◌, ◌<◌, ◌≡◌, arith, Bool, true, Bool-cases, inl, inr, length-append,
  length-replicate, List, [], ◌∷◌, ◌++◌, leb, if◌then◌else◌, length, get_or, replicate,
}
use imads.Float.{Float}
use imads.Cache.{KeyEq, MemoryCache}
use imads.Engine.Audit.{AuditOf}
use imads.Calibrator.{CalibState}

pub record Counts : Type 0 where
  pub cut : ℕ
  pub audit : ℕ
  pub false_infeas : ℕ
  pub confirmed_violation : ℕ
  pub cut_by_phi_idx : List ℕ
  pub audit_by_phi_idx : List ℕ
  pub false_infeas_by_phi_idx : List ℕ
  pub confirmed_violation_by_phi_idx : List ℕ

abbrev pub Counts_default : Counts
Counts_default = record {
  cut = 0;
  audit = 0;
  false_infeas = 0;
  confirmed_violation = 0;
  cut_by_phi_idx = [];
  audit_by_phi_idx = [];
  false_infeas_by_phi_idx = [];
  confirmed_violation_by_phi_idx = [];
}

-- `if v.len() <= idx { v.resize(idx + 1, 0) }`
unfoldable pub reach : List ℕ → ℕ → List ℕ
reach v idx = if leb (length v) idx then v ++ replicate (idx + 1 - length v) 0 else v

-- It makes `idx` an index.
pub reach-within : (v : List ℕ) (idx : ℕ) → idx < length (reach v idx)
unfolding reach
reach-within v idx = elim (Bool-cases (leb (length v) idx)) [
  | inl e ↦ rw e (
      omega (
        arith,
        length-append v (replicate (idx + 1 - length v) 0),
        length-replicate {A = ℕ} (idx + 1 - length v) 0,
        h e,
      ))
  | inr e ↦ rw e (ground arith)
]
  where
    h : leb (length v) idx ≡ true → length v ≤ idx
    h e = ground arith

unfoldable pub ensure_level : Counts → ℕ → Counts
unfolding reach
ensure_level c idx = record c {
  cut_by_phi_idx = reach c.cut_by_phi_idx idx;
  audit_by_phi_idx = reach c.audit_by_phi_idx idx;
  false_infeas_by_phi_idx = reach c.false_infeas_by_phi_idx idx;
  confirmed_violation_by_phi_idx = reach c.confirmed_violation_by_phi_idx idx;
}

-- `v[i] += 1` at an index that is in range: out of range it would panic.
unfoldable pub incr_at : (v : List ℕ) (i : ℕ) → i < length v → List ℕ
incr_at [] i within = elim within [ ]
incr_at (x ∷ v) zero within = (x + 1) ∷ v
incr_at (x ∷ v) (suc i) within = x ∷ incr_at v i (omega arith)

-- An update of the element at `j`, if `j` is an index.
unfoldable pub modify {ℓ} : {A : Type ℓ} → (A → A) → List A → ℕ → List A
modify f [] j = []
modify f (x ∷ xs) zero = f x ∷ xs
modify f (x ∷ xs) (suc j) = x ∷ modify f xs j

unfoldable pub count_cut : ℕ → Counts → Counts
unfolding ensure_level incr_at
count_cut lvl c =
    let c1 = ensure_level (record c { cut = c.cut + 1 }) lvl in
    record c1 { cut_by_phi_idx = incr_at c1.cut_by_phi_idx lvl (reach-within c.cut_by_phi_idx lvl) }

unfoldable pub count_audit : ℕ → Bool → Bool → Counts → Counts
unfolding ensure_level incr_at
count_audit lvl feasible confirmed c =
    let c1 = ensure_level (record c { audit = c.audit + 1 }) lvl in
    let c2 = record c1 {
      audit_by_phi_idx = incr_at c1.audit_by_phi_idx lvl (reach-within c.audit_by_phi_idx lvl);
    } in
    let c3 =
      if feasible
      then record c2 {
        false_infeas = c2.false_infeas + 1;
        false_infeas_by_phi_idx =
            incr_at c2.false_infeas_by_phi_idx lvl (reach-within c.false_infeas_by_phi_idx lvl);
      }
      else c2 in
    if confirmed
    then record c3 {
      confirmed_violation = c3.confirmed_violation + 1;
      confirmed_violation_by_phi_idx =
          incr_at c2.confirmed_violation_by_phi_idx lvl
            (reach-within c.confirmed_violation_by_phi_idx lvl);
    }
    else c3

unfoldable pub note_cut : AuditOf → List Counts → List Counts
unfolding modify count_cut
note_cut a counts = modify (count_cut a.phi_idx_at_cut) counts a.violated_j

module _ {F : Type 0} ⦃d : Float F⦄ where
  -- The TRUTH result of an audited candidate: whether it is feasible, and its constraints.
  unfoldable pub note_audit : AuditOf → Bool → List F → List Counts → List Counts
  unfolding modify count_audit
  note_audit a feasible c counts =
      let confirmed = d.lt d.nought (get_or c a.violated_j d.nought) in
      modify (count_audit a.phi_idx_at_cut feasible confirmed) counts a.violated_j

module _ {K V : Type 0} ⦃e : KeyEq K⦄ where
  -- `HashMap::remove`
  unfoldable pub remove : MemoryCache K V → K → MemoryCache K V
  remove [] key = []
  remove ((k, v) ∷ m) key = if e.same k key then m else (k, v) ∷ remove m key

-- `counts.get(j).map(field).unwrap_or(default)` for each `j` below `m`.
abbrev pub column {ℓ} : {A : Type ℓ} → (Counts → A) → A → ℕ → List Counts → List A
column field default zero counts = []
column field default (suc m) [] = default ∷ column field default m []
column field default (suc m) (c ∷ counts) = field c ∷ column field default m counts

module _ {F : Type 0} where
  -- Lists of another length are replaced first; then each of the `m` elements is written.
  unfoldable pub sync_counts_to_state : CalibState F → List Counts → CalibState F
  sync_counts_to_state s counts =
      let m = length s.delta_rel in
      record s {
        cut_n = column (λ c. c.cut) 0 m counts;
        audit_n = column (λ c. c.audit) 0 m counts;
        false_infeas_n = column (λ c. c.false_infeas) 0 m counts;
        confirmed_violation_n = column (λ c. c.confirmed_violation) 0 m counts;
        cut_n_by_phi_idx = column (λ c. c.cut_by_phi_idx) [] m counts;
        audit_n_by_phi_idx = column (λ c. c.audit_by_phi_idx) [] m counts;
        false_infeas_n_by_phi_idx = column (λ c. c.false_infeas_by_phi_idx) [] m counts;
        confirmed_violation_n_by_phi_idx =
            column (λ c. c.confirmed_violation_by_phi_idx) [] m counts;
      }
