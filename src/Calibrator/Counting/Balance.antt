-- ===== src/Calibrator/Counting/Balance.antt =====
-- The counts agree with one another and with the audits that are pending.
use imads.Prelude.{
  ℕ, zero, suc, ◌+◌, ◌≤◌, ◌<◌, ◌≡◌, refl, ap, Bool, none, some, List, [], ◌∷◌, ◌++◌, arith, leb,
  ◌==◌, if◌then◌else◌, Bool-cases, inl, inr, length, get_elem?, replicate,
}
use imads.Float.{Float}
use imads.Cache.{MemoryCache, get, put}
use imads.Cache.Keys.{nat_key}
use imads.Engine.Audit.{AuditOf}
use imads.Calibrator.Counting.{
  Counts, Counts_default, reach, reach-within, incr_at, modify, ensure_level, count_cut,
  count_audit, note_cut, note_audit, remove,
}

abbrev pub total : List ℕ → ℕ
total [] = 0
total (x ∷ v) = x + total v

-- With `n` audits pending: each cut is audited or pending, what audits found are audits, and the
-- counts per step add up.
pub record IsBalanced (n : ℕ) (c : Counts) : Type 0 where
  pub cuts : c.cut ≡ c.audit + n
  pub false_le : c.false_infeas ≤ c.audit
  pub confirmed_le : c.confirmed_violation ≤ c.audit
  pub cut_sum : total c.cut_by_phi_idx ≡ c.cut
  pub audit_sum : total c.audit_by_phi_idx ≡ c.audit
  pub false_sum : total c.false_infeas_by_phi_idx ≡ c.false_infeas
  pub confirmed_sum : total c.confirmed_violation_by_phi_idx ≡ c.confirmed_violation

total-append_zeros : (v : List ℕ) (n : ℕ) → total (v ++ replicate n 0) ≡ total v
total-append_zeros [] zero = refl
total-append_zeros [] (suc n) = omega (arith, total-append_zeros [] n)
total-append_zeros (x ∷ v) n = ap (λ t. x + t) (total-append_zeros v n)

total-reach : (v : List ℕ) (idx : ℕ) → total (reach v idx) ≡ total v
unfolding reach
total-reach v idx = elim (Bool-cases (leb (length v) idx)) [
  | inl e ↦ rw e (total-append_zeros v _)
  | inr e ↦ rw e refl
]

total-incr_at :
    (v : List ℕ) (i : ℕ) (within : i < length v) → total (incr_at v i within) ≡ total v + 1
unfolding incr_at
total-incr_at [] i h = elim h [ ]
total-incr_at (x ∷ v) zero h = omega arith
total-incr_at (x ∷ v) (suc i) h = omega (arith, total-incr_at v i (omega arith))

total-incr_at-reach :
    (v : List ℕ) (i : ℕ) → total (incr_at (reach v i) i (reach-within v i)) ≡ total v + 1
total-incr_at-reach v i =
    omega (arith, total-incr_at (reach v i) i (reach-within v i), total-reach v i)

count_cut-IsBalanced :
    (lvl n : ℕ) (c : Counts) → IsBalanced n c → IsBalanced (n + 1) (count_cut lvl c)
unfolding count_cut ensure_level
count_cut-IsBalanced lvl n c b = record {
  cuts = omega (arith, b.cuts);
  false_le = b.false_le;
  confirmed_le = b.confirmed_le;
  cut_sum = omega (arith, total-incr_at-reach c.cut_by_phi_idx lvl, b.cut_sum);
  audit_sum = omega (arith, (total-reach c.audit_by_phi_idx lvl), b.audit_sum);
  false_sum = omega (arith, (total-reach c.false_infeas_by_phi_idx lvl), b.false_sum);
  confirmed_sum =
      omega (arith, (total-reach c.confirmed_violation_by_phi_idx lvl), b.confirmed_sum);
}

count_audit-IsBalanced :
    (lvl n : ℕ) (feasible confirmed : Bool) (c : Counts)
    → IsBalanced (n + 1) c
    → IsBalanced n (count_audit lvl feasible confirmed c)
unfolding count_audit ensure_level
count_audit-IsBalanced lvl n feasible confirmed c b = ground (
  arith,
  total-incr_at-reach c.audit_by_phi_idx lvl,
  total-incr_at-reach c.false_infeas_by_phi_idx lvl,
  total-incr_at-reach c.confirmed_violation_by_phi_idx lvl,
  (total-reach c.cut_by_phi_idx lvl),
  (total-reach c.false_infeas_by_phi_idx lvl),
  (total-reach c.confirmed_violation_by_phi_idx lvl),
)

pub modify_lem {ℓ} :
    {A : Type ℓ} (f : A → A) (xs : List A) (j i : ℕ) (y : A)
    → get_elem? (modify f xs j) i ≡ some y
    → (x : A) × (get_elem? xs i ≡ some x) × (y ≡ (if j == i then f x else x))
unfolding modify
modify_lem f [] j i y h = cc
modify_lem f (x ∷ xs) zero zero y h = (x, refl, ground arith)
modify_lem f (x ∷ xs) zero (suc i) y h = (y, h, ground arith)
modify_lem f (x ∷ xs) (suc j) zero y h = (x, refl, ground arith)
modify_lem f (x ∷ xs) (suc j) (suc i) y h =
    let (z, e, p) = modify_lem f xs j i y h in (z, e, ground arith)

-- The pending audits that are about constraint `j`; `origin` is the cut that an audit is about.
module _ {P : Type 0} (origin : P → AuditOf) where
  abbrev pub pending_for : MemoryCache ℕ P → ℕ → ℕ
  pending_for [] j = 0
  pending_for ((k, p) ∷ m) j = (if (origin p).violated_j == j then 1 else 0) + pending_for m j

  pub pending_for-put :
      (m : MemoryCache ℕ P) (id : ℕ) (p : P) (j : ℕ)
      → get m id ≡ none
      → pending_for (put m id p) j ≡ pending_for m j + (if (origin p).violated_j == j then 1 else 0)
  unfolding get put
  pending_for-put [] id p j h = omega arith
  pending_for-put ((k, q) ∷ m) id p j h = ground (arith, pending_for-put m id p j)

  -- A pending audit that is replaced by one of the same cut.
  pub pending_for-put_same :
      (m : MemoryCache ℕ P) (id : ℕ) (q p : P) (j : ℕ)
      → get m id ≡ some q
      → origin p ≡ origin q
      → pending_for (put m id p) j ≡ pending_for m j
  unfolding get put
  pending_for-put_same [] id q p j h e = cc
  pending_for-put_same ((k, r) ∷ m) id q p j h e = ground (arith, pending_for-put_same m id q p j)

  pub pending_for-remove :
      (m : MemoryCache ℕ P) (id : ℕ) (p : P) (j : ℕ)
      → get m id ≡ some p
      → pending_for m j
        ≡ pending_for (remove m id) j + (if (origin p).violated_j == j then 1 else 0)
  unfolding get remove
  pending_for-remove [] id p j h = cc
  pending_for-remove ((k, q) ∷ m) id p j h = ground (arith, pending_for-remove m id p j)

  -- Each constraint's counts are balanced with its pending audits.
  abbrev pub AllBalanced : List Counts → MemoryCache ℕ P → Type 0
  AllBalanced counts m =
      (j : ℕ) (c : Counts) → get_elem? counts j ≡ some c → IsBalanced (pending_for m j) c

  pub note_cut-AllBalanced :
      (counts : List Counts) (m : MemoryCache ℕ P) (id : ℕ) (p : P) (a : AuditOf)
      → origin p ≡ a
      → get m id ≡ none
      → AllBalanced counts m
      → AllBalanced (note_cut a counts) (put m id p)
  unfolding note_cut
  note_cut-AllBalanced counts m id p a e h b j c' found =
      let (c, at, same) = modify_lem _ counts a.violated_j j c' found in
      let more = pending_for-put m id p j h in
      rw (same, more, e)
        (elim (Bool-cases (a.violated_j == j)) [
          | inl t ↦ rw t (count_cut-IsBalanced a.phi_idx_at_cut _ c (b j c at))
          | inr f ↦ rw f (ground (arith, b j c at))
        ])

  module _ {F : Type 0} ⦃d : Float F⦄ where
    pub note_audit-AllBalanced :
        (counts : List Counts) (m : MemoryCache ℕ P) (id : ℕ) (p : P) (a : AuditOf)
        (feasible : Bool) (values : List F)
        → origin p ≡ a
        → get m id ≡ some p
        → AllBalanced counts m
        → AllBalanced (note_audit a feasible values counts) (remove m id)
    unfolding note_audit
    note_audit-AllBalanced counts m id p a feasible values e h b j c' found =
        let (c, at, same) = modify_lem _ counts a.violated_j j c' found in
        let fewer = pending_for-remove m id p j h in
        let before = b j c at in
        rw same (elim (Bool-cases (a.violated_j == j)) [
          | inl t ↦
              rw t (
                count_audit-IsBalanced a.phi_idx_at_cut _ feasible _ c (rw (fewer, e, t) at before))
          | inr f ↦ rw f (ground (arith, before, fewer, e))
        ])

  pub AllBalanced-start : (m : ℕ) → AllBalanced (replicate m Counts_default) []
  AllBalanced-start zero j c h = cc
  AllBalanced-start (suc m) zero c h = ground arith
  AllBalanced-start (suc m) (suc j) c h = AllBalanced-start m j c h
