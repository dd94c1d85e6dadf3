-- ===== src/Calibrator/Samples.antt =====
-- The samples of the solver's bias that `DeltaKCalibrator` collects from audits.

use Prim.Native.Nat.{max}
use imads.Prelude.{
  ℕ, zero, suc, ◌+◌, ◌-◌, Bool, true, not, ◌&&◌, Option, none, some, List, [], ◌∷◌, ◌++◌, ltb, leb,
  ◌==◌, if◌then◌else◌, length, drop, replicate, sort_by, arith, ◌≡◌, ◌↔◌,
}
use imads.Prelude.Int.{pos}
use imads.Float.{Float, fmax}
use imads.Types.{Phi, Estimates}
use imads.Cache.{KeyEq, MemoryCache, get, put}
use imads.Cache.Keys.{phi_key, nat_key, same_phi}
use imads.Margin.{f_hat_primary}
use imads.Engine.Audit.{AuditOf, PairedAuditSample}
use imads.Calibrator.{CalibState, KIntervalKey}
use imads.Calibrator.Counting.{Counts, note_cut}

abbrev pub same_interval : KIntervalKey → KIntervalKey → Bool
same_interval a b = (a.tau_loose == b.tau_loose) && (a.tau_tight == b.tau_tight) && (a.smc == b.smc)

pub same_interval_iff : (a b : KIntervalKey) → (same_interval a b ≡ true) ↔ (a ≡ b)
same_interval_iff a b = grind arith

instance abbrev pub interval_key : KeyEq KIntervalKey
interval_key = record { same = same_interval; same_iff = same_interval_iff }

pub record PendingAudit (F : Type 0) : Type 0 where
  pub audit_of : AuditOf
  pub est_at_cut : Estimates F
  pub paired_samples : List (PairedAuditSample F)

pub record DeltaKCalibrator (F : Type 0) : Type 0 where
  pub state : CalibState F
  pub counts : List Counts
  pub pending : MemoryCache ℕ (PendingAudit F)
  pub k_samples_f : List F
  pub k_samples_c : List (List F)
  pub k_phi_samples_f : MemoryCache Phi (List F)
  pub k_phi_samples_c : MemoryCache Phi (List (List F))
  pub k_interval_samples_f : MemoryCache KIntervalKey (List F)
  pub k_interval_samples_c : MemoryCache KIntervalKey (List (List F))
  pub k_window : ℕ
  pub k_min_pairs : ℕ
  pub k_quantile : F
  pub k_eta : F

abbrev pub or_empty {ℓ} : {A : Type ℓ} → Option (List A) → List A
or_empty none = []
or_empty (some xs) = xs

-- Whether the second step has as many samples and a tighter tolerance.
abbrev pub is_interval : Phi → Phi → Bool
is_interval loose tight = (loose.smc == tight.smc) && ltb tight.tau loose.tau

module _ {F : Type 0} ⦃d : Float F⦄ where
  open d use {nought, one, is_finite, le, sub, div, of_int}

  -- A window of the last samples.
  unfoldable pub push_k_sample : List F → F → ℕ → List F
  push_k_sample vec v cap =
      let longer = vec ++ v ∷ [] in
      if not (is_finite v && le nought v)
      then vec
      else if ltb (max cap 1) (length longer)
      then drop (length longer - max cap 1) longer
      else longer

  unfoldable pub push_nested_k_sample : List (List F) → ℕ → F → ℕ → List (List F)
  unfolding push_k_sample
  push_nested_k_sample [] zero v cap = push_k_sample [] v cap ∷ []
  push_nested_k_sample [] (suc j) v cap = [] ∷ push_nested_k_sample [] j v cap
  push_nested_k_sample (vec ∷ vecs) zero v cap = push_k_sample vec v cap ∷ vecs
  push_nested_k_sample (vec ∷ vecs) (suc j) v cap = vec ∷ push_nested_k_sample vecs j v cap

  -- The first `m` of the values, with zero for a missing one.
  abbrev pub first_values : ℕ → List F → List F
  first_values zero c = []
  first_values (suc m) [] = nought ∷ first_values m []
  first_values (suc m) (cj ∷ c) = cj ∷ first_values m c

  unfoldable pub truth_as_estimates : Phi → List F → List F → ℕ → Estimates F
  truth_as_estimates phi f c m = record {
    f_hat = f;
    f_se = replicate (length f) nought;
    c_hat = first_values m c;
    c_se = replicate m nought;
    phi = phi;
    tau_scale = of_int (pos phi.tau);
    num_objectives = length f;
  }

  -- `(loose - tight).max(0.0) / scale`, for each constraint.
  abbrev pub drops : List F → List F → F → List F
  drops [] ts scale = []
  drops (l ∷ ls) [] scale = []
  drops (l ∷ ls) (t ∷ ts) scale = div (fmax (sub l t) nought) scale ∷ drops ls ts scale

  -- Sample `j` of `dcs` goes to window `j`, where there is one.
  unfoldable pub push_each : List (List F) → List F → ℕ → List (List F)
  unfolding push_k_sample
  push_each [] dcs cap = []
  push_each (vec ∷ vecs) [] cap = vec ∷ vecs
  push_each (vec ∷ vecs) (dc ∷ dcs) cap = push_k_sample vec dc cap ∷ push_each vecs dcs cap

  unfoldable pub push_nested_from : List (List F) → ℕ → List F → ℕ → List (List F)
  unfolding push_nested_k_sample
  push_nested_from vecs j [] cap = vecs
  push_nested_from vecs j (dc ∷ dcs) cap =
      push_nested_from (push_nested_k_sample vecs j dc cap) (j + 1) dcs cap

  module _ {K : Type 0} ⦃k : KeyEq K⦄ where
    -- `entry(key).or_default()`, and a sample is pushed.
    unfoldable pub push_at : MemoryCache K (List F) → K → F → ℕ → MemoryCache K (List F)
    unfolding push_k_sample
    push_at m key v cap = put m key (push_k_sample (or_empty (get m key)) v cap)

    -- The windows of a key, which are `n` empty ones at first.
    abbrev pub windows_of : MemoryCache K (List (List F)) → K → ℕ → List (List F)
    windows_of m key n = elim (get m key) [ none ↦ replicate n [] | some vecs ↦ vecs ]

    -- The loop over the constraints; the entry appears with its first sample.
    unfoldable pub push_all_at :
        MemoryCache K (List (List F)) → K → List F → ℕ → MemoryCache K (List (List F))
    unfolding push_nested_from
    push_all_at m key [] cap = m
    push_all_at m key (dc ∷ dcs) cap =
        put m key (push_nested_from (windows_of m key (length (dc ∷ dcs))) 0 (dc ∷ dcs) cap)

  -- The samples of the objective and of the constraints, in all windows but those of intervals.
  unfoldable pub register_at : DeltaKCalibrator F → Phi → F → List F → DeltaKCalibrator F
  unfolding push_k_sample push_each push_at push_all_at
  register_at cal phi df dcs = record cal {
    k_samples_f = push_k_sample cal.k_samples_f df cal.k_window;
    k_samples_c = push_each cal.k_samples_c dcs cal.k_window;
    k_phi_samples_f = push_at cal.k_phi_samples_f phi df cal.k_window;
    k_phi_samples_c = push_all_at cal.k_phi_samples_c phi dcs cal.k_window;
  }

  abbrev pub constraint_drops : ℕ → Estimates F → Estimates F → F → List F
  constraint_drops m loose tight scale =
      drops (first_values m loose.c_hat) (first_values m tight.c_hat) scale

  abbrev pub objective_drop : Estimates F → Estimates F → F → F
  objective_drop loose tight scale =
      div (fmax (sub (f_hat_primary loose) (f_hat_primary tight)) nought) scale

  unfoldable pub register_interval_sample :
      DeltaKCalibrator F → Phi → Estimates F → Phi → Estimates F → DeltaKCalibrator F
  unfolding register_at push_at push_all_at
  register_interval_sample cal loose_phi loose tight_phi tight =
      let dtau = fmax (sub (of_int (pos loose_phi.tau)) (of_int (pos tight_phi.tau))) one in
      let key : KIntervalKey = record {
        tau_loose = loose_phi.tau;
        tau_tight = tight_phi.tau;
        smc = loose_phi.smc;
      } in
      let df = objective_drop loose tight dtau in
      let dcs = constraint_drops (length cal.state.k_c) loose tight dtau in
      let registered = register_at cal loose_phi df dcs in
      if is_interval loose_phi tight_phi
      then record registered {
        k_interval_samples_f = push_at cal.k_interval_samples_f key df cal.k_window;
        k_interval_samples_c = push_all_at cal.k_interval_samples_c key dcs cal.k_window;
      }
      else cal

  unfoldable pub register_cut_to_truth_fallback :
      DeltaKCalibrator F → Phi → Estimates F → Estimates F → DeltaKCalibrator F
  unfolding register_at
  register_cut_to_truth_fallback cal cut_phi cut truth =
      let scale = fmax (of_int (pos cut_phi.tau)) one in
      register_at cal cut_phi (objective_drop cut truth scale)
        (constraint_drops (length cal.state.k_c) cut truth scale)

module _ {F : Type 0} where
  -- The first sample of the same step, replaced.
  abbrev pub replaced :
      List (PairedAuditSample F) → PairedAuditSample F → Option (List (PairedAuditSample F))
  replaced [] ps = none
  replaced (cur ∷ rest) ps =
      if cur.paired_phi_idx == ps.paired_phi_idx
      then some (ps ∷ rest)
      else elim (replaced rest ps) [ none ↦ none | some rest' ↦ some (cur ∷ rest') ]

  abbrev pub by_phi_idx : List (PairedAuditSample F) → List (PairedAuditSample F)
  by_phi_idx = sort_by (λ a b. leb a.paired_phi_idx b.paired_phi_idx)

  unfoldable pub append_paired_sample : PendingAudit F → PairedAuditSample F → PendingAudit F
  append_paired_sample pending ps = record pending {
    paired_samples = elim (replaced pending.paired_samples ps) [
      | none ↦ by_phi_idx (pending.paired_samples ++ ps ∷ [])
      | some samples ↦ samples
    ];
  }

  abbrev pub append_optional : PendingAudit F → Option (PairedAuditSample F) → PendingAudit F
  append_optional pending none = pending
  append_optional pending (some ps) = append_paired_sample pending ps

  -- A checkpoint of an audit: the first one counts as a cut, later ones add to the audit.
  unfoldable pub note_audit_checkpoint :
      DeltaKCalibrator F
      → ℕ
      → AuditOf
      → Estimates F
      → Option (PairedAuditSample F)
      → DeltaKCalibrator F
  unfolding append_paired_sample
  note_audit_checkpoint cal id a est ps = elim (get cal.pending id) [
    | none ↦
        let fresh : PendingAudit F = record {
          audit_of = a;
          est_at_cut = est;
          paired_samples = [];
        } in
        record cal {
          counts = note_cut a cal.counts;
          pending = put cal.pending id (append_optional fresh ps);
        }
    | some pending ↦
        let seen =
          if same_phi est.phi a.phi_at_cut then record pending { est_at_cut = est } else pending in
        record cal { pending = put cal.pending id (append_optional seen ps) }
  ]
