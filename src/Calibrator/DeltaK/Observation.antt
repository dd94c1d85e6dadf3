-- ===== src/Calibrator/DeltaK/Observation.antt =====
-- The observation of events: the windows stay windows, the counts stay balanced with the pending
-- audits, and the state stays as it is.
use imads.Prelude.{
  ℕ, zero, suc, ◌≡◌, refl, sym, ◌∙◌, ap, Bool, Option, none, some, List, [], ◌∷◌, ◌==◌, Bool-cases,
  Option-cases, inl, inr, length,
}
use imads.Float.{Float}
use imads.Types.{
  Phi, Estimates, EvalMeta, JobResult, rejected_cheap, rejected_invalid_eval, early_infeasible,
  partial, truth,
}
use imads.Cache.{MemoryCache, get, put}
use imads.Cache.Keys.{nat_key, same_phi}
use imads.Engine.Audit.{AuditOf, PairedAuditSample}
use imads.Calibrator.{CalibEvent}
use imads.Calibrator.Counting.{Counts, modify, note_cut, note_audit, remove}
use imads.Calibrator.Counting.Balance.{
  AllBalanced, note_cut-AllBalanced, note_audit-AllBalanced, pending_for-put_same,
}
use imads.Calibrator.Samples.{
  PendingAudit, DeltaKCalibrator, is_interval, append_paired_sample, append_optional,
  note_audit_checkpoint, truth_as_estimates, by_phi_idx, register_interval_sample,
}
use imads.Calibrator.DeltaK.{
  register_pairs, register_audit, finish_audit, observe_checkpoint, observe, observe_all,
}
use imads.Calibrator.DeltaK.Windows.{
  HasWindows, OnlyWindows, OnlyWindows-refl, OnlyWindows-trans,
  register_cut_to_truth_fallback-OnlyWindows, register_interval_sample-OnlyWindows,
}

length-modify {ℓ} :
    {A : Type ℓ} (f : A → A) (xs : List A) (j : ℕ) → length (modify f xs j) ≡ length xs
unfolding modify
length-modify f [] j = refl
length-modify f (x ∷ xs) zero = refl
length-modify f (x ∷ xs) (suc j) = ap suc (length-modify f xs j)

module _ {F : Type 0} ⦃d : Float F⦄ where
  register_pairs-OnlyWindows :
      (cal : DeltaKCalibrator F) (phi : Phi) (est : Estimates F) (rest : List (PairedAuditSample F))
      → OnlyWindows cal (register_pairs cal phi est rest).0
  unfolding register_pairs
  register_pairs-OnlyWindows cal phi est [] = OnlyWindows-refl cal
  register_pairs-OnlyWindows cal phi est (ps ∷ rest) =
      elim (Bool-cases (is_interval phi ps.paired_phi)) [
        | inl t ↦ rw t (
            OnlyWindows-trans cal _ _
              (register_interval_sample-OnlyWindows cal phi est ps.paired_phi ps.estimates)
              (register_pairs-OnlyWindows
                (register_interval_sample cal phi est ps.paired_phi ps.estimates) ps.paired_phi
                ps.estimates rest))
        | inr f ↦ rw f (register_pairs-OnlyWindows cal ps.paired_phi ps.estimates rest)
      ]

  register_audit-OnlyWindows :
      (cal : DeltaKCalibrator F) (pending : PendingAudit F) (est : Estimates F)
      → OnlyWindows cal (register_audit cal pending est)
  unfolding register_audit
  register_audit-OnlyWindows cal pending est =
      let phi = pending.audit_of.phi_at_cut in
      let samples = by_phi_idx pending.paired_samples in
      let pairs = register_pairs-OnlyWindows cal phi pending.est_at_cut samples in
      elim (Bool-cases ((register_pairs cal phi pending.est_at_cut samples).1 == 0)) [
        | inl t ↦ rw t (
            OnlyWindows-trans cal _ _ pairs
              (register_cut_to_truth_fallback-OnlyWindows _ phi pending.est_at_cut est))
        | inr f ↦ rw f pairs
      ]

  audit_of-append_optional :
      (pending : PendingAudit F) (ps : Option (PairedAuditSample F))
      → (append_optional pending ps).audit_of ≡ pending.audit_of
  unfolding append_paired_sample
  audit_of-append_optional pending none = refl
  audit_of-append_optional pending (some ps) = refl

  abbrev pub cut_of : PendingAudit F → AuditOf
  cut_of p = p.audit_of

  -- What an observation keeps.
  pub record Observed (a b : DeltaKCalibrator F) : Type 0 where
    pub windows : HasWindows a → HasWindows b
    pub balanced : AllBalanced cut_of a.counts a.pending → AllBalanced cut_of b.counts b.pending
    pub state : b.state ≡ a.state
    pub constraints : length b.counts ≡ length a.counts

  Observed-refl : (a : DeltaKCalibrator F) → Observed a a
  Observed-refl a = record { windows = λ h. h; balanced = λ h. h; state = refl; constraints = refl }

  Observed-trans : (a b c : DeltaKCalibrator F) → Observed a b → Observed b c → Observed a c
  Observed-trans a b c p q = record {
    windows = λ h. q.windows (p.windows h);
    balanced = λ h. q.balanced (p.balanced h);
    state = q.state ∙ p.state;
    constraints = q.constraints ∙ p.constraints;
  }

  -- The counts and the pending audits are no windows.
  with_ledger-HasWindows :
      (cal : DeltaKCalibrator F) (counts : List Counts) (pending : MemoryCache ℕ (PendingAudit F))
      → HasWindows cal
      → HasWindows (record cal { counts = counts; pending = pending })
  with_ledger-HasWindows cal counts pending h = record {
    global_f = h.global_f;
    global_c = h.global_c;
    phi_f = h.phi_f;
    phi_c = h.phi_c;
    interval_f = h.interval_f;
    interval_c = h.interval_c;
  }

  replaced-Observed :
      (cal : DeltaKCalibrator F) (id : ℕ) (found seen : PendingAudit F)
      (ps : Option (PairedAuditSample F))
      → get cal.pending id ≡ some found
      → seen.audit_of ≡ found.audit_of
      → Observed cal (record cal { pending = put cal.pending id (append_optional seen ps) })
  replaced-Observed cal id found seen ps e same = record {
    windows = λ h. with_ledger-HasWindows cal cal.counts _ h;
    balanced = λ h j c at.
        rw
          (pending_for-put_same cut_of cal.pending id found (append_optional seen ps) j e
            (audit_of-append_optional seen ps ∙ same))
          (h j c at);
    state = refl;
    constraints = refl;
  }

  finish_audit-Observed :
      (cal : DeltaKCalibrator F) (ev : CalibEvent F) (f c : List F) (feasible : Bool)
      (meta : EvalMeta F)
      → Observed cal (finish_audit cal ev f c feasible meta)
  unfolding finish_audit note_audit
  finish_audit-Observed cal ev f c feasible meta = elim (Option-cases (get cal.pending ev.id)) [
    | inl e ↦ rw (e, finish_audit) (Observed-refl cal)
    | inr (found, e) ↦
        let pending = append_optional found ev.paired_sample in
        let counted : DeltaKCalibrator F = record cal {
          pending = remove cal.pending ev.id;
          counts = note_audit pending.audit_of feasible c cal.counts;
        } in
        let rest =
          register_audit-OnlyWindows counted pending
            (truth_as_estimates meta.phi f c (length cal.state.k_c)) in
        rw (e, finish_audit)
          (record {
            windows = λ h. rest.windows (with_ledger-HasWindows cal _ _ h);
            balanced = λ h.
                rw (rest.counts, rest.pending)
                  (note_audit-AllBalanced cut_of cal.counts cal.pending ev.id found pending.audit_of
                    feasible c (sym (audit_of-append_optional found ev.paired_sample)) e h);
            state = rest.state;
            constraints = ap length rest.counts ∙ length-modify _ cal.counts _;
          })
  ]

  note_audit_checkpoint-Observed :
      (cal : DeltaKCalibrator F) (id : ℕ) (a : AuditOf) (est : Estimates F)
      (ps : Option (PairedAuditSample F))
      → Observed cal (note_audit_checkpoint cal id a est ps)
  unfolding note_audit_checkpoint note_cut
  note_audit_checkpoint-Observed cal id a est ps = elim (Option-cases (get cal.pending id)) [
    | inl e ↦
        rw (e, note_audit_checkpoint)
          (record {
            windows = λ h. with_ledger-HasWindows cal _ _ h;
            balanced =
                note_cut-AllBalanced cut_of cal.counts cal.pending id _ a
                  (audit_of-append_optional _ ps) e;
            state = refl;
            constraints = length-modify _ cal.counts _;
          })
    | inr (found, e) ↦ elim (Bool-cases (same_phi est.phi a.phi_at_cut)) [
      | inl t ↦
          rw (e, t, note_audit_checkpoint)
            (replaced-Observed cal id found (record found { est_at_cut = est }) ps e refl)
      | inr f ↦ rw (e, f, note_audit_checkpoint) (replaced-Observed cal id found found ps e refl)
    ]
  ]

  observe_checkpoint-Observed :
      (cal : DeltaKCalibrator F) (ev : CalibEvent F) (est : Estimates F)
      → Observed cal (observe_checkpoint cal ev est)
  unfolding observe_checkpoint
  observe_checkpoint-Observed cal ev est = elim (Bool-cases ev.audited) [
    | inr f ↦ rw f (Observed-refl cal)
    | inl t ↦ elim (Option-cases ev.audit_of) [
      | inl e ↦ rw (t, e, observe_checkpoint) (Observed-refl cal)
      | inr (a, e) ↦
          rw (t, e, observe_checkpoint)
            (note_audit_checkpoint-Observed cal ev.id a est ev.paired_sample)
    ]
  ]

  observe-Observed :
      (cal : DeltaKCalibrator F) (ev : CalibEvent F) (r : JobResult F)
      → Observed cal (observe cal ev r)
  unfolding observe
  observe-Observed cal ev (early_infeasible j est meta) = observe_checkpoint-Observed cal ev est
  observe-Observed cal ev (partial est meta) = observe_checkpoint-Observed cal ev est
  observe-Observed cal ev (truth f c feasible v meta) =
      finish_audit-Observed cal ev f c feasible meta
  observe-Observed cal ev (rejected_cheap meta) = Observed-refl cal
  observe-Observed cal ev (rejected_invalid_eval meta) = Observed-refl cal

  pub observe_all-Observed :
      (cal : DeltaKCalibrator F) (events : List (CalibEvent F))
      → Observed cal (observe_all cal events)
  unfolding observe_all
  observe_all-Observed cal [] = Observed-refl cal
  observe_all-Observed cal (ev ∷ evs) =
      Observed-trans cal _ _ (observe-Observed cal ev ev.result)
        (observe_all-Observed (observe cal ev ev.result) evs)
