-- ===== src/Calibrator/DeltaK/Windows.antt =====
-- The windows of samples, and what the observation of an event leaves alone.
use Prim.Native.Nat.{max}
use imads.Prelude.{
  ℕ, zero, suc, ◌+◌, ◌-◌, ◌≤◌, ◌≡◌, refl, true, ◌&&◌, some, List, [], ◌∷◌, ◌++◌, arith, ltb,
  Bool-cases, Option-cases, inl, inr, length, drop, replicate, length-append, length-drop, All,
  All-append,
}
use imads.Float.{Float, ◌≼◌}
use imads.Types.{Phi, Estimates}
use imads.Cache.{KeyEq, MemoryCache, get, put}
use imads.Cache.Keys.{phi_key, nat_key}
use imads.Calibrator.Samples.{
  DeltaKCalibrator, or_empty, push_k_sample, push_nested_k_sample, push_each, push_nested_from,
  push_at, windows_of, push_all_at, register_at, register_interval_sample,
  register_cut_to_truth_fallback, is_interval, interval_key,
}

module _ {F : Type 0} ⦃d : Float F⦄ where
  abbrev pub IsSample : F → Type 0
  IsSample v = (d.is_finite v ≡ true) × (d.nought ≼ v)

  -- Finite samples of the right sign, and not more of them than the window holds.
  pub record IsWindow (limit : ℕ) (w : List F) : Type 0 where
    pub samples : All IsSample w
    pub bounded : length w ≤ max limit 1

  pub empty-IsWindow : (limit : ℕ) → IsWindow limit []
  empty-IsWindow limit = record { samples = tt; bounded = omega arith }

  All-drop : (n : ℕ) (w : List F) → All IsSample w → All IsSample (drop n w)
  All-drop zero w h = h
  All-drop (suc n) [] h = tt
  All-drop (suc n) (x ∷ w) h = All-drop n w h.1

  pub push_k_sample-IsWindow :
      (limit : ℕ) (w : List F) (v : F) → IsWindow limit w → IsWindow limit (push_k_sample w v limit)
  unfolding push_k_sample
  push_k_sample-IsWindow limit w v h = elim (Bool-cases (d.is_finite v && d.le d.nought v)) [
    | inr f ↦ rw f h
    | inl t ↦
        let longer = w ++ v ∷ [] in
        let one_more = length-append w (v ∷ []) in
        let good : All IsSample longer = All-append IsSample w (v ∷ []) h.samples (ground arith) in
        rw t (elim (Bool-cases (ltb (max limit 1) (length longer))) [
          | inl over ↦ rw over (record {
            samples = All-drop (length longer - max limit 1) longer good;
            bounded = omega (arith, length-drop (length longer - max limit 1) longer);
          })
          | inr fits ↦ rw fits (record { samples = good; bounded = ground arith })
        ])
  ]

  abbrev pub AreWindows : ℕ → List (List F) → Type 0
  AreWindows limit ws = All (IsWindow limit) ws

  push_nested_k_sample-AreWindows :
      (limit : ℕ) (ws : List (List F)) (j : ℕ) (v : F)
      → AreWindows limit ws
      → AreWindows limit (push_nested_k_sample ws j v limit)
  unfolding push_nested_k_sample
  push_nested_k_sample-AreWindows limit [] zero v h =
      (push_k_sample-IsWindow limit [] v (empty-IsWindow limit), tt)
  push_nested_k_sample-AreWindows limit [] (suc j) v h =
      (empty-IsWindow limit, push_nested_k_sample-AreWindows limit [] j v tt)
  push_nested_k_sample-AreWindows limit (w ∷ ws) zero v h =
      (push_k_sample-IsWindow limit w v h.0, h.1)
  push_nested_k_sample-AreWindows limit (w ∷ ws) (suc j) v h =
      (h.0, push_nested_k_sample-AreWindows limit ws j v h.1)

  push_nested_from-AreWindows :
      (limit : ℕ) (ws : List (List F)) (j : ℕ) (dcs : List F)
      → AreWindows limit ws
      → AreWindows limit (push_nested_from ws j dcs limit)
  unfolding push_nested_from
  push_nested_from-AreWindows limit ws j [] h = h
  push_nested_from-AreWindows limit ws j (dc ∷ dcs) h =
      push_nested_from-AreWindows limit (push_nested_k_sample ws j dc limit) (j + 1) dcs
        (push_nested_k_sample-AreWindows limit ws j dc h)

  push_each-AreWindows :
      (limit : ℕ) (ws : List (List F)) (dcs : List F)
      → AreWindows limit ws
      → AreWindows limit (push_each ws dcs limit)
  unfolding push_each
  push_each-AreWindows limit [] dcs h = tt
  push_each-AreWindows limit (w ∷ ws) [] h = h
  push_each-AreWindows limit (w ∷ ws) (dc ∷ dcs) h =
      (push_k_sample-IsWindow limit w dc h.0, push_each-AreWindows limit ws dcs h.1)

module _ (F : Type 0) ⦃d : Float F⦄ where
  pub empty-AreWindows : (limit m : ℕ) → AreWindows limit (replicate {A = List F} m [])
  empty-AreWindows limit zero = tt
  empty-AreWindows limit (suc m) = (empty-IsWindow limit, empty-AreWindows limit m)

-- A property of all values of a map.
abbrev pub Values : {K V : Type 0} → (V → Type 0) → MemoryCache K V → Type 0
Values P m = All (λ e. P e.1) m

module _ {K V : Type 0} ⦃k : KeyEq K⦄ (P : V → Type 0) where
  pub put-Values :
      (m : MemoryCache K V) (key : K) (v : V) → Values P m → P v → Values P (put m key v)
  unfolding put
  put-Values [] key v h p = (p, tt)
  put-Values ((a, w) ∷ m) key v h p = ground (arith, put-Values m key v h.1 p)

  pub get-Values : (m : MemoryCache K V) (key : K) (v : V) → Values P m → get m key ≡ some v → P v
  unfolding get
  get-Values [] key v h e = cc
  get-Values ((a, w) ∷ m) key v h e = ground (arith, get-Values m key v h.1)

module _ {F : Type 0} ⦃d : Float F⦄ {K : Type 0} ⦃k : KeyEq K⦄ (limit : ℕ) where
  pub get-IsWindow :
      (m : MemoryCache K (List F)) (key : K)
      → Values (IsWindow limit) m
      → IsWindow limit (or_empty (get m key))
  get-IsWindow m key h = elim (Option-cases (get m key)) [
    | inl e ↦ rw e (empty-IsWindow limit)
    | inr (w, e) ↦ rw e (get-Values (IsWindow limit) m key w h e)
  ]

  pub get-AreWindows :
      (m : MemoryCache K (List (List F))) (key : K)
      → Values (AreWindows limit) m
      → AreWindows limit (or_empty (get m key))
  get-AreWindows m key h = elim (Option-cases (get m key)) [
    | inl e ↦ rw e tt
    | inr (ws, e) ↦ rw e (get-Values (AreWindows limit) m key ws h e)
  ]

  push_at-Values :
      (m : MemoryCache K (List F)) (key : K) (v : F)
      → Values (IsWindow limit) m
      → Values (IsWindow limit) (push_at m key v limit)
  unfolding push_at
  push_at-Values m key v h =
      put-Values (IsWindow limit) m key _ h
        (push_k_sample-IsWindow limit _ v (get-IsWindow m key h))

  windows_of-AreWindows :
      (m : MemoryCache K (List (List F))) (key : K) (n : ℕ)
      → Values (AreWindows limit) m
      → AreWindows limit (windows_of m key n)
  windows_of-AreWindows m key n h = elim (Option-cases (get m key)) [
    | inl e ↦ rw (e, windows_of) (empty-AreWindows F limit n)
    | inr (ws, e) ↦ rw (e, windows_of) (get-Values (AreWindows limit) m key ws h e)
  ]

  push_all_at-Values :
      (m : MemoryCache K (List (List F))) (key : K) (dcs : List F)
      → Values (AreWindows limit) m
      → Values (AreWindows limit) (push_all_at m key dcs limit)
  unfolding push_all_at
  push_all_at-Values m key [] h = h
  push_all_at-Values m key (dc ∷ dcs) h = put-Values (AreWindows limit) m key _ h (
      push_nested_from-AreWindows limit _ 0 (dc ∷ dcs)
        (windows_of-AreWindows m key (length (dc ∷ dcs)) h))

module _ {F : Type 0} ⦃d : Float F⦄ where
  pub record HasWindows (cal : DeltaKCalibrator F) : Type 0 where
    pub global_f : IsWindow cal.k_window cal.k_samples_f
    pub global_c : AreWindows cal.k_window cal.k_samples_c
    pub phi_f : Values (IsWindow cal.k_window) cal.k_phi_samples_f
    pub phi_c : Values (AreWindows cal.k_window) cal.k_phi_samples_c
    pub interval_f : Values (IsWindow cal.k_window) cal.k_interval_samples_f
    pub interval_c : Values (AreWindows cal.k_window) cal.k_interval_samples_c

  -- Registering samples changes windows only.
  pub record OnlyWindows (a b : DeltaKCalibrator F) : Type 0 where
    pub counts : b.counts ≡ a.counts
    pub pending : b.pending ≡ a.pending
    pub state : b.state ≡ a.state
    pub windows : HasWindows a → HasWindows b

  pub OnlyWindows-refl : (a : DeltaKCalibrator F) → OnlyWindows a a
  OnlyWindows-refl a = record { counts = refl; pending = refl; state = refl; windows = λ h. h }

  pub OnlyWindows-trans :
      (a b c : DeltaKCalibrator F) → OnlyWindows a b → OnlyWindows b c → OnlyWindows a c
  OnlyWindows-trans a b c p q = record {
    counts = cc (q.counts, p.counts);
    pending = cc (q.pending, p.pending);
    state = cc (q.state, p.state);
    windows = λ h. q.windows (p.windows h);
  }

  register_at-OnlyWindows :
      (cal : DeltaKCalibrator F) (phi : Phi) (df : F) (dcs : List F)
      → OnlyWindows cal (register_at cal phi df dcs)
  unfolding register_at
  register_at-OnlyWindows cal phi df dcs = record {
    counts = refl;
    pending = refl;
    state = refl;
    windows = λ h. record {
      global_f = push_k_sample-IsWindow _ _ df h.global_f;
      global_c = push_each-AreWindows _ _ dcs h.global_c;
      phi_f = push_at-Values _ _ phi df h.phi_f;
      phi_c = push_all_at-Values _ _ phi dcs h.phi_c;
      interval_f = h.interval_f;
      interval_c = h.interval_c;
    };
  }

  pub register_cut_to_truth_fallback-OnlyWindows :
      (cal : DeltaKCalibrator F) (phi : Phi) (cut checked : Estimates F)
      → OnlyWindows cal (register_cut_to_truth_fallback cal phi cut checked)
  unfolding register_cut_to_truth_fallback
  register_cut_to_truth_fallback-OnlyWindows cal phi cut checked =
      register_at-OnlyWindows cal phi _ _

  pub register_interval_sample-OnlyWindows :
      (cal : DeltaKCalibrator F) (loose_phi : Phi) (loose : Estimates F) (tight_phi : Phi)
      (tight : Estimates F)
      → OnlyWindows cal (register_interval_sample cal loose_phi loose tight_phi tight)
  unfolding register_interval_sample register_at
  register_interval_sample-OnlyWindows cal loose_phi loose tight_phi tight =
      elim (Bool-cases (is_interval loose_phi tight_phi)) [
        | inr f ↦ rw f (OnlyWindows-refl cal)
        | inl t ↦ rw t (record {
          counts = refl;
          pending = refl;
          state = refl;
          windows = λ h.
              let w = (register_at-OnlyWindows cal loose_phi _ _).windows h in
              record {
                global_f = w.global_f;
                global_c = w.global_c;
                phi_f = w.phi_f;
                phi_c = w.phi_c;
                interval_f = push_at-Values _ _ _ _ h.interval_f;
                interval_c = push_all_at-Values _ _ _ _ h.interval_c;
              };
        })
      ]
