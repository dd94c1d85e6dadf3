-- ===== src/Calibrator/Buckets.antt =====
-- The coefficients of each interval of tolerances and of each step, from their windows.
use imads.Prelude.{
  ℕ, Bool, true, false, not, ◌&&◌, ◌||◌, Option, none, some, List, [], ◌∷◌, ◌++◌, ltb, leb, ◌==◌,
  if◌then◌else◌, length, replicate, sort_by,
}
use imads.Float.{Float}
use imads.Float.Libm.{Libm, feq}
use imads.Types.{Phi}
use imads.Cache.{KeyEq, MemoryCache, get, put}
use imads.Cache.Keys.{phi_key, nat_key, same_phi}
use imads.Margin.{KByPhiState}
use imads.Calibrator.{CalibState, KIntervalKey, KIntervalState}
use imads.Calibrator.Delta.{prepend}
use imads.Calibrator.Samples.{DeltaKCalibrator, or_empty, interval_key}
use imads.Calibrator.Coefficients.{ema_quantile_update, update_bucket, window_sizes, padded}

module _ {K V : Type 0} where
  abbrev pub keys : MemoryCache K V → List K
  keys [] = []
  keys ((key, v) ∷ m) = key ∷ keys m

module _ {K : Type 0} ⦃k : KeyEq K⦄ where
  abbrev pub has_key : List K → K → Bool
  has_key [] key = false
  has_key (a ∷ ks) key = k.same a key || has_key ks key

  -- `for key in more { if !keys.contains(key) { keys.push(key) } }`
  abbrev pub add_missing : List K → List K → List K
  add_missing ks [] = ks
  add_missing ks (key ∷ more) = add_missing (if has_key ks key then ks else ks ++ key ∷ []) more

-- The derived orders: field by field.
abbrev pub phi_le : Phi → Phi → Bool
phi_le a b = ltb a.tau b.tau || (a.tau == b.tau) && leb a.smc b.smc

abbrev pub interval_le : KIntervalKey → KIntervalKey → Bool
interval_le a b =
    ltb a.tau_loose b.tau_loose
    || (a.tau_loose == b.tau_loose)
      && (ltb a.tau_tight b.tau_tight || (a.tau_tight == b.tau_tight) && leb a.smc b.smc)

module _ {F : Type 0} where
  -- `old_states.iter().map(|st| (st.key, st)).collect()`: of two states with one key the last
  -- counts.
  abbrev pub interval_map :
      MemoryCache KIntervalKey (KIntervalState F)
      → List (KIntervalState F)
      → MemoryCache KIntervalKey (KIntervalState F)
  interval_map m [] = m
  interval_map m (st ∷ states) = interval_map (put m st.key st) states

  abbrev pub phi_map :
      MemoryCache Phi (KByPhiState F) → List (KByPhiState F) → MemoryCache Phi (KByPhiState F)
  phi_map m [] = m
  phi_map m (st ∷ states) = phi_map (put m st.phi st) states

module _ {F : Type 0} ⦃d : Float F⦄ where
  -- `PartialEq` of the lists and states.
  abbrev pub same_values : List F → List F → Bool
  same_values [] [] = true
  same_values [] (y ∷ ys) = false
  same_values (x ∷ xs) [] = false
  same_values (x ∷ xs) (y ∷ ys) = feq x y && same_values xs ys

  abbrev pub same_states : List (KByPhiState F) → List (KByPhiState F) → Bool
  same_states [] [] = true
  same_states [] (y ∷ ys) = false
  same_states (x ∷ xs) [] = false
  same_states (x ∷ xs) (y ∷ ys) =
      same_phi x.phi y.phi && feq x.k_f y.k_f && same_values x.k_c y.k_c && same_states xs ys

module _ {F : Type 0} ⦃d : Float F⦄ ⦃e : Libm F⦄ where
  open d use {nought}

  -- The state before, or zeros; at least one coefficient for each of the `m` constraints.
  abbrev pub old_interval : ℕ → KIntervalKey → Option (KIntervalState F) → KIntervalState F
  old_interval m key none = record {
    key = key;
    k_f = nought;
    k_c = replicate m nought;
    sample_count_f = 0;
    sample_count_c = [];
  }
  old_interval m key (some st) = record st { k_c = padded st.k_c m }

  -- The next state of an interval; the objective's coefficient is taken even if it hardly changes.
  unfoldable pub interval_state :
      DeltaKCalibrator F → KIntervalKey → KIntervalState F → Option (KIntervalState F × Bool)
  interval_state cal key old =
      let f_samples = or_empty (get cal.k_interval_samples_f key) in
      let windows = or_empty (get cal.k_interval_samples_c key) in
      elim (ema_quantile_update cal old.k_f f_samples) [
        | none ↦ none
        | some (k_f, ch_f) ↦ elim (update_bucket cal old.k_c windows) [
          | none ↦ none
          | some (k_c, ch_c) ↦ some (
            record {
              key = key;
              k_f = k_f;
              k_c = k_c;
              sample_count_f = length f_samples;
              sample_count_c = window_sizes (length cal.state.k_c) windows;
            },
            ch_f || ch_c,
          )
        ]
      ]

  unfoldable pub interval_states :
      DeltaKCalibrator F
      → MemoryCache KIntervalKey (KIntervalState F)
      → List KIntervalKey
      → Option (List (KIntervalState F) × Bool)
  interval_states cal old_map [] = some ([], false)
  interval_states cal old_map (key ∷ ks) =
      prepend (interval_state cal key (old_interval (length cal.state.k_c) key (get old_map key)))
        (interval_states cal old_map ks)

  -- The keys of all three maps.
  abbrev pub interval_keys :
      DeltaKCalibrator F → MemoryCache KIntervalKey (KIntervalState F) → List KIntervalKey
  interval_keys cal old_map = sort_by interval_le (
      add_missing (add_missing (keys cal.k_interval_samples_f) (keys cal.k_interval_samples_c))
        (keys old_map))

  unfoldable pub update_interval_k : DeltaKCalibrator F → Option (CalibState F × Bool)
  update_interval_k cal =
      let old_map = interval_map [] cal.state.k_interval_stats in
      elim (interval_states cal old_map (interval_keys cal old_map)) [
        | none ↦ none
        | some (states, changed) ↦ some (record cal.state { k_interval_stats = states }, changed)
      ]

  abbrev pub old_phi : ℕ → Phi → Option (KByPhiState F) → KByPhiState F
  old_phi m phi none = record { phi = phi; k_f = nought; k_c = replicate m nought }
  old_phi m phi (some st) = record st { k_c = padded st.k_c m }

  unfoldable pub phi_state :
      DeltaKCalibrator F → Phi → KByPhiState F → Option (KByPhiState F × Bool)
  phi_state cal phi old =
      elim (ema_quantile_update cal old.k_f (or_empty (get cal.k_phi_samples_f phi))) [
        | none ↦ none
        | some (k_f, ch_f) ↦
            elim (update_bucket cal old.k_c (or_empty (get cal.k_phi_samples_c phi))) [
              | none ↦ none
              | some (k_c, ch_c) ↦ some (record { phi = phi; k_f = k_f; k_c = k_c }, ch_f || ch_c)
            ]
      ]

  unfoldable pub phi_states :
      DeltaKCalibrator F
      → MemoryCache Phi (KByPhiState F)
      → List Phi
      → Option (List (KByPhiState F) × Bool)
  phi_states cal old_map [] = some ([], false)
  phi_states cal old_map (phi ∷ phis) =
      prepend (phi_state cal phi (old_phi (length cal.state.k_c) phi (get old_map phi)))
        (phi_states cal old_map phis)

  abbrev pub phi_keys : DeltaKCalibrator F → MemoryCache Phi (KByPhiState F) → List Phi
  phi_keys cal old_map = sort_by phi_le (
      add_missing (add_missing (keys cal.k_phi_samples_f) (keys cal.k_phi_samples_c))
        (keys old_map))

  unfoldable pub update_phi_bucket_k : DeltaKCalibrator F → Option (CalibState F × Bool)
  update_phi_bucket_k cal =
      let old_map = phi_map [] cal.state.k_by_phi in
      elim (phi_states cal old_map (phi_keys cal old_map)) [
        | none ↦ none
        | some (states, changed) ↦ some (
          record cal.state { k_by_phi = states },
          changed || not (same_states cal.state.k_by_phi states),
        )
      ]
