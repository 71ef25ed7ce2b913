-- ===== src/Timing/Labels.antt =====
-- ml/mirage/analysis/timing.py: when a session gets each label.
use mirage_core.Shared.{
  ℕ, suc, ◌≤◌, ◌≡◌, refl, sym, ap, ◌∙◌, ◌↔◌, inl, inr, ◌⊎◌, Bool, true, false, none, List, [], ◌∷◌,
  map, arith, length, length-map, count,
}
use mirage_core.Timing.{
  Floats, TimingLabel, automated, human, unknown, TimingFeatures, TimingHeuristicConfig, cv_is_low,
  variation, features_of, compute_timing_features, classify_features, classify_session,
}

module _ (fl : Floats) (cfg : TimingHeuristicConfig fl) where
  open fl use {Float, of_nat, nan, div, median, fmean, stdev, is_nan, is_nan-nan, lt, le}

  is_automated : TimingLabel → Bool
  is_automated automated = true
  is_automated _ = false

  is_automated_iff : (l : TimingLabel) → (is_automated l ≡ true) ↔ (l ≡ automated)
  unfolding is_automated
  is_automated_iff automated = (λ _. refl, λ _. refl)
  is_automated_iff human = (λ h. absurd (cc), λ e. ap is_automated e)
  is_automated_iff unknown = (λ h. absurd (cc), λ e. ap is_automated e)

  -- There is a cadence no human has, or a fast and regular one.
  abbrev Signs : TimingFeatures fl → Type 0
  Signs feats =
      (le cfg.superhuman_frac feats.frac_superhuman ≡ true)
      ⊎ ((lt feats.median_ms cfg.automated_median_ms ≡ true) × (cv_is_low fl cfg feats ≡ true))

  automated-Signs :
      (feats : TimingFeatures fl)
      → (is_automated (classify_features fl cfg feats) ≡ true)
        ↔ ((cfg.min_deltas ≤ feats.n_deltas) × Signs feats)
  unfolding classify_features is_automated
  automated-Signs feats = ground arith

  features-n_deltas :
      (deltas : List ℕ) → (compute_timing_features fl deltas).n_deltas ≡ length deltas
  unfolding compute_timing_features features_of
  features-n_deltas [] = refl
  features-n_deltas (d ∷ ds) = ap suc (length-map ds _)

  -- Two intervals or more with a positive mean have a variation, which is a number below the limit.
  abbrev pub IsRegular : List Float → Type 0
  IsRegular xs =
      (2 ≤ length xs)
      × (lt (of_nat 0) (fmean xs) ≡ true)
      × (is_nan (div (stdev xs) (fmean xs)) ≡ false)
      × (lt (div (stdev xs) (fmean xs)) cfg.automated_cv ≡ true)

  -- The share of intervals below 50 ms reaches the limit, or the intervals are fast and regular. The
  -- share of no intervals is 0, and they have no variation.
  abbrev pub LooksAutomated : List ℕ → Type 0
  LooksAutomated [] = le cfg.superhuman_frac (of_nat 0) ≡ true
  LooksAutomated (d ∷ ds) =
      let xs = map of_nat (d ∷ ds) in
      (le cfg.superhuman_frac
          (div (of_nat (count (λ x. lt x (of_nat 50)) xs)) (of_nat (length (d ∷ ds))))
        ≡ true)
      ⊎ ((lt (median xs) cfg.automated_median_ms ≡ true) × IsRegular xs)

  cv_is_low-IsRegular :
      (feats : TimingFeatures fl) (xs : List Float)
      → feats.cv ≡ variation fl xs
      → (cv_is_low fl cfg feats ≡ true) ↔ IsRegular xs
  unfolding cv_is_low variation
  cv_is_low-IsRegular feats xs e = rw e (ground (arith, is_nan-nan))

  no_variation : (feats : TimingFeatures fl) → feats.cv ≡ nan → ¬ (cv_is_low fl cfg feats ≡ true)
  unfolding cv_is_low
  no_variation feats e low = ground (arith, ap is_nan e, is_nan-nan)

  looks_iff : (deltas : List ℕ) → Signs (compute_timing_features fl deltas) ↔ LooksAutomated deltas
  unfolding compute_timing_features features_of
  looks_iff [] =
      let none_regular = no_variation (compute_timing_features fl []) refl in
      (λ s. elim s [ inl share ↦ share | inr (fast, low) ↦ absurd (none_regular low) ], λ l. inl l)
  looks_iff (d ∷ ds) =
      let feats = compute_timing_features fl (d ∷ ds) in
      let regular = cv_is_low-IsRegular feats (map of_nat (d ∷ ds)) refl in
      let n = ap of_nat (ap suc (length-map ds of_nat)) in
      let share =
        ap (λ x. div (of_nat (count (λ x. lt x (of_nat 50)) (map of_nat (d ∷ ds)))) x) n in
      (
        λ s. elim s [
          | inl h ↦ inl (ap (λ x. le cfg.superhuman_frac x) (sym share) ∙ h)
          | inr (fast, low) ↦ inr (fast, regular.0 low)
        ],
        λ l. elim l [
          | inl h ↦ inl (ap (λ x. le cfg.superhuman_frac x) share ∙ h)
          | inr (fast, low) ↦ inr (fast, regular.1 low)
        ],
      )

  -- A session is labelled as automated exactly when it has at least `min_deltas` intervals and either
  -- the share of them that is below 50 ms reaches the limit, or their median is below its limit and
  -- their variation exists, is a number and is below its limit. The share of no intervals is 0.
  pub classify_session-automated_iff :
      (deltas : List ℕ)
      → (classify_session fl deltas cfg none ≡ automated)
        ↔ ((cfg.min_deltas ≤ length deltas) × LooksAutomated deltas)
  unfolding classify_session
  classify_session-automated_iff deltas =
      let signs = automated-Signs (compute_timing_features fl deltas) in
      let label = is_automated_iff (classify_features fl cfg (compute_timing_features fl deltas)) in
      let n = features-n_deltas deltas in
      let looks = looks_iff deltas in
      (
        λ e. let (enough, s) = signs.0 (label.1 e) in (omega (arith, enough, n), looks.0 s),
        λ (enough, l). label.0 (signs.1 (omega (arith, enough, n), looks.1 l)),
      )
