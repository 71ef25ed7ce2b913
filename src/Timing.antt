-- ===== src/Timing.antt =====
-- ml/mirage/analysis/timing.py: the timing features of a session and its label. Floats and what the
-- source takes from `statistics` and `math` are the interface `Floats`; the intervals are whole
-- milliseconds, of commands in the order of their time.
pub mod Labels
mod Witnesses
use mirage_core.Shared.{
  ℕ, ◌≡◌, Bool, true, false, not, ◌||◌, ◌&&◌, Option, none, some, List, [], ◌∷◌, map, ltb, leb,
  if◌then◌else◌, length, count,
}

pub record Floats : Type 1 where
  pub Float : Type 0
  pub of_nat : ℕ → Float
  pub nan : Float
  pub div : Float → Float → Float
  pub log1p : Float → Float
  pub median : List Float → Float
  pub fmean : List Float → Float
  pub stdev : List Float → Float
  pub is_nan : Float → Bool
  pub is_nan-nan : is_nan nan ≡ true
  pub lt : Float → Float → Bool
  pub le : Float → Float → Bool

pub data TimingLabel : Type 0 where
  automated : TimingLabel
  human : TimingLabel
  unknown : TimingLabel

module _ (fl : Floats) where
  open fl use {Float, of_nat, nan, div, log1p, median, fmean, stdev, is_nan, lt, le}

  pub record TimingFeatures : Type 0 where
    pub n_deltas : ℕ
    pub median_ms : Float
    pub mean_ms : Float
    pub cv : Float
    pub frac_superhuman : Float
    pub mean_log_ici : Float

  pub record TimingHeuristicConfig : Type 0 where
    pub min_deltas : ℕ
    pub automated_median_ms : Float
    pub automated_cv : Float
    pub superhuman_ms : Float
    pub superhuman_frac : Float
    pub human_median_ms : Float
    pub human_cv : Float

  -- `std / mean`, where there are two intervals and the mean is positive
  pub variation : List Float → Float
  variation deltas =
      if leb 2 (length deltas) && lt (of_nat 0) (fmean deltas)
      then div (stdev deltas) (fmean deltas)
      else nan

  features_of : List Float → TimingFeatures
  unfolding variation
  features_of [] = record {
    n_deltas = 0;
    median_ms = nan;
    mean_ms = nan;
    cv = nan;
    frac_superhuman = of_nat 0;
    mean_log_ici = nan;
  }
  features_of (d ∷ ds) = record {
    n_deltas = length (d ∷ ds);
    median_ms = median (d ∷ ds);
    mean_ms = fmean (d ∷ ds);
    cv = variation (d ∷ ds);
    frac_superhuman =
        div (of_nat (count (λ x. lt x (of_nat 50)) (d ∷ ds))) (of_nat (length (d ∷ ds)));
    mean_log_ici = fmean (map log1p (d ∷ ds));
  }

  -- The argument is `session.inter_command_deltas_ms()`.
  pub compute_timing_features : List ℕ → TimingFeatures
  unfolding features_of
  compute_timing_features deltas = features_of (map of_nat deltas)

  pub cv_is_low : TimingHeuristicConfig → TimingFeatures → Bool
  cv_is_low cfg feats = not (is_nan feats.cv) && lt feats.cv cfg.automated_cv

  pub cv_is_high : TimingHeuristicConfig → TimingFeatures → Bool
  cv_is_high cfg feats = not (is_nan feats.cv) && lt cfg.human_cv feats.cv

  -- `classify_session` with its features
  pub classify_features : TimingHeuristicConfig → TimingFeatures → TimingLabel
  unfolding cv_is_low cv_is_high
  classify_features cfg feats =
      if ltb feats.n_deltas cfg.min_deltas
      then unknown
      else if le cfg.superhuman_frac feats.frac_superhuman
      then automated
      else if lt feats.median_ms cfg.automated_median_ms && cv_is_low cfg feats
      then automated
      else if lt cfg.human_median_ms feats.median_ms || cv_is_high cfg feats
      then human
      else unknown

  unfoldable pub classify_session :
      List ℕ → TimingHeuristicConfig → Option TimingFeatures → TimingLabel
  unfolding classify_features compute_timing_features
  classify_session deltas cfg none = classify_features cfg (compute_timing_features deltas)
  classify_session deltas cfg (some feats) = classify_features cfg feats
