-- ===== src/Timing/Witnesses.antt =====
-- The timing label with numbers for floats: tests, and the theorem at concrete inputs.
use mirage_core.Shared.{
  ℕ, ◌/◌, ◌≤◌, ◌≡◌, refl, ◌↔◌, none, List, [], ◌∷◌, ltb, leb, ◌==◌, nat_eq, length,
}
use mirage_core.Timing.{Floats, automated, human, TimingHeuristicConfig, classify_session}
use mirage_core.Timing.Labels.{LooksAutomated, classify_session-automated_iff}

abbrev first : List ℕ → ℕ
first [] = 0
first (x ∷ _) = x

abbrev floats : Floats
floats = record {
  Float = ℕ;
  of_nat = λ n. n;
  nan = 1_000_000_000;
  div = λ a b. a / b;
  log1p = λ n. n;
  median = first;
  fmean = first;
  stdev = first;
  is_nan = λ n. n == 1_000_000_000;
  is_nan-nan = refl;
  lt = ltb;
  le = leb;
}

abbrev cfg : TimingHeuristicConfig floats
cfg = record {
  min_deltas = 3;
  automated_median_ms = 250;
  automated_cv = 1;
  superhuman_ms = 50;
  superhuman_frac = 1;
  human_median_ms = 800;
  human_cv = 1;
}

fast : classify_session floats (10 ∷ 20 ∷ 10 ∷ []) cfg none ≡ automated
unfolding classify_session
fast = refl

slow : classify_session floats (900 ∷ 20 ∷ 900 ∷ []) cfg none ≡ human
unfolding classify_session
slow = refl

abbrev deltas : List ℕ
deltas = 10 ∷ 20 ∷ 10 ∷ []

classify_session-automated_iff_example :
    (classify_session floats deltas cfg none ≡ automated)
    ↔ ((3 ≤ length deltas) × LooksAutomated floats cfg deltas)
classify_session-automated_iff_example = classify_session-automated_iff floats cfg deltas
