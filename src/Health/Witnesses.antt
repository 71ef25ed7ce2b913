-- ===== src/Health/Witnesses.antt =====
-- scripts/daily_health_check.py: tests, and the theorems at concrete inputs.
use mathlib.Core.List.{Memᴰ}
use mirage_core.Shared.{
  ℕ, suc, ◌+◌, ◌-◌, ◌*◌, ◌/◌, ◌<◌, ◌≤◌, ◌≡◌, ◌≢◌, refl, ◌↔◌, ◌⊎◌, Bool, true, false, Option, none,
  some, String, List, [], ◌∷◌, ltb, length, get_elem?, arith,
}
use mirage_core.Shared.Dict.{Dict}
use mirage_core.Shared.Sorting.{IsSorted}
use mirage_core.Shared.Flat.{range, flat_map}
use mirage_core.Health.{
  Rates, Thresholds, Finding, no_sessions, acceptance_too_high, acceptance_too_low,
  accepted_pair_not_listed, heartbeat_gap, heartbeat_stale, empty_hours,
}
use mirage_core.Health.Beats.{check_heartbeats, check_sensor, gaps, stale, last_of}
use mirage_core.Health.Beats.Gaps.{IsGap}
use mirage_core.Health.Beats.Sensors.{
  beats_of, IsLatest, check_heartbeats-IsGap_iff, check_heartbeats-stale_iff,
}
use mirage_core.Health.Hours.{
  counts_from, span, past_of, scan, check_hour_coverage, hour_of, count_at, populated, least,
  greatest, last_hour, run_end, judge,
}
use mirage_core.Health.Hours.Runs.{IsEmptyRun}
use mirage_core.Health.Hours.Scan.{IsTypical}
use mirage_core.Health.Hours.Coverage.{check_hour_coverage-run_iff}
use mirage_core.Health.Volume.{
  Row, by_day_from, days_of, evaluate, row_of, check_days, check_day, check_volume, check_rate,
  last_days, is_full_day,
}
use mirage_core.Health.Volume.Days.{findings_of, evaluate-findings_of}
use mirage_core.Health.Volume.Outages.{row_at, evaluate-acceptance_iff}
use mirage_core.Health.Pairs.{check_accepted_pairs, check_pairs_of_day, distinct, is_in}
use mirage_core.Health.Report.{
  not_asked, failed, loaded, Inputs, Found, main, all_checks, cutoff_of, complete_rows, recent,
  by_date,
}
use mirage_core.Health.Report.Always.{IsUnusable}
use mirage_core.Health.Report.Status.{main-shown, main-IsUnusable}

-- Fractions for the floats of the thresholds.
abbrev fractions : Rates
fractions = record {
  Float = ℕ × ℕ;
  of_nat = λ n. (n, 1);
  ratio = λ a b. (a, b);
  mul = λ p q. (p.0 * q.0, p.1 * q.1);
  lt = λ p q. ltb (p.0 * q.1) (q.0 * p.1);
  median = λ xs. (middle xs, 1);
}
  where
    middle : List ℕ → ℕ
    middle [] = 0
    middle (x ∷ xs) = x

-- The default thresholds, on a shorter history.
abbrev limits : Thresholds fractions
limits = record {
  min_sessions = 1;
  min_attempts_for_rate = 100;
  min_accept = (1, 100);
  max_accept = (1, 4);
  drop_frac = (1, 4);
  hard_drop_frac = (1, 20);
  hour_floor = 5;
  hour_history = 168;
  min_hour_history = 2;
  history_days = 14;
  min_history = 7;
  max_heartbeat_gap_min = 5;
  max_heartbeat_age_min = 5;
}

-- Times in minutes.
abbrev two_sensors : List (String × ℕ)
two_sensors = ("fra", 600000000) ∷ ("nue", 60000000) ∷ ("fra", 0) ∷ ("nue", 120000000) ∷ []

abbrev clock : Option ℕ
clock = some 660000000

beats_run :
    check_heartbeats two_sensors clock limits
    ≡ heartbeat_gap "fra" 0 600000000 ∷ heartbeat_stale "nue" 120000000 660000000 ∷ []
unfolding check_heartbeats check_sensor gaps stale last_of mirage_core.Shared.Grouping.group_by
beats_run = refl

check_heartbeats-IsGap_iff_example :
    Memᴰ (heartbeat_gap "fra" 0 600000000) (check_heartbeats two_sensors clock limits)
    ↔ IsGap 300000000 (beats_of "fra" two_sensors) 0 600000000
check_heartbeats-IsGap_iff_example =
    check_heartbeats-IsGap_iff two_sensors clock limits "fra" 0 600000000

check_heartbeats-stale_iff_example :
    Memᴰ (heartbeat_stale "nue" 120000000 660000000) (check_heartbeats two_sensors clock limits) ↔ (
      (clock ≡ some 660000000)
      × IsLatest 120000000 (beats_of "nue" two_sensors)
      × (300000000 < 660000000 - 120000000))
check_heartbeats-stale_iff_example =
    check_heartbeats-stale_iff two_sensors clock limits "nue" 120000000 660000000

-- Sessions at the hours 0, 1 and 4.
abbrev three_hours : List (ℕ × ℕ)
three_hours = (0, 9) ∷ (3600000000, 8) ∷ (14400000000, 7) ∷ []

hours_run : check_hour_coverage limits three_hours none ≡ some (empty_hours 2 3 (8 ∷ 9 ∷ []) ∷ [])
unfolding check_hour_coverage counts_from hour_of span least greatest last_hour scan populated
    count_at run_end judge past_of
hours_run = refl

hours_spanned : span (counts_from [] three_hours) none ≡ some (0, 4)
unfolding span counts_from hour_of least greatest last_hour
hours_spanned = refl

check_hour_coverage-run_iff_example :
    (fs : List Finding) × (check_hour_coverage limits three_hours none ≡ some fs)
    × ((a b : ℕ) (past : List ℕ)
        → Memᴰ (empty_hours a b past) fs ↔ (
            IsEmptyRun (counts_from [] three_hours) 0 4 a b
            × (past ≡ past_of (counts_from [] three_hours) 0 168 a)
            × IsTypical limits past))
check_hour_coverage-run_iff_example =
    check_hour_coverage-run_iff limits three_hours none 0 4 (omega arith) hours_spanned

-- Day 1 accepts everything, day 2 is missing, day 3 rejects everything.
abbrev three_days : List Row
three_days =
    record { date = 1; sessions = 50; attempts = 200; accepted = 200; active_hours = some 24 }
    ∷ record { date = 3; sessions = 40; attempts = 200; accepted = 0; active_hours = none }
    ∷ []

days_run :
    evaluate limits three_days
    ≡ acceptance_too_high 1 200 200 ∷ no_sessions 2 0 ∷ acceptance_too_low 3 0 200 ∷ []
unfolding evaluate by_day_from check_days check_day row_of check_volume check_rate last_days
    is_full_day least greatest
days_run = refl

days_spanned : days_of (by_day_from [] three_days) ≡ some (1, 3)
unfolding by_day_from least greatest
days_spanned = refl

evaluate-findings_of_example :
    evaluate limits three_days
    ≡ flat_map (findings_of limits (by_day_from [] three_days) 1) (range 1 3)
evaluate-findings_of_example = evaluate-findings_of limits three_days 1 3 days_spanned

evaluate-acceptance_iff_example :
    (Memᴰ (acceptance_too_high 1 200 200) (evaluate limits three_days) ↔ (
      (1 ≤ 1)
      × (1 ≤ 3)
      × (1 ≤ (row_at three_days 1).sessions)
      × (200 ≡ (row_at three_days 1).accepted)
      × (200 ≡ (row_at three_days 1).attempts)
      × (100 ≤ 200)
      × (ltb 200 800 ≡ true)))
    × (Memᴰ (acceptance_too_low 1 200 200) (evaluate limits three_days) ↔ (
        (1 ≤ 1)
        × (1 ≤ 3)
        × (1 ≤ (row_at three_days 1).sessions)
        × (200 ≡ (row_at three_days 1).accepted)
        × (200 ≡ (row_at three_days 1).attempts)
        × (100 ≤ 200)
        × (ltb 200 800 ≡ false)
        × (ltb 20000 200 ≡ true)))
evaluate-acceptance_iff_example =
    evaluate-acceptance_iff limits three_days 1 3 1 200 200 days_spanned

abbrev one_day : Dict ℕ (List String)
one_day = (7, "root:root" ∷ "root:1234" ∷ "root:root" ∷ []) ∷ []

pairs_run :
    check_accepted_pairs one_day ("root:1234" ∷ [])
    ≡ accepted_pair_not_listed 7 ("root:root" ∷ []) ∷ []
unfolding check_accepted_pairs check_pairs_of_day distinct is_in
pairs_run = refl

-- The query of the accepted pairs failed on day 9.
abbrev inputs : Inputs
inputs = record {
  rows = three_days;
  from_csv = true;
  today = 9;
  now = clock;
  accepted = failed;
  accept_lists = [];
  heartbeats = loaded two_sensors;
  hours = loaded three_hours;
  check_the_builds = false;
  builds = not_asked;
  report_all = false;
  report_days = 2;
}

main-shown_example :
    (found : Found) × (shown : List Finding) × (status : ℕ) × (all_checks limits (λ l. l) inputs
      ≡ some found)
    × (main limits (λ l. l) inputs ≡ some (shown, status))
    × IsSorted by_date shown
    × ((f : Finding)
        → Memᴰ f shown ↔ (
            Memᴰ f found.always
            ⊎ (Memᴰ f found.findings
                × (recent (cutoff_of inputs (complete_rows inputs)) f ≡ true))))
    × ((status ≡ 0) ↔ (shown ≡ []))
    × ((status ≡ 1) ↔ (shown ≢ []))
main-shown_example = main-shown limits (λ l. l) inputs (omega arith)

main-IsUnusable_example :
    (found : Found) × (all_checks limits (λ l. l) inputs ≡ some found)
    × ((f : Finding) → Memᴰ f found.always ↔ IsUnusable limits inputs f)
    × ((f : Finding)
        → IsUnusable limits inputs f
        → (shown : List Finding) × (main limits (λ l. l) inputs ≡ some (shown, 1)) × Memᴰ f shown)
main-IsUnusable_example = main-IsUnusable limits (λ l. l) inputs (omega arith)
