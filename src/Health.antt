-- ===== src/Health.antt =====
-- scripts/daily_health_check.py: the daily check of the sensor pipeline. This module has the
-- thresholds and the findings, each child one check. A day is its ordinal number, a time is in
-- microseconds since the epoch. A finding keeps the values that its detail text shows. A rate of
-- no attempts and a median of no days, at which the source raises, need a threshold of 0, which
-- `main` does not set; here `ratio` and `median` are total.
pub mod Beats
pub mod Hours
pub mod Volume
pub mod Pairs
pub mod Builds
pub mod Report
mod Witnesses
use mirage_core.Shared.{ℕ, ◌+◌, ◌*◌, ◌/◌, Bool, Option, String, List, length}

-- The floats of Python that the thresholds and rates use.
pub record Rates : Type 1 where
  pub Float : Type 0
  pub of_nat : ℕ → Float
  -- the quotient of two numbers of type `int`
  pub ratio : ℕ → ℕ → Float
  pub mul : Float → Float → Float
  pub lt : Float → Float → Bool
  -- `statistics.median`, of a list that is not empty
  pub median : List ℕ → Float

pub record Thresholds (fl : Rates) : Type 0 where
  pub min_sessions : ℕ
  pub min_attempts_for_rate : ℕ
  pub min_accept : fl.Float
  pub max_accept : fl.Float
  pub drop_frac : fl.Float
  pub hard_drop_frac : fl.Float
  pub hour_floor : ℕ
  pub hour_history : ℕ
  pub min_hour_history : ℕ
  pub history_days : ℕ
  pub min_history : ℕ
  pub max_heartbeat_gap_min : ℕ
  pub max_heartbeat_age_min : ℕ

pub data Finding : Type 0 where
  -- date, sessions
  no_sessions : ℕ → ℕ → Finding
  -- date, sessions, the prior days that the median is taken of
  volume_drop : ℕ → ℕ → List ℕ → Finding
  -- date, accepted, attempts
  acceptance_too_high : ℕ → ℕ → ℕ → Finding
  acceptance_too_low : ℕ → ℕ → ℕ → Finding
  -- date, the pairs that are not listed
  accepted_pair_not_listed : ℕ → List String → Finding
  -- sensor, the beats before and after
  heartbeat_gap : String → ℕ → ℕ → Finding
  -- sensor, its last beat, the present time
  heartbeat_stale : String → ℕ → ℕ → Finding
  -- the first and last empty hour, the populated hours before in order of their counts
  empty_hours : ℕ → ℕ → List ℕ → Finding
  -- date, sessions
  build_unknown : ℕ → ℕ → Finding
  build_blank : ℕ → ℕ → Finding
  -- today, the name of the check
  check_failed : ℕ → String → Finding
  -- today
  accept_list_missing : ℕ → Finding

abbrev pub microseconds_of_minutes : ℕ → ℕ
microseconds_of_minutes m = m * 60000000

abbrev pub day_of : ℕ → ℕ
day_of t = t / 86400000000

-- The day a finding is filed under. Hours are counted from the epoch.
unfoldable pub date_of : Finding → ℕ
date_of (no_sessions d n) = d
date_of (volume_drop d n prior) = d
date_of (acceptance_too_high d a n) = d
date_of (acceptance_too_low d a n) = d
date_of (accepted_pair_not_listed d bad) = d
date_of (heartbeat_gap s a b) = day_of a
date_of (heartbeat_stale s last now) = day_of now
date_of (empty_hours a b past) = a / 24
date_of (build_unknown d n) = d
date_of (build_blank d n) = d
date_of (check_failed d name) = d
date_of (accept_list_missing d) = d
