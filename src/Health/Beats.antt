-- ===== src/Health/Beats.antt =====
-- scripts/daily_health_check.py: `check_heartbeats`.
pub mod Gaps
pub mod Sensors
use mirage_core.Shared.{
  ℕ, ◌-◌, ◌++◌, Bool, Option, none, some, String, List, [], ◌∷◌, map, ltb, leb, if◌then◌else◌,
  string_eq,
}
use mirage_core.Shared.Dict.{Dict}
use mirage_core.Shared.Grouping.{group_by}
use mirage_core.Shared.Sorting.{sort_by}
use mirage_core.Shared.Flat.{flat_map}
use mirage_core.Health.{
  Rates, Thresholds, Finding, heartbeat_gap, heartbeat_stale, microseconds_of_minutes,
}

-- `stamps[-1]` of a list that has `a` before the rest
unfoldable pub last_of : ℕ → List ℕ → ℕ
last_of a [] = a
last_of a (b ∷ rest) = last_of b rest

-- `for a, b in zip(stamps, stamps[1:])`, each finding with the time it is sorted by
unfoldable pub gaps : ℕ → String → List ℕ → List (ℕ × Finding)
gaps limit sensor [] = []
gaps limit sensor (a ∷ []) = []
gaps limit sensor (a ∷ b ∷ rest) =
    let later = gaps limit sensor (b ∷ rest) in
    if ltb limit (b - a) then (a, heartbeat_gap sensor a b) ∷ later else later

unfoldable pub stale : ℕ → String → Option ℕ → List ℕ → List (ℕ × Finding)
stale limit sensor none stamps = []
stale limit sensor (some now) [] = []
stale limit sensor (some now) (a ∷ rest) =
    if ltb limit (now - last_of a rest)
    then (now, heartbeat_stale sensor (last_of a rest) now) ∷ []
    else []

-- `per`: the beats of each sensor.
abbrev pub per_sensor : List (String × ℕ) → Dict String (List ℕ)
per_sensor beats = group_by (λ b. b.0) (λ b. b.1) [] beats

abbrev pub by_time : ℕ × Finding → ℕ × Finding → Bool
by_time f g = leb f.0 g.0

module _ {fl : Rates} where
  unfoldable pub check_sensor : Option ℕ → Thresholds fl → String × List ℕ → List (ℕ × Finding)
  check_sensor now t (sensor, beats) =
      let stamps = sort_by leb beats in
      gaps (microseconds_of_minutes t.max_heartbeat_gap_min) sensor stamps
      ++ stale (microseconds_of_minutes t.max_heartbeat_age_min) sensor now stamps

  unfoldable pub check_heartbeats : List (String × ℕ) → Option ℕ → Thresholds fl → List Finding
  check_heartbeats beats now t =
      map (λ (f : ℕ × Finding). f.1)
        (sort_by by_time (flat_map (check_sensor now t) (per_sensor beats)))
