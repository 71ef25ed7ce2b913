-- ===== src/Health/Volume.antt =====
-- scripts/daily_health_check.py: `evaluate`, the daily volume and acceptance rate.
pub mod Days
pub mod Kinds
pub mod Outages
use mirage_core.Shared.{
  ℕ, zero, suc, ◌+◌, ◌-◌, min, max, Bool, true, false, not, ◌&&◌, ◌||◌, Option, none, some, List,
  [], ◌∷◌, ◌++◌, ltb, leb, if◌then◌else◌, length, drop, ◌==◌, nat_eq,
}
use mirage_core.Shared.Dict.{Dict, lookup, insert, dict_keys}
use mirage_core.Health.{
  Rates, Thresholds, Finding, no_sessions, volume_drop, acceptance_too_high, acceptance_too_low,
}
use mirage_core.Health.Hours.{least, greatest}

pub record Row : Type 0 where
  pub date : ℕ
  pub sessions : ℕ
  pub attempts : ℕ
  pub accepted : ℕ
  pub active_hours : Option ℕ

-- `by_day`: a later row of a day replaces an earlier one.
unfoldable pub by_day_from : Dict ℕ Row → List Row → Dict ℕ Row
by_day_from d [] = d
by_day_from d (r ∷ rows) = by_day_from (insert r.date r d) rows

unfoldable pub row_of : Dict ℕ Row → ℕ → Row
row_of by_day d = elim (lookup d by_day) [
  | none ↦ record { date = d; sessions = 0; attempts = 0; accepted = 0; active_hours = none }
  | some r ↦ r
]

-- `history[-k:]`, which for 0 is the whole list
unfoldable pub last_days : ℕ → List ℕ → List ℕ
last_days zero history = history
last_days (suc k) history = drop (length history - suc k) history

unfoldable pub is_full_day : Option ℕ → Bool
is_full_day none = false
is_full_day (some hours) = hours == 24

-- `first` and `last`
abbrev pub days_of : Dict ℕ Row → Option (ℕ × ℕ)
days_of [] = none
days_of ((d, r) ∷ rest) = some (least d (dict_keys rest), greatest d (dict_keys rest))

module _ {fl : Rates} (t : Thresholds fl) where
  open fl use {of_nat, ratio, mul, lt, median}

  unfoldable pub check_volume : ℕ → Row → List ℕ → List Finding
  check_volume d r history =
      let prior = last_days t.history_days history in
      let count = of_nat r.sessions in
      if leb t.min_history (length prior)
        && lt count (mul t.drop_frac (median prior))
        && (not (is_full_day r.active_hours) || lt count (mul t.hard_drop_frac (median prior)))
      then volume_drop d r.sessions prior ∷ []
      else []

  unfoldable pub check_rate : ℕ → Row → List Finding
  check_rate d r =
      let rate = ratio r.accepted r.attempts in
      if leb t.min_attempts_for_rate r.attempts
      then if lt t.max_accept rate
        then acceptance_too_high d r.accepted r.attempts ∷ []
        else if lt rate t.min_accept
        then acceptance_too_low d r.accepted r.attempts ∷ []
        else []
      else []

  -- One day: its findings, and the history after it.
  unfoldable pub check_day : ℕ → Row → List ℕ → List Finding × List ℕ
  check_day d r history =
      if ltb r.sessions t.min_sessions
      then (no_sessions d r.sessions ∷ [], history)
      else (check_volume d r history ++ check_rate d r, history ++ r.sessions ∷ [])

  -- The loop over `fuel` days from `d`.
  unfoldable pub check_days : Dict ℕ Row → ℕ → ℕ → List ℕ → List Finding
  check_days by_day zero d history = []
  check_days by_day (suc fuel) d history =
      let (found, history') = check_day d (row_of by_day d) history in
      found ++ check_days by_day fuel (suc d) history'

  unfoldable pub evaluate : List Row → List Finding
  evaluate rows =
      let by_day = by_day_from [] rows in
      elim (days_of by_day) [
        | none ↦ []
        | some (first, last) ↦ check_days by_day (suc last - first) first []
      ]
