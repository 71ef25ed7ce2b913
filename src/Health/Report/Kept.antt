-- ===== src/Health/Report/Kept.antt =====
-- scripts/daily_health_check.py: the checks of `main` keep what is reported whatever its day.
use mathlib.Core.List.{Memᴰ}
use mathlib.Core.List.Memᴰ
use mirage_core.Shared.{
  ℕ, ◌<◌, ◌≡◌, refl, inl, inr, none, some, String, [], ◌∷◌, Bool-cases, Option-cases,
}
use mirage_core.Health.{Rates, Thresholds, Finding, check_failed, accept_list_missing}
use mirage_core.Health.Hours.{check_hour_coverage}
use mirage_core.Health.Hours.Coverage.{check_hour_coverage-total}
use mirage_core.Health.Report.{
  Loaded, not_asked, failed, loaded, Inputs, Found, add_findings, add_always, guarded, accept_list,
  check_pairs, check_beats, check_hours, check_stamps,
}

-- A finding of `always` stays there.
unfoldable pub IsKept : Found → Found → Type 0
IsKept a b = (f : Finding) → Memᴰ f a.always → Memᴰ f b.always

pub guarded-IsKept :
    {A : Type 0} (name : String) (today : ℕ) (rows : Loaded A) (found : Found)
    → IsKept found (guarded name today rows found).1
unfolding guarded IsKept add_always
guarded-IsKept name today not_asked found f m = m
guarded-IsKept name today failed found f m = Memᴰ.append_left (check_failed today name ∷ []) m
guarded-IsKept name today (loaded rows) found f m = m

-- A loader that fails leaves a finding.
pub guarded-failed :
    {A : Type 0} (name : String) (today : ℕ) (rows : Loaded A) (found : Found)
    → rows ≡ failed
    → (guarded name today rows found).0 ≡ none
      × Memᴰ (check_failed today name) (guarded name today rows found).1.always
unfolding guarded add_always
guarded-failed name today rows found e =
    rw e (refl, Memᴰ.append_right found.always (Memᴰ.head refl))

pub guarded-loaded :
    {A : Type 0} (name : String) (today : ℕ) (rows : Loaded A) (found : Found) {r : A}
    → rows ≡ loaded r
    → (guarded name today rows found).0 ≡ some r
unfolding guarded
guarded-loaded name today rows found e = rw e refl

pub check_pairs-IsKept :
    (strip : String → String) (i : Inputs) (found : Found)
    → IsKept found (check_pairs strip i found)
unfolding check_pairs IsKept add_always add_findings
check_pairs-IsKept strip i found f m =
    let k = guarded-IsKept "accepted-pairs check" i.today i.accepted found f m in
    elim (Option-cases (guarded "accepted-pairs check" i.today i.accepted found).0) [
      | inl nothing ↦ rw (nothing, check_pairs) k
      | inr rows ↦ elim (Option-cases (accept_list strip i.accept_lists)) [
        | inl missing ↦
            rw (rows.1, missing, check_pairs)
              (Memᴰ.append_left (accept_list_missing i.today ∷ []) k)
        | inr allowed ↦ rw (rows.1, allowed.1, check_pairs) k
      ]
    ]

pub check_stamps-IsKept : (i : Inputs) (found : Found) → IsKept found (check_stamps i found)
unfolding check_stamps IsKept add_always add_findings
check_stamps-IsKept i found f m =
    let k = guarded-IsKept "build check" i.today i.builds found f m in
    elim (Bool-cases i.check_the_builds) [
      | inr off ↦ rw (off, check_stamps) m
      | inl on ↦ elim (Option-cases (guarded "build check" i.today i.builds found).0) [
        | inl nothing ↦ rw (on, nothing, check_stamps) k
        | inr rows ↦ rw (on, rows.1, check_stamps) k
      ]
    ]

module _ {fl : Rates} (t : Thresholds fl) (i : Inputs) (found : Found) where
  pub check_beats-IsKept : IsKept found (check_beats t i found)
  unfolding check_beats IsKept add_always add_findings
  check_beats-IsKept f m =
      let k = guarded-IsKept "heartbeat check" i.today i.heartbeats found f m in
      elim (Option-cases (guarded "heartbeat check" i.today i.heartbeats found).0) [
        | inl nothing ↦ rw (nothing, check_beats) k
        | inr rows ↦ rw (rows.1, check_beats) (Memᴰ.append_left _ k)
      ]

  -- With some history asked for, the hour coverage returns.
  pub check_hours-IsKept :
      0 < t.min_hour_history
      → (after : Found) × (check_hours t i found ≡ some after)
        × IsKept (guarded "hour-coverage check" i.today i.hours found).1 after
  unfolding check_hours IsKept add_findings
  check_hours-IsKept some_history =
      elim (Option-cases (guarded "hour-coverage check" i.today i.hours found).0) [
        | inl nothing ↦ rw (nothing, check_hours) (_, refl, λ f m. m)
        | inr rows ↦
            let (hours, e) = rows in
            elim (Option-cases (check_hour_coverage t hours i.now)) [
              | inl fails ↦ absurd (check_hour_coverage-total t hours i.now some_history fails)
              | inr fs ↦ rw (e, fs.1, check_hours) (_, refl, λ f m. m)
            ]
      ]
