-- ===== src/Health/Report/Status.antt =====
-- scripts/daily_health_check.py: what `main` reports, and its exit status.
use mathlib.Core.List.{Memᴰ}
use mathlib.Core.List.Memᴰ
use mirage_core.Shared.{
  ℕ, ◌<◌, ◌≡◌, ◌≢◌, refl, ap, ◌↔◌, ◌⊎◌, inl, inr, true, Option, none, some, String, List, [], ◌∷◌,
  ◌++◌, keep, mem-keep, leb→le, le→leb, arith,
}
use mirage_core.Shared.Sorting.{sort_by, IsSorted, sort_by-IsSorted, mem-sort_by, sort_by-mem}
use mirage_core.Shared.Flat.{keep-mem}
use mirage_core.Health.{
  Rates, Thresholds, Finding, heartbeat_stale, check_failed, accept_list_missing, date_of,
}
use mirage_core.Health.Volume.{evaluate}
use mirage_core.Health.Report.Kept.{
  IsKept, guarded-failed, guarded-loaded, guarded-IsKept, check_beats-IsKept, check_stamps-IsKept,
  check_hours-IsKept,
}
use mirage_core.Health.Beats.{check_heartbeats}
use mirage_core.Health.Report.Always.{
  IsUnusable, pairs_failed, list_missing, beats_failed, sensor_silent, hours_failed, builds_failed,
  check_pairs-always, check_beats-always, check_hours-always, check_stamps-always,
}
use mirage_core.Health.Report.{
  failed, loaded, AcceptedRow, Inputs, Found, add_findings, add_always, guarded, accept_list,
  check_pairs, check_beats, check_stamps, complete_rows, cutoff_of, recent, by_date, all_checks,
  main, is_stale,
}

accept_list-missing :
    (strip : String → String) (files : List (Option (List String)))
    → Memᴰ none files
    → accept_list strip files ≡ none
unfolding accept_list
accept_list-missing strip [] m = elim m [ ]
accept_list-missing strip (none ∷ files) m = refl
accept_list-missing strip (some lines ∷ files) m = elim (Memᴰ.cases_cons m) [
  | inl e ↦ absurd (cc)
  | inr later ↦ rw (accept_list-missing strip files later) refl
]

check_pairs-reports :
    (strip : String → String) (i : Inputs) (found : Found)
    → (i.accepted ≡ failed
        → Memᴰ (check_failed i.today "accepted-pairs check") (check_pairs strip i found).always)
      × ((rows : List AcceptedRow)
          → i.accepted ≡ loaded rows
          → Memᴰ none i.accept_lists
          → Memᴰ (accept_list_missing i.today) (check_pairs strip i found).always)
unfolding check_pairs add_always
check_pairs-reports strip i found =
    let name : String = "accepted-pairs check" in
    (
      λ e.
          let (nothing, m) = guarded-failed name i.today i.accepted found e in
          rw (nothing, check_pairs) m,
      λ rows e m.
          rw
            (
              guarded-loaded name i.today i.accepted found e,
              accept_list-missing strip i.accept_lists m,
              check_pairs,
            )
            (Memᴰ.append_right (guarded name i.today i.accepted found).1.always (Memᴰ.head refl)),
    )

check_beats-reports :
    {fl : Rates} (t : Thresholds fl) (i : Inputs) (found : Found)
    → (i.heartbeats ≡ failed
        → Memᴰ (check_failed i.today "heartbeat check") (check_beats t i found).always)
      × ((beats : List (String × ℕ)) (s : String) (last n : ℕ)
          → i.heartbeats ≡ loaded beats
          → Memᴰ (heartbeat_stale s last n) (check_heartbeats beats i.now t)
          → Memᴰ (heartbeat_stale s last n) (check_beats t i found).always)
unfolding check_beats add_always add_findings is_stale
check_beats-reports t i found =
    let name : String = "heartbeat check" in
    (
      λ e.
          let (nothing, m) = guarded-failed name i.today i.heartbeats found e in
          rw (nothing, check_beats) m,
      λ beats s last n e m.
          rw (guarded-loaded name i.today i.heartbeats found e, check_beats)
            (Memᴰ.append_right (guarded name i.today i.heartbeats found).1.always
              (keep-mem is_stale m refl)),
    )

check_stamps-reports :
    (i : Inputs) (found : Found)
    → i.check_the_builds ≡ true
    → i.builds ≡ failed
    → Memᴰ (check_failed i.today "build check") (check_stamps i found).always
unfolding check_stamps
check_stamps-reports i found on e =
    let (nothing, m) = guarded-failed "build check" i.today i.builds found e in
    rw (on, nothing, check_stamps) m

abbrev status_of : List Finding → ℕ
status_of shown = elim shown [ [] ↦ 0 | f ∷ fs ↦ 1 ]

status_of-zero : (shown : List Finding) → (status_of shown ≡ 0) ↔ (shown ≡ [])
status_of-zero [] = (λ _. refl, λ _. refl)
status_of-zero (f ∷ fs) = (λ h. absurd (omega arith), λ h. absurd (cc))

status_of-one : (shown : List Finding) → (status_of shown ≡ 1) ↔ (shown ≢ [])
status_of-one [] = (λ h. absurd (omega arith), λ h. absurd (h refl))
status_of-one (f ∷ fs) = (λ _ h. absurd (cc), λ _. refl)

module _ {fl : Rates} (t : Thresholds fl) (strip : String → String) (i : Inputs)
    (some_history : 0 < t.min_hour_history) where
  -- All checks return, and the findings that have no window are those that must be reported.
  all_checks-total :
      (found : Found) × (all_checks t strip i ≡ some found)
      × ((f : Finding) → Memᴰ f found.always ↔ IsUnusable t i f)
  unfolding all_checks IsKept
  all_checks-total =
      let start : Found = record { findings = evaluate t (complete_rows i); always = [] } in
      let pairs = check_pairs strip i start in
      let beats = check_beats t i pairs in
      let (hours, returns, kept) = check_hours-IsKept t i beats some_history in
      let after_pairs : (f : Finding) → Memᴰ f pairs.always → Memᴰ f (check_stamps i hours).always =
        λ f m. check_stamps-IsKept i hours f (
          kept f (
            guarded-IsKept "hour-coverage check" i.today i.hours beats f
              (check_beats-IsKept t i pairs f m))) in
      let after_beats : (f : Finding) → Memᴰ f beats.always → Memᴰ f (check_stamps i hours).always =
        λ f m.
          check_stamps-IsKept i hours f
            (kept f (guarded-IsKept "hour-coverage check" i.today i.hours beats f m)) in
      let old_or_new : (f : Finding) → Memᴰ f hours.always → IsUnusable t i f = λ f m.
        elim (check_hours-always t strip i beats f hours returns m) [
          | inr u ↦ u
          | inl m₁ ↦ elim (check_beats-always t strip i pairs f m₁) [
            | inr u ↦ u
            | inl m₂ ↦ elim (check_pairs-always t strip i start f m₂) [
              | inr u ↦ u
              | inl m₃ ↦ elim m₃ [ ]
            ]
          ]
        ] in
      let sound : (f : Finding) → Memᴰ f (check_stamps i hours).always → IsUnusable t i f = λ f m.
        elim (check_stamps-always t strip i hours f m) [ inr u ↦ u | inl old ↦ old_or_new f old ] in
      (
        check_stamps i hours,
        rw (returns, all_checks) refl,
        λ f. (
          λ m. sound f m,
          λ u. elim u as (λ g _. Memᴰ g (check_stamps i hours).always) [
            | pairs_failed e ↦ after_pairs _ ((check_pairs-reports strip i start).0 e)
            | list_missing rows e m ↦ after_pairs _ ((check_pairs-reports strip i start).1 rows e m)
            | beats_failed e ↦ after_beats _ ((check_beats-reports t i pairs).0 e)
            | sensor_silent bs s last n e m ↦
                after_beats _ ((check_beats-reports t i pairs).1 bs s last n e m)
            | hours_failed e ↦
                check_stamps-IsKept i hours _
                  (kept _ (guarded-failed "hour-coverage check" i.today i.hours beats e).1)
            | builds_failed on e ↦ check_stamps-reports i hours on e
          ],
        ),
      )

  -- If some history is asked for, `main` returns; it shows the findings in the order of their days,
  -- those of `always` and those of the others that the report window keeps, and no more; and its
  -- exit status is 0 exactly if it shows none, and 1 otherwise.
  pub main-shown :
      (found : Found) × (shown : List Finding) × (status : ℕ) × (all_checks t strip i ≡ some found)
      × (main t strip i ≡ some (shown, status))
      × IsSorted by_date shown
      × ((f : Finding)
          → Memᴰ f shown ↔ (
              Memᴰ f found.always
              ⊎ (Memᴰ f found.findings × (recent (cutoff_of i (complete_rows i)) f ≡ true))))
      × ((status ≡ 0) ↔ (shown ≡ []))
      × ((status ≡ 1) ↔ (shown ≢ []))
  unfolding main
  main-shown =
      let (found, returns, _) = all_checks-total in
      let cutoff : Option ℕ = cutoff_of i (complete_rows i) in
      let kept : List Finding = keep (recent cutoff) found.findings in
      let shown : List Finding = sort_by by_date (kept ++ found.always) in
      (
        found,
        shown,
        status_of shown,
        returns,
        rw (returns, main) refl,
        sort_by-IsSorted by_date (λ f g h. ground arith)
            (λ f g h p q.
              le→leb (date_of f) (date_of h)
                (omega (arith, leb→le (date_of f) (date_of g) p, leb→le (date_of g) (date_of h) q)))
            (kept ++ found.always),
        λ f. (
          λ m. elim (Memᴰ.append_cases kept (mem-sort_by by_date (kept ++ found.always) m)) [
            | inl windowed ↦ inr (mem-keep (recent cutoff) found.findings windowed)
            | inr always ↦ inl always
          ],
          λ h. sort_by-mem by_date (elim h [
            | inl always ↦ Memᴰ.append_right kept always
            | inr windowed ↦
                Memᴰ.append_left found.always (keep-mem (recent cutoff) windowed.0 windowed.1)
          ]),
        ),
        status_of-zero shown,
        status_of-one shown,
      )

  -- If some history is asked for, the findings that `main` puts into `always` are exactly these: the
  -- failures of the loaders of the accepted pairs, the heartbeats, the hours and, if builds are
  -- checked, the builds; a missing accept list, if the pairs were loaded; and the sensors that the
  -- heartbeats show to be silent now. Each of them is shown whatever the report window, and with one
  -- of them the exit status is 1. So a check whose loader was not asked adds none of them.
  pub main-IsUnusable :
      (found : Found) × (all_checks t strip i ≡ some found)
      × ((f : Finding) → Memᴰ f found.always ↔ IsUnusable t i f)
      × ((f : Finding)
          → IsUnusable t i f
          → (shown : List Finding) × (main t strip i ≡ some (shown, 1)) × Memᴰ f shown)
  unfolding main
  main-IsUnusable =
      let (found, returns, exact) = all_checks-total in
      let kept : List Finding = keep (recent (cutoff_of i (complete_rows i))) found.findings in
      let shown : List Finding = sort_by by_date (kept ++ found.always) in
      let report : (f : Finding) → IsUnusable t i f → Memᴰ f shown =
        λ f u. sort_by-mem by_date (Memᴰ.append_right kept ((exact f).1 u)) in
      let one : (f : Finding) → Memᴰ f shown → status_of shown ≡ 1 =
        λ f m. (status_of-one shown).1 (λ none_shown. elim (rw none_shown at m) [ ]) in
      (
        found,
        returns,
        exact,
        λ f u. (
          shown,
          rw (returns, main) (ap (λ n. some (shown, n)) (one f (report f u))),
          report f u,
        ),
      )
