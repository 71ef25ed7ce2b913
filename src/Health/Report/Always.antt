-- ===== src/Health/Report/Always.antt =====
-- scripts/daily_health_check.py: what the checks of `main` put into `always`, and that it is only
-- that.
use mathlib.Core.List.{Memᴰ}
use mathlib.Core.List.Memᴰ
use mirage_core.Shared.{
  ℕ, ◌≡◌, refl, sym, ap, ◌⊎◌, inl, inr, subst, true, Option, none, some, String, List, [], ◌∷◌,
  mem-keep, arith, Bool-cases, Option-cases,
}
use mirage_core.Health.{
  Rates, Thresholds, Finding, heartbeat_stale, check_failed, accept_list_missing,
}
use mirage_core.Health.Beats.{check_heartbeats}
use mirage_core.Health.Hours.{check_hour_coverage}
use mirage_core.Health.Report.{
  Loaded, not_asked, failed, loaded, AcceptedRow, Inputs, Found, add_findings, add_always, guarded,
  accept_list, check_pairs, check_beats, check_hours, check_stamps, is_stale,
}

-- The failures that leave a check without its data, and a sensor that is silent now, each with the
-- finding it must give.
pub data IsUnusable {fl : Rates} (t : Thresholds fl) (i : Inputs) : Finding → Type 0 where
  pairs_failed : i.accepted ≡ failed → IsUnusable t i (check_failed i.today "accepted-pairs check")
  list_missing :
      (rows : List AcceptedRow)
      → i.accepted ≡ loaded rows
      → Memᴰ none i.accept_lists
      → IsUnusable t i (accept_list_missing i.today)
  beats_failed : i.heartbeats ≡ failed → IsUnusable t i (check_failed i.today "heartbeat check")
  sensor_silent :
      (beats : List (String × ℕ)) (s : String) (last n : ℕ)
      → i.heartbeats ≡ loaded beats
      → Memᴰ (heartbeat_stale s last n) (check_heartbeats beats i.now t)
      → IsUnusable t i (heartbeat_stale s last n)
  hours_failed : i.hours ≡ failed → IsUnusable t i (check_failed i.today "hour-coverage check")
  builds_failed :
      i.check_the_builds ≡ true
      → i.builds ≡ failed
      → IsUnusable t i (check_failed i.today "build check")

guarded-always :
    {A : Type 0} (name : String) (today : ℕ) (rows : Loaded A) (found : Found) (f : Finding)
    → Memᴰ f (guarded name today rows found).1.always
    → Memᴰ f found.always ⊎ ((rows ≡ failed) × (f ≡ check_failed today name))
unfolding guarded add_always
guarded-always name today not_asked found f m = inl m
guarded-always name today failed found f m = elim (Memᴰ.append_cases found.always m) [
  | inl old ↦ inl old
  | inr new ↦ inr (refl, Memᴰ.eq_of_singleton new)
]
guarded-always name today (loaded rows) found f m = inl m

guarded-rows :
    {A : Type 0} (name : String) (today : ℕ) (rows : Loaded A) (found : Found) (r : A)
    → (guarded name today rows found).0 ≡ some r
    → rows ≡ loaded r
unfolding guarded
guarded-rows name today not_asked found r e = absurd (cc)
guarded-rows name today failed found r e = absurd (cc)
guarded-rows name today (loaded rows) found r e =
    let same : rows ≡ r = ground arith in ap loaded same

accept_list-none :
    (strip : String → String) (files : List (Option (List String)))
    → accept_list strip files ≡ none
    → Memᴰ none files
unfolding accept_list
accept_list-none strip [] e = absurd (cc)
accept_list-none strip (none ∷ files) e = Memᴰ.head refl
accept_list-none strip (some lines ∷ files) e = elim (Option-cases (accept_list strip files)) [
  | inl missing ↦ Memᴰ.tail (accept_list-none strip files missing)
  | inr read ↦ let (allowed, k) = read in absurd (ground arith)
]

stale_parts :
    {fl : Rates} (t : Thresholds fl) (i : Inputs) (beats : List (String × ℕ)) (f : Finding)
    → i.heartbeats ≡ loaded beats
    → is_stale f ≡ true
    → Memᴰ f (check_heartbeats beats i.now t)
    → IsUnusable t i f
unfolding is_stale
stale_parts t i beats (heartbeat_stale s last n) e h m = sensor_silent beats s last n e m
stale_parts t i beats _ e h m = absurd (ground arith)

some_always : {a b : Found} → some a ≡ some b → a.always ≡ b.always
some_always {a} {b} e = ap (λ (o : Option Found). elim o [ none ↦ [] | some c ↦ c.always ]) e

is_none : {b : Found} → none ≡ some b → ⊥
is_none e = cc

module _ {fl : Rates} (t : Thresholds fl) (strip : String → String) (i : Inputs) (found : Found)
    (f : Finding) where
  failed_one :
      {A : Type 0} (name : String) (rows : Loaded A)
      → (rows ≡ failed → IsUnusable t i (check_failed i.today name))
      → Memᴰ f (guarded name i.today rows found).1.always
      → Memᴰ f found.always ⊎ IsUnusable t i f
  failed_one name rows says m = elim (guarded-always name i.today rows found f m) [
    | inl old ↦ inl old
    | inr (e, is) ↦ inr (subst (λ (g : Finding). IsUnusable t i g) (sym is) (says e))
  ]

  pub check_pairs-always :
      Memᴰ f (check_pairs strip i found).always → Memᴰ f found.always ⊎ IsUnusable t i f
  unfolding check_pairs add_findings add_always
  check_pairs-always m =
      let name : String = "accepted-pairs check" in
      elim (Option-cases (guarded name i.today i.accepted found).0) [
        | inl nothing ↦ failed_one name i.accepted pairs_failed (rw (nothing, check_pairs) at m)
        | inr some_rows ↦
            let (rows, e) = some_rows in
            elim (Option-cases (accept_list strip i.accept_lists)) [
              | inl missing ↦ elim (Memᴰ.append_cases _ (rw (e, missing, check_pairs) at m)) [
                | inl k ↦ failed_one name i.accepted pairs_failed k
                | inr k ↦ inr (
                    subst (λ (g : Finding). IsUnusable t i g) (sym (Memᴰ.eq_of_singleton k))
                      (list_missing rows (guarded-rows name i.today i.accepted found rows e)
                        (accept_list-none strip i.accept_lists missing)))
              ]
              | inr read ↦
                  failed_one name i.accepted pairs_failed (rw (e, read.1, check_pairs) at m)
            ]
      ]

  pub check_beats-always :
      Memᴰ f (check_beats t i found).always → Memᴰ f found.always ⊎ IsUnusable t i f
  unfolding check_beats add_findings add_always
  check_beats-always m =
      let name : String = "heartbeat check" in
      elim (Option-cases (guarded name i.today i.heartbeats found).0) [
        | inl nothing ↦ failed_one name i.heartbeats beats_failed (rw (nothing, check_beats) at m)
        | inr some_rows ↦
            let (beats, e) = some_rows in
            elim (Memᴰ.append_cases _ (rw (e, check_beats) at m)) [
              | inl k ↦ failed_one name i.heartbeats beats_failed k
              | inr k ↦
                  let (listed, stale) = mem-keep is_stale (check_heartbeats beats i.now t) k in
                  inr (
                    stale_parts t i beats f (guarded-rows name i.today i.heartbeats found beats e)
                      stale listed)
            ]
      ]

  pub check_stamps-always :
      Memᴰ f (check_stamps i found).always → Memᴰ f found.always ⊎ IsUnusable t i f
  unfolding check_stamps add_findings
  check_stamps-always m =
      let name : String = "build check" in
      elim (Bool-cases i.check_the_builds) [
        | inr off ↦ inl (rw (off, check_stamps) at m)
        | inl on ↦ elim (Option-cases (guarded name i.today i.builds found).0) [
          | inl nothing ↦
              failed_one name i.builds (builds_failed on) (rw (on, nothing, check_stamps) at m)
          | inr rows ↦
              failed_one name i.builds (builds_failed on) (rw (on, rows.1, check_stamps) at m)
        ]
      ]

  check_hours-kept :
      (after : Found)
      → check_hours t i found ≡ some after
      → (guarded "hour-coverage check" i.today i.hours found).1.always ≡ after.always
  unfolding check_hours add_findings
  check_hours-kept after returns =
      elim (Option-cases (guarded "hour-coverage check" i.today i.hours found).0) [
        | inl nothing ↦ some_always (rw (nothing, check_hours) at returns)
        | inr rows ↦ elim (Option-cases (check_hour_coverage t rows.0 i.now)) [
          | inl fails ↦ absurd (is_none (rw (rows.1, fails, check_hours) at returns))
          | inr fs ↦ some_always (rw (rows.1, fs.1, check_hours) at returns)
        ]
      ]

  pub check_hours-always :
      (after : Found)
      → check_hours t i found ≡ some after
      → Memᴰ f after.always
      → Memᴰ f found.always ⊎ IsUnusable t i f
  check_hours-always after returns m =
      failed_one "hour-coverage check" i.hours hours_failed
        (subst (λ (fs : List Finding). Memᴰ f fs) (sym (check_hours-kept after returns)) m)
