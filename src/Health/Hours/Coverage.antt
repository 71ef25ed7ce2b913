-- ===== src/Health/Hours/Coverage.antt =====
-- scripts/daily_health_check.py: the runs that `check_hour_coverage` reports.
use mathlib.Core.List.{Memᴰ}
use mirage_core.Shared.{
  ℕ, suc, ◌-◌, ◌<◌, ◌≤◌, ◌≡◌, ap, ◌↔◌, ◌≢◌, min, max, inl, inr, Option, none, some, List, [], ◌∷◌,
  arith, Option-cases,
}
use mirage_core.Shared.Dict.{Dict, dict_keys}
use mirage_core.Health.{Rates, Thresholds, Finding, empty_hours}
use mirage_core.Health.Hours.{
  counts_from, least, greatest, last_hour, span, past_of, check_hour_coverage,
}
use mirage_core.Health.Hours.Runs.{IsEmptyRun}
use mirage_core.Health.Hours.Scan.{IsTypical, IsFresh, ReportsFrom, scan_lem}

-- `first` and `last` of the hours are in order.
pub least-le : (a : ℕ) (xs : List ℕ) → least a xs ≤ a
unfolding least
least-le a [] = omega arith
least-le a (x ∷ xs) = omega (arith, least-le (min a x) xs)

pub greatest-ge : (a : ℕ) (xs : List ℕ) → a ≤ greatest a xs
unfolding greatest
greatest-ge a [] = omega arith
greatest-ge a (x ∷ xs) = omega (arith, greatest-ge (max a x) xs)

last_hour-ge : (last : ℕ) (now : Option ℕ) → last ≤ last_hour last now
unfolding last_hour
last_hour-ge last none = omega arith
last_hour-ge last (some now) = omega arith

span-in_order :
    (counts : Dict ℕ ℕ) (now : Option ℕ) (first last : ℕ)
    → span counts now ≡ some (first, last)
    → first ≤ last
unfolding span
span-in_order [] now first last e = absurd (cc)
span-in_order ((h, n) ∷ rest) now first last e =
    let keys : List ℕ = dict_keys rest in
    let pair : (least h keys, last_hour (greatest h keys) now) ≡ (first, last) = cc in
    let ea : least h keys ≡ first = ap (λ (p : ℕ × ℕ). p.0) pair in
    let eb : last_hour (greatest h keys) now ≡ last = ap (λ (p : ℕ × ℕ). p.1) pair in
    omega (arith, least-le h keys, greatest-ge h keys, last_hour-ge (greatest h keys) now)

-- If some history is asked for, `check_hour_coverage` returns without an index error, and where the
-- hours span from `first` to `last` it reports the run from `a` to `b` exactly if all its hours are
-- empty, it cannot be made longer within the span, and the history before it is long enough with at
-- least `hour_floor` sessions in its quietest twentieth.
pub check_hour_coverage-run_iff :
    {fl : Rates} (t : Thresholds fl) (hours : List (ℕ × ℕ)) (now : Option ℕ) (first last : ℕ)
    → 0 < t.min_hour_history
    → span (counts_from [] hours) now ≡ some (first, last)
    → (fs : List Finding) × (check_hour_coverage t hours now ≡ some fs)
      × ((a b : ℕ) (past : List ℕ)
          → Memᴰ (empty_hours a b past) fs ↔ (
              IsEmptyRun (counts_from [] hours) first last a b
              × (past ≡ past_of (counts_from [] hours) first t.hour_history a)
              × IsTypical t past))
unfolding check_hour_coverage ReportsFrom IsFresh
check_hour_coverage-run_iff t hours now first last some_history spanned =
    let counts = counts_from [] hours in
    let ordered = span-in_order counts now first last spanned in
    let (fs, e, reports) =
      scan_lem t some_history counts first last (suc (suc last) - first) first (omega arith)
        (omega arith) (omega arith) (λ _ _ h next from. absurd (omega arith)) in
    (
      fs,
      rw (spanned, check_hour_coverage) e,
      λ a b past. (
        λ m. let (_, run, ep, typical) = (reports a b past).0 m in (run, ep, typical),
        λ (run, ep, typical). (reports a b past).1 (run.from_first, run, ep, typical),
      ),
    )

-- If some history is asked for, `check_hour_coverage` returns: the loop ends, and the index of the
-- quietest twentieth is in range.
pub check_hour_coverage-total :
    {fl : Rates} (t : Thresholds fl) (hours : List (ℕ × ℕ)) (now : Option ℕ)
    → 0 < t.min_hour_history
    → check_hour_coverage t hours now ≢ none
unfolding check_hour_coverage
check_hour_coverage-total t hours now some_history e =
    elim (Option-cases (span (counts_from [] hours) now)) [
      | inl nothing ↦ let f : some [] ≡ none = rw (nothing, check_hour_coverage) at e in absurd (cc)
      | inr found ↦
          let ((first, last), spanned) = found in
          let (fs, returns, _) =
            check_hour_coverage-run_iff t hours now first last some_history spanned in
          absurd (cc)
    ]
