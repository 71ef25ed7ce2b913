-- ===== src/Health/Volume/Outages.antt =====
-- scripts/daily_health_check.py: the silent failures that `evaluate` is there to catch.
use mathlib.Core.List.{Memᴰ}
use mirage_core.Shared.{ℕ, ◌<◌, ◌≤◌, ◌≡◌, sym, subst, ◌↔◌, true, false, some, List, []}
use mirage_core.Health.{
  Rates, Thresholds, Finding, date_of, no_sessions, acceptance_too_high, acceptance_too_low,
}
use mirage_core.Health.Volume.{Row, by_day_from, row_of, days_of, evaluate}
use mirage_core.Health.Volume.Days.{findings_of, evaluate-mem_iff}
use mirage_core.Health.Volume.Kinds.{no_sessions_iff, too_high_iff, too_low_iff, check_day-date}

-- The row of a day: the last one given, or zeros.
abbrev pub row_at : List Row → ℕ → Row
row_at rows d = row_of (by_day_from [] rows) d

module _ {fl : Rates} (t : Thresholds fl) (rows : List Row) (first last : ℕ) where
  evaluate-on_day :
      (f : Finding)
      → days_of (by_day_from [] rows) ≡ some (first, last)
      → Memᴰ f (evaluate t rows) ↔ (
          (first ≤ date_of f)
          × (date_of f ≤ last)
          × Memᴰ f (findings_of t (by_day_from [] rows) first (date_of f)))
  evaluate-on_day f spanned =
      let (there, back) = evaluate-mem_iff t rows first last f spanned in
      (
        λ m.
            let (d, low, high, found) = there m in
            let e : date_of f ≡ d = check_day-date t d (row_at rows d) _ f found in
            subst
              (λ k. (first ≤ k) × (k ≤ last) × Memᴰ f (findings_of t (by_day_from [] rows) first k))
              (sym e) (low, high, found),
        λ (low, high, found). back (date_of f, low, high, found),
      )

  -- Where the rows span the days from `first` to `last`, `evaluate` reports day `d` as one without
  -- sessions exactly if it lies in the span and its sessions, 0 for a day without a row, are fewer
  -- than the minimum.
  pub evaluate-no_sessions_iff :
      (d n : ℕ)
      → days_of (by_day_from [] rows) ≡ some (first, last)
      → Memᴰ (no_sessions d n) (evaluate t rows) ↔ (
          (first ≤ d)
          × (d ≤ last)
          × (n ≡ (row_at rows d).sessions)
          × ((row_at rows d).sessions < t.min_sessions))
  unfolding date_of
  evaluate-no_sessions_iff d n spanned =
      let (there, back) = evaluate-on_day (no_sessions d n) spanned in
      let (seen, shown) = no_sessions_iff t d (row_at rows d) _ n in
      (
        λ m. let (low, high, found) = there m in let (e, few) = seen found in (low, high, e, few),
        λ (low, high, e, few). back (low, high, shown (e, few)),
      )

  -- Where the rows span the days from `first` to `last`, `evaluate` reports day `d` as one with too
  -- many accepted passwords exactly if it lies in the span, has enough sessions and attempts, and
  -- accepted / attempts is above the upper bound; and as one with too few exactly if the rate is not
  -- above the upper bound and is below the lower one.
  pub evaluate-acceptance_iff :
      (d a n : ℕ)
      → days_of (by_day_from [] rows) ≡ some (first, last)
      → (Memᴰ (acceptance_too_high d a n) (evaluate t rows) ↔ (
          (first ≤ d)
          × (d ≤ last)
          × (t.min_sessions ≤ (row_at rows d).sessions)
          × (a ≡ (row_at rows d).accepted)
          × (n ≡ (row_at rows d).attempts)
          × (t.min_attempts_for_rate ≤ n)
          × (fl.lt t.max_accept (fl.ratio a n) ≡ true)))
        × (Memᴰ (acceptance_too_low d a n) (evaluate t rows) ↔ (
            (first ≤ d)
            × (d ≤ last)
            × (t.min_sessions ≤ (row_at rows d).sessions)
            × (a ≡ (row_at rows d).accepted)
            × (n ≡ (row_at rows d).attempts)
            × (t.min_attempts_for_rate ≤ n)
            × (fl.lt t.max_accept (fl.ratio a n) ≡ false)
            × (fl.lt (fl.ratio a n) t.min_accept ≡ true)))
  unfolding date_of
  evaluate-acceptance_iff d a n spanned =
      let (there, back) = evaluate-on_day (acceptance_too_high d a n) spanned in
      let (there', back') = evaluate-on_day (acceptance_too_low d a n) spanned in
      let (seen, shown) = too_high_iff t d (row_at rows d) _ a n in
      let (seen', shown') = too_low_iff t d (row_at rows d) _ a n in
      (
        (
          λ m.
              let (low, high, found) = there m in
              let (enough, ea, en, many, above) = seen found in
              (low, high, enough, ea, en, many, above),
          λ (low, high, enough, ea, en, many, above).
              back (low, high, shown (enough, ea, en, many, above)),
        ),
        (
          λ m.
              let (low, high, found) = there' m in
              let (enough, ea, en, many, not_above, below) = seen' found in
              (low, high, enough, ea, en, many, not_above, below),
          λ (low, high, enough, ea, en, many, not_above, below).
              back' (low, high, shown' (enough, ea, en, many, not_above, below)),
        ),
      )
