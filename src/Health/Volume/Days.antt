-- ===== src/Health/Volume/Days.antt =====
-- scripts/daily_health_check.py: `evaluate` day by day.
use mathlib.Core.List.{Memᴰ}
use mirage_core.Shared.{
  ℕ, zero, suc, ◌+◌, ◌-◌, ◌≤◌, ◌≡◌, ◌∙◌, refl, sym, ap, subst, ◌↔◌, inl, inr, Bool, not, some, List,
  [], ◌∷◌, ◌++◌, map, append-nil, keep, ltb, arith, Bool-cases,
}
use mirage_core.Shared.Dict.{Dict, dict_keys}
use mirage_core.Shared.Flat.{
  range, range-snoc, mem-range, flat_map, flat_map-mem, mem-flat_map, keep-append,
}
use mirage_core.Health.{Rates, Thresholds, Finding}
use mirage_core.Health.Hours.{least, greatest}
use mirage_core.Health.Hours.Coverage.{least-le, greatest-ge}
use mirage_core.Health.Volume.{Row, by_day_from, row_of, check_day, check_days, days_of, evaluate}

module _ {fl : Rates} (t : Thresholds fl) (by_day : Dict ℕ Row) where
  abbrev pub has_data : ℕ → Bool
  has_data d = not (ltb (row_of by_day d).sessions t.min_sessions)

  -- The volumes of the days that had data, of `k` days from `first`.
  abbrev pub history_of : ℕ → ℕ → List ℕ
  history_of first k = map (λ d. (row_of by_day d).sessions) (keep has_data (range first k))

  -- The findings of a day, judged by the days from `first` on before it.
  abbrev pub findings_of : ℕ → ℕ → List Finding
  findings_of first d = (check_day t d (row_of by_day d) (history_of first (d - first))).0

  map-append : (xs ys : List ℕ) (f : ℕ → ℕ) → map f (xs ++ ys) ≡ map f xs ++ map f ys
  map-append [] ys f = refl
  map-append (x ∷ xs) ys f = ap (λ zs. f x ∷ zs) (map-append xs ys f)

  history_of-snoc :
      (first k : ℕ)
      → history_of first (suc k)
        ≡ history_of first k
          ++ map (λ d. (row_of by_day d).sessions) (keep has_data ((first + k) ∷ []))
  history_of-snoc first k =
      let volumes : List ℕ → List ℕ = map (λ d. (row_of by_day d).sessions) in
      ap (λ xs. volumes (keep has_data xs)) (range-snoc first k)
      ∙ (ap volumes (keep-append has_data (range first k) ((first + k) ∷ []))
          ∙ map-append (keep has_data (range first k)) (keep has_data ((first + k) ∷ []))
              (λ d. (row_of by_day d).sessions))

  -- What a day adds to the history.
  history_of-next :
      (first k : ℕ)
      → (check_day t (first + k) (row_of by_day (first + k)) (history_of first k)).1
        ≡ history_of first (suc k)
  unfolding check_day
  history_of-next first k =
      elim (Bool-cases (ltb (row_of by_day (first + k)).sessions t.min_sessions)) [
        | inl few ↦
            subst
              (λ xs.
                (check_day t (first + k) (row_of by_day (first + k)) (history_of first k)).1 ≡ xs)
              (sym (history_of-snoc first k)) (rw (few, append-nil (history_of first k)) refl)
        | inr enough ↦
            subst
              (λ xs.
                (check_day t (first + k) (row_of by_day (first + k)) (history_of first k)).1 ≡ xs)
              (sym (history_of-snoc first k)) (rw enough refl)
      ]

  check_days-flat :
      (first fuel k : ℕ)
      → check_days t by_day fuel (first + k) (history_of first k)
        ≡ flat_map (findings_of first) (range (first + k) fuel)
  unfolding check_days
  check_days-flat first zero k = refl
  check_days-flat first (suc fuel) k =
      let d : ℕ = first + k in
      let e : d - first ≡ k = omega arith in
      let n : first + suc k ≡ suc d = omega arith in
      let found : ℕ → List Finding =
        λ j. (check_day t d (row_of by_day d) (history_of first j)).0 in
      let later =
        subst
          (λ m.
            check_days t by_day fuel m (history_of first (suc k))
            ≡ flat_map (findings_of first) (range m fuel))
          n (check_days-flat first fuel (suc k)) in
      ap (λ h. found k ++ check_days t by_day fuel (suc d) h) (history_of-next first k)
      ∙ (ap (λ fs. found k ++ fs) later
          ∙ ap (λ j. found j ++ flat_map (findings_of first) (range (suc d) fuel)) (sym e))

days_of-in_order :
    (by_day : Dict ℕ Row) (first last : ℕ) → days_of by_day ≡ some (first, last) → first ≤ last
days_of-in_order [] first last e = absurd (cc)
days_of-in_order ((d, r) ∷ rest) first last e =
    let keys : List ℕ = dict_keys rest in
    let pair : (least d keys, greatest d keys) ≡ (first, last) = cc in
    let ea : least d keys ≡ first = ap (λ (p : ℕ × ℕ). p.0) pair in
    let eb : greatest d keys ≡ last = ap (λ (p : ℕ × ℕ). p.1) pair in
    omega (arith, least-le d keys, greatest-ge d keys)

module _ {fl : Rates} (t : Thresholds fl) (rows : List Row) (first last : ℕ) where
  -- Where the rows span the days from `first` to `last`, `evaluate` gives the findings of these days
  -- one after the other, and those of a day are what `check_day` finds on the row of the day with the
  -- volumes of the days before it that had data as its history: the history that the loop carries
  -- is that list.
  pub evaluate-findings_of :
      days_of (by_day_from [] rows) ≡ some (first, last)
      → evaluate t rows
        ≡ flat_map (findings_of t (by_day_from [] rows) first) (range first (suc last - first))
  unfolding evaluate
  evaluate-findings_of spanned =
      let by_day = by_day_from [] rows in
      let z : first + 0 ≡ first = omega arith in
      rw (spanned, evaluate)
        (subst
          (λ m.
            check_days t by_day (suc last - first) m []
            ≡ flat_map (findings_of t by_day first) (range m (suc last - first)))
          z (check_days-flat t by_day first (suc last - first) 0))

  -- A finding is reported exactly if it is one of some day of the span.
  pub evaluate-mem_iff :
      (f : Finding)
      → days_of (by_day_from [] rows) ≡ some (first, last)
      → Memᴰ f (evaluate t rows) ↔ (
          (d : ℕ) × (first ≤ d) × (d ≤ last) × Memᴰ f (findings_of t (by_day_from [] rows) first d))
  evaluate-mem_iff f spanned =
      let days : ℕ → List Finding = findings_of t (by_day_from [] rows) first in
      let ordered = days_of-in_order (by_day_from [] rows) first last spanned in
      let flat = evaluate-findings_of spanned in
      let span : first + (suc last - first) ≡ suc last = omega arith in
      (
        λ m.
            let (d, there, found) = mem-flat_map days _ (rw flat at m) in
            let (low, high) = (mem-range first (suc last - first) d).0 there in
            (d, low, omega arith, found),
        λ (d, low, high, found).
            subst (λ fs. Memᴰ f fs) (sym flat)
              (flat_map-mem days ((mem-range first (suc last - first) d).1 (low, omega arith))
                found),
      )
