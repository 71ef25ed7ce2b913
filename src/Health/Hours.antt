-- ===== src/Health/Hours.antt =====
-- scripts/daily_health_check.py: `check_hour_coverage`. An hour is its number since the epoch, and
-- since `series` holds consecutive hours, the loop runs over the hours `series[i]` themselves.
pub mod Runs
pub mod Scan
pub mod Coverage
use mirage_core.Shared.{
  ℕ, zero, suc, ◌+◌, ◌-◌, ◌/◌, min, max, Bool, true, false, not, ◌&&◌, Option, none, some, List, [],
  ◌∷◌, ◌++◌, map, ltb, leb, if◌then◌else◌, length, get_elem?, keep, nat_eq,
}
use mirage_core.Shared.Dict.{Dict, lookup, insert, dict_keys}
use mirage_core.Shared.Sorting.{sort_by}
use mirage_core.Shared.Flat.{range}
use mirage_core.Health.{Rates, Thresholds, Finding, empty_hours}

-- `_hour`, of a time in microseconds
unfoldable pub hour_of : ℕ → ℕ
hour_of t = t / 3600000000

unfoldable pub counts_from : Dict ℕ ℕ → List (ℕ × ℕ) → Dict ℕ ℕ
counts_from d [] = d
counts_from d ((h, n) ∷ hours) = counts_from (insert (hour_of h) n d) hours

-- `counts.get(h, 0)`
unfoldable pub count_at : Dict ℕ ℕ → ℕ → ℕ
count_at counts h = elim (lookup h counts) [ none ↦ 0 | some n ↦ n ]

unfoldable pub populated : Dict ℕ ℕ → ℕ → Bool
unfolding count_at
populated counts h = ltb 0 (count_at counts h)

unfoldable pub least : ℕ → List ℕ → ℕ
least a [] = a
least a (b ∷ rest) = least (min a b) rest

unfoldable pub greatest : ℕ → List ℕ → ℕ
greatest a [] = a
greatest a (b ∷ rest) = greatest (max a b) rest

-- `last`, which reaches to the last complete hour before `now`
unfoldable pub last_hour : ℕ → Option ℕ → ℕ
last_hour last none = last
last_hour last (some now) = max last (hour_of now - 1)

-- `first` and `last`, if there are any counts
unfoldable pub span : Dict ℕ ℕ → Option ℕ → Option (ℕ × ℕ)
span [] now = none
span ((h, n) ∷ rest) now =
    some (least h (dict_keys rest), last_hour (greatest h (dict_keys rest)) now)

-- `j` after the inner loop, which starts at `j` and ends before the hour `last`
unfoldable pub run_end : Dict ℕ ℕ → ℕ → ℕ → ℕ → ℕ
run_end counts last zero j = j
run_end counts last (suc fuel) j =
    let further = run_end counts last fuel (suc j) in
    if ltb j last && not (populated counts (suc j)) then further else j

-- `past` at the hour `i`: the counts of the populated hours of the history before it
unfoldable pub past_of : Dict ℕ ℕ → ℕ → ℕ → ℕ → List ℕ
past_of counts first history i =
    let start : ℕ = max first (i - history) in
    sort_by leb (map (count_at counts) (keep (populated counts) (range start (i - start))))

module _ {fl : Rates} (t : Thresholds fl) where
  -- The test of a run from `i` to `j`. `past[int(0.05 * len(past))]` out of range is `none`; the
  -- product rounds to at least the exact twentieth, so `int` of it is the quotient.
  unfoldable pub judge : List ℕ → ℕ → ℕ → Option (List Finding)
  judge past i j =
      if leb t.min_hour_history (length past)
      then elim (get_elem? past (length past / 20)) [
        | none ↦ none
        | some quiet ↦ some (if leb t.hour_floor quiet then empty_hours i j past ∷ [] else [])
      ]
      else some []

  abbrev pub both : Option (List Finding) → Option (List Finding) → Option (List Finding)
  both (some fs) (some gs) = some (fs ++ gs)
  both _ _ = none

  -- The outer loop from the hour `i`.
  unfoldable pub scan : Dict ℕ ℕ → ℕ → ℕ → ℕ → ℕ → Option (List Finding)
  scan counts first last zero i = none
  scan counts first last (suc fuel) i = elim (leb i last) [
    | false ↦ some []
    | true ↦ elim (populated counts i) [
      | true ↦ scan counts first last fuel (suc i)
      | false ↦
          let j : ℕ = run_end counts last (suc last - i) i in
          both (judge (past_of counts first t.hour_history i) i j)
            (scan counts first last fuel (suc j))
    ]
  ]

  unfoldable pub check_hour_coverage : List (ℕ × ℕ) → Option ℕ → Option (List Finding)
  check_hour_coverage hours now =
      let counts = counts_from [] hours in
      elim (span counts now) [
        | none ↦ some []
        | some (first, last) ↦ scan counts first last (suc (suc last) - first) first
      ]
