-- ===== src/Health/Hours/Scan.antt =====
-- scripts/daily_health_check.py: what the loop of `check_hour_coverage` reports from an hour on.
use mathlib.Core.List.{Memᴰ}
use mathlib.Core.List.Memᴰ
use mirage_core.Shared.{
  ℕ, zero, suc, ◌+◌, ◌-◌, ◌/◌, ◌<◌, ◌≤◌, ◌≡◌, refl, ◌↔◌, inl, inr, true, false, some, List, [], ◌∷◌,
  ◌++◌, length, get_elem?, get_elem?-some, ltb, leb, arith, Bool-cases, ltb→lt, leb→le,
}
use mirage_core.Shared.Dict.{Dict}
use mirage_core.Health.{Rates, Thresholds, Finding, empty_hours}
use mirage_core.Health.Hours.{populated, run_end, past_of, judge, scan}
use mirage_core.Health.Hours.Runs.{IsEmptyRun, run_end_lem, overlap_start, overlap_end}

-- The history is long enough, and its quietest twentieth has the floor of sessions.
unfoldable pub IsTypical : {fl : Rates} → Thresholds fl → List ℕ → Type 0
IsTypical t past =
    (t.min_hour_history ≤ length past)
    × (quiet : ℕ) × (get_elem? past (length past / 20) ≡ some quiet)
    × (t.hour_floor ≤ quiet)

quiet_floor :
    {fl : Rates} (t : Thresholds fl) (past : List ℕ) (quiet : ℕ)
    → get_elem? past (length past / 20) ≡ some quiet
    → IsTypical t past
    → t.hour_floor ≤ quiet
unfolding IsTypical
quiet_floor t past quiet found (long, q, at_q, floor) = let e : q ≡ quiet = cc in rw e at floor

typical_long :
    {fl : Rates} (t : Thresholds fl) (past : List ℕ)
    → IsTypical t past
    → t.min_hour_history ≤ length past
unfolding IsTypical
typical_long t past typical = typical.0

IsTypical-intro :
    {fl : Rates} (t : Thresholds fl) (past : List ℕ) (quiet : ℕ)
    → t.min_hour_history ≤ length past
    → get_elem? past (length past / 20) ≡ some quiet
    → t.hour_floor ≤ quiet
    → IsTypical t past
unfolding IsTypical
IsTypical-intro t past quiet long found floor = (long, quiet, found, floor)

module _ {fl : Rates} (t : Thresholds fl) (some_history : 0 < t.min_hour_history) where
  judge_lem :
      (past : List ℕ) (i j : ℕ)
      → (fs : List Finding) × (judge t past i j ≡ some fs)
        × ((a b : ℕ) (p : List ℕ)
            → Memᴰ (empty_hours a b p) fs ↔ ((a ≡ i) × (b ≡ j) × (p ≡ past) × IsTypical t past))
  unfolding judge
  judge_lem past i j = elim (Bool-cases (leb t.min_hour_history (length past))) [
    | inr few ↦ rw few (
      [],
      refl,
      λ a b p. (
        λ m. elim m [ ],
        λ (ea, eb, ep, typical). absurd (ground (arith, few, typical_long t past typical)),
      ),
    )
    | inl enough ↦
        let long = leb→le t.min_hour_history (length past) enough in
        let (quiet, found) = get_elem?-some past (length past / 20) (omega arith) in
        elim (Bool-cases (leb t.hour_floor quiet)) [
          | inl high ↦
              rw (enough, found, high)
                (
                  empty_hours i j past ∷ [],
                  refl,
                  λ a b p. (
                    λ m.
                        let e = Memᴰ.eq_of_singleton m in
                        (
                          cc,
                          cc,
                          cc,
                          IsTypical-intro t past quiet long found (leb→le t.hour_floor quiet high),
                        ),
                    λ (ea, eb, ep, _). rw (ea, eb, ep) (Memᴰ.head refl),
                  ),
                )
          | inr low ↦
              rw (enough, found, low)
                (
                  [],
                  refl,
                  λ a b p. (
                    λ m. elim m [ ],
                    λ (ea, eb, ep, typical).
                        absurd (ground (arith, low, quiet_floor t past quiet found typical)),
                  ),
                )
        ]
  ]

  module _ (counts : Dict ℕ ℕ) (first last : ℕ) where
    -- An empty hour at `i` begins a run.
    unfoldable pub IsFresh : ℕ → Type 0
    IsFresh i =
        i ≤ last
        → populated counts i ≡ false
        → (h : ℕ) → suc h ≡ i
        → first ≤ h
        → populated counts h ≡ true

    -- The findings are those of the runs that start at `i` or later.
    unfoldable pub ReportsFrom : ℕ → List Finding → Type 0
    ReportsFrom i fs =
        (a b : ℕ) (past : List ℕ)
        → Memᴰ (empty_hours a b past) fs ↔ (
            (i ≤ a)
            × IsEmptyRun counts first last a b
            × (past ≡ past_of counts first t.hour_history a)
            × IsTypical t past)

    ReportsFrom-skip :
        (i : ℕ) (fs : List Finding)
        → populated counts i ≡ true
        → ReportsFrom (suc i) fs
        → ReportsFrom i fs
    unfolding ReportsFrom
    ReportsFrom-skip i fs busy reports a b past =
        let (there, back) = reports a b past in
        (
          λ m. let (low, run, ep, typical) = there m in (omega arith, run, ep, typical),
          λ (low, run, ep, typical). elim (Bool-cases (ltb i a)) [
            | inl later ↦ back (ltb→lt i a later, run, ep, typical)
            | inr same ↦
                let e : a ≡ i = ground (arith, same) in
                let idle = run.empty a (omega arith) run.in_order in
                let busy_a : populated counts a ≡ true = rw e busy in absurd (cc)
          ],
        )

    ReportsFrom-run :
        (i j : ℕ) (fs gs : List Finding)
        → IsEmptyRun counts first last i j
        → ((a b : ℕ) (p : List ℕ)
            → Memᴰ (empty_hours a b p) fs ↔ (
                (a ≡ i)
                × (b ≡ j)
                × (p ≡ past_of counts first t.hour_history i)
                × IsTypical t (past_of counts first t.hour_history i)))
        → ReportsFrom (suc j) gs
        → ReportsFrom i (fs ++ gs)
    unfolding ReportsFrom
    ReportsFrom-run i j fs gs run judged reports a b past =
        let (there, back) = reports a b past in
        let (now, of_now) = judged a b past in
        (
          λ m. elim (Memᴰ.append_cases fs m) [
            | inl here ↦
                let (ea, eb, ep, typical) = now here in
                (omega arith, rw (ea, eb) run, rw ea ep, rw ep typical)
            | inr later ↦
                let (low, other, ep, typical) = there later in
                (omega (arith, run.in_order), other, ep, typical)
          ],
          λ (low, other, ep, typical). elim (Bool-cases (leb a j)) [
            | inl inside ↦
                let ea : a ≡ i = overlap_start i j a b run other low (leb→le a j inside) in
                let eb : b ≡ j = overlap_end i j b run (rw ea at other) in
                let ep' : past ≡ past_of counts first t.hour_history i = rw ea at ep in
                Memᴰ.append_left gs (of_now (ea, eb, ep', rw ep' at typical))
            | inr beyond ↦ Memᴰ.append_right fs (back (ground (arith, beyond), other, ep, typical))
          ],
        )

    empty_run :
        (i : ℕ)
        → i ≤ last
        → first ≤ i
        → populated counts i ≡ false
        → IsFresh i
        → IsEmptyRun counts first last i (run_end counts last (suc last - i) i)
    unfolding IsFresh
    empty_run i below from idle fresh =
        let (low, high, all_empty, then_busy) =
          run_end_lem counts last (suc last - i) i below (omega arith) idle in
        record {
          from_first = from;
          in_order = low;
          to_last = high;
          empty = all_empty;
          starts = fresh below idle;
          ends = then_busy;
        }

    pub scan_lem :
        (fuel i : ℕ)
        → suc last < fuel + i
        → i ≤ suc last
        → first ≤ i
        → IsFresh i
        → (fs : List Finding) × (scan t counts first last fuel i ≡ some fs) × ReportsFrom i fs
    unfolding scan IsFresh ReportsFrom
    scan_lem zero i enough inside from fresh = absurd (omega arith)
    scan_lem (suc fuel) i enough inside from fresh = elim (Bool-cases (leb i last)) [
      | inr done ↦
          rw (done, scan)
            (
              [],
              refl,
              λ a b past. (
                λ m. elim m [ ],
                λ (low, run, ep, typical). absurd (ground (arith, done, run.in_order, run.to_last)),
              ),
            )
      | inl more ↦ elim (Bool-cases (populated counts i)) [
        | inl busy ↦
            let below : i ≤ last = leb→le i last more in
            let (fs, e, reports) =
              scan_lem fuel (suc i) (omega arith) (omega arith) (omega arith)
                (λ _ _ h next _. let eh : h ≡ i = omega arith in rw eh busy) in
            rw (more, busy, scan) (fs, e, ReportsFrom-skip i fs busy reports)
        | inr idle ↦
            let j : ℕ = run_end counts last (suc last - i) i in
            let run : IsEmptyRun counts first last i j =
              empty_run i (leb→le i last more) from idle fresh in
            let (fs, e, judged) = judge_lem (past_of counts first t.hour_history i) i j in
            let (gs, e', reports) =
              scan_lem fuel (suc j) (omega (arith, run.in_order)) (omega (arith, run.to_last))
                (omega (arith, run.in_order))
                (λ more' free h next _. let busy = run.ends more' in absurd (cc)) in
            rw (more, idle, scan, e, e')
              (fs ++ gs, refl, ReportsFrom-run i j fs gs run judged reports)
      ]
    ]
