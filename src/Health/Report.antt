-- ===== src/Health/Report.antt =====
-- scripts/daily_health_check.py: `main`, from the loaded rows to the report and the exit status.
pub mod Always
pub mod Kept
pub mod Status
use Prim.Native.String.{◌++◌ as str_append}
use mirage_core.Shared.{
  ℕ, suc, ◌+◌, ◌-◌, Bool, true, false, not, ◌||◌, Option, none, some, String, List, [], ◌∷◌, ◌++◌,
  map, keep, ltb, leb, if◌then◌else◌, nat_eq,
}
use mirage_core.Shared.Grouping.{group_by}
use mirage_core.Shared.Sorting.{sort_by}
use mirage_core.Health.{
  Rates, Thresholds, Finding, heartbeat_stale, check_failed, accept_list_missing, date_of,
}
use mirage_core.Health.Hours.{greatest, check_hour_coverage}
use mirage_core.Health.Beats.{check_heartbeats}
use mirage_core.Health.Volume.{Row, evaluate}
use mirage_core.Health.Pairs.{parse_accept_list, check_accepted_pairs}
use mirage_core.Health.Builds.{check_builds}

-- What a loader gave: it was not asked, it failed, or it has rows.
pub data Loaded (A : Type 0) : Type 0 where
  not_asked : Loaded A
  failed : Loaded A
  loaded : A → Loaded A

pub record AcceptedRow : Type 0 where
  pub date : ℕ
  pub username : String
  pub credential : String

-- The options and the inputs that they select. A file that cannot be read is `none`.
pub record Inputs : Type 0 where
  pub rows : List Row
  pub from_csv : Bool
  pub today : ℕ
  pub now : Option ℕ
  pub accepted : Loaded (List AcceptedRow)
  pub accept_lists : List (Option (List String))
  pub heartbeats : Loaded (List (String × ℕ))
  pub hours : Loaded (List (ℕ × ℕ))
  pub check_the_builds : Bool
  pub builds : Loaded (List (ℕ × String × ℕ))
  pub report_all : Bool
  pub report_days : ℕ

-- `findings`, and `always`: those that are reported whatever their day
pub record Found : Type 0 where
  pub findings : List Finding
  pub always : List Finding

unfoldable pub add_findings : List Finding → Found → Found
add_findings fs found = record found { findings = found.findings ++ fs }

unfoldable pub add_always : List Finding → Found → Found
add_always fs found = record found { always = found.always ++ fs }

-- `_guarded`: the rows, if there are any, and the findings after the load
unfoldable pub guarded : {A : Type 0} → String → ℕ → Loaded A → Found → Option A × Found
guarded name today not_asked found = (none, found)
guarded name today failed found = (none, add_always (check_failed today name ∷ []) found)
guarded name today (loaded rows) found = (some rows, found)

unfoldable pub is_stale : Finding → Bool
is_stale (heartbeat_stale s last now) = true
is_stale _ = false

-- `_accept_list`, of the files' lines
unfoldable pub accept_list : (String → String) → List (Option (List String)) → Option (List String)
accept_list strip [] = some []
accept_list strip (none ∷ files) = none
accept_list strip (some lines ∷ files) = elim (accept_list strip files) [
  | none ↦ none
  | some listed ↦ some (parse_accept_list strip lines ++ listed)
]

abbrev pub pair_of : AcceptedRow → String
pair_of r = str_append r.username (str_append ":" r.credential)

unfoldable pub check_pairs : (String → String) → Inputs → Found → Found
check_pairs strip i found =
    let (rows, found') = guarded "accepted-pairs check" i.today i.accepted found in
    elim rows [
      | none ↦ found'
      | some accepted ↦ elim (accept_list strip i.accept_lists) [
        | none ↦ add_always (accept_list_missing i.today ∷ []) found'
        | some allowed ↦
            add_findings
              (check_accepted_pairs (group_by (λ (r : AcceptedRow). r.date) pair_of [] accepted)
                allowed)
              found'
      ]
    ]

unfoldable pub check_stamps : Inputs → Found → Found
check_stamps i found =
    if i.check_the_builds
    then (let (rows, found') = guarded "build check" i.today i.builds found in
        elim rows [ none ↦ found' | some builds ↦ add_findings (check_builds builds) found' ])
    else found

-- `rows`, of the database without the present day
unfoldable pub complete_rows : Inputs → List Row
complete_rows i = if i.from_csv then i.rows else keep (λ (r : Row). ltb r.date i.today) i.rows

-- The day of the report window that is furthest back, if there is a window.
unfoldable pub cutoff_of : Inputs → List Row → Option ℕ
cutoff_of i [] = none
cutoff_of i (r ∷ rows) =
    if i.report_all
    then none
    else some (suc (greatest r.date (map (λ (q : Row). q.date) rows)) - i.report_days)

abbrev pub recent : Option ℕ → Finding → Bool
recent none f = true
recent (some cutoff) f = leb cutoff (date_of f)

abbrev pub by_date : Finding → Finding → Bool
by_date f g = leb (date_of f) (date_of g)

module _ {fl : Rates} (t : Thresholds fl) where
  unfoldable pub check_beats : Inputs → Found → Found
  check_beats i found =
      let (rows, found') = guarded "heartbeat check" i.today i.heartbeats found in
      elim rows [
        | none ↦ found'
        | some beats ↦
            let hb = check_heartbeats beats i.now t in
            add_always (keep is_stale hb) (add_findings (keep (λ f. not (is_stale f)) hb) found')
      ]

  -- `none` is the index error of `check_hour_coverage`.
  unfoldable pub check_hours : Inputs → Found → Option Found
  check_hours i found =
      let (rows, found') = guarded "hour-coverage check" i.today i.hours found in
      elim rows [
        | none ↦ some found'
        | some hours ↦ elim (check_hour_coverage t hours i.now) [
          | none ↦ none
          | some fs ↦ some (add_findings fs found')
        ]
      ]

  unfoldable pub all_checks : (String → String) → Inputs → Option Found
  all_checks strip i =
      let start : Found = record { findings = evaluate t (complete_rows i); always = [] } in
      elim (check_hours i (check_beats i (check_pairs strip i start))) [
        | none ↦ none
        | some found ↦ some (check_stamps i found)
      ]

  -- The printed findings and the exit status.
  unfoldable pub main : (String → String) → Inputs → Option (List Finding × ℕ)
  main strip i = elim (all_checks strip i) [
    | none ↦ none
    | some found ↦
        let shown =
          sort_by by_date
            (keep (recent (cutoff_of i (complete_rows i))) found.findings ++ found.always) in
        some (shown, elim shown [ [] ↦ 0 | f ∷ fs ↦ 1 ])
  ]
