-- ===== src/Bridge/Db/Pending.antt =====
-- bridge/db.py: the pending sessions, and what an update by key does to their number.
use mathlib.Core.List.{Memᴰ}
use mirage_core.Shared.{
  ℕ, ◌≤◌, ◌<◌, ◌≡◌, ap, String, Bool, true, false, List, [], ◌∷◌, string_eq, ==_iff, arith, length,
  length-take, length-keep, mem-take, mem-keep, count, keep,
}
use mirage_core.Shared.Sorting.{sort_by, length-sort_by, mem-sort_by}
use mirage_core.Bridge.Db.{
  SessionRow, update_rows, is_null, is_pending, select_pending, starts_no_later,
}

module _ {Doc Float Json : Type 0} where
  -- An update that fills in the class and leaves the key and the document alone.
  pub record Classifies (f : SessionRow Doc Float Json → SessionRow Doc Float Json) : Type 0 where
    pub filled : (row : SessionRow Doc Float Json) → is_null (f row).attacker_class ≡ false
    pub same_id : (row : SessionRow Doc Float Json) → (f row).session_id ≡ row.session_id
    pub same_document :
        (row : SessionRow Doc Float Json) → (f row).session_document ≡ row.session_document

  module _ (req : Bool) where
    -- How many sessions wait for enrichment.
    abbrev pub pending_count : List (SessionRow Doc Float Json) → ℕ
    pending_count rows = count (is_pending req) rows

    filled-not_pending :
        (row : SessionRow Doc Float Json)
        → is_null row.attacker_class ≡ false
        → is_pending req row ≡ false
    unfolding is_pending
    filled-not_pending row h = rw h

    module _ (f : SessionRow Doc Float Json → SessionRow Doc Float Json) (fills : Classifies f)
        (id : String) where
      pub pending_count-update_rows-le :
          (rows : List (SessionRow Doc Float Json))
          → pending_count (update_rows f id rows) ≤ pending_count rows
      unfolding update_rows
      pending_count-update_rows-le [] = omega arith
      pending_count-update_rows-le (row ∷ rows) =
          ground (
            arith,
            pending_count-update_rows-le rows,
            filled-not_pending (f row) (fills.filled row),
          )

      pub pending_count-update_rows-lt :
          {row : SessionRow Doc Float Json} {rows : List (SessionRow Doc Float Json)}
          → Memᴰ row rows
          → row.session_id ≡ id
          → is_pending req row ≡ true
          → pending_count (update_rows f id rows) < pending_count rows
      unfolding update_rows
      pending_count-update_rows-lt {rows = x ∷ xs} (Memᴰ.head e) same waits = ground (
        arith,
        pending_count-update_rows-le xs,
        filled-not_pending (f x) (fills.filled x),
        ==_iff x.session_id id,
        ap (λ (r : SessionRow Doc Float Json). r.session_id) e,
        ap (is_pending req) e,
      )
      pending_count-update_rows-lt {rows = x ∷ xs} (Memᴰ.tail m) same waits = ground (
        arith,
        pending_count-update_rows-lt m same waits,
        filled-not_pending (f x) (fills.filled x),
      )
      pending_count-update_rows-lt {rows = []} m same waits = elim m [ ]

    -- A fetch selects pending sessions of the table.
    pub select_pending-mem :
        (batch_size : ℕ) (rows : List (SessionRow Doc Float Json)) {row : SessionRow Doc Float Json}
        → Memᴰ row (select_pending batch_size req rows)
        → Memᴰ row rows × (is_pending req row ≡ true)
    unfolding select_pending
    select_pending-mem batch_size rows m =
        mem-keep (is_pending req) rows (mem-sort_by starts_no_later _ (mem-take batch_size _ m))

    -- A fetch is empty only when no session is pending.
    pub select_pending-nil :
        (batch_size : ℕ) (rows : List (SessionRow Doc Float Json))
        → 0 < batch_size
        → select_pending batch_size req rows ≡ []
        → pending_count rows ≡ 0
    unfolding select_pending
    select_pending-nil batch_size rows pos e =
        let kept = keep (is_pending req) rows in
        let n = ap length e in
        omega (
          arith,
          length-take batch_size (sort_by starts_no_later kept),
          length-sort_by starts_no_later kept,
          length-keep (is_pending req) rows,
        )
