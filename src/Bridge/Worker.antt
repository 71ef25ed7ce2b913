-- ===== src/Bridge/Worker.antt =====
-- bridge/worker.py: one batch, and the loop of `run(once=True)`. The enricher is the argument
-- `enrich`; an exception that it raises is `err` with its message. `db_error` is the text of a
-- database error.
pub mod Drain
pub mod Poison
mod Witnesses
use mirage_core.Shared.{
  ℕ, zero, suc, ◌+◌, String, Bool, true, false, Option, none, some, List, [], ◌∷◌, if◌then◌else◌,
}
use mirage_core.Bridge.Db.{
  SessionRow, EnrichmentResult, Conn, write_enrichment, mark_failed, rollback, fetch_pending,
}

pub data Outcome (R : Type 0) : Type 0 where
  ok : R → Outcome R
  err : String → Outcome R

-- How a call of `run(once=True)` ends, with the connection and the number of sessions enriched.
-- `stuck` is fuel that ran out; `crashed` is an error of `fetch_pending`, which nothing catches.
pub data Run (C : Type 0) : Type 0 where
  drained : C → ℕ → Run C
  crashed : C → ℕ → Run C
  stuck : C → ℕ → Run C

module _ {Doc Float Json : Type 0} (enrich : Doc → Outcome (EnrichmentResult Doc Float Json))
    (db_error : String) where
  -- The `except` branch; an error of `mark_failed` is only printed.
  on_error : String → String → Conn Doc Float Json → ℕ × Conn Doc Float Json
  on_error id message c = let (marked, c') = mark_failed id message (rollback c) in (0, c')

  process_outcome :
      String
      → Outcome (EnrichmentResult Doc Float Json)
      → Conn Doc Float Json
      → ℕ × Conn Doc Float Json
  unfolding on_error
  process_outcome id (err message) c = on_error id message c
  process_outcome id (ok result) c =
      let (wrote, c') = write_enrichment result c in
      if wrote then (1, c') else on_error id db_error c'

  -- The body of the loop of `_process_batch`: how many sessions it wrote.
  pub process_one : SessionRow Doc Float Json → Conn Doc Float Json → ℕ × Conn Doc Float Json
  unfolding process_outcome
  process_one row c = process_outcome row.session_id (enrich row.session_document) c

  pub process_batch :
      List (SessionRow Doc Float Json) → Conn Doc Float Json → ℕ × Conn Doc Float Json
  unfolding process_one
  process_batch [] c = (0, c)
  process_batch (row ∷ batch) c =
      let (wrote, c') = process_one row c in
      let (more, c'') = process_batch batch c' in (wrote + more, c'')

  module _ (batch_size : ℕ) (require_finished : Bool) where
    next_pass :
        (ℕ → Conn Doc Float Json → Run (Conn Doc Float Json))
        → ℕ
        → Option (List (SessionRow Doc Float Json))
        → Conn Doc Float Json
        → Run (Conn Doc Float Json)
    unfolding process_batch
    next_pass again total none c = Run.crashed c total
    next_pass again total (some []) c = Run.drained c total
    next_pass again total (some (row ∷ batch)) c =
        let (wrote, c') = process_batch (row ∷ batch) c in again (total + wrote) c'

    -- The `while` loop with `once`, with no shutdown signal.
    pub run_once : ℕ → ℕ → Conn Doc Float Json → Run (Conn Doc Float Json)
    unfolding next_pass
    run_once zero total c = Run.stuck c total
    run_once (suc fuel) total c =
        let (batch, c') = fetch_pending batch_size require_finished c in
        next_pass (run_once fuel) total batch c'
