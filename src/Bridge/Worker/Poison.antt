-- ===== src/Bridge/Worker/Poison.antt =====
-- bridge/worker.py: what `_process_batch` does to the session after one that could not be marked as
-- failed.
use mirage_core.Shared.{◌≡◌, refl, ap, ◌∙◌, arith, String, Bool, true, false, List, [], ◌∷◌, ◌++◌}
use mirage_core.Bridge.Db.{
  SessionRow, Database, next_fault, later_faults, EnrichmentResult, Conn, execute, settle, commit,
  rollback, finish, then_execute, update_rows, set_failed, failure_summary, write_enrichment,
  mark_failed,
}
use mirage_core.Bridge.Worker.{
  Outcome, ok, err, on_error, process_outcome, process_one, process_batch,
}

module _ {Doc Float Json : Type 0} (enrich : Doc → Outcome (EnrichmentResult Doc Float Json))
    (db_error : String) where
  -- An aborted transaction over what is committed, with the faults that are still to come.
  abbrev stuck : Conn Doc Float Json → List Bool → Conn Doc Float Json
  stuck c fs = record {
    committed = c.committed;
    working = c.committed;
    aborted = true;
    faults = fs;
  }

  -- What is committed, but for a session that is marked as failed with a database error.
  abbrev pub blamed : SessionRow Doc Float Json → Database Doc Float Json → Database Doc Float Json
  blamed good db = record db {
    sessions = update_rows (set_failed (failure_summary db_error)) good.session_id db.sessions;
  }

  -- A new transaction over these data.
  abbrev pub fresh : Database Doc Float Json → List Bool → Conn Doc Float Json
  fresh db fs = record { committed = db; working = db; aborted = false; faults = fs }

  process_one-unmarked :
      (bad : SessionRow Doc Float Json) (message : String) (c : Conn Doc Float Json)
      (fs : List Bool)
      → enrich bad.session_document ≡ err message
      → c.faults ≡ true ∷ fs
      → process_one enrich db_error bad c ≡ (0, stuck c fs)
  unfolding process_one process_outcome on_error mark_failed finish execute rollback
  process_one-unmarked bad message c fs e f = rw (e, f) refl

  process_one-aborted :
      (good : SessionRow Doc Float Json) (r : EnrichmentResult Doc Float Json)
      (c : Conn Doc Float Json) (fs : List Bool)
      → enrich good.session_document ≡ ok r
      → next_fault fs ≡ false
      → process_one enrich db_error good (stuck c fs)
        ≡ (0, fresh (blamed good c.committed) (later_faults fs))
  unfolding process_one process_outcome on_error write_enrichment then_execute mark_failed finish
      execute settle rollback commit
  process_one-aborted good r c fs e f = rw (e, f) refl

  process_batch-skip :
      (row : SessionRow Doc Float Json) (batch : List (SessionRow Doc Float Json))
      (c c' : Conn Doc Float Json)
      → process_one enrich db_error row c ≡ (0, c')
      → process_batch enrich db_error (row ∷ batch) c ≡ process_batch enrich db_error batch c'
  unfolding process_batch
  process_batch-skip row batch c c' e =
      rw (e, process_batch)
        (ap (λ n. (n, (process_batch enrich db_error batch c').1)) (omega arith))

  -- The enrichment of each of these sessions raises.
  abbrev pub Raises : List (SessionRow Doc Float Json) → Type 0
  Raises [] = Unit
  Raises (row ∷ rows) =
      ((message : String) × (enrich row.session_document ≡ err message)) × Raises rows

  -- The server fails one statement for each of these sessions, and then those that are listed.
  abbrev pub fail_each : List (SessionRow Doc Float Json) → List Bool → List Bool
  fail_each [] fs = fs
  fail_each (_ ∷ rows) fs = true ∷ fail_each rows fs

  process_batch-unmarked :
      (bad : SessionRow Doc Float Json) (bads rest : List (SessionRow Doc Float Json))
      (c : Conn Doc Float Json) (fs : List Bool)
      → Raises (bad ∷ bads)
      → c.faults ≡ fail_each (bad ∷ bads) fs
      → process_batch enrich db_error ((bad ∷ bads) ++ rest) c
        ≡ process_batch enrich db_error rest (stuck c fs)
  process_batch-unmarked bad [] rest c fs ((message, b), _) f =
      process_batch-skip bad rest c (stuck c fs) (process_one-unmarked bad message c fs b f)
  process_batch-unmarked bad (next ∷ bads) rest c fs ((message, b), raise) f =
      let later = fail_each (next ∷ bads) fs in
      process_batch-skip bad ((next ∷ bads) ++ rest) c (stuck c later)
        (process_one-unmarked bad message c later b f)
      ∙ process_batch-unmarked next bads rest (stuck c later) fs raise refl

  -- Where the enrichments of the first sessions of a batch raise, at least one, and the server fails
  -- each statement that marks them but not the one after these, the next session, whose enrichment
  -- succeeds, is not counted and gets the class "error", with the text of a database error that is
  -- not its own. The batch then goes on with the rest in a new transaction, over committed data in
  -- which nothing but that has changed: no embedding is stored and no session before it is marked.
  pub process_batch-poisoned :
      (bad : SessionRow Doc Float Json) (bads : List (SessionRow Doc Float Json))
      (good : SessionRow Doc Float Json) (r : EnrichmentResult Doc Float Json)
      (rest : List (SessionRow Doc Float Json)) (c : Conn Doc Float Json) (later : List Bool)
      → Raises (bad ∷ bads)
      → enrich good.session_document ≡ ok r
      → c.faults ≡ fail_each (bad ∷ bads) later
      → next_fault later ≡ false
      → process_batch enrich db_error ((bad ∷ bads) ++ good ∷ rest) c
        ≡ process_batch enrich db_error rest (fresh (blamed good c.committed) (later_faults later))
  process_batch-poisoned bad bads good r rest c later raise g f calm =
      process_batch-unmarked bad bads (good ∷ rest) c later raise f
      ∙ process_batch-skip good rest (stuck c later)
          (fresh (blamed good c.committed) (later_faults later))
          (process_one-aborted good r c later g calm)
